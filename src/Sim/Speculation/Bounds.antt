-- ===== src/Sim/Speculation/Bounds.antt =====
-- The sizes in a round of speculation.
use native.Mathlib.Nat.{mod-lt, add-mul-div_left, div-eq_of_lt, add-div_right}
use chip_hackathon_f.Prelude.{
  ℕ, zero, suc, ◌+◌, ◌-◌, ◌*◌, ◌/◌, ◌%◌, ◌≤◌, ◌<◌, ◌≡◌, ap, ◌∙◌, min, inl, inr, true, false, Bool,
  List, [], ◌∷◌, arith, nat_beq, ceil_div, Bool-cases,
}
use chip_hackathon_f.Sim.{SpecParams, SeqState, accepted, scratch_blocks}
use chip_hackathon_f.Sim.Speculation.{advance_by, branch_blocks, kept_blocks}

div_mono : (a b n : ℕ) → 0 < n → a ≤ b → a / n ≤ b / n
div_mono a b n h e = grind arith

pub ceil-add : (q y n : ℕ) → 0 < n → ceil_div (n * q + y) n ≡ q + ceil_div y n
ceil-add q y n h =
    let e : n * q + y + (n - 1) ≡ y + (n - 1) + n * q = omega arith in
    ap (λ (t : ℕ). t / n) e ∙ add-mul-div_left (y + (n - 1)) q h ∙ omega arith

pub ceil-zero : (n : ℕ) → 0 < n → ceil_div 0 n ≡ 0
ceil-zero n h = div-eq_of_lt (omega arith)

pub ceil-one : (r n : ℕ) → 0 < r → r < n → ceil_div r n ≡ 1
ceil-one r n h l =
    let e : r + (n - 1) ≡ r - 1 + n = omega (arith, h, l) in
    let small : (r - 1) / n ≡ 0 = div-eq_of_lt (omega (arith, h, l)) in
    ap (λ (t : ℕ). t / n) e ∙ add-div_right (r - 1) (omega (arith, l)) ∙ omega (arith, small)

accepted-le : (depth : ℕ) (draws : List Bool) → accepted depth draws ≤ depth
unfolding accepted
accepted-le zero draws = omega arith
accepted-le (suc depth) [] = omega arith
accepted-le (suc depth) (false ∷ draws) = omega arith
accepted-le (suc depth) (true ∷ draws) = omega (arith, accepted-le depth draws)

-- The adopted branch has the blocks that it keeps, for at most depth + 1 tokens.
pub kept-le-branch :
    (depth adv r bt : ℕ)
    → 0 < bt
    → adv ≤ depth + 1
    → kept_blocks r adv bt ≤ branch_blocks r depth bt
unfolding kept_blocks branch_blocks
kept-le-branch depth adv r bt h small = elim (Bool-cases (nat_beq r 0)) [
  | inl t ↦ rw t (div_mono (adv + (bt - 1)) (depth + 1 + (bt - 1)) bt h (omega (arith, small)))
  | inr t ↦
      rw t (div_mono (r + adv + (bt - 1)) (r + (depth + 1) + (bt - 1)) bt h (omega (arith, small)))
]

-- For a positive block size, a round commits at most depth + 1 tokens, never more than are left, and the adopted branch has the
-- blocks that it keeps.
pub advance_by_bounds :
    (spec : SpecParams) (draws : List Bool) (st : SeqState) (r bt : ℕ)
    → 0 < bt
    → (advance_by spec draws st ≤ spec.depth + 1)
      × (advance_by spec draws st ≤ st.total_len - st.tokens)
      × (kept_blocks r (advance_by spec draws st) bt ≤ branch_blocks r spec.depth bt)
unfolding advance_by kept_blocks branch_blocks
advance_by_bounds spec draws st r bt h =
    let few = accepted-le spec.depth draws in
    let adv = min (accepted spec.depth draws + 1) (st.total_len - st.tokens) in
    let small : adv ≤ spec.depth + 1 = omega (arith, few) in
    (small, omega arith, kept-le-branch spec.depth adv r bt h small)

-- For a positive block size, a branch never has more blocks than the worst case that `scratch_blocks` reserves for one.
pub branch-le-scratch :
    (spec : SpecParams) (tokens bt : ℕ)
    → 0 < bt
    → branch_blocks (tokens % bt) spec.depth bt ≤ scratch_blocks spec bt
unfolding branch_blocks scratch_blocks
branch-le-scratch spec tokens bt h =
    let r = tokens % bt in
    let low : r < bt = mod-lt tokens h in
    elim (Bool-cases (nat_beq r 0)) [
      | inl t ↦ rw t (
          div_mono (spec.depth + 1 + (bt - 1)) (bt - 1 + spec.depth + 1 + (bt - 1)) bt h
            (omega arith))
      | inr t ↦ rw t (
          div_mono (r + (spec.depth + 1) + (bt - 1)) (bt - 1 + spec.depth + 1 + (bt - 1)) bt h
            (omega (arith, low)))
    ]
