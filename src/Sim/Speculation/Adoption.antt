-- ===== src/Sim/Speculation/Adoption.antt =====
-- `spec_round_adopt` as `spec_round` calls it: the length of the table after the adoption.
use native.Mathlib.Nat.{mod-lt, div-add-mod}
use chip_hackathon_f.Prelude.{
  ℕ, ◌+◌, ◌-◌, ◌*◌, ◌/◌, ◌%◌, ◌≤◌, ◌<◌, ◌≡◌, refl, sym, ap, ◌∙◌, inl, inr, false, not, some, List,
  ◌++◌, arith, nat_beq, indicator, ceil_div, length, length-append, length-take, get_elem?, take,
  Bool-cases, Option-cases,
}
use mathlib.Core.List.{flatten}
use chip_hackathon_f.Dict.{get}
use chip_hackathon_f.Exec.{Returns, Returns-mono}
use chip_hackathon_f.Alloc.{
  SeqId, seq_id_eq, seq_id_beq, seq_id_beq_iff, Pool, Policy, pop_last, spec_round_adopt,
}
use chip_hackathon_f.Alloc.Invariant.{Lawful, Inv}
use chip_hackathon_f.Alloc.FreeList.{pop_last-length, pop_last-length-none}
use chip_hackathon_f.Alloc.Teardown.{Trimmed, spec_round_adopt-Returns}
use chip_hackathon_f.Sim.Speculation.{branch_blocks, kept_blocks}
use chip_hackathon_f.Sim.Speculation.Bounds.{ceil-add, ceil-zero, ceil-one, kept-le-branch}

-- What is left of a table and the kept blocks of the branch are the blocks that the new length needs.
length-kept :
    (tokens adv bt : ℕ)
    → 0 < bt
    → ceil_div tokens bt
        - indicator (not (nat_beq (tokens % bt) 0))
        + kept_blocks (tokens % bt) adv bt
      ≡ ceil_div (tokens + adv) bt
unfolding kept_blocks
length-kept tokens adv bt h =
    let q = tokens / bt in
    let r = tokens % bt in
    let split : bt * q + r ≡ tokens = div-add-mod tokens bt in
    let low : r < bt = mod-lt tokens h in
    let before : ceil_div tokens bt ≡ q + ceil_div r bt =
      ap (λ (t : ℕ). ceil_div t bt) (sym split) ∙ ceil-add q r bt h in
    let longer : tokens + adv ≡ bt * q + (r + adv) = omega (arith, split) in
    let after : ceil_div (tokens + adv) bt ≡ q + ceil_div (r + adv) bt =
      ap (λ (t : ℕ). ceil_div t bt) longer ∙ ceil-add q (r + adv) bt h in
    elim (Bool-cases (nat_beq r 0)) [
      | inl t ↦
          let zeros : r ≡ 0 = ground (arith, t) in
          let none_left : ceil_div r bt ≡ 0 =
            ap (λ (t : ℕ). ceil_div t bt) zeros ∙ ceil-zero bt h in
          let same : ceil_div (r + adv) bt ≡ ceil_div adv bt =
            let e : r + adv ≡ adv = omega (arith, zeros) in ap (λ (t : ℕ). ceil_div t bt) e in
          rw t (omega (arith, before, after, none_left, same))
      | inr t ↦
          let partial : ceil_div r bt ≡ 1 = ceil-one r bt (ground (arith, t)) low in
          rw t (omega (arith, before, after, partial))
    ]

module _ {P : Type 0} {policy : Policy P} {size : ℕ} (laws : Lawful policy size) where
  -- The tail is dropped where it is partial.
  trimmed :
      (tokens bt : ℕ) (table : List ℕ)
      → 0 < bt
      → length table ≡ ceil_div tokens bt
      → (rest : List ℕ) × Trimmed laws (not (nat_beq (tokens % bt) 0)) table rest
        × (length rest ≡ ceil_div tokens bt - indicator (not (nat_beq (tokens % bt) 0)))
  trimmed tokens bt table h long = elim (Bool-cases (nat_beq (tokens % bt) 0)) [
    | inl t ↦ rw t (table, refl, omega (arith, long))
    | inr t ↦ rw t (elim (Option-cases (pop_last table)) [
      | inl e ↦
          absurd (
            omega
              (arith, long, pop_last-length-none table e, some_block tokens (ground (arith, t))))
      | inr ((rest, b), e) ↦ (rest, (b, e), omega (arith, long, pop_last-length table rest b e))
    ])
  ]
    where
      some_block : (n : ℕ) → 0 < n % bt → 0 < ceil_div n bt
      some_block n p =
          let split : bt * (n / bt) + n % bt ≡ n = div-add-mod n bt in
          let one : ceil_div (n % bt) bt ≡ 1 = ceil-one (n % bt) bt p (mod-lt n h) in
          let e : ceil_div n bt ≡ n / bt + ceil_div (n % bt) bt =
            ap (λ (t : ℕ). ceil_div t bt) (sym split) ∙ ceil-add (n / bt) (n % bt) bt h in
          omega (arith, one, e)

  -- In a pool that satisfies the invariant, for a positive block size, where the table of the sequence
  -- is exactly as long as its tokens need, the caller holds the branches and the chosen one has the
  -- blocks that `spec_round` draws for it: `spec_round_adopt`, called as `spec_round` calls it for an
  -- advance of at most depth + 1 tokens (with the tail replaced where it is partial, and the kept blocks
  -- of that advance), returns. The table of the sequence then is exactly as long as the advanced tokens
  -- need, every other table is as it was, and the invariant holds without the branches.
  pub adoption_is_exact :
      (held : List ℕ) (k : SeqId) (w : ℕ) (branches : List (List ℕ)) (table chosen : List ℕ)
      (tokens adv depth bt : ℕ) (s : Pool P)
      → 0 < bt
      → adv ≤ depth + 1
      → Inv laws (flatten branches ++ held) s
      → get k s.tables ≡ some table
      → length table ≡ ceil_div tokens bt
      → get_elem? branches w ≡ some chosen
      → length chosen ≡ branch_blocks (tokens % bt) depth bt
      → Returns
          (λ _ t.
            Inv laws held t
            × ((new : List ℕ) × (get k t.tables ≡ some new)
                × (length new ≡ ceil_div (tokens + adv) bt))
            × ((j : SeqId) → seq_id_beq k j ≡ false → get j t.tables ≡ get j s.tables))
          (spec_round_adopt policy k
            (not (nat_beq (tokens % bt) 0))
            w
            (kept_blocks (tokens % bt) adv bt)
            branches
            s)
  adoption_is_exact held k w branches table chosen tokens adv depth bt s h small v e long c drawn =
      let keep = kept_blocks (tokens % bt) adv bt in
      let (rest, trim, left) = trimmed tokens bt table h long in
      let enough : keep ≤ length chosen =
        omega (arith, drawn, kept-le-branch depth adv (tokens % bt) bt h small) in
      let exact : length (rest ++ take keep chosen) ≡ ceil_div (tokens + adv) bt = omega (
        arith,
        left,
        enough,
        length-append rest (take keep chosen),
        length-take keep chosen,
        length-kept tokens adv bt h,
      ) in
      Returns-mono
        (spec_round_adopt-Returns laws (not (nat_beq (tokens % bt) 0)) held k w keep branches table
          rest chosen s v e c trim)
        λ _ t (inv, tables). (
          inv,
          (rest ++ take keep chosen, ground (arith, tables k, seq_id_beq_iff k k), exact),
          λ j other. ground (arith, tables j, other),
        )
