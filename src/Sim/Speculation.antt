-- ===== src/Sim/Speculation.antt =====
-- One round of speculation (`spec_round` in pimkv/sim.py). What the random generator gives is an
-- argument: the outcomes of the acceptance tests, and the branch `w` that wins.
pub mod Bounds
pub mod Adoption
use chip_hackathon_f.Prelude.{
  ℕ, zero, suc, ◌+◌, ◌-◌, ◌*◌, ◌%◌, min, Bool, true, false, not, Option, none, some, List, [], ◌∷◌,
  arith, ltb, leb, nat_beq, nat_eq, if◌then◌else◌, length, ceil_div,
}
use chip_hackathon_f.Exec.{Exec, Result, ok, err, pure, ◌>>=◌, ◌>>◌, continue}
use chip_hackathon_f.Alloc.{seq}
use chip_hackathon_f.Sim.{
  Operations, SpecParams, Adopt, splice, copyback, SeqState, Config, Sim, lift, modify, ask,
  accepted, advance, ensure_free, decode_need,
}

-- The tokens that a round commits: the surviving drafts and the bonus token, at most what is left.
unfoldable pub advance_by : SpecParams → List Bool → SeqState → ℕ
unfolding accepted
advance_by spec draws st = min (accepted spec.depth draws + 1) (st.total_len - st.tokens)

-- The blocks of a branch, and those of them that the adopted branch keeps.
unfoldable pub branch_blocks : ℕ → ℕ → ℕ → ℕ
branch_blocks r depth bt =
    if nat_beq r 0 then ceil_div (depth + 1) bt else ceil_div (r + (depth + 1)) bt

unfoldable pub kept_blocks : ℕ → ℕ → ℕ → ℕ
kept_blocks r adv bt = if nat_beq r 0 then ceil_div adv bt else ceil_div (r + adv) bt

unfoldable pub growth : ℕ → ℕ → ℕ → ℕ
growth tokens adv bt = ceil_div (tokens + adv) bt - ceil_div tokens bt

module _ {S : Type 0} (ops : Operations S) (cfg : Config) where
  unfoldable pub append_many : ℕ → SeqState → Exec (Sim S) (Unit {0})
  append_many zero st = pure tt
  append_many (suc n) st = do lift (ops.append_block (seq st.rid)); append_many n st

  unfoldable pub draw_branches : ℕ → ℕ → SeqState → Exec (Sim S) (List (List ℕ))
  draw_branches zero n st = pure []
  draw_branches (suc w) n st = do
    br ← lift (ops.alloc_scratch (seq st.rid) n)
    brs ← draw_branches w n st
    pure (br ∷ brs)

  unfoldable pub free_branches : List (List ℕ) → Exec (Sim S) (Unit {0})
  free_branches [] = pure tt
  free_branches (br ∷ brs) = do lift (ops.unref_blocks br); free_branches brs

  abbrev copy_tokens : ℕ → Exec (Sim S) (Unit {0})
  copy_tokens n = modify λ s. record s { copied_tokens = s.copied_tokens + n }

  -- The contiguous oracle: the accepted tokens are copied into the span.
  abbrev persistent_if : Bool → ℕ → ℕ → SeqState → Exec (Sim S) (Unit {0})
  persistent_if false grow adv st = pure tt
  persistent_if true grow adv st = do append_many grow st; copy_tokens adv; advance st adv

  abbrev persistent : ℕ → ℕ → SeqState → Exec (Sim S) (Unit {0})
  persistent grow adv st = do room ← ensure_free ops cfg st.rid grow; persistent_if room grow adv st

  -- The pool is too tight for the branches: one token is decoded as usual.
  abbrev degrade : SeqState → Exec (Sim S) (Unit {0})
  degrade st = do
    modify λ s. record s { spec_stalls = s.spec_stalls + 1 }
    table ← lift (ops.get_table (seq st.rid))
    decode_need ops cfg (ltb (length table * cfg.block_tokens) (st.tokens + 1)) st

  abbrev copyback_if : Bool → ℕ → ℕ → List (List ℕ) → SeqState → Exec (Sim S) (Unit {0})
  copyback_if false grow adv branches st = free_branches branches
  copyback_if true grow adv branches st = do
    append_many grow st
    copy_tokens adv
    free_branches branches
    advance st adv

  abbrev room_to_grow : ℕ → SeqState → Exec (Sim S) Bool
  room_to_grow zero st = pure true
  room_to_grow (suc grow) st = ensure_free ops cfg st.rid (suc grow)

  abbrev adopt_by : Adopt → ℕ → ℕ → ℕ → List (List ℕ) → SeqState → Exec (Sim S) (Unit {0})
  adopt_by copyback w r adv branches st =
      let grow = growth st.tokens adv cfg.block_tokens in
      do room ← room_to_grow grow st; copyback_if room grow adv branches st
  adopt_by splice w r adv branches st = do
    lift (
        ops.spec_round_adopt (seq st.rid) (not (nat_beq r 0)) w (kept_blocks r adv cfg.block_tokens)
          branches)
    advance st adv

  abbrev branch_if : Bool → SpecParams → ℕ → ℕ → ℕ → SeqState → Exec (Sim S) (Unit {0})
  branch_if false spec w adv r st = degrade st
  branch_if true spec w adv r st = do
    branches ← draw_branches spec.width (branch_blocks r spec.depth cfg.block_tokens) st
    copy_tokens (spec.width * r)
    adopt_by spec.adopt w r adv branches st

  unfoldable pub spec_round : SpecParams → List Bool → ℕ → SeqState → Exec (Sim S) (Unit {0})
  unfolding advance_by branch_blocks kept_blocks growth append_many draw_branches free_branches
  spec_round spec draws w st =
      let adv = advance_by spec draws st in
      let r = st.tokens % cfg.block_tokens in
      elim ops.persistent_scratch [
        | true ↦ persistent (growth st.tokens adv cfg.block_tokens) adv st
        | false ↦ λ s.
            branch_if
              (leb (spec.width * branch_blocks r spec.depth cfg.block_tokens)
                (ops.num_free s.alloc))
              spec w adv r st s
      ]
