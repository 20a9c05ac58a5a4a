-- ===== src/Sim/Admission.antt =====
-- `try_admit` and the gates of admission (pimkv/sim.py).
use chip_hackathon_f.Prelude.{
  ℕ, zero, suc, ◌+◌, ◌-◌, ◌*◌, ◌/◌, Bool, true, false, ◌&&◌, Option, none, some, List, [], ◌∷◌, leb,
  nat_eq, length, ceil_div,
}
use chip_hackathon_f.Dict.{Dict, get, put}
use chip_hackathon_f.Exec.{Exec, pure, ◌>>=◌, ◌>>◌}
use chip_hackathon_f.Alloc.{seq, cache}
use chip_hackathon_f.Sim.{
  Operations, SpecParams, scratch_blocks, SeqState, oracle, vllm, Config, Sim, lift, modify, ask,
  attempt, AdmissionMode,
}

module _ {S : Type 0} (ops : Operations S) (cfg : Config) where
  abbrev pub scratch_per : Bool → Option SpecParams → ℕ
  scratch_per true (some spec) = scratch_blocks spec cfg.block_tokens * spec.width
  scratch_per _ _ = 0

  unfoldable pub scratch_per_seq : ℕ
  unfolding scratch_blocks
  scratch_per_seq = scratch_per ops.persistent_scratch cfg.spec

  -- `committed()` as two sums, what was promised and what was handed out: the difference may be
  -- negative.
  unfoldable pub committed_of : Dict ℕ SeqState → Exec (Sim S) (ℕ × ℕ)
  committed_of [] = pure (0, 0)
  committed_of ((k, st) ∷ d) = do
    table ← lift (ops.get_table (seq st.rid))
    rest ← committed_of d
    pure (st.total_blocks + rest.0, length table + length st.scratch + rest.1)

  unfoldable pub committed : Exec (Sim S) (ℕ × ℕ)
  committed s = committed_of s.active s

  -- The gate that a prefix must pass, and the gate that a sequence must pass after it.
  unfoldable pub prefix_fits : ℕ → ℕ → ℕ → Exec (Sim S) Bool
  prefix_fits n_shared total prompt_blocks = elim cfg.admission [
    | oracle ↦ do c ← committed; ask λ s. leb (n_shared + total + c.0) (ops.num_free s.alloc + c.1)
    | vllm ↦ ask λ s. leb (cfg.watermark_blocks + prompt_blocks) (ops.num_free s.alloc)
  ]

  abbrev pub fits_under : AdmissionMode → List ℕ → ℕ → ℕ → Exec (Sim S) Bool
  fits_under oracle shared total prompt_blocks = do
    c ← committed
    ask λ s. leb (total + c.0) (ops.num_free s.alloc + c.1 + length shared)
  fits_under vllm shared total prompt_blocks =
      ask λ s. leb (cfg.watermark_blocks + prompt_blocks) (ops.num_free s.alloc + length shared)

  unfoldable pub fits : List ℕ → ℕ → ℕ → Exec (Sim S) Bool
  fits = fits_under cfg.admission

  abbrev count_failure : Sim S → Sim S
  count_failure s = record s { frag_failures = s.frag_failures + 1 }

  -- The blocks of the pinned prefix; `none` where the prefix cannot be admitted now.
  abbrev pin : ℕ → Option (List ℕ) → Exec (Sim S) (Option (List ℕ))
  pin pid none = do modify count_failure; pure none
  pin pid (some blocks) = do
    modify λ s. record s { prefix_cache = put pid blocks s.prefix_cache }
    pure (some blocks)

  abbrev pin_if : Bool → ℕ → ℕ → Exec (Sim S) (Option (List ℕ))
  pin_if false pid n_shared = pure none
  pin_if true pid n_shared = do
    blocks ← attempt (lift (ops.admit (cache pid) n_shared n_shared))
    pin pid blocks

  abbrev cached : ℕ → ℕ → ℕ → ℕ → Option (List ℕ) → Exec (Sim S) (Option (List ℕ))
  cached pid n_shared total prompt_blocks (some blocks) = pure (some blocks)
  cached pid n_shared total prompt_blocks none = do
    room ← prefix_fits n_shared total prompt_blocks
    pin_if room pid n_shared

  abbrev shared_of : SeqState → ℕ → ℕ → Option ℕ → Exec (Sim S) (Option (List ℕ))
  shared_of st total prompt_blocks none = pure (some [])
  shared_of st total prompt_blocks (some pid) =
      elim (ops.supports_sharing && leb cfg.block_tokens st.prefix_len) [
        | true ↦ λ s.
            cached pid (st.prefix_len / cfg.block_tokens) total prompt_blocks
              (get pid s.prefix_cache) s
        | false ↦ pure (some [])
      ]

  -- A negative number of new blocks asks for none, as 0 does.
  abbrev place : SeqState → List ℕ → ℕ → ℕ → Exec S (List ℕ)
  place st [] total prompt_blocks = ops.admit (seq st.rid) prompt_blocks total
  place st (b ∷ bs) total prompt_blocks =
      ops.admit_shared (seq st.rid) (b ∷ bs) (prompt_blocks - length (b ∷ bs)) total

  abbrev take_region : SeqState → ℕ → Exec (Sim S) (List ℕ)
  take_region st zero = pure st.scratch
  take_region st (suc n) = lift (ops.take_scratch (seq st.rid) (suc n))

  abbrev start : SeqState → ℕ → Option (List ℕ) → Exec (Sim S) Bool
  start st total none = do modify count_failure; pure false
  start st total (some _) = do
    region ← take_region st scratch_per_seq
    modify λ s. record s {
      active = put st.rid (record st { total_blocks = total; scratch = region }) s.active;
    }
    pure true

  abbrev start_if : Bool → SeqState → List ℕ → ℕ → ℕ → Exec (Sim S) Bool
  start_if false st shared total prompt_blocks = pure false
  start_if true st shared total prompt_blocks = do
    placed ← attempt (lift (place st shared total prompt_blocks))
    start st total placed

  abbrev admit_with : SeqState → ℕ → ℕ → Option (List ℕ) → Exec (Sim S) Bool
  admit_with st total prompt_blocks none = pure false
  admit_with st total prompt_blocks (some shared) = do
    room ← fits shared total prompt_blocks
    start_if room st shared total prompt_blocks

  unfoldable pub try_admit : SeqState → Exec (Sim S) Bool
  unfolding scratch_per_seq prefix_fits fits committed committed_of
  try_admit st =
      let total = ceil_div st.total_len cfg.block_tokens + scratch_per_seq in
      let prompt_blocks = ceil_div st.tokens cfg.block_tokens in
      do
        shared ← shared_of st total prompt_blocks st.prefix_id
        admit_with st total prompt_blocks shared
