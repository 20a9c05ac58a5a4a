-- ===== src/Sim.antt =====
-- The continuous-batching simulator (pimkv/sim.py), over the operations of an allocator.
pub mod Admission
pub mod Batch
pub mod Contract
pub mod Preemption
pub mod Decoding
pub mod Base
pub mod Frames
pub mod Speculation
pub mod Loop
pub mod Passes
pub mod Oracle
pub mod Measure
pub mod Setup
pub mod Simulate
pub mod Sampling
pub mod Service
use chip_hackathon_f.Prelude.{
  ℕ, zero, suc, ◌+◌, ◌-◌, ◌*◌, ◌/◌, ◌%◌, ◌≡◌, min, max, Bool, true, false, not, ◌&&◌, ◌||◌, Option,
  none, some, List, [], ◌∷◌, ◌++◌, arith, ltb, leb, nat_beq, nat_eq, if◌then◌else◌, length, take,
  get_elem?, ceil_div,
}
use chip_hackathon_f.Dict.{Dict, get, put, erase}
use chip_hackathon_f.Exec.{
  Error, admission_failure, key_error, diverged, Result, ok, err, Exec, pure, raise, ◌>>=◌, ◌>>◌,
  continue,
}
use chip_hackathon_f.Alloc.{SeqId, seq, cache, fetch, is_some, pop_last}

-- What the simulator calls of a `KVAllocator`.
pub record Operations (S : Type 0) : Type 0 where
  pub num_blocks : S → ℕ
  pub num_free : S → ℕ
  pub num_live : S → ℕ
  pub supports_sharing : Bool
  pub persistent_scratch : Bool
  pub get_table : SeqId → Exec S (List ℕ)
  pub admit : SeqId → ℕ → ℕ → Exec S (List ℕ)
  pub admit_shared : SeqId → List ℕ → ℕ → ℕ → Exec S (List ℕ)
  pub append_block : SeqId → Exec S ℕ
  pub take_scratch : SeqId → ℕ → Exec S (List ℕ)
  pub alloc_scratch : SeqId → ℕ → Exec S (List ℕ)
  pub spec_round_adopt : SeqId → Bool → ℕ → ℕ → List (List ℕ) → Exec S (Unit {0})
  pub unref_blocks : List ℕ → Exec S (Unit {0})
  pub release : SeqId → Exec S (Unit {0})
  pub assert_conservation : Exec S (Unit {0})

pub data Adopt : Type 0 where
  splice copyback : Adopt

pub record SpecParams : Type 0 where
  pub width : ℕ
  pub depth : ℕ
  pub adopt : Adopt

unfoldable pub scratch_blocks : SpecParams → ℕ → ℕ
scratch_blocks spec block_tokens = ceil_div (block_tokens - 1 + spec.depth + 1) block_tokens

pub record SeqState : Type 0 where
  pub rid : ℕ
  pub tokens : ℕ
  pub total_len : ℕ
  pub total_blocks : ℕ
  pub scratch : List ℕ
  pub prefix_id : Option ℕ
  pub prefix_len : ℕ
  pub preempts : ℕ

pub record Request : Type 0 where
  pub rid : ℕ
  pub arrival_step : ℕ
  pub prompt_len : ℕ
  pub output_len : ℕ
  pub prefix_id : Option ℕ
  pub prefix_len : ℕ

pub data AdmissionMode : Type 0 where
  oracle vllm : AdmissionMode

abbrev pub is_oracle : AdmissionMode → Bool
is_oracle oracle = true
is_oracle vllm = false

-- The arguments of `simulate` that steer it; `watermark_blocks` is its rounded product.
pub record Config : Type 0 where
  pub block_tokens : ℕ
  pub max_batch : ℕ
  pub admission : AdmissionMode
  pub watermark_blocks : ℕ
  pub spec : Option SpecParams
  pub check_every : ℕ

-- The local variables of `simulate`; `arrivals` is `reqs[i:]`.
pub record Sim (S : Type 0) : Type 0 where
  pub alloc : S
  pub active : Dict ℕ SeqState
  pub prefix_cache : Dict ℕ (List ℕ)
  pub waiting : List SeqState
  pub arrivals : List Request
  pub t : ℕ
  pub completed : ℕ
  pub dropped : List ℕ
  pub frag_failures : ℕ
  pub decode_steps : ℕ
  pub spec_stalls : ℕ
  pub copied_tokens : ℕ
  pub peak_live : ℕ
  pub preemptions : ℕ
  pub self_preemptions : ℕ

-- A step of the allocator inside the simulation.
abbrev pub lift : {S A : Type 0} → Exec S A → Exec (Sim S) A
lift m s = ((m s.alloc).0, record s { alloc = (m s.alloc).1 })

abbrev pub modify : {S : Type 0} → (S → S) → Exec S (Unit {0})
modify f s = (ok tt, f s)

abbrev pub ask : {S A : Type 0} → (S → A) → Exec S A
ask f s = (ok (f s), s)

-- `try: ... except AdmissionFailure`: what was written before the raise stays.
abbrev caught : {S A : Type 0} → Result A × S → Result (Option A) × S
caught (ok a, s) = (ok (some a), s)
caught (err admission_failure, s) = (ok none, s)
caught (err e, s) = (err e, s)

abbrev pub attempt : {S A : Type 0} → Exec S A → Exec S (Option A)
attempt m s = caught (m s)

-- The ids of the other active sequences, in the order of admission.
unfoldable pub others : ℕ → Dict ℕ SeqState → List ℕ
others rid [] = []
others rid ((k, st) ∷ d) = elim (nat_beq k rid) [ true ↦ others rid d | false ↦ k ∷ others rid d ]

-- The drafts that survive: `draws` are the outcomes of `rng_spec.random() < spec.accept ** (k + 1)`.
unfoldable pub accepted : ℕ → List Bool → ℕ
accepted zero draws = 0
accepted (suc depth) [] = 0
accepted (suc depth) (false ∷ draws) = 0
accepted (suc depth) (true ∷ draws) = suc (accepted depth draws)

module _ {S : Type 0} where
  -- `s.length += n` on the object that `active` holds.
  abbrev pub advance : SeqState → ℕ → Exec (Sim S) (Unit {0})
  advance st n =
      modify λ s. record s { active = put st.rid (record st { tokens = st.tokens + n }) s.active }

  -- `active.pop(rid)`
  abbrev pub pop_active : ℕ → Exec (Sim S) SeqState
  pop_active rid = do
    st ← λ s. fetch (get rid s.active) s
    modify λ s. record s { active = erase rid s.active }
    pure st

module _ {S : Type 0} (ops : Operations S) (cfg : Config) where
  -- `if s.scratch: alloc.unref_blocks(s.scratch)`
  abbrev return_scratch : List ℕ → Exec (Sim S) (Unit {0})
  return_scratch [] = pure tt
  return_scratch (b ∷ bs) = lift (ops.unref_blocks (b ∷ bs))

  unfoldable pub preempt : ℕ → Exec (Sim S) (Unit {0})
  preempt rid = do
    st ← pop_active rid
    return_scratch st.scratch
    lift (ops.release (seq rid))
    modify λ s. record s {
      preemptions = s.preemptions + 1;
      waiting = record st { scratch = []; preempts = st.preempts + 1 } ∷ s.waiting;
    }

  -- The loop of `ensure_free`; each turn takes one sequence out of the batch.
  abbrev give_up : ℕ → Exec (Sim S) Bool
  give_up rid = do
    modify λ s. record s { self_preemptions = s.self_preemptions + 1 }
    preempt rid
    pure false

  unfoldable pub make_room : ℕ → ℕ → ℕ → Exec (Sim S) Bool
  unfolding others pop_last preempt
  make_room zero rid n s = (err diverged, s)
  make_room (suc fuel) rid n s = elim (leb n (ops.num_free s.alloc)) [
    | true ↦ (ok true, s)
    | false ↦ elim (pop_last (others rid s.active)) [
      | none ↦ give_up rid s
      | some (_, victim) ↦ continue (λ _. make_room fuel rid n) (preempt victim s)
    ]
  ]

  unfoldable pub ensure_free : ℕ → ℕ → Exec (Sim S) Bool
  unfolding make_room
  ensure_free rid n s =
      if is_oracle cfg.admission || leb n (ops.num_free s.alloc)
      then (ok true, s)
      else make_room (suc (length s.active)) rid n s

  abbrev append_if : Bool → SeqState → Exec (Sim S) (Unit {0})
  append_if false st = pure tt
  append_if true st = do b ← lift (ops.append_block (seq st.rid)); pure tt

  abbrev room_for : Bool → SeqState → Exec (Sim S) Bool
  room_for false st = pure true
  room_for true st = ensure_free st.rid 1

  abbrev decode_if : Bool → Bool → SeqState → Exec (Sim S) (Unit {0})
  decode_if false need st = pure tt
  decode_if true need st = do advance st 1; append_if need st

  abbrev decode_need : Bool → SeqState → Exec (Sim S) (Unit {0})
  decode_need need st = do room ← room_for need st; decode_if room need st

  -- One token: a block is appended where the table is full.
  unfoldable pub decode : SeqState → Exec (Sim S) (Unit {0})
  unfolding ensure_free
  decode st = do
    table ← lift (ops.get_table (seq st.rid))
    decode_need (ltb (length table * cfg.block_tokens) (st.tokens + 1)) st
