-- ===== src/Examples/Serving.antt =====
-- Two sequences of two blocks each, in a paged pool of four blocks, under vllm admission.
use chip_hackathon_f.Prelude.{
  ℕ, ◌+◌, ◌<◌, ◌≤◌, ◌≡◌, refl, subst, inl, inr, Bool, some, none, List, [], ◌∷◌, arith, nat_beq,
  nat_eq, count, Bool-cases, get_elem?, ◌*◌, ◌/◌, indicator, if◌then◌else◌, ltb,
}
use chip_hackathon_f.Dict.{Dict, get, put, weight}
use chip_hackathon_f.Exec.{ok, err, key_error, Returns, continue}
use chip_hackathon_f.Alloc.{
  SeqId, seq, seq_id_eq, Pool, new_pool, pop_last, alloc, alloc_many, admit, cache, scratch,
  seq_id_beq,
}
use chip_hackathon_f.Alloc.Invariant.{Inv}
use chip_hackathon_f.Alloc.Admission.{Admission, admitted, admit-Admission}
use chip_hackathon_f.Alloc.Paged.{policy, init, alloc_one, num_free, Lawful-paged, init_paged-Inv}
use chip_hackathon_f.Sim.{SeqState, Config, Sim, vllm, oracle, others, preempt, ensure_free, decode}
use chip_hackathon_f.Sim.Batch.{holds}
use chip_hackathon_f.Sim.Base.{operations, serves, Tidy}
use chip_hackathon_f.Sim.Contract.{Serves, Entry, Running}
use chip_hackathon_f.Sim.Preemption.{Preempted, preempt-Returns, Room, ensure_free-Room}
use chip_hackathon_f.Sim.Decoding.{Step, decode-Step}
use chip_hackathon_f.Sim.Loop.{decode_pass, finish}
use chip_hackathon_f.Sim.Passes.{Passed, decode_pass-Passed, finish-Returns, finish-raises}
use chip_hackathon_f.Geometry.{DramGeometry, ModelShape}
use chip_hackathon_f.Sim.Measure.{burst_address, burst_address-some}
use chip_hackathon_f.Sim.Oracle.{handed_out, Reserved, oracle_decode-Grown, Grown}
use chip_hackathon_f.Sim.Setup.{begin, initial, begin_in_range}

admission-Q :
    {n : ℕ} {k : SeqId} {s t : Pool (List ℕ)} {Q : List ℕ → Pool (List ℕ) → Type 0} {bs : List ℕ}
    → Admission (Lawful-paged 4) k n s Q (ok bs, t)
    → Q bs t
admission-Q (admitted _ _ q) = q

abbrev half_full : Pool (List ℕ)
half_full = (admit policy (seq 0) 2 3 (init 4)).1

abbrev full : Pool (List ℕ)
full = (admit policy (seq 1) 2 3 half_full).1

half_full-Inv : Inv (Lawful-paged 4) [] half_full
unfolding admit alloc_many alloc init new_pool alloc_one num_free pop_last get put
half_full-Inv =
    (admission-Q (admit-Admission (Lawful-paged 4) [] (seq 0) 2 3 (init 4) (init_paged-Inv 4))).inv

full-Inv : Inv (Lawful-paged 4) [] full
unfolding admit alloc_many alloc init new_pool alloc_one num_free pop_last get put
full-Inv =
    (admission-Q (admit-Admission (Lawful-paged 4) [] (seq 1) 2 3 half_full half_full-Inv)).inv

abbrev pub sequence : ℕ → ℕ → SeqState
sequence rid tokens = record {
  rid = rid;
  tokens = tokens;
  total_len = 6;
  total_blocks = 3;
  scratch = [];
  prefix_id = none;
  prefix_len = 0;
  preempts = 0;
}

abbrev pub config : Config
config = record {
  block_tokens = 2;
  max_batch = 8;
  admission = vllm;
  watermark_blocks = 0;
  spec = none;
  check_every = 64;
}

abbrev pub batch : Sim (Pool (List ℕ))
batch = record {
  alloc = full;
  active = (0, sequence 0 3) ∷ (1, sequence 1 4) ∷ [];
  prefix_cache = [];
  waiting = [];
  arrivals = [];
  t = 5;
  completed = 0;
  dropped = [];
  frag_failures = 0;
  decode_steps = 5;
  spec_stalls = 0;
  copied_tokens = 0;
  peak_live = 4;
  preemptions = 0;
  self_preemptions = 0;
}

abbrev pub paged : Serves (operations policy)
paged = serves (Lawful-paged 4)

entries_cons :
    (u : Pool (List ℕ)) (k : ℕ) (st : SeqState) (d : Dict ℕ SeqState)
    → Entry paged 2 u k st
    → ((rid : ℕ) (sj : SeqState) → get rid d ≡ some sj → Entry paged 2 u rid sj)
    → (rid : ℕ) (sj : SeqState) → get rid ((k, st) ∷ d) ≡ some sj
    → Entry paged 2 u rid sj
unfolding get
entries_cons u k st d here there rid sj e = elim (Bool-cases (nat_beq k rid)) [
  | inl t ↦
      let state : st ≡ sj = ground (arith, t, e) in
      let id : k ≡ rid = ground (arith, t) in
      subst (λ j. Entry paged 2 u j sj) id (subst (λ z. Entry paged 2 u k z) state here)
  | inr t ↦ there rid sj (ground (arith, t, e))
]

full-Tidy : Tidy (Lawful-paged 4) full
unfolding admit alloc_many alloc init new_pool alloc_one num_free pop_last get put
full-Tidy = record { inv = full-Inv; one_table = λ k. one_each k }
  where
    one_each :
        (k : SeqId) → indicator (seq_id_beq (seq 0) k) + (indicator (seq_id_beq (seq 1) k) + 0) ≤ 1
    one_each (seq i) = ground arith
    one_each (cache i) = ground arith
    one_each scratch = ground arith

half_full-Tidy : Tidy (Lawful-paged 4) half_full
unfolding admit alloc_many alloc init new_pool alloc_one num_free pop_last get put
half_full-Tidy = record { inv = half_full-Inv; one_table = λ k. one_each k }
  where
    one_each : (k : SeqId) → indicator (seq_id_beq (seq 0) k) + 0 ≤ 1
    one_each (seq i) = ground arith
    one_each (cache i) = ground arith
    one_each scratch = ground arith

pub full_size : full.num_blocks ≡ 4
unfolding admit alloc_many alloc init new_pool alloc_one num_free pop_last get put
full_size = refl

pub batch-Running : Running paged 2 batch
unfolding serves admit alloc_many alloc init new_pool alloc_one num_free pop_last get put
batch-Running = record {
  good = full-Tidy;
  unique = λ rid. ground arith;
  entries =
      entries_cons full 0 (sequence 0 3) ((1, sequence 1 4) ∷ [])
        (record {
          same_id = refl;
          no_scratch = refl;
          table = 3 ∷ 2 ∷ [];
          found = refl;
          enough = omega arith;
        })
        (entries_cons full 1 (sequence 1 4) []
          (record {
            same_id = refl;
            no_scratch = refl;
            table = 1 ∷ 0 ∷ [];
            found = refl;
            enough = omega arith;
          })
          (λ rid sj e. absurd (ground (arith, e))));
}

preempt-Returns_example :
    Returns
      (λ _ t. Preempted paged config 0 (sequence 0 3) batch t)
      (preempt (operations policy) config 0 batch)
unfolding get
preempt-Returns_example = preempt-Returns paged config 0 (sequence 0 3) batch batch-Running refl

ensure_free-Room_example :
    Returns
      (λ made t. Room paged config 1 1 (sequence 1 4) batch made t)
      (ensure_free (operations policy) config 1 1 batch)
unfolding get
ensure_free-Room_example =
    ensure_free-Room paged config 1 1 (sequence 1 4) batch refl batch-Running refl

decode-Step_example :
    Returns
      (λ _ t. Step paged config (sequence 1 4) batch t)
      (decode (operations policy) config (sequence 1 4) batch)
unfolding get
decode-Step_example =
    decode-Step paged config (sequence 1 4) batch refl (omega arith) batch-Running refl

abbrev pub no_draws : ℕ → ℕ → List Bool × ℕ
no_draws t rid = ([], 0)

decode_pass-Passed_example :
    Returns
      (λ _ t. Passed paged config batch t)
      (decode_pass (operations policy) config no_draws batch.active batch)
decode_pass-Passed_example =
    decode_pass-Passed paged config no_draws batch.active batch refl refl (omega arith)
      batch-Running

finish-Returns_example :
    Returns
      (λ _ t.
        Running paged 2 t
        × (t.completed ≡ 1)
        × ((j : ℕ) → weight (holds j) t.active + count j (1 ∷ []) ≡ weight (holds j) batch.active)
        × ((j : ℕ)
            → get j t.active ≡ (if ltb 0 (count j (1 ∷ [])) then none else get j batch.active)))
      (finish (operations policy) config (1 ∷ []) batch)
finish-Returns_example =
    finish-Returns paged config (1 ∷ []) batch batch-Running (λ j. ground arith)

finish-raises_example :
    (t : Sim (Pool (List ℕ))) × (continue
        (λ _. finish (operations policy) config (0 ∷ []))
        (decode (operations policy) config (sequence 1 4) batch)
      ≡ (err key_error, t))
unfolding serves admit alloc_many alloc init new_pool alloc_one num_free pop_last get put others
finish-raises_example =
    finish-raises paged config (sequence 1 4) (1 ∷ 0 ∷ []) [] [] 0 batch refl (omega arith)
      batch-Running refl refl refl refl refl

burst_address-some_example :
    (block : ℕ) × (offset : ℕ) × (get_elem? (1 ∷ 0 ∷ []) (9 / (2 * 4)) ≡ some block)
    × (offset < 2 * 4)
    × (burst_address (1 ∷ 0 ∷ []) (2 * 4) 9 ≡ some (block * (2 * 4) + offset))
burst_address-some_example =
    burst_address-some (1 ∷ 0 ∷ []) 4 2 4 9 (omega arith) (omega arith) (omega arith)

abbrev pub tiny_shape : ModelShape
tiny_shape = record { kv_heads = 1; head_dim = 16; dtype_bytes = 2 }

abbrev pub tiny_memory : DramGeometry
tiny_memory = record {
  channels = 2;
  bank_groups = 2;
  banks_per_group = 2;
  row_bytes = 64;
  burst_bytes = 32;
  rows_per_bank = 4;
  cacheline_bytes = 64;
}

begin_in_range_example : 3 * (2 * 2) + 1 < 64
unfolding begin init new_pool
begin_in_range_example =
    begin_in_range (operations policy) config tiny_memory tiny_shape [] (init 4)
      (initial [] (init 4)) 3 1 refl (omega arith) (omega arith)

abbrev pub oracle_config : Config
oracle_config = record config { admission = oracle }

-- One sequence of two blocks that is promised three, in a half full pool.
abbrev pub lone : Sim (Pool (List ℕ))
lone = record batch { alloc = half_full; active = (0, sequence 0 4) ∷ [] }

pub lone-Running : Running paged 2 lone
unfolding serves admit alloc_many alloc init new_pool alloc_one num_free pop_last get put
lone-Running = record {
  good = half_full-Tidy;
  unique = λ rid. ground arith;
  entries =
      entries_cons half_full 0 (sequence 0 4) []
        (record {
          same_id = refl;
          no_scratch = refl;
          table = 3 ∷ 2 ∷ [];
          found = refl;
          enough = omega arith;
        })
        (λ rid sj e. absurd (ground (arith, e)));
}

pub only_zero :
    (Q : ℕ → SeqState → Type 0)
    → Q 0 (sequence 0 4)
    → (rid : ℕ) (sj : SeqState) → get rid lone.active ≡ some sj
    → Q rid sj
unfolding get
only_zero Q q rid sj e = elim (Bool-cases (nat_beq 0 rid)) [
  | inl t ↦
      let state : sequence 0 4 ≡ sj = ground (arith, t, e) in
      let id : 0 ≡ rid = ground (arith, t) in subst (λ j. Q j sj) id (subst (λ z. Q 0 z) state q)
  | inr t ↦ absurd (ground (arith, t, e))
]

pub lone-Reserved : Reserved paged oracle_config lone
unfolding serves admit alloc_many alloc init new_pool alloc_one num_free pop_last get put
lone-Reserved = record {
  covered = omega arith;
  within =
      only_zero (λ rid st. handed_out paged oracle_config half_full rid st ≤ st.total_blocks)
        (omega arith);
  whole = only_zero (λ rid st. st.total_len ≤ st.total_blocks * 2) (omega arith);
}

oracle_decode-Grown_example :
    Returns
      (λ _ t. Grown paged oracle_config (sequence 0 4) lone t)
      (decode (operations policy) oracle_config (sequence 0 4) lone)
unfolding get
oracle_decode-Grown_example =
    oracle_decode-Grown paged oracle_config (sequence 0 4) lone refl (omega arith) lone-Running
      lone-Reserved refl (omega arith)
