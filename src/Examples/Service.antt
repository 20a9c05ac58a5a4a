-- ===== src/Examples/Service.antt =====
-- Requests for a paged pool of four blocks of two tokens, under oracle admission: one of them is too big.
use chip_hackathon_f.Prelude.{ℕ, All, length, ◌+◌, ◌<◌, ◌≡◌, refl, none, List, [], ◌∷◌, arith, ◌⊎◌}
use chip_hackathon_f.Dict.{get}
use chip_hackathon_f.Exec.{Returns, ok, err, zero_division}
use chip_hackathon_f.Alloc.{SeqId, Pool, new_pool, seq_id_eq}
use chip_hackathon_f.Alloc.Paged.{policy, init, num_free, Lawful-paged, init_paged-Inv}
use chip_hackathon_f.Sim.{Request, Sim}
use chip_hackathon_f.Sim.Base.{operations, serves, Tidy}
use chip_hackathon_f.Sim.Setup.{initial, begin}
use chip_hackathon_f.Sim.Loop.{admit_arrivals, decode_pass, step, loop}
use chip_hackathon_f.Sim.Simulate.{simulate}
use chip_hackathon_f.Sim.Service.{Awaited, Steady}
use chip_hackathon_f.Sim.Service.Admission.{Arrived, admit_arrivals-Arrived}
use chip_hackathon_f.Sim.Service.Pass.{Passing, Due, decode_pass-Passing}
use chip_hackathon_f.Sim.Service.Step.{Turn, step-Turn}
use chip_hackathon_f.Sim.Service.Loop.{Ended, loop-Ended}
use chip_hackathon_f.Sim.Service.Whole.{initial-Steady, simulate-counts}
use chip_hackathon_f.AddrMap.{host_cacheline, scheme_fields}
use chip_hackathon_f.PimModel.Window.{window}
use chip_hackathon_f.Sim.Sampling.{Row, Setting, sample}
use chip_hackathon_f.Sim.Sampling.Safety.{RowFits, sample-Fits}
use chip_hackathon_f.Examples.Memory.{small, tally_keys, tally_keys-IsUnique}
use chip_hackathon_f.Examples.Serving.{
  batch, full_size, batch-Running, paged, oracle_config, no_draws, tiny_memory, tiny_shape, lone,
  lone-Running, lone-Reserved, only_zero,
}

abbrev asks : ℕ → ℕ → ℕ → ℕ → Request
asks rid arrival_step prompt_len output_len = record {
  rid = rid;
  arrival_step = arrival_step;
  prompt_len = prompt_len;
  output_len = output_len;
  prefix_id = none;
  prefix_len = 0;
}

abbrev stream : List Request
stream = asks 0 0 3 2 ∷ asks 1 0 9 4 ∷ asks 2 3 3 2 ∷ []

stream-Awaited : Awaited [] stream
unfolding get
stream-Awaited = (
  refl,
  refl,
  omega arith,
  refl,
  (refl, refl, omega arith, refl, (refl, refl, omega arith, refl, tt)),
)

init-Tidy : Tidy (Lawful-paged 4) (init 4)
unfolding init new_pool
init-Tidy = record { inv = init_paged-Inv 4; one_table = λ k. omega arith }

no_table : (k : SeqId) → get k (init 4).tables ≡ none
unfolding init new_pool get
no_table k = refl

abbrev begun_with : Sim (Pool (List ℕ))
begun_with = initial stream (init 4)

begun-Steady : Steady paged oracle_config begun_with
unfolding serves
begun-Steady = initial-Steady paged oracle_config stream (init 4) init-Tidy no_table stream-Awaited

admit_arrivals-Arrived_example :
    Returns
      (λ _ t. Arrived paged oracle_config begun_with t)
      (admit_arrivals (operations policy) oracle_config stream begun_with)
unfolding initial
admit_arrivals-Arrived_example =
    admit_arrivals-Arrived paged oracle_config stream begun_with refl refl (omega arith)
      (omega arith) begun-Steady refl

lone-Due : Due paged oracle_config lone.active lone
lone-Due = record {
  running = lone-Running;
  reserved = lone-Reserved;
  there = λ j. omega arith;
  unfinished = λ j st e h. only_zero (λ _ st. st.tokens < st.total_len) (omega arith) j st e;
}

decode_pass-Passing_example :
    Returns
      (λ done t. Passing paged oracle_config lone.active done lone t)
      (decode_pass (operations policy) oracle_config no_draws lone.active lone)
decode_pass-Passing_example =
    decode_pass-Passing paged oracle_config no_draws lone.active lone refl refl (omega arith)
      lone-Due

step-Turn_example :
    Returns
      (λ again t. Turn paged oracle_config begun_with again t)
      (step (operations policy) oracle_config no_draws begun_with)
step-Turn_example =
    step-Turn paged oracle_config no_draws refl refl (omega arith) begun_with (omega arith)
      begun-Steady

loop-Ended_example :
    Returns
      (λ _ t. Ended paged oracle_config no_draws refl refl (omega arith) begun_with t)
      (loop (operations policy) oracle_config 13 no_draws begun_with)
unfolding initial
loop-Ended_example =
    loop-Ended paged oracle_config no_draws refl refl (omega arith) 13 begun_with (omega arith)
      begun-Steady (omega arith)

simulate-counts_example :
    ((0 < 4)
      × Returns
          (λ sum u.
            (sum.completed ≡ 2) × (sum.completed + sum.dropped ≡ 3) × (num_free u.placement ≡ 4))
          (simulate
            (operations policy)
            oracle_config
            tiny_memory
            tiny_shape
            stream
            13
            no_draws
            (init 4)))
    ⊎ ((◌≡◌ {A = ℕ} 4 0)
        × ((simulate
              (operations policy)
              oracle_config
              tiny_memory
              tiny_shape
              stream
              13
              no_draws
              (init 4)).0
            ≡ err zero_division))
unfolding begin init new_pool serves
simulate-counts_example =
    simulate-counts paged oracle_config no_draws refl refl (omega arith) (omega arith) stream
      (init 4) init-Tidy no_table stream-Awaited 13 tiny_memory tiny_shape (initial stream (init 4))
      refl (omega arith)

abbrev setting : Setting
setting = record {
  geom = small;
  shape = tiny_shape;
  block_tokens = 2;
  fields = scheme_fields small host_cacheline;
  window = 3;
  mode = window;
  frame_blocks = 2;
}

sample-Fits_example :
    (rows : List Row) × (sample tally_keys setting (operations policy) (0 ∷ 1 ∷ []) batch ≡ ok rows)
    × All (RowFits 4) rows
    × (length rows ≡ 2)
sample-Fits_example =
    sample-Fits tally_keys tally_keys-IsUnique setting (omega arith) (omega arith) (omega arith)
      paged batch batch-Running (omega (arith, full_size)) (0 ∷ 1 ∷ [])
      (omega arith, (omega arith, tt))
