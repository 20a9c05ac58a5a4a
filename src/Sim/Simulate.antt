-- ===== src/Sim/Simulate.antt =====
-- `simulate` as a whole (pimkv/sim.py): its guards, the loop, and what is released at the end. The
-- generators and the sampled rows are left out; `turns` is the fuel of the loop.
use chip_hackathon_f.Prelude.{ℕ, ◌*◌, Bool, List, [], ◌∷◌, leb, if◌then◌else◌, length, nat_beq}
use chip_hackathon_f.Dict.{Dict}
use chip_hackathon_f.Exec.{Result, ok, err, Exec, ◌>>◌, zero_division}
use chip_hackathon_f.Geometry.{DramGeometry, ModelShape, kv_bytes_per_token}
use chip_hackathon_f.Sim.{Operations, Request, Config, Sim, lift}
use chip_hackathon_f.Sim.Loop.{loop, release_prefixes}
use chip_hackathon_f.Sim.Setup.{begin}

-- `sorted(prefix_cache)`: the ids of the pinned prefixes.
unfoldable pub insert_id : ℕ → List ℕ → List ℕ
insert_id i [] = i ∷ []
insert_id i (j ∷ js) = if leb i j then i ∷ j ∷ js else j ∷ insert_id i js

unfoldable pub prefix_ids : Dict ℕ (List ℕ) → List ℕ
unfolding insert_id
prefix_ids [] = []
prefix_ids ((pid, _) ∷ d) = insert_id pid (prefix_ids d)

-- The counters that the simulator keeps, and the quotient `pool_utilization_peak` by its two terms; those that the allocator keeps for statistics and the
-- figures over the sampled rows are left out.
pub record Summary : Type 0 where
  pub n_requests : ℕ
  pub completed : ℕ
  pub dropped : ℕ
  pub frag_failures : ℕ
  pub decode_steps : ℕ
  pub peak_live_blocks : ℕ
  pub pool_blocks : ℕ
  pub pool_utilization_peak : ℕ × ℕ
  pub spec_stalls : ℕ
  pub copied_bytes : ℕ
  pub preemptions : ℕ
  pub self_preemptions : ℕ

module _ {S : Type 0} (ops : Operations S) (cfg : Config) where
  abbrev pub Draws : Type 0
  Draws = ℕ → ℕ → List Bool × ℕ

  -- The loop and what follows it.
  unfoldable pub run : ℕ → Draws → Exec (Sim S) (Unit {0})
  unfolding prefix_ids
  run turns draws = do
    loop ops cfg turns draws
    λ s. release_prefixes ops cfg (prefix_ids s.prefix_cache) s
    lift ops.assert_conservation

  -- The dictionary is built after the loop; its quotient raises ZeroDivisionError for a pool of no blocks.
  unfoldable pub summary : ModelShape → List Request → Sim S → Result Summary
  summary shape requests s =
      if nat_beq (ops.num_blocks s.alloc) 0
      then err zero_division
      else ok (record {
        n_requests = length requests;
        completed = s.completed;
        dropped = length s.dropped;
        frag_failures = s.frag_failures;
        decode_steps = s.decode_steps;
        peak_live_blocks = s.peak_live;
        pool_blocks = ops.num_blocks s.alloc;
        pool_utilization_peak = (s.peak_live, ops.num_blocks s.alloc);
        spec_stalls = s.spec_stalls;
        copied_bytes = s.copied_tokens * kv_bytes_per_token shape;
        preemptions = s.preemptions;
        self_preemptions = s.self_preemptions;
      })

  abbrev pub concluded : ModelShape → List Request → Result (Unit {0}) × Sim S → Result Summary × S
  concluded shape requests (ok _, s) = (summary shape requests s, s.alloc)
  concluded shape requests (err e, s) = (err e, s.alloc)

  abbrev pub begun : ModelShape → List Request → ℕ → Draws → Result (Sim S) → Exec S Summary
  begun shape requests turns draws (err e) alloc = (err e, alloc)
  begun shape requests turns draws (ok s) alloc = concluded shape requests (run turns draws s)

  unfoldable pub simulate : DramGeometry → ModelShape → List Request → ℕ → Draws → Exec S Summary
  unfolding begin run summary
  simulate g shape requests turns draws alloc =
      begun shape requests turns draws (begin ops cfg g shape requests alloc) alloc
