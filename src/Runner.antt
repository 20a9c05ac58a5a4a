-- ===== src/Runner.antt =====
-- `main` of pimkv/run.py, from the parsed arguments to the summary: the geometry, the stream, the size
-- of the pool, the allocator and the simulation. What numpy draws, and the products of floats that
-- `int` cuts off, are parameters; the address map, which only the metrics use, is left out.
pub mod Preparation
pub mod Completion
pub mod Cells
use chip_hackathon_f.Prelude.{
  ℕ, ◌+◌, ◌/◌, Bool, true, false, Option, none, some, List, [], ◌∷◌, length, nat_beq, ceil_div,
  if◌then◌else◌,
}
use chip_hackathon_f.Exec.{value_error, Result, ok, err}
use chip_hackathon_f.Alloc.{Pool}
use chip_hackathon_f.Alloc.Paged
use chip_hackathon_f.Alloc.Random
use chip_hackathon_f.Alloc.Random.{Generator}
use chip_hackathon_f.Pim.{PlanMode}
use chip_hackathon_f.Factory.{
  AllocatorName, paged, random, contiguous, pim_aware, Built, paged_first_fit, random_alloc,
  contiguous_oracle, pim, make_allocator,
}
use chip_hackathon_f.Geometry.{
  DramGeometry, ModelShape, hbm3_pim, gddr6_pim, llama_gqa_8kv, mqa_1kv, mha_32kv, shard_kv,
  derive_block_tokens, frame_blocks_for,
}
use chip_hackathon_f.Sim.{
  Adopt, splice, copyback, SpecParams, AdmissionMode, Request, Config, Operations,
}
use chip_hackathon_f.Sim.Base.{operations}
use chip_hackathon_f.Sim.Frames.{pim_operations, contiguous_operations}
use chip_hackathon_f.Sim.Simulate.{Summary, simulate}
use chip_hackathon_f.Workload

pub data WorkloadName : Type 0 where
  steady longctx prefix spec fixedlen : WorkloadName

pub data DramName : Type 0 where
  hbm3 gddr6 : DramName

abbrev pub dram_presets : DramName → DramGeometry
dram_presets hbm3 = hbm3_pim
dram_presets gddr6 = gddr6_pim

pub data ModelName : Type 0 where
  llama mqa mha : ModelName

abbrev pub model_presets : ModelName → ModelShape
model_presets llama = llama_gqa_8kv
model_presets mqa = mqa_1kv
model_presets mha = mha_32kv

-- The arguments; no `spec_adopt` is "auto".
pub record Args : Type 0 where
  pub workload : WorkloadName
  pub allocator : AllocatorName
  pub dram : DramName
  pub model : ModelName
  pub block_tokens : ℕ
  pub requests : ℕ
  pub max_batch : ℕ
  pub pool_blocks : ℕ
  pub kv_shards : ℕ
  pub spec_width : ℕ
  pub spec_depth : ℕ
  pub spec_adopt : Option Adopt
  pub segregate_scratch : Bool
  pub pim_plan : PlanMode
  pub compact_num : ℕ
  pub compact_den : ℕ
  pub admission : AdmissionMode

-- What the generator of a stream draws.
pub record Samples : Type 0 where
  pub parts : ℕ
  pub gaps : ℕ → ℕ
  pub prompts : ℕ → ℕ
  pub outputs : ℕ → ℕ
  pub uniq : ℕ → ℕ
  pub shared : ℕ → Bool
  pub prefix_len : ℕ

-- `int(headroom * max_batch * blocks)` for a headroom of num / den, and `int(watermark * num_blocks)`.
pub record Floats : Type 0 where
  pub scale : ℕ → ℕ → ℕ → ℕ → ℕ
  pub watermark : ℕ → ℕ

-- WORKLOADS, called with the number of requests and the seed.
unfoldable pub stream : WorkloadName → Samples → ℕ → List Request
unfolding Workload.steady Workload.longctx Workload.prefix Workload.spec Workload.fixedlen
stream steady d n = Workload.steady d.parts d.gaps d.prompts d.outputs n
stream longctx d n = Workload.longctx d.parts d.gaps d.prompts d.outputs n
stream prefix d n =
    Workload.prefix d.parts d.gaps d.prefix_len d.shared d.uniq d.prompts d.outputs n
stream spec d n = Workload.spec d.parts d.gaps d.prompts d.outputs n
stream fixedlen d n = Workload.fixedlen d.parts d.gaps 2048 128 n

abbrev total_tokens : List Request → ℕ
total_tokens [] = 0
total_tokens (r ∷ rs) = r.prompt_len + r.output_len + total_tokens rs

-- The mean of no requests is not a number, which `int` does not take.
unfoldable pub auto_pool_blocks : Floats → ℕ → ℕ → List Request → ℕ → ℕ → Result ℕ
auto_pool_blocks floats num den [] block_tokens max_batch = err value_error
auto_pool_blocks floats num den (r ∷ rs) block_tokens max_batch =
    let mean_total = total_tokens (r ∷ rs) / length (r ∷ rs) in
    ok (floats.scale num den max_batch (ceil_div (mean_total + 1) block_tokens))

abbrev pub is_pim_aware : AllocatorName → Bool
is_pim_aware pim_aware = true
is_pim_aware _ = false

abbrev pub is_spec : WorkloadName → Bool
is_spec spec = true
is_spec _ = false

abbrev pub adopt_of : Option Adopt → AllocatorName → Adopt
adopt_of (some adopt) name = adopt
adopt_of none name = if is_pim_aware name then copyback else splice

unfoldable pub spec_of : Args → Option SpecParams
spec_of args =
    if is_spec args.workload
    then some (record {
      width = args.spec_width;
      depth = args.spec_depth;
      adopt = adopt_of args.spec_adopt args.allocator;
    })
    else none

-- What `main` has when it calls `simulate`.
pub record Prepared (G : Type 0) : Type 0 where
  pub geom : DramGeometry
  pub shape : ModelShape
  pub tokens : ℕ
  pub stream : List Request
  pub built : Built G

module _ {G : Type 0} (gen : Generator G) (rng : G) (floats : Floats) (args : Args) where
  abbrev pub block_tokens_of : DramGeometry → ModelShape → ℕ
  block_tokens_of g s =
      if nat_beq args.block_tokens 0 then derive_block_tokens g s 1 true else args.block_tokens

  -- The headroom is the default of `auto_pool_blocks`, 1.3.
  abbrev pub pool_blocks_of : List Request → ℕ → Result ℕ
  pool_blocks_of rs block_tokens =
      if nat_beq args.pool_blocks 0
      then auto_pool_blocks floats 13 10 rs block_tokens args.max_batch
      else ok args.pool_blocks

  -- From the size of the pool and of a frame.
  abbrev pub allocator_of : ℕ → ℕ → Result (Built G)
  allocator_of n fb =
      make_allocator rng args.allocator n (if is_pim_aware args.allocator then fb else 1)
        args.segregate_scratch args.pim_plan args.compact_num args.compact_den

  abbrev pub packed :
      DramGeometry → ModelShape → ℕ → List Request → Result (Built G) → Result (Prepared G)
  packed g s bt rs (err e) = err e
  packed g s bt rs (ok b) = ok (record { geom = g; shape = s; tokens = bt; stream = rs; built = b })

  abbrev pub in_frames :
      DramGeometry → ModelShape → ℕ → List Request → ℕ → Result ℕ → Result (Prepared G)
  in_frames g s bt rs n (err e) = err e
  in_frames g s bt rs n (ok fb) = packed g s bt rs (allocator_of n fb)

  abbrev pub in_pool : DramGeometry → ModelShape → ℕ → List Request → Result ℕ → Result (Prepared G)
  in_pool g s bt rs (err e) = err e
  in_pool g s bt rs (ok n) = in_frames g s bt rs n (frame_blocks_for g s bt)

  abbrev pub in_shard : Samples → Result (DramGeometry × ModelShape) → Result (Prepared G)
  in_shard d (err e) = err e
  in_shard d (ok (g, s)) =
      let rs = stream args.workload d args.requests in
      in_pool g s (block_tokens_of g s) rs (pool_blocks_of rs (block_tokens_of g s))

  -- The steps up to the call of `simulate`, each of which may raise.
  unfoldable pub prepare : Samples → Result (Prepared G)
  prepare d =
      in_shard d (shard_kv (dram_presets args.dram) (model_presets args.model) args.kv_shards)

  unfoldable pub config_of : ℕ → ℕ → Config
  config_of block_tokens num_blocks = record {
    block_tokens = block_tokens;
    max_batch = args.max_batch;
    admission = args.admission;
    watermark_blocks = floats.watermark num_blocks;
    spec = spec_of args;
    check_every = 64;
  }

  module _ (turns : ℕ) (draws : ℕ → ℕ → List Bool × ℕ) where
    abbrev pub simulate_pool :
        {P : Type 0} → Operations (Pool P) → Prepared G → Pool P → Result Summary
    simulate_pool ops p s =
        (simulate ops (config_of p.tokens s.num_blocks) p.geom p.shape p.stream turns draws s).0

    abbrev pub simulate_built : Prepared G → Built G → Result Summary
    simulate_built p (paged_first_fit s) = simulate_pool (operations Paged.policy) p s
    simulate_built p (random_alloc s) = simulate_pool (operations (Random.policy gen)) p s
    simulate_built p (contiguous_oracle s) = simulate_pool contiguous_operations p s
    simulate_built p (pim s) = simulate_pool pim_operations p s

    abbrev pub simulated : Result (Prepared G) → Result Summary
    simulated (err e) = err e
    simulated (ok p) = simulate_built p p.built

    unfoldable pub main : Samples → Result Summary
    unfolding prepare config_of
    main d = simulated (prepare d)
