-- ===== src/Runner/Cells.antt =====
-- `_run_cell` of pimkv/sweep.py, from the job to the summary of `simulate`. The address map, which only
-- the metrics use, the CSV file and the row that it returns are left out. The source has the steps of
-- `main` here a second time: Equivalence compares the two.
pub mod Equivalence
use chip_hackathon_f.Prelude.{
  ℕ, ◌<◌, ◌≡◌, refl, ap, Bool, Option, none, some, List, arith, nat_beq, nat_eq, if◌then◌else◌,
}
use chip_hackathon_f.Exec.{Result, ok, err}
use chip_hackathon_f.Alloc.{Pool}
use chip_hackathon_f.Alloc.Paged
use chip_hackathon_f.Alloc.Random
use chip_hackathon_f.Alloc.Random.{Generator}
use chip_hackathon_f.Factory.{
  AllocatorName, pim_aware, Built, paged_first_fit, random_alloc, contiguous_oracle, pim,
  make_allocator,
}
use chip_hackathon_f.Geometry.{DramGeometry, ModelShape, shard_kv, frame_blocks_for}
use chip_hackathon_f.Pim.{PlanMode}
use chip_hackathon_f.Sim.{Adopt, splice, copyback, SpecParams, AdmissionMode, Request, Operations}
use chip_hackathon_f.Sim.Base.{operations}
use chip_hackathon_f.Sim.Frames.{pim_operations, contiguous_operations}
use chip_hackathon_f.Sim.Simulate.{Summary, simulate}
use chip_hackathon_f.Workload
use chip_hackathon_f.Runner
use chip_hackathon_f.Runner.{
  WorkloadName, DramName, ModelName, Args, Samples, Floats, Prepared, dram_presets, model_presets,
  stream, auto_pool_blocks, prepare, spec_of, config_of, block_tokens_of, pool_blocks_of, is_spec,
  in_pool, in_frames, in_shard, packed, simulated, simulate_built, main,
}

-- The settings of a job that decide what runs; no `spec_adopt` is "auto", and the headroom is num / den.
-- Of the workload's own arguments, those of `fixedlen` are lengths; an arrival rate only changes the
-- gaps that are drawn.
pub record CellJob : Type 0 where
  pub dram : DramName
  pub model : ModelName
  pub kv_shards : ℕ
  pub block_tokens : ℕ
  pub workload : WorkloadName
  pub requests : ℕ
  pub prompt_len : ℕ
  pub output_len : ℕ
  pub pool_blocks : ℕ
  pub max_batch : ℕ
  pub headroom_num : ℕ
  pub headroom_den : ℕ
  pub allocator : AllocatorName
  pub segregate_scratch : Bool
  pub pim_plan : PlanMode
  pub compact_num : ℕ
  pub compact_den : ℕ
  pub spec_adopt : Option Adopt
  pub admission : AdmissionMode

-- `WORKLOADS[job["workload"]](job["requests"], job["seed"], **wkw)`
unfoldable pub called : WorkloadName → ℕ → ℕ → Samples → ℕ → List Request
unfolding Workload.steady Workload.longctx Workload.prefix Workload.spec Workload.fixedlen
called Runner.steady p o d n = Workload.steady d.parts d.gaps d.prompts d.outputs n
called Runner.longctx p o d n = Workload.longctx d.parts d.gaps d.prompts d.outputs n
called Runner.prefix p o d n =
    Workload.prefix d.parts d.gaps d.prefix_len d.shared d.uniq d.prompts d.outputs n
called Runner.spec p o d n = Workload.spec d.parts d.gaps d.prompts d.outputs n
called Runner.fixedlen p o d n = Workload.fixedlen d.parts d.gaps p o n

abbrev pub cell_stream : CellJob → Samples → List Request
cell_stream job d = called job.workload job.prompt_len job.output_len d job.requests

-- `job.get("pool_blocks") or auto_pool_blocks(...)`
unfoldable pub cell_pool : Floats → CellJob → List Request → Result ℕ
cell_pool floats job requests =
    if nat_beq job.pool_blocks 0
    then auto_pool_blocks floats job.headroom_num job.headroom_den requests job.block_tokens
        job.max_batch
    else ok job.pool_blocks

-- "auto" is copy-back for the frame allocator and splicing for the others.
abbrev pub cell_adopt : Option Adopt → AllocatorName → Adopt
cell_adopt (some adopt) name = adopt
cell_adopt none pim_aware = copyback
cell_adopt none _ = splice

-- `SpecParams(adopt=adopt) if job["workload"] == "spec" else None`: width and depth are the defaults.
abbrev pub cell_spec : CellJob → WorkloadName → Option SpecParams
cell_spec job Runner.spec =
    some (record { width = 4; depth = 3; adopt = cell_adopt job.spec_adopt job.allocator })
cell_spec job _ = none

-- `fb if job["allocator"] == "pim-aware" else 1`
abbrev pub frame_arg : AllocatorName → ℕ → ℕ
frame_arg pim_aware fb = fb
frame_arg _ fb = 1

module _ {G : Type 0} (gen : Generator G) (rng : G) (floats : Floats) (turns : ℕ)
    (draws : ℕ → ℕ → List Bool × ℕ) (job : CellJob) where
  abbrev pub call_simulate :
      {P : Type 0}
      → Operations (Pool P)
      → DramGeometry
      → ModelShape
      → List Request
      → Pool P
      → Result Summary
  call_simulate ops geom shape requests alloc =
      (simulate ops
        (record {
          block_tokens = job.block_tokens;
          max_batch = job.max_batch;
          admission = job.admission;
          watermark_blocks = floats.watermark alloc.num_blocks;
          spec = cell_spec job job.workload;
          check_every = 64;
        })
        geom shape requests turns draws alloc).0

  abbrev pub with_alloc :
      DramGeometry → ModelShape → List Request → Result (Built G) → Result Summary
  with_alloc geom shape requests (err e) = err e
  with_alloc geom shape requests (ok (paged_first_fit s)) =
      call_simulate (operations Paged.policy) geom shape requests s
  with_alloc geom shape requests (ok (random_alloc s)) =
      call_simulate (operations (Random.policy gen)) geom shape requests s
  with_alloc geom shape requests (ok (contiguous_oracle s)) =
      call_simulate contiguous_operations geom shape requests s
  with_alloc geom shape requests (ok (pim s)) = call_simulate pim_operations geom shape requests s

  abbrev pub with_frame : DramGeometry → ModelShape → List Request → ℕ → Result ℕ → Result Summary
  with_frame geom shape requests pool (err e) = err e
  with_frame geom shape requests pool (ok fb) = with_alloc geom shape requests (
      make_allocator rng job.allocator pool (frame_arg job.allocator fb) job.segregate_scratch
        job.pim_plan job.compact_num job.compact_den)

  abbrev pub with_pool : DramGeometry → ModelShape → List Request → Result ℕ → Result Summary
  with_pool geom shape requests (err e) = err e
  with_pool geom shape requests (ok pool) =
      with_frame geom shape requests pool (frame_blocks_for geom shape job.block_tokens)

  abbrev pub with_shard : Samples → Result (DramGeometry × ModelShape) → Result Summary
  with_shard d (err e) = err e
  with_shard d (ok (geom, shape)) =
      with_pool geom shape (cell_stream job d) (cell_pool floats job (cell_stream job d))

  unfoldable pub run_cell : Samples → Result Summary
  unfolding called cell_pool
  run_cell d =
      with_shard d (shard_kv (dram_presets job.dram) (model_presets job.model) job.kv_shards)

-- The command's arguments for the same settings. It has no argument for the headroom or for the lengths.
abbrev pub args_of : CellJob → Args
args_of job = record {
  workload = job.workload;
  allocator = job.allocator;
  dram = job.dram;
  model = job.model;
  block_tokens = job.block_tokens;
  requests = job.requests;
  max_batch = job.max_batch;
  pool_blocks = job.pool_blocks;
  kv_shards = job.kv_shards;
  spec_width = 4;
  spec_depth = 3;
  spec_adopt = job.spec_adopt;
  segregate_scratch = job.segregate_scratch;
  pim_plan = job.pim_plan;
  compact_num = job.compact_num;
  compact_den = job.compact_den;
  admission = job.admission;
}
