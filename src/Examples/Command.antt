-- ===== src/Examples/Command.antt =====
-- A run of the command with two requests of long prompts, in a paged pool of twenty blocks.
use chip_hackathon_f.Prelude.{ℕ, ◌+◌, ◌≡◌, refl, true, false, none, arith, ◌⊎◌, ◌<◌, ◌*◌, ◌/◌}
use chip_hackathon_f.Exec.{ok, err, zero_division}
use chip_hackathon_f.Alloc.Paged.{init}
use chip_hackathon_f.Alloc.Random.{Generator}
use chip_hackathon_f.Factory.{paged, pim_aware, paged_first_fit, make_allocator}
use chip_hackathon_f.Geometry.{hbm3_pim, llama_gqa_8kv, shard_kv, frame_blocks_for}
use chip_hackathon_f.Pim.{bestfit}
use chip_hackathon_f.Sim.{oracle, splice, copyback}
use chip_hackathon_f.Sim.Simulate.{Summary}
use chip_hackathon_f.Workload
use chip_hackathon_f.Runner.{
  longctx, hbm3, llama, Args, Samples, Floats, Prepared, stream, prepare, main, adopt_of,
  auto_pool_blocks,
}
use chip_hackathon_f.Runner.Preparation.{Counts}
use chip_hackathon_f.Runner.Cells.{CellJob}
use chip_hackathon_f.Runner.Completion.{main-Counts}
use chip_hackathon_f.Examples.Serving.{no_draws}

abbrev lowest : Generator ℕ
lowest = record { integers = λ n g. (0, g) }

abbrev rounding : Floats
rounding = record { scale = λ num den max_batch n. num * max_batch * n / den; watermark = λ n. 0 }

abbrev args : Args
args = record {
  workload = longctx;
  allocator = paged;
  dram = hbm3;
  model = llama;
  block_tokens = 16;
  requests = 2;
  max_batch = 4;
  pool_blocks = 20;
  kv_shards = 1;
  spec_width = 4;
  spec_depth = 3;
  spec_adopt = none;
  segregate_scratch = true;
  pim_plan = bestfit;
  compact_num = 0;
  compact_den = 1;
  admission = oracle;
}

abbrev samples : Samples
samples = record {
  parts = 10;
  gaps = λ i. 15;
  prompts = λ i. 40;
  outputs = λ i. 32 + i;
  uniq = λ i. 0;
  shared = λ i. false;
  prefix_len = 0;
}

abbrev prepared : Prepared ℕ
prepared = record {
  geom = hbm3_pim;
  shape = llama_gqa_8kv;
  tokens = 16;
  stream = stream longctx samples 2;
  built = paged_first_fit (init 20);
}

adopt_of_test : (adopt_of none pim_aware ≡ copyback) × (adopt_of none paged ≡ splice)
adopt_of_test = (refl, refl)

auto_pool_blocks_test : auto_pool_blocks rounding 13 10 (stream longctx samples 2) 16 4 ≡ ok 26
unfolding auto_pool_blocks stream Workload.longctx
auto_pool_blocks_test = refl

main-Counts_example :
    ((0 < 20)
      × ((sum : Summary) × (main lowest 0 rounding args 70 no_draws samples ≡ ok sum)
          × Counts 16 20 (stream longctx samples 2) sum))
    ⊎ ((◌≡◌ {A = ℕ} 20 0) × (main lowest 0 rounding args 70 no_draws samples ≡ err zero_division))
unfolding prepare shard_kv frame_blocks_for make_allocator init stream Workload.longctx
main-Counts_example =
    main-Counts lowest (λ n g h. omega (arith, h)) 0 rounding args 70 no_draws refl refl
      (omega arith) samples prepared refl refl (λ i. omega arith) refl refl (omega arith)
      (omega arith)

abbrev job : CellJob
job = record {
  dram = hbm3;
  model = llama;
  kv_shards = 1;
  block_tokens = 16;
  workload = longctx;
  requests = 2;
  prompt_len = 2048;
  output_len = 128;
  pool_blocks = 0;
  max_batch = 4;
  headroom_num = 13;
  headroom_den = 10;
  allocator = paged;
  segregate_scratch = true;
  pim_plan = bestfit;
  compact_num = 0;
  compact_den = 1;
  spec_adopt = none;
  admission = oracle;
}
