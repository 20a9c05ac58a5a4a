-- ===== src/Runner/Cells/Equivalence.antt =====
-- `_run_cell` of pimkv/sweep.py beside `main` of pimkv/run.py.
use chip_hackathon_f.Prelude.{nat_eq}
use chip_hackathon_f.Alloc.Paged
use chip_hackathon_f.Alloc.Random
use chip_hackathon_f.Runner
use chip_hackathon_f.Runner.{DramName, ModelName, Args, Prepared, auto_pool_blocks, simulate_built}
