-- ===== src/Examples/Streams.antt =====
-- A stream of three requests with gaps of half a step, the jobs of a sweep, and the lines of traces.
use chip_hackathon_f.PimModel.Window.Stream.{coalesce_channel_stream}
use chip_hackathon_f.PimModel.Window.Stream.Length.{stream-length}
use chip_hackathon_f.Examples.Sorting.{insertion, insertion-IsSorting}
use chip_hackathon_f.Prelude.{
  ℕ, map, ◌+◌, ◌*◌, ◌/◌, ◌%◌, ◌^◌, ◌≡◌, refl, false, none, some, List, [], ◌∷◌, arith, length,
  get_elem?, nat_eq, true,
}
use chip_hackathon_f.Dict.{Dict, get, put}
use chip_hackathon_f.PimModel.{Command}
use chip_hackathon_f.Workload.{lognormal_lengths, poisson_arrivals}
use chip_hackathon_f.Sweep.{
  number, word, Cell, SweepConfig, Job, expand_cell, axis, product, axis_names, string_eq,
}
use chip_hackathon_f.Sweep.Naming.{cell_name, cell_name-unnamed}
use chip_hackathon_f.Sweep.Jobs.{get-expand_cell}
use chip_hackathon_f.Traces.{pim_address, interleave, enumerate_bursts, command_stream, to_burst}
use chip_hackathon_f.Exec.{ok}
use chip_hackathon_f.AddrMap.{
  Coords, Layout, host_cacheline, scheme_fields, map_fields, map_addr, zeros,
}
use chip_hackathon_f.PimModel.{Counts}
use chip_hackathon_f.PimModel.Window.{window, coalesce_channel}
use chip_hackathon_f.PimModel.Sequence.{sequence_metrics}
use chip_hackathon_f.Sim.Measure.{burst_address}
use chip_hackathon_f.Traces.Count.{command_stream-count}
use chip_hackathon_f.Examples.Memory.{small, tally_keys, bursts}
use chip_hackathon_f.Examples.Serving.{tiny_shape}
use chip_hackathon_f.Traces.Address.{pim_address-fields}
use chip_hackathon_f.Traces.Interleave.{of_channel, or_empty, of_channel-interleave}
use chip_hackathon_f.Traces.Stats.{
  Node, number, dict, items, entry, empty, cons, nil, row_hits, row_misses, row_conflicts, cycles,
  num_read_reqs, collect,
}
use chip_hackathon_f.Traces.Stats.Totals.{collect-combined, numbers}

abbrev half : ℕ → ℕ
half i = 5

abbrev drawn : ℕ → ℕ
drawn i = 125 + 10 * i

lognormal_lengths_test : lognormal_lengths 10 drawn 8 8192 0 ≡ 12
unfolding lognormal_lengths
lognormal_lengths_test = refl

poisson_arrivals_test : poisson_arrivals 10 half 2 ≡ 1
unfolding poisson_arrivals
poisson_arrivals_test = refl

abbrev small_cell : Cell
small_cell = record {
  workloads = word "steady" ∷ word "prefix" ∷ [];
  allocators = word "paged" ∷ [];
  axis_values =
      ("prompt_lens", number 512 ∷ number 1024 ∷ [])
      ∷ ("seeds", number 0 ∷ number 1 ∷ number 2 ∷ [])
      ∷ [];
  settings = ("requests", number 10) ∷ [];
  kwargs = none;
}

abbrev small_sweep : SweepConfig
small_sweep = record { common = []; common_kwargs = none; cells = small_cell ∷ [] }

get-expand_cell_example :
    (job : Job) × (get_elem? (expand_cell small_sweep (word "out") small_cell) 9 ≡ some job)
    × (get "seed" job.settings ≡ some (number 1))
    × (get "workload" job.settings ≡ some (word "prefix"))
    × (get "allocator" job.settings ≡ some (word "paged"))
unfolding product axis_names get
get-expand_cell_example =
    get-expand_cell small_sweep (word "out") small_cell 1 0 3 0 (word "prefix") (word "paged")
      (number 1 ∷ number 1024 ∷ []) (axis "seeds" "seed" false) (number 1) refl refl refl refl refl
      refl

pim_address-fields_example :
    (pim_address 3 6 100 7 / 2 ^ 5 % 2 ^ 5 ≡ 7)
    × (pim_address 3 6 100 7 / 2 ^ 10 % 2 ^ 14 ≡ 100)
    × (pim_address 3 6 100 7 / 2 ^ 24 % 2 ^ 2 ≡ 6 % 4)
    × (pim_address 3 6 100 7 / 2 ^ 26 % 2 ^ 2 ≡ 6 / 4)
    × (pim_address 3 6 100 7 / 2 ^ 29 ≡ 3)
    × (pim_address 3 6 100 7 % 2 ^ 5 ≡ 0)
pim_address-fields_example = pim_address-fields 3 6 100 7 (omega arith) (omega arith) (omega arith)

abbrev command : ℕ → ℕ → Command
command row col = record { row = row; col = col }

abbrev two_streams : Dict ℕ (List Command)
two_streams = (0, command 1 0 ∷ []) ∷ (2, command 1 0 ∷ command 4 3 ∷ []) ∷ []

of_channel-interleave_example : of_channel 2 (interleave two_streams) ≡ or_empty (get 2 two_streams)
of_channel-interleave_example = of_channel-interleave 2 two_streams (omega arith)

abbrev controllers : Node
controllers = items (
    cons (dict (entry "row_hits" (number 3) (entry "cycles" (number 9) empty)))
      (cons (dict (entry "row_hits" (number 4) empty)) nil))

collect-combined_example :
    ((collect controllers).out row_hits ≡ 7)
    × ((collect controllers).out row_misses ≡ 0)
    × ((collect controllers).out row_conflicts ≡ 0)
    × ((collect controllers).out num_read_reqs ≡ 0)
    × ((collect controllers).out cycles ≡ 9)
    × ((collect controllers).found row_hits ≡ true)
    × ((collect controllers).found row_misses ≡ false)
    × ((collect controllers).found row_conflicts ≡ false)
    × ((collect controllers).found num_read_reqs ≡ false)
    × ((collect controllers).found cycles ≡ true)
unfolding numbers
collect-combined_example = collect-combined controllers

abbrev layout : Layout
layout = scheme_fields small host_cacheline

abbrev places : List Coords
places = map (λ lin. map_fields layout lin 0 zeros zeros) (4 ∷ 5 ∷ 6 ∷ 7 ∷ 0 ∷ 1 ∷ [])

command_stream-count_example :
    (r : Counts) × (out : List (ℕ × Command)) × (sequence_metrics tally_keys 4 window 3
        (map (to_burst small) places)
      ≡ ok r)
    × (command_stream tally_keys insertion (1 ∷ 0 ∷ []) 3 small tiny_shape 2 layout 3 window
        ≡ ok out)
    × (length out ≡ r.n_cmds)
unfolding enumerate_bursts burst_address map_addr
command_stream-count_example =
    command_stream-count insertion-IsSorting small window 3 (omega arith) (1 ∷ 0 ∷ []) 3 tiny_shape
      2 layout places refl

stream-length_example :
    (r : Counts) × (out : List Command) × (coalesce_channel tally_keys 4 window 3 bursts ≡ ok r)
    × (coalesce_channel_stream insertion 4 window 3 bursts ≡ ok out)
    × (length out ≡ r.n_cmds)
stream-length_example = stream-length insertion-IsSorting 4 window 3 bursts (omega arith)

abbrev small_job : Job
small_job = record {
  settings =
      ("dram", word "hbm3-pim")
      ∷ ("workload", word "steady")
      ∷ ("allocator", word "paged")
      ∷ ("seed", number 3)
      ∷ [];
  kwargs = [];
}

cell_name-unnamed_example :
    (cell_name (record small_job { settings = put "dram" (number 7) small_job.settings })
      ≡ cell_name small_job)
    × (cell_name (record small_job { settings = put "pool_blocks" (number 7) small_job.settings })
        ≡ cell_name small_job)
    × (cell_name (record small_job { settings = put "window" (number 7) small_job.settings })
        ≡ cell_name small_job)
    × (cell_name (record small_job { settings = put "sample_every" (number 7) small_job.settings })
        ≡ cell_name small_job)
    × (cell_name (record small_job { settings = put "sample_seqs" (number 7) small_job.settings })
        ≡ cell_name small_job)
    × ((cell_name
          (record small_job { settings = put "workload" (number 7) small_job.settings })).workload
        ≡ ok (number 7))
    × ((cell_name
          (record small_job { settings = put "allocator" (number 7) small_job.settings })).allocator
        ≡ ok (number 7))
    × ((cell_name
          (record small_job { settings = put "addrmap" (number 7) small_job.settings })).addrmap
        ≡ ok (number 7))
    × ((cell_name (record small_job {
      settings = put "block_tokens" (number 7) small_job.settings;
    })).block_tokens
        ≡ ok (number 7))
    × ((cell_name (record small_job { settings = put "seed" (number 7) small_job.settings })).seed
        ≡ ok (number 7))
cell_name-unnamed_example = cell_name-unnamed small_job (number 7)
