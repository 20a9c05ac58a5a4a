-- ===== src/Sim/Sampling.antt =====
-- The sampling of `simulate` (pimkv/sim.py): `measure_seq` and the rows of a sampled step. The metrics
-- that are quotients are left out; the positions that the generator picks are an argument.
pub mod Safety
use chip_hackathon_f.Prelude.{
  ℕ, ◌*◌, ◌%◌, Option, none, some, List, [], ◌∷◌, map, nat_beq, nat_eq, if◌then◌else◌, get_elem?,
}
use chip_hackathon_f.Dict.{Dict, get}
use chip_hackathon_f.Exec.{Result, ok, err, index_error, key_error, each, and_then}
use chip_hackathon_f.Alloc.{seq}
use chip_hackathon_f.Geometry.{DramGeometry, ModelShape, banks_per_channel, kv_bytes_per_token}
use chip_hackathon_f.AddrMap.{Layout}
use chip_hackathon_f.PimModel.{Counts}
use chip_hackathon_f.PimModel.Window.{Tally, Mode}
use chip_hackathon_f.PimModel.Sequence.{sequence_metrics}
use chip_hackathon_f.Sim.{Operations, SeqState, Sim}
use chip_hackathon_f.Sim.Measure.{Diagnostics, placement_diagnostics}
use chip_hackathon_f.Sim.Simulate.{insert_id}
use chip_hackathon_f.Traces.{enumerate_bursts, to_burst}

-- The whole numbers of a row.
pub record Row : Type 0 where
  pub seq_id : ℕ
  pub seq_len : ℕ
  pub kv_bytes : ℕ
  pub n_bursts : ℕ
  pub n_cmds : ℕ
  pub n_hits : ℕ
  pub placement : Option Diagnostics

-- `sorted(active)`
unfoldable pub sorted_ids : Dict ℕ SeqState → List ℕ
unfolding insert_id
sorted_ids [] = []
sorted_ids ((rid, _) ∷ d) = insert_id rid (sorted_ids d)

-- What `measure_seq` is given of the memory, the model and the controller.
pub record Setting : Type 0 where
  pub geom : DramGeometry
  pub shape : ModelShape
  pub block_tokens : ℕ
  pub fields : Layout
  pub window : ℕ
  pub mode : Mode
  pub frame_blocks : ℕ

module _ (unique : List ℕ → List Tally) (p : Setting) where
  abbrev pub row_of : SeqState → List ℕ → Counts → Row
  row_of st table s = record {
    seq_id = st.rid;
    seq_len = st.tokens;
    kv_bytes = st.tokens * kv_bytes_per_token p.shape;
    n_bursts = s.n_bursts;
    n_cmds = s.n_cmds;
    n_hits = s.n_hits;
    placement = placement_diagnostics table p.frame_blocks;
  }

  unfoldable pub measure_seq : SeqState → List ℕ → Result Row
  unfolding placement_diagnostics
  measure_seq st table =
      and_then (enumerate_bursts table st.tokens p.geom p.shape p.block_tokens p.fields) λ ms.
        and_then
          (sequence_metrics unique (banks_per_channel p.geom) p.mode p.window
            (map (to_burst p.geom) ms))
          λ s. ok (row_of st table s)

  module _ {S : Type 0} (ops : Operations S) where
    abbrev pub measure_active : S → Option SeqState → Result Row
    measure_active alloc none = err key_error
    measure_active alloc (some st) = and_then (ops.get_table (seq st.rid) alloc).0 (measure_seq st)

    abbrev pub measure_id : Sim S → Option ℕ → Result Row
    measure_id s none = err index_error
    measure_id s (some rid) = measure_active s.alloc (get rid s.active)

    -- The rows of one step, over the picked positions in ascending order.
    unfoldable pub sample : List ℕ → Sim S → Result (List Row)
    unfolding sorted_ids measure_seq
    sample picks s = each (λ j. measure_id s (get_elem? (sorted_ids s.active) j)) picks

    unfoldable pub sample_if : ℕ → List ℕ → Sim S → Result (List Row)
    unfolding sample
    sample_if sample_every picks s =
        if nat_beq (s.t % sample_every) 0 then sample picks s else ok []
