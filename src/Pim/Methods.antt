-- ===== src/Pim/Methods.antt =====
-- The methods that PimAware overrides (pimkv/allocator.py).
use chip_hackathon_f.Prelude.{ℕ, Bool, true, false, ltb, List}
use chip_hackathon_f.Dict.{erase}
use chip_hackathon_f.Exec.{ok, Exec, pure, ◌>>◌}
use chip_hackathon_f.Alloc
use chip_hackathon_f.Alloc.{SeqId, scratch, seq_id_eq, Pool}
use chip_hackathon_f.Pim.{PimState, plan_frames, policy}
use chip_hackathon_f.Pim.Compaction.{compact}

abbrev pub on_placement : (PimState → PimState) → Exec (Pool PimState) (Unit {0})
on_placement f s = (ok tt, record s { placement = f s.placement })

unfoldable pub admit : SeqId → ℕ → ℕ → Exec (Pool PimState) (List ℕ)
admit k n_prompt_blocks n_total_blocks = do
  on_placement (plan_frames k n_prompt_blocks)
  Alloc.admit policy k n_prompt_blocks n_total_blocks

unfoldable pub admit_shared : SeqId → List ℕ → ℕ → ℕ → Exec (Pool PimState) (List ℕ)
admit_shared k shared n_new n_total_blocks = do
  on_placement (plan_frames k n_new)
  Alloc.admit_shared policy k shared n_new n_total_blocks

-- The branches of all sequences draw from one affinity domain, where that is configured.
abbrev pub scratch_key : Bool → SeqId → SeqId
scratch_key true k = scratch
scratch_key false k = k

unfoldable pub alloc_scratch : SeqId → ℕ → Exec (Pool PimState) (List ℕ)
alloc_scratch k n s = Alloc.alloc_scratch policy (scratch_key s.placement.segregate_scratch k) n s

unfoldable pub forget : SeqId → PimState → PimState
forget k p = record p { affinity = erase k p.affinity; plans = erase k p.plans }

abbrev compact_if : Bool → Exec (Pool PimState) (Unit {0})
compact_if false = pure tt
compact_if true = do compact; pure tt

unfoldable pub release : SeqId → Exec (Pool PimState) (Unit {0})
unfolding forget
release k = do
  Alloc.release policy k
  on_placement (forget k)
  λ s. compact_if (ltb 0 s.placement.compact_num) s
