-- ===== src/Sim/Frames.antt =====
-- The frame-affine policy and the contiguous oracle, as the simulator calls them.
use chip_hackathon_f.Prelude.{
  ℕ, ◌≤◌, ◌≡◌, refl, none, ap, ◌∙◌, true, false, [], ◌∷◌, ◌++◌, length, arith,
}
use chip_hackathon_f.Dict.{get}
use chip_hackathon_f.Exec.{attribute_error, not_implemented, err, raise, Returns, Returns-mono}
use chip_hackathon_f.Alloc
use chip_hackathon_f.Alloc.{SeqId, Policy, Pool, num_live, seq_id_eq}
use chip_hackathon_f.Alloc.Admission.{Admitted, append_block-Returns}
use chip_hackathon_f.Alloc.Conservation.{table_in_range, assert_conservation-ok}
use chip_hackathon_f.Contiguous
use chip_hackathon_f.Contiguous.{SpanState}
use chip_hackathon_f.Pim.{PimState, policy, num_free}
use chip_hackathon_f.Pim.Methods.{admit, admit_shared, alloc_scratch, release}
use chip_hackathon_f.Pim.Contract.{Lawful-pim}
use chip_hackathon_f.Pim.Planning.{plan_frames-Unmoved}
use chip_hackathon_f.Pim.Admission.{planned, planned-Inv, admit_planned, release_plain}
use chip_hackathon_f.Sim.{Operations}
use chip_hackathon_f.Sim.Contract.{Serves}
use chip_hackathon_f.Sim.Base.{
  get_table, Tidy, put-Tidy, erased_Tidy, all_free, Admission-Returns, get-erase_self,
  get-erase_other, put_here, put_there,
}

abbrev pub pim_operations : Operations (Pool PimState)
pim_operations = record {
  num_blocks = λ s. s.num_blocks;
  num_free = λ s. policy.num_free s.placement;
  num_live = num_live;
  supports_sharing = true;
  persistent_scratch = false;
  get_table = get_table;
  admit = admit;
  admit_shared = admit_shared;
  append_block = Alloc.append_block policy;
  take_scratch = λ k n. raise attribute_error;
  alloc_scratch = alloc_scratch;
  spec_round_adopt = Alloc.spec_round_adopt policy;
  unref_blocks = Alloc.unref_blocks policy;
  release = release;
  assert_conservation = Alloc.assert_conservation policy;
}

-- The oracle has no `_alloc_one` and no `_free_one` of its own.
abbrev pub no_hooks : Policy SpanState
no_hooks = record {
  alloc_one = λ k p. (err not_implemented, p);
  free_one = λ b p. (err not_implemented, p);
  num_free = Contiguous.num_free;
}

abbrev pub contiguous_operations : Operations (Pool SpanState)
contiguous_operations = record {
  num_blocks = λ s. s.num_blocks;
  num_free = λ s. Contiguous.num_free s.placement;
  num_live = num_live;
  supports_sharing = false;
  persistent_scratch = true;
  get_table = get_table;
  admit = Contiguous.admit;
  admit_shared = Contiguous.admit_shared;
  append_block = Contiguous.append_block;
  take_scratch = Contiguous.take_scratch;
  alloc_scratch = Alloc.alloc_scratch no_hooks;
  spec_round_adopt = Alloc.spec_round_adopt no_hooks;
  unref_blocks = Contiguous.unref_blocks;
  release = Contiguous.release;
  assert_conservation = Contiguous.assert_conservation;
}

module _ (size : ℕ) where
  pub free-le-size :
      (s : Pool PimState) → Tidy (Lawful-pim size 0) s → policy.num_free s.placement ≤ size
  free-le-size s v = omega (arith, v.inv.whole)

  pub planned-Tidy :
      (k : SeqId) (n : ℕ) (s : Pool PimState)
      → Tidy (Lawful-pim size 0) s
      → Tidy (Lawful-pim size 0) (planned k n s)
  planned-Tidy k n s v = record { inv = planned-Inv size 0 [] k n s v.inv; one_table = v.one_table }

  pub planned_free :
      (k : SeqId) (n : ℕ) (s : Pool PimState)
      → Tidy (Lawful-pim size 0) s
      → policy.num_free (planned k n s).placement ≡ policy.num_free s.placement
  unfolding Lawful-pim num_free
  planned_free k n s v = (plan_frames-Unmoved size 0 k n s.placement v.inv.valid).same_free

  pub planned_now :
      (k : SeqId) (n total : ℕ) (s : Pool PimState)
      → Tidy (Lawful-pim size 0) s
      → get k s.tables ≡ none
      → n ≤ policy.num_free s.placement
      → Returns
          (λ bs t. Admitted (Lawful-pim size 0) [] k [] n (planned k n s) bs t)
          (admit k n total s)
  planned_now k n total s v e h =
      Admission-Returns (Lawful-pim size 0) k n (planned k n s) e
        (omega (arith, h, planned_free k n s v)) (admit_planned size 0 [] k n total s v.inv).1

-- Without compaction, the frame-affine policy does what the simulator relies on.
unfoldable pub serves_frames : (size : ℕ) → Serves pim_operations
unfolding get_table
serves_frames size = record {
  Good = Tidy (Lawful-pim size 0);
  table = λ k s. get k s.tables;
  blocks = size;
  sized = λ s v. v.inv.sized;
  within = λ s v. free-le-size size s v;
  emptied = λ s v none_left. all_free (Lawful-pim size 0) s v none_left;
  ranges = λ k t s b v e h. table_in_range (Lawful-pim size 0) [] s k t b v.inv e h;
  audits = λ s v. assert_conservation-ok (Lawful-pim size 0) [] s v.inv;
  reads = λ k t s e. rw e;
  releases = λ k t s v e.
      Returns-mono (release_plain size 0 [] k t s refl v.inv e) λ _ u (inv, tables, no_less). (
        erased_Tidy (Lawful-pim size 0) k s u v inv tables,
        no_less,
        ap (get k) tables ∙ get-erase_self k s.tables (v.one_table k),
        λ j d. ap (get j) tables ∙ get-erase_other k j s.tables d,
      );
  admits = λ k n total s v fresh h. Returns-mono (planned_now size k n total s v fresh h) λ bs u a.
      (
        put-Tidy (Lawful-pim size 0) k bs (planned k n s) u (planned-Tidy size k n s v) a.inv
            a.written,
        a.fewer ∙ planned_free size k n s v,
        ap length a.laid_out ∙ a.many,
        put_here k bs s.tables u.tables a.written,
        λ j. put_there k j bs s.tables u.tables a.written,
      );
  appends = λ k t s v e h.
      Returns-mono (append_block-Returns (Lawful-pim size 0) [] k t s v.inv e h)
        λ b u (inv, tables, was_free, fewer). (
          put-Tidy (Lawful-pim size 0) k (t ++ b ∷ []) s u v inv tables,
          fewer,
          put_here k (t ++ b ∷ []) s.tables u.tables tables,
          λ j. put_there k j (t ++ b ∷ []) s.tables u.tables tables,
        );
}
