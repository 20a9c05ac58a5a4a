-- ===== src/Examples/Frames.antt =====
-- The frame allocator with four frames of two blocks.
use chip_hackathon_f.Prelude.{
  ℕ, ◌+◌, ◌<◌, ◌≤◌, ◌<◌, ◌≡◌, refl, true, List, [], ◌∷◌, arith, nat_eq, count,
}
use chip_hackathon_f.Dict.{get, put, weight}
use chip_hackathon_f.Dict.Weights.{is_key}
use chip_hackathon_f.Exec.{ok, Returns}
use chip_hackathon_f.Alloc
use chip_hackathon_f.Alloc.{SeqId, seq, seq_id_eq, Pool, new_pool, alloc, alloc_many}
use chip_hackathon_f.Alloc.Invariant.{Inv}
use chip_hackathon_f.Alloc.Admission.{Admission, admitted, Admitted}
use chip_hackathon_f.Pim.{
  PimState, bestfit, init_state, plan_frames, plan, choose, empties, partials, insert_slot,
  pick_frame, skip_full, pick_affine, alloc_one, num_free,
}
use chip_hackathon_f.Pim.Contract.{Lawful-pim, Picked, pick_frame-Picked, Choice}
use chip_hackathon_f.Pim.Methods.{admit}
use chip_hackathon_f.Pim.Admission.{planned, init_state-Inv, admit_planned}
use chip_hackathon_f.Factory.{pim_aware, pim, padded, make_allocator, make_allocator-pim}

admission-Q :
    {n : ℕ} {k : SeqId} {s t : Pool PimState} {Q : List ℕ → Pool PimState → Type 0} {bs : List ℕ}
    → Admission (Lawful-pim 8 0) k n s Q (ok bs, t)
    → Q bs t
admission-Q (admitted _ _ q) = q

abbrev frames : Pool PimState
frames = new_pool 8 (init_state 8 2 true bestfit 0 1)

frames-Inv : Inv (Lawful-pim 8 0) [] frames
frames-Inv = init_state-Inv 8 2 true bestfit 0 1 (omega arith) refl

admit_planned_example :
    Inv (Lawful-pim 8 0) [] (planned (seq 0) 3 frames)
    × Admission
        (Lawful-pim 8 0)
        (seq 0)
        3
        (planned (seq 0) 3 frames)
        (λ bs t. Admitted (Lawful-pim 8 0) [] (seq 0) [] 3 (planned (seq 0) 3 frames) bs t)
        (admit (seq 0) 3 5 frames)
admit_planned_example = admit_planned 8 0 [] (seq 0) 3 5 frames frames-Inv

abbrev three_blocks : Pool PimState
three_blocks = (admit (seq 0) 3 5 frames).1

three_blocks-Inv : Inv (Lawful-pim 8 0) [] three_blocks
unfolding new_pool init_state plan_frames plan choose empties partials insert_slot pick_frame
    skip_full pick_affine alloc_one num_free get put admit alloc alloc_many Alloc.admit
three_blocks-Inv = (admission-Q (admit_planned 8 0 [] (seq 0) 3 5 frames frames-Inv).1).inv

shared_is_live : (x : ℕ) → 0 < count x (0 ∷ 1 ∷ []) → 0 < weight (is_key x) three_blocks.refcount
unfolding new_pool init_state plan_frames plan choose empties partials insert_slot pick_frame
    skip_full pick_affine alloc_one num_free get put admit alloc alloc_many Alloc.admit
shared_is_live x h = ground (arith, h)

five_left : 2 ≤ three_blocks.placement.nfree
unfolding new_pool init_state plan_frames plan choose empties partials insert_slot pick_frame
    skip_full pick_affine alloc_one num_free get put admit alloc alloc_many Alloc.admit
five_left = omega arith

pick_frame-Picked_example :
    Returns
      (λ f q. Picked 8 0 three_blocks.placement f q × Choice (seq 0) three_blocks.placement f q)
      (pick_frame (seq 0) three_blocks.placement)
unfolding Lawful-pim new_pool init_state plan_frames plan choose empties partials insert_slot
    skip_full pick_affine alloc_one num_free get put admit alloc alloc_many Alloc.admit
pick_frame-Picked_example =
    pick_frame-Picked 8 0 (seq 0) three_blocks.placement three_blocks-Inv.valid
      (omega (arith, five_left))

make_allocator-pim_example :
    (s : Pool PimState) × (make_allocator {G = ℕ} 0 pim_aware 7 2 true bestfit 0 1 ≡ ok (pim s))
    × (7 ≤ padded 7 2)
    × (padded 7 2 < 7 + 2)
    × Inv (Lawful-pim (padded 7 2) 0) [] s
make_allocator-pim_example = make_allocator-pim {G = ℕ} 0 7 2 true bestfit 0 1 (omega arith)
