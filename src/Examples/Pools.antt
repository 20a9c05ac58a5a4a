-- ===== src/Examples/Pools.antt =====
-- A paged pool of eight blocks, with one sequence of two blocks.
use chip_hackathon_f.Alloc.RoundTrip.{release_undoes_admit}
use chip_hackathon_f.Sim.Speculation.{branch_blocks, kept_blocks}
use chip_hackathon_f.Sim.Speculation.Adoption.{adoption_is_exact}
use chip_hackathon_f.Prelude.{
  ℕ, ◌+◌, ◌≤◌, ◌<◌, ◌≡◌, refl, true, some, List, [], ◌∷◌, ◌++◌, arith, nat_eq, count, take, ◌==◌,
  if◌then◌else◌, length, false, none,
}
use mathlib.Core.List.{flatten}
use chip_hackathon_f.Dict.{get, put, erase, weight}
use chip_hackathon_f.Dict.Weights.{is_key}
use chip_hackathon_f.Exec.{ok, Returns, returns, continue}
use chip_hackathon_f.Alloc.{
  SeqId, seq, seq_id_eq, Pool, new_pool, pop_last, alloc, alloc_many, admit, admit_shared,
  append_block, alloc_scratch, spec_round_adopt, release, seq_id_beq,
}
use chip_hackathon_f.Alloc.Invariant.{Inv, uses}
use chip_hackathon_f.Alloc.Loops.{AllocatedMany}
use chip_hackathon_f.Alloc.Admission.{
  Admission, admitted, Admitted, admit-Admission, admit_shared-Admission, append_block-Returns,
  alloc_scratch-Returns,
}
use chip_hackathon_f.Alloc.Teardown.{release-Returns, spec_round_adopt-Returns}
use chip_hackathon_f.Alloc.Paged.{policy, init, alloc_one, num_free, Lawful-paged, init_paged-Inv}

admission-Q :
    {n : ℕ} {k : SeqId} {s t : Pool (List ℕ)} {Q : List ℕ → Pool (List ℕ) → Type 0} {bs : List ℕ}
    → Admission (Lawful-paged 8) k n s Q (ok bs, t)
    → Q bs t
admission-Q (admitted _ _ q) = q

returns-Q : {A S : Type 0} {Q : A → S → Type 0} {a : A} {s : S} → Returns Q (ok a, s) → Q a s
returns-Q (returns q) = q

abbrev two_blocks : Pool (List ℕ)
two_blocks = (admit policy (seq 0) 2 3 (init 8)).1

two_blocks-Inv : Inv (Lawful-paged 8) [] two_blocks
unfolding admit alloc_many alloc init new_pool alloc_one num_free pop_last get put
two_blocks-Inv =
    (admission-Q (admit-Admission (Lawful-paged 8) [] (seq 0) 2 3 (init 8) (init_paged-Inv 8))).inv

two_blocks_table : get (seq 0) two_blocks.tables ≡ some (7 ∷ 6 ∷ [])
unfolding admit alloc_many alloc init new_pool alloc_one num_free pop_last get put
two_blocks_table = refl

admit-Admission_example :
    Admission
      (Lawful-paged 8)
      (seq 0)
      2
      (init 8)
      (λ bs t. Admitted (Lawful-paged 8) [] (seq 0) [] 2 (init 8) bs t)
      (admit policy (seq 0) 2 3 (init 8))
admit-Admission_example =
    admit-Admission (Lawful-paged 8) [] (seq 0) 2 3 (init 8) (init_paged-Inv 8)

shared_is_live : (x : ℕ) → 0 < count x (7 ∷ []) → 0 < weight (is_key x) two_blocks.refcount
unfolding admit alloc_many alloc init new_pool alloc_one num_free pop_last get put
shared_is_live x h = ground (arith, h)

admit_shared-Admission_example :
    Admission
      (Lawful-paged 8)
      (seq 1)
      1
      two_blocks
      (λ bs t. Admitted (Lawful-paged 8) [] (seq 1) (7 ∷ []) 1 two_blocks bs t)
      (admit_shared policy (seq 1) (7 ∷ []) 1 2 two_blocks)
admit_shared-Admission_example =
    admit_shared-Admission (Lawful-paged 8) [] (seq 1) (7 ∷ []) 1 2 two_blocks two_blocks-Inv
      shared_is_live

two_blocks_room : 0 < num_free two_blocks.placement
unfolding admit alloc_many alloc init new_pool alloc_one num_free pop_last get put
two_blocks_room = omega arith

append_block-Returns_example :
    Returns
      (λ b t.
        Inv (Lawful-paged 8) [] t
        × (t.tables ≡ put (seq 0) ((7 ∷ 6 ∷ []) ++ b ∷ []) two_blocks.tables)
        × (weight (is_key b) two_blocks.refcount ≡ 0)
        × (num_free t.placement + 1 ≡ num_free two_blocks.placement))
      (append_block policy (seq 0) two_blocks)
append_block-Returns_example =
    append_block-Returns (Lawful-paged 8) [] (seq 0) (7 ∷ 6 ∷ []) two_blocks two_blocks-Inv
      two_blocks_table two_blocks_room

release-Returns_example :
    Returns
      (λ _ t.
        Inv (Lawful-paged 8) [] t
        × (t.tables ≡ erase (seq 0) two_blocks.tables)
        × (num_free two_blocks.placement ≤ num_free t.placement))
      (release policy (seq 0) two_blocks)
release-Returns_example =
    release-Returns (Lawful-paged 8) [] (seq 0) (7 ∷ 6 ∷ []) two_blocks two_blocks-Inv
      two_blocks_table

two_blocks_free : 1 ≤ num_free two_blocks.placement
two_blocks_free = two_blocks_room

abbrev one_branch : Pool (List ℕ)
one_branch = (alloc_scratch policy (seq 0) 1 two_blocks).1

one_branch-Inv : Inv (Lawful-paged 8) (5 ∷ []) one_branch
unfolding admit alloc_many alloc init new_pool alloc_one num_free pop_last get put alloc_scratch
one_branch-Inv = (returns-Q alloc_scratch-Returns_example').inv
  where
    alloc_scratch-Returns_example' :
        Returns
          (λ bs t. AllocatedMany (Lawful-paged 8) [] two_blocks 1 bs t)
          (alloc_scratch policy (seq 0) 1 two_blocks)
    alloc_scratch-Returns_example' =
        alloc_scratch-Returns (Lawful-paged 8) [] (seq 0) 1 two_blocks two_blocks-Inv
          two_blocks_free

one_branch_free : 1 ≤ num_free one_branch.placement
unfolding admit alloc_many alloc init new_pool alloc_one num_free pop_last get put alloc_scratch
one_branch_free = omega arith

abbrev two_branches : Pool (List ℕ)
two_branches = (alloc_scratch policy (seq 0) 1 one_branch).1

two_branches-Inv : Inv (Lawful-paged 8) (4 ∷ 5 ∷ []) two_branches
unfolding admit alloc_many alloc init new_pool alloc_one num_free pop_last get put alloc_scratch
two_branches-Inv =
    (returns-Q (
      alloc_scratch-Returns (Lawful-paged 8) (5 ∷ []) (seq 0) 1 one_branch one_branch-Inv
        one_branch_free)).inv

two_branches_table : get (seq 0) two_branches.tables ≡ some (7 ∷ 6 ∷ [])
unfolding admit alloc_many alloc init new_pool alloc_one num_free pop_last get put alloc_scratch
two_branches_table = refl

spec_round_adopt-Returns_example :
    Returns
      (λ _ t.
        Inv (Lawful-paged 8) [] t
        × ((j : SeqId)
            → get j t.tables ≡ (
                if seq 0 == j
                then some ((7 ∷ []) ++ take 1 (4 ∷ []))
                else get j two_branches.tables)))
      (spec_round_adopt policy (seq 0) true 0 1 ((4 ∷ []) ∷ (5 ∷ []) ∷ []) two_branches)
unfolding flatten pop_last
spec_round_adopt-Returns_example =
    spec_round_adopt-Returns (Lawful-paged 8) true [] (seq 0) 0 1 ((4 ∷ []) ∷ (5 ∷ []) ∷ [])
      (7 ∷ 6 ∷ []) (7 ∷ []) (4 ∷ []) two_branches two_branches-Inv two_branches_table refl (6, refl)

adoption_is_exact_example :
    Returns
      (λ _ t.
        Inv (Lawful-paged 8) [] t
        × ((new : List ℕ) × (get (seq 0) t.tables ≡ some new) × (length new ≡ 2))
        × ((j : SeqId) → seq_id_beq (seq 0) j ≡ false → get j t.tables ≡ get j two_branches.tables))
      (spec_round_adopt policy (seq 0) true 0 1 ((4 ∷ []) ∷ (5 ∷ []) ∷ []) two_branches)
unfolding flatten branch_blocks kept_blocks
adoption_is_exact_example =
    adoption_is_exact (Lawful-paged 8) [] (seq 0) 0 ((4 ∷ []) ∷ (5 ∷ []) ∷ []) (7 ∷ 6 ∷ []) (4 ∷ [])
      7 1 0 4 two_branches (omega arith) (omega arith) two_branches-Inv two_branches_table refl refl
      refl

two_more : (get (seq 1) two_blocks.tables ≡ none) × (2 ≤ num_free two_blocks.placement)
unfolding admit alloc_many alloc init new_pool alloc_one num_free pop_last get put
two_more = (refl, omega arith)

release_undoes_admit_example :
    Returns
      (λ _ u.
        Inv (Lawful-paged 8) [] u
        × ((b : ℕ) → weight (uses b) u.tables ≡ weight (uses b) two_blocks.tables)
        × ((b : ℕ) → count b u.placement ≡ count b two_blocks.placement))
      (continue (λ _. release policy (seq 1)) (admit policy (seq 1) 2 3 two_blocks))
unfolding Lawful-paged
release_undoes_admit_example =
    release_undoes_admit (Lawful-paged 8) [] (seq 1) 2 3 two_blocks two_blocks-Inv two_more.0
      two_more.1
