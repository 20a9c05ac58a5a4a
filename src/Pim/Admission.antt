-- ===== src/Pim/Admission.antt =====
-- The overridden methods keep the contract of the base class.
use chip_hackathon_f.Prelude.{
  ℕ, zero, ◌+◌, ◌*◌, ◌/◌, ◌%◌, ◌≤◌, ◌<◌, ◌≡◌, refl, ap, Bool, true, false, some, List, [], arith,
  leb, ltb, nat_beq, ◌&&◌, indicator, count, count-append, length, length-range_from, range,
  range_from, suc,
}
use chip_hackathon_f.Dict.{get, erase, weight, weight-erase}
use chip_hackathon_f.Dict.Weights.{is_key}
use chip_hackathon_f.Exec.{ok, Returns, returns, Returns-continue}
use chip_hackathon_f.Alloc.{SeqId, seq_id_eq, Pool, new_pool}
use chip_hackathon_f.Alloc.Invariant.{Inv}
use chip_hackathon_f.Alloc.Loops.{AllocatedMany}
use chip_hackathon_f.Alloc.Admission.{
  Admission, Admitted, admit-Admission, admit_shared-Admission, alloc_scratch-Returns,
}
use chip_hackathon_f.Alloc.Conservation.{new_pool-Inv, placement-Inv}
use chip_hackathon_f.Alloc.Teardown.{release-Returns}
use chip_hackathon_f.Pim.{PimState, PlanMode, plan_frames, num_free, init, init_state, fresh_frames}
use chip_hackathon_f.Pim.Frames.{blocks_at, free_blocks, room, strays}
use chip_hackathon_f.Pim.Valid.{plan_strays, frame_stray}
use chip_hackathon_f.Pim.Contract.{Lawful-pim}
use chip_hackathon_f.Pim.Planning.{plan_frames-Unmoved}
use chip_hackathon_f.Pim.Methods.{admit, admit_shared, alloc_scratch, forget, release, scratch_key}

-- The pool after the plan, with no block allocated yet.
abbrev pub planned : SeqId → ℕ → Pool PimState → Pool PimState
planned k n s = record s { placement = plan_frames k n s.placement }

module _ (size c : ℕ) where
  pub planned-Inv :
      (held : List ℕ) (k : SeqId) (n : ℕ) (s : Pool PimState)
      → Inv (Lawful-pim size c) held s
      → Inv (Lawful-pim size c) held (planned k n s)
  unfolding Lawful-pim num_free
  planned-Inv held k n s v =
      let u = plan_frames-Unmoved size c k n s.placement v.valid in
      placement-Inv (Lawful-pim size c) held s (plan_frames k n s.placement) v u.valid
        (λ b. rw (u.same_frames, u.same_size)) u.same_free

  -- In a pool that satisfies the invariant, planning keeps it, and the planning `admit` then refuses as
  -- the base method does and leaves the planned pool, or returns n blocks that were free as the table
  -- of the sequence and keeps the invariant.
  pub admit_planned :
      (held : List ℕ) (k : SeqId) (n total : ℕ) (s : Pool PimState)
      → Inv (Lawful-pim size c) held s
      → Inv (Lawful-pim size c) held (planned k n s)
        × Admission
            (Lawful-pim size c)
            k
            n
            (planned k n s)
            (λ bs t. Admitted (Lawful-pim size c) held k [] n (planned k n s) bs t)
            (admit k n total s)
  unfolding admit
  admit_planned held k n total s v =
      let v' = planned-Inv held k n s v in
      (v', admit-Admission (Lawful-pim size c) held k n total (planned k n s) v')

  -- In a pool that satisfies the invariant and where every shared block is live, planning keeps the
  -- invariant, and the planning `admit_shared` then refuses as the base method does, or writes the
  -- shared blocks and n blocks that were free as the table of the sequence and keeps the invariant.
  pub admit_shared_planned :
      (held : List ℕ) (k : SeqId) (shared : List ℕ) (n total : ℕ) (s : Pool PimState)
      → Inv (Lawful-pim size c) held s
      → ((x : ℕ) → 0 < count x shared → 0 < weight (is_key x) s.refcount)
      → Inv (Lawful-pim size c) held (planned k n s)
        × Admission
            (Lawful-pim size c)
            k
            n
            (planned k n s)
            (λ bs t. Admitted (Lawful-pim size c) held k shared n (planned k n s) bs t)
            (admit_shared k shared n total s)
  unfolding admit_shared
  admit_shared_planned held k shared n total s v live =
      let v' = planned-Inv held k n s v in
      (v', admit_shared-Admission (Lawful-pim size c) held k shared n total (planned k n s) v' live)

  -- In a pool that satisfies the invariant, with at least n free blocks, `alloc_scratch` returns n
  -- blocks that were free, whichever affinity domain they are drawn from: no table is changed, the
  -- caller holds the blocks, and the invariant holds.
  pub scratch-Returns :
      (held : List ℕ) (k : SeqId) (n : ℕ) (s : Pool PimState)
      → Inv (Lawful-pim size c) held s
      → n ≤ s.placement.nfree
      → Returns (λ bs t. AllocatedMany (Lawful-pim size c) held s n bs t) (alloc_scratch k n s)
  unfolding alloc_scratch num_free
  scratch-Returns held k n s v h =
      alloc_scratch-Returns (Lawful-pim size c) held (scratch_key s.placement.segregate_scratch k) n
        s v h

  forget-Inv :
      (held : List ℕ) (k : SeqId) (s : Pool PimState)
      → Inv (Lawful-pim size c) held s
      → Inv (Lawful-pim size c) held (record s { placement = forget k s.placement })
  unfolding Lawful-pim num_free forget
  forget-Inv held k s v =
      placement-Inv (Lawful-pim size c) held s (forget k s.placement) v
        (record {
          some_slots = v.valid.some_slots;
          setting = v.valid.setting;
          frames = v.valid.frames;
          covers = v.valid.covers;
          totals = v.valid.totals;
          planned = omega (
            arith,
            v.valid.planned,
            weight-erase (plan_strays s.placement.n_frames) k s.placement.plans,
          );
          affine = omega (
            arith,
            v.valid.affine,
            weight-erase (frame_stray s.placement.n_frames) k s.placement.affinity,
          );
          heap = v.valid.heap;
        })
        (λ b. refl) refl

  -- In a pool that satisfies the invariant, and without compaction, `release` of a sequence that has a
  -- table returns, forgets the table, takes no free block and keeps the invariant.
  pub release_plain :
      (held : List ℕ) (k : SeqId) (table : List ℕ) (s : Pool PimState)
      → c ≡ 0
      → Inv (Lawful-pim size c) held s
      → get k s.tables ≡ some table
      → Returns
          (λ _ t.
            Inv (Lawful-pim size c) held t
            × (t.tables ≡ erase k s.tables)
            × (num_free s.placement ≤ num_free t.placement))
          (release k s)
  unfolding release Lawful-pim num_free forget
  release_plain held k table s off v e =
      Returns-continue _ (release-Returns (Lawful-pim size c) held k table s v e)
        λ _ t (inv, same, no_less).
          let e' : ltb 0 t.placement.compact_num ≡ false = ground (arith, inv.valid.setting) in
          rw e' (returns (forget-Inv held k t inv, same, no_less))

count-blocks_at :
    (g f x lo n : ℕ)
    → count x (blocks_at g f (range_from lo n))
      ≡ indicator (leb (f * g + lo) x && ltb x (f * g + lo + n))
count-blocks_at g f x lo zero = ground arith
count-blocks_at g f x lo (suc n) = ground (arith, count-blocks_at g f x (suc lo) n)

count-fresh :
    (g f x n : ℕ)
    → count x (free_blocks g f (fresh_frames g n))
      ≡ indicator (leb (f * g) x && ltb x (f * g + n * g))
count-fresh g f x zero = ground arith
count-fresh g f x (suc n) = ground (
  arith,
  count-append x (blocks_at g f (range g)) (free_blocks g (suc f) (fresh_frames g n)),
  count-blocks_at g f x 0 g,
  count-fresh g (suc f) x n,
)

length-fresh : (g n : ℕ) → length (fresh_frames g n) ≡ n
length-fresh g zero = refl
length-fresh g (suc n) = ap suc (length-fresh g n)

room-fresh : (g n : ℕ) → room (fresh_frames g n) ≡ n * g
room-fresh g zero = omega arith
room-fresh g (suc n) = omega (arith, room-fresh g n, length-range_from 0 g)

strays-range : (n lo m : ℕ) → lo + m ≤ n → strays n (range_from lo m) ≡ 0
strays-range n lo zero h = refl
strays-range n lo (suc m) h = ground (arith, strays-range n (suc lo) m)

pub init_state-Inv :
    (n g : ℕ) (segregate : Bool) (mode : PlanMode) (num den : ℕ)
    → 0 < g
    → n % g ≡ 0
    → Inv (Lawful-pim n num) [] (new_pool n (init_state n g segregate mode num den))
unfolding num_free Lawful-pim init_state
init_state-Inv n g segregate mode num den pos whole =
    let covers : n / g * g ≡ n = omega arith in
    new_pool-Inv (Lawful-pim n num) (init_state n g segregate mode num den)
      (record {
        some_slots = pos;
        setting = refl;
        frames = length-fresh g (n / g);
        covers = covers;
        totals = omega (arith, room-fresh g (n / g));
        planned = refl;
        affine = refl;
        heap = strays-range (n / g) 0 (n / g) (omega arith);
      })
      (λ b. ground (arith, count-fresh g 0 b (n / g), covers)) refl

-- A pool that is a whole number of non-empty frames is accepted by the constructor, and the pool that it makes
-- satisfies the invariant.
pub init_pim-Inv :
    (n g : ℕ) (segregate : Bool) (mode : PlanMode) (num den : ℕ)
    → 0 < g
    → n % g ≡ 0
    → (s : Pool PimState) × (init n g segregate mode num den ≡ ok s) × Inv (Lawful-pim n num) [] s
unfolding init
init_pim-Inv n g segregate mode num den pos whole =
    let exact : nat_beq (n % g) 0 ≡ true = ground arith in
    (
      new_pool n (init_state n g segregate mode num den),
      rw exact,
      init_state-Inv n g segregate mode num den pos whole,
    )
