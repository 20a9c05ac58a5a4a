-- ===== src/Pim/Contract.antt =====
-- The frame allocator meets the contract of a placement policy.
use chip_hackathon_f.Prelude.{
  ℕ, suc, ◌+◌, ◌-◌, ◌*◌, ◌/◌, ◌%◌, ◌<◌, ◌≡◌, refl, ap, ◌∙◌, inl, inr, none, some, Option, List, [],
  ◌∷◌, arith, length, length-set, get_elem?, get_elem?-lt, lt_of_get_elem?, Option-cases, set,
  subst, sym, ◌++◌, take,
}
use chip_hackathon_f.Dict.{get, erase, weight-put, weight-erase, Dict, put}
use chip_hackathon_f.Exec.{Returns, returns, Returns-continue, Returns-mono}
use chip_hackathon_f.Alloc.{SeqId, seq_id_eq}
use chip_hackathon_f.Alloc.Invariant.{View, Taken, Given, Lawful}
use chip_hackathon_f.Pim.{
  PimState, most_free, pick_empty, pick_affine, pick_frame, by_plan, in_affine, claim, take_slot,
  push_slot, heap_push, alloc_one, free_one, num_free, policy,
}
use chip_hackathon_f.Pim.Frames.{
  room, strays, free_blocks, count-set_frame, room-set, count-heap_push, length-heap_push,
  strays-heap_push,
}
use chip_hackathon_f.Pim.Valid.{
  IsValid, HasSlot, plan_strays, frame_stray, skip_full-found, first_empty-found, most_free-some,
  AllFull, AllOpened, AllLe, AllLt,
}

-- A frame was picked: it has a slot, and no free block moved.
pub record Picked (size c : ℕ) (p : PimState) (f : ℕ) (q : PimState) : Type 0 where
  pub valid : IsValid size c q
  pub slot : HasSlot q f
  pub same_frames : q.frame_free ≡ p.frame_free
  pub same_size : q.frame_size ≡ p.frame_size
  pub same_free : q.nfree ≡ p.nfree

-- How a frame is picked without a plan, from the free slots of the frames, the affinities and the heap:
-- the frame of k's affinity while it has a slot; then the first frame of the heap that is empty, which
-- the heap loses with those before it; then, when no frame of the heap is empty any more, the frame
-- with the most free slots, the lowest of those.
pub data Unplanned (k : SeqId) (g : ℕ) (frames : List (List ℕ)) (affinity : Dict SeqId ℕ)
    (heap : List ℕ) (f : ℕ) (q : PimState) : Type 0 where
  affine :
      get k affinity ≡ some f
      → q.affinity ≡ affinity
      → q.empty_frames ≡ heap
      → Unplanned k g frames affinity heap f q
  opened :
      (passed rest free : List ℕ)
      → ((a : ℕ) → get k affinity ≡ some a → get_elem? frames a ≡ some [])
      → heap ≡ passed ++ f ∷ rest
      → AllOpened g frames passed
      → get_elem? frames f ≡ some free
      → length free ≡ g
      → q.affinity ≡ put k f affinity
      → q.empty_frames ≡ rest
      → Unplanned k g frames affinity heap f q
  fallback :
      (free : List ℕ)
      → ((a : ℕ) → get k affinity ≡ some a → get_elem? frames a ≡ some [])
      → AllOpened g frames heap
      → get_elem? frames f ≡ some free
      → AllLe (length free) frames
      → AllLt (length free) (take f frames)
      → q.affinity ≡ put k f affinity
      → q.empty_frames ≡ []
      → Unplanned k g frames affinity heap f q

-- By the plan, whose full frames are dropped, where a frame of it has a slot.
pub data Choice (k : SeqId) (p : PimState) (f : ℕ) (q : PimState) : Type 0 where
  by_its_plan :
      (full rest : List ℕ)
      → get k p.plans ≡ some (full ++ f ∷ rest)
      → AllFull p.frame_free full
      → q ≡ record p { plans = put k (f ∷ rest) p.plans }
      → Choice k p f q
  without_plan :
      ((fs : List ℕ) → get k p.plans ≡ some fs → AllFull p.frame_free fs)
      → Unplanned k p.frame_size p.frame_free p.affinity p.empty_frames f q
      → Choice k p f q

has_slot :
    (p : PimState) (f : ℕ) (free : List ℕ)
    → get_elem? p.frame_free f ≡ some free
    → 0 < length free
    → HasSlot p f
has_slot p f [] e h = absurd (omega arith)
has_slot p f (off ∷ offs) e h = record { off = off; offs = offs; found = e }

module _ (size c : ℕ) where
  abbrev Found : SeqId → PimState → ℕ → PimState → Type 0
  Found k p f q =
      Picked size c p f q × Unplanned k p.frame_size p.frame_free p.affinity p.empty_frames f q

  -- A claim of a frame that has a slot, over what is left of the heap.
  claim-Picked :
      (k : SeqId) (f : ℕ) (heap : List ℕ) (p : PimState)
      → IsValid size c p
      → strays p.n_frames heap ≡ 0
      → f < p.n_frames
      → HasSlot p f
      → Returns
          (λ j q.
            Picked size c p j q
            × ((j ≡ f) × (q.affinity ≡ put k f p.affinity) × (q.empty_frames ≡ heap)))
          (claim k f (record p { empty_frames = heap }))
  claim-Picked k f heap p v h lt slot = returns (
    (record {
      valid = record {
        some_slots = v.some_slots;
        setting = v.setting;
        frames = v.frames;
        covers = v.covers;
        totals = v.totals;
        planned = v.planned;
        affine = ground (arith, v.affine, weight-put (frame_stray p.n_frames) k f p.affinity);
        heap = h;
      };
      slot = record { off = slot.off; offs = slot.offs; found = slot.found };
      same_frames = refl;
      same_size = refl;
      same_free = refl;
    }),
    (refl, refl, refl),
  )

  pick_empty-Picked :
      (k : SeqId) (p : PimState)
      → IsValid size c p
      → 0 < p.nfree
      → ((a : ℕ) → get k p.affinity ≡ some a → get_elem? p.frame_free a ≡ some [])
      → Returns (λ f q. Found k p f q) (pick_empty k p)
  unfolding pick_empty
  pick_empty-Picked k p v h none_left =
      elim (first_empty-found p.n_frames p.frame_size p.frame_free p.empty_frames v.some_slots
        v.frames v.heap) [
          | inl (e, used) ↦
              let m = most_free-some p.frame_free (omega (arith, v.totals)) in
              let found : most_free 0 p.frame_free none 0 ≡ some m.frame =
                m.found ∙ ap some (omega arith) in
              rw (e, found)
                (Returns-mono
                  (claim-Picked k m.frame [] p v refl
                    (omega (arith, v.frames, lt_of_get_elem? p.frame_free m.frame m.at))
                    (has_slot p m.frame m.free m.at m.beats))
                  λ j q (x, (same, a, b)). (
                    x,
                    subst (λ i. Unplanned k p.frame_size p.frame_free p.affinity p.empty_frames i q)
                        (sym same) (fallback m.free none_left used m.at m.most m.lowest a b),
                  ))
          | inr r ↦ rw r.left (
              Returns-mono
                (claim-Picked k r.frame r.heap p v (ground (arith, r.inside))
                  (omega (arith, v.frames, lt_of_get_elem? p.frame_free r.frame r.at))
                  (has_slot p r.frame r.free r.at (omega (arith, v.some_slots, r.whole))))
                λ j q (x, (same, a, b)). (
                  x,
                  subst (λ i. Unplanned k p.frame_size p.frame_free p.affinity p.empty_frames i q)
                      (sym same)
                      (opened r.passed r.heap r.free none_left r.split r.all_opened r.at r.whole a
                        b),
                ))
        ]

  in_affine-Picked :
      (k : SeqId) (f : ℕ) (free : List ℕ) (p : PimState)
      → IsValid size c p
      → 0 < p.nfree
      → get k p.affinity ≡ some f
      → get_elem? p.frame_free f ≡ some free
      → Returns (λ f q. Found k p f q) (in_affine k f (some free) p)
  in_affine-Picked k f [] p v h own e = pick_empty-Picked k p v h (λ a same.
      subst (λ i. get_elem? p.frame_free i ≡ some []) {x = f} (ground (arith, own, same)) e)
  in_affine-Picked k f (off ∷ offs) p v h own e = returns (
    (record {
      valid = v;
      slot = record { off = off; offs = offs; found = e };
      same_frames = refl;
      same_size = refl;
      same_free = refl;
    }),
    affine own refl refl,
  )

  pick_affine-Picked :
      (k : SeqId) (p : PimState)
      → IsValid size c p
      → 0 < p.nfree
      → Returns (λ f q. Found k p f q) (pick_affine k p)
  unfolding pick_affine
  pick_affine-Picked k p v h = elim (Option-cases (get k p.affinity)) [
    | inl e ↦ rw e (pick_empty-Picked k p v h (λ a same. absurd (ground (arith, e, same))))
    | inr (f, e) ↦
        let (free, at) = get_elem?-lt p.frame_free f (
          ground
            (arith, v.affine, v.frames, weight-erase (frame_stray p.n_frames) k p.affinity, e)) in
        rw (e, at) (in_affine-Picked k f free p v h e at)
  ]

  -- In a well-formed state with a free slot, `_pick_frame` returns a frame that has a free slot. It is
  -- the first frame of the plan with one, the full ones before it being dropped from the plan; where the
  -- plan has none, the frame of the sequence's affinity while that has a slot; otherwise the first frame
  -- of the heap that is empty, or, if there is none, the frame with the most free slots, the lowest
  -- of those, and either becomes the affinity. No slot is moved, and the state stays well formed.
  pub pick_frame-Picked :
      (k : SeqId) (p : PimState)
      → IsValid size c p
      → 0 < p.nfree
      → Returns (λ f q. Picked size c p f q × Choice k p f q) (pick_frame k p)
  unfolding pick_frame
  pick_frame-Picked k p v h = go (get k p.plans) refl
    where
      planned : (fs : List ℕ) → get k p.plans ≡ some fs → strays p.n_frames fs ≡ 0
      planned fs e = ground (arith, v.planned, weight-erase (plan_strays p.n_frames) k p.plans, e)

      go :
          (o : Option (List ℕ))
          → get k p.plans ≡ o
          → Returns (λ f q. Picked size c p f q × Choice k p f q) (by_plan k o p)
      go none e =
          Returns-mono (pick_affine-Picked k p v h)
            λ f q (x, y). (x, without_plan (λ fs same. absurd (ground (arith, e, same))) y)
      go (some []) e = Returns-mono (pick_affine-Picked k p v h) λ f q (x, y). (
        x,
        without_plan (λ fs same. subst (AllFull p.frame_free) {x = []} (ground (arith, e, same)) tt)
            y,
      )
      go (some (f ∷ fs)) e =
          elim (skip_full-found p.n_frames p.frame_free (f ∷ fs) v.frames (planned (f ∷ fs) e)) [
            | inl (s, all) ↦ rw s (
                Returns-mono
                  (pick_affine-Picked k (record p { plans = erase k p.plans })
                    (record {
                      some_slots = v.some_slots;
                      setting = v.setting;
                      frames = v.frames;
                      covers = v.covers;
                      totals = v.totals;
                      planned =
                          omega (arith, v.planned, weight-erase (plan_strays p.n_frames) k p.plans);
                      affine = v.affine;
                      heap = v.heap;
                    })
                    h)
                  λ j q (x, y). (
                    (record {
                      valid = x.valid;
                      slot = x.slot;
                      same_frames = x.same_frames;
                      same_size = x.same_size;
                      same_free = x.same_free;
                    }),
                    without_plan
                        (λ gs same.
                          subst (AllFull p.frame_free) {x = f ∷ fs} (ground (arith, e, same)) all)
                        y,
                  ))
            | inr s ↦ rw s.left (
                returns (
                  (record {
                    valid = record {
                      some_slots = v.some_slots;
                      setting = v.setting;
                      frames = v.frames;
                      covers = v.covers;
                      totals = v.totals;
                      planned = omega (
                        arith,
                        v.planned,
                        s.inside,
                        weight-put (plan_strays p.n_frames) k (s.frame ∷ s.rest) p.plans,
                      );
                      affine = v.affine;
                      heap = v.heap;
                    };
                    slot = record { off = s.off; offs = s.offs; found = s.found };
                    same_frames = refl;
                    same_size = refl;
                    same_free = refl;
                  }),
                  by_its_plan s.full s.rest (e ∙ ap some s.split) s.all_full refl,
                ))
          ]

abbrev pub view : ℕ → ℕ → View PimState
view size c = record {
  IsValid = IsValid size c;
  free = λ p. free_blocks p.frame_size 0 p.frame_free;
}

module _ (size c : ℕ) where
  take_slot-Taken :
      (p q : PimState) (f : ℕ)
      → Picked size c p f q
      → Returns (λ b r. Taken policy (view size c) p b r) (take_slot f q)
  unfolding num_free
  take_slot-Taken p q f x = rw x.slot.found (
      returns (record {
        valid = record {
          some_slots = x.valid.some_slots;
          setting = x.valid.setting;
          frames = omega (arith, x.valid.frames, length-set q.frame_free f x.slot.offs);
          covers = x.valid.covers;
          totals = omega (arith, x.valid.totals, roomier);
          planned = x.valid.planned;
          affine = x.valid.affine;
          heap = x.valid.heap;
        };
        counts = λ y.
            rw (← x.same_frames, ← x.same_size)
              (omega (
                arith,
                count-set_frame q.frame_size y 0 f f (x.slot.off ∷ x.slot.offs) x.slot.offs
                    q.frame_free (omega arith) x.slot.found,
              ));
        fewer = fewer;
      }))
    where
      roomier :
          room (set q.frame_free f x.slot.offs) + suc (length x.slot.offs)
          ≡ room q.frame_free + length x.slot.offs
      roomier = room-set f (x.slot.off ∷ x.slot.offs) x.slot.offs q.frame_free x.slot.found

      fewer : q.nfree - 1 + 1 ≡ p.nfree
      fewer = omega (arith, x.same_free, x.valid.totals, roomier)

  pub alloc_one-Taken :
      (k : SeqId) (p : PimState)
      → IsValid size c p
      → 0 < num_free p
      → Returns (λ b q. Taken policy (view size c) p b q) (alloc_one k p)
  unfolding alloc_one num_free
  alloc_one-Taken k p v h =
      Returns-continue _ (pick_frame-Picked size c k p v h) (λ f q (x, _). take_slot-Taken p q f x)

  push_slot-Given :
      (b f off : ℕ) (offs : List ℕ) (p : PimState)
      → IsValid size c p
      → get_elem? p.frame_free f ≡ some offs
      → f * p.frame_size + off ≡ b
      → Returns (λ _ q. Given policy (view size c) p b q) (push_slot f off (some offs) p)
  unfolding num_free
  push_slot-Given b f off offs p v e is_b = returns (record {
    valid = record {
      some_slots = v.some_slots;
      setting = v.setting;
      frames = omega (arith, v.frames, length-set p.frame_free f (heap_push off offs));
      covers = v.covers;
      totals = omega (
        arith,
        v.totals,
        room-set f offs (heap_push off offs) p.frame_free e,
        length-heap_push off offs,
      );
      planned = v.planned;
      affine = v.affine;
      heap = ground (
        arith,
        v.heap,
        v.frames,
        strays-heap_push p.n_frames f p.empty_frames,
        lt_of_get_elem? p.frame_free f e,
      );
    };
    counts = λ y. rw (← is_b) (
        omega (
          arith,
          count-set_frame p.frame_size y 0 f f offs (heap_push off offs) p.frame_free (omega arith)
              e,
          count-heap_push p.frame_size f y off offs,
        ));
    more = refl;
  })

  pub free_one-Given :
      (b : ℕ) (p : PimState)
      → IsValid size c p
      → b < size
      → Returns (λ _ q. Given policy (view size c) p b q) (free_one b p)
  unfolding free_one
  free_one-Given b p v h =
      let frame_lt : b / p.frame_size < p.n_frames = grind (arith, v.covers, v.some_slots) in
      let (offs, e) = get_elem?-lt p.frame_free (b / p.frame_size) (omega (arith, v.frames)) in
      rw e (push_slot-Given b (b / p.frame_size) (b % p.frame_size) offs p v e (omega arith))

-- The frame allocator meets the contract of a placement policy.
unfoldable pub Lawful-pim : (size c : ℕ) → Lawful policy size
Lawful-pim size c = record {
  view = view size c;
  takes = alloc_one-Taken size c;
  gives = λ b p v h _. free_one-Given size c b p v h;
}
