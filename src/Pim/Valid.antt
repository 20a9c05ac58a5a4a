-- ===== src/Pim/Valid.antt =====
-- The well-formedness of a PimAware state, and the frames that `_pick_frame` finds.
use chip_hackathon_f.Prelude.{
  ℕ, suc, ◌+◌, ◌*◌, ◌≤◌, ◌<◌, ◌≡◌, refl, ap, ◌∙◌, ◌⊎◌, inl, inr, none, some, Option, List, [], ◌∷◌,
  arith, leb, ltb, nat_beq, indicator, length, get_elem?, get_elem?-lt, take, Bool-cases, ◌++◌,
}
use chip_hackathon_f.Dict.{weight}
use chip_hackathon_f.Alloc.{SeqId, seq_id_eq}
use chip_hackathon_f.Pim.{PimState, skip_full, first_empty, most_free}
use chip_hackathon_f.Pim.Frames.{room, strays}

abbrev pub plan_strays : ℕ → SeqId → List ℕ → ℕ
plan_strays n k fs = strays n fs

abbrev pub frame_stray : ℕ → SeqId → ℕ → ℕ
frame_stray n k f = indicator (leb n f)

-- `size` is the number of blocks, and c the numerator of the compaction threshold. Every frame number in the state names a frame.
pub record IsValid (size c : ℕ) (p : PimState) : Type 0 where
  pub some_slots : 0 < p.frame_size
  pub setting : p.compact_num ≡ c
  pub frames : length p.frame_free ≡ p.n_frames
  pub covers : p.n_frames * p.frame_size ≡ size
  pub totals : p.nfree ≡ room p.frame_free
  pub planned : weight (plan_strays p.n_frames) p.plans ≡ 0
  pub affine : weight (frame_stray p.n_frames) p.affinity ≡ 0
  pub heap : strays p.n_frames p.empty_frames ≡ 0

-- A frame with a free slot.
pub record HasSlot (p : PimState) (f : ℕ) : Type 0 where
  pub off : ℕ
  pub offs : List ℕ
  pub found : get_elem? p.frame_free f ≡ some (off ∷ offs)

-- Frames without a free slot.
abbrev pub AllFull : List (List ℕ) → List ℕ → Type 0
AllFull frames [] = Unit {0}
AllFull frames (f ∷ fs) = (get_elem? frames f ≡ some []) × AllFull frames fs

-- Frames of which some slot is taken, in frames of g slots.
abbrev pub AllOpened : ℕ → List (List ℕ) → List ℕ → Type 0
AllOpened g frames [] = Unit {0}
AllOpened g frames (f ∷ fs) =
    ((free : List ℕ) × (get_elem? frames f ≡ some free) × ¬ (length free ≡ g))
    × AllOpened g frames fs

-- What `skip_full` leaves starts with the first frame that has a slot.
pub record Skipped (n : ℕ) (frames : List (List ℕ)) (fs : List ℕ) : Type 0 where
  pub full : List ℕ
  pub frame : ℕ
  pub rest : List ℕ
  pub off : ℕ
  pub offs : List ℕ
  pub split : fs ≡ full ++ frame ∷ rest
  pub all_full : AllFull frames full
  pub left : skip_full frames fs ≡ some (frame ∷ rest)
  pub found : get_elem? frames frame ≡ some (off ∷ offs)
  pub inside : strays n (frame ∷ rest) ≡ 0

pub skip_full-found :
    (n : ℕ) (frames : List (List ℕ)) (fs : List ℕ)
    → length frames ≡ n
    → strays n fs ≡ 0
    → ((skip_full frames fs ≡ some []) × AllFull frames fs) ⊎ Skipped n frames fs
unfolding skip_full
skip_full-found n frames [] h e = inl (refl, tt)
skip_full-found n frames (f ∷ fs) h e =
    go (get_elem?-lt frames f (ground arith)) (skip_full-found n frames fs h (ground arith))
  where
    go :
        (x : List ℕ) × (get_elem? frames f ≡ some x)
        → ((skip_full frames fs ≡ some []) × AllFull frames fs) ⊎ Skipped n frames fs
        → ((skip_full frames (f ∷ fs) ≡ some []) × AllFull frames (f ∷ fs))
          ⊎ Skipped n frames (f ∷ fs)
    go ([], p) (inl (q, all)) = inl (rw (p, skip_full) q, (p, all))
    go ([], p) (inr r) = inr (record {
      full = f ∷ r.full;
      frame = r.frame;
      rest = r.rest;
      off = r.off;
      offs = r.offs;
      split = ap (λ xs. f ∷ xs) r.split;
      all_full = (p, r.all_full);
      left = rw (p, skip_full) r.left;
      found = r.found;
      inside = r.inside;
    })
    go (off ∷ offs, p) r = inr (record {
      full = [];
      frame = f;
      rest = fs;
      off = off;
      offs = offs;
      split = refl;
      all_full = tt;
      left = rw (p, skip_full) refl;
      found = p;
      inside = e;
    })

-- The first frame of the heap that still is empty.
pub record Opened (n g : ℕ) (frames : List (List ℕ)) (fs : List ℕ) : Type 0 where
  pub passed : List ℕ
  pub frame : ℕ
  pub heap : List ℕ
  pub free : List ℕ
  pub split : fs ≡ passed ++ frame ∷ heap
  pub all_opened : AllOpened g frames passed
  pub left : first_empty g frames fs ≡ some (some frame, heap)
  pub at : get_elem? frames frame ≡ some free
  pub whole : length free ≡ g
  pub inside : strays n (frame ∷ heap) ≡ 0

-- `first_empty` finds a frame with every slot free, or has used up the heap.
pub first_empty-found :
    (n g : ℕ) (frames : List (List ℕ)) (fs : List ℕ)
    → 0 < g
    → length frames ≡ n
    → strays n fs ≡ 0
    → ((first_empty g frames fs ≡ some (none, [])) × AllOpened g frames fs) ⊎ Opened n g frames fs
unfolding first_empty
first_empty-found n g frames [] pos h e = inl (refl, tt)
first_empty-found n g frames (f ∷ fs) pos h e =
    let (free, p) = get_elem?-lt frames f (ground arith) in
    elim (Bool-cases (nat_beq (length free) g)) [
      | inl t ↦ inr (record {
        passed = [];
        frame = f;
        heap = fs;
        free = free;
        split = refl;
        all_opened = tt;
        left = rw (p, first_empty, t) refl;
        at = p;
        whole = ground (arith, t);
        inside = e;
      })
      | inr t ↦ elim (first_empty-found n g frames fs pos h (ground arith)) [
        | inl (q, all) ↦
            inl (rw (p, first_empty, t) q, ((free, p, λ same. ground (arith, t, same)), all))
        | inr r ↦ inr (record {
          passed = f ∷ r.passed;
          frame = r.frame;
          heap = r.heap;
          free = r.free;
          split = ap (λ xs. f ∷ xs) r.split;
          all_opened = ((free, p, λ same. ground (arith, t, same)), r.all_opened);
          left = rw (p, first_empty, t) r.left;
          at = r.at;
          whole = r.whole;
          inside = r.inside;
        })
      ]
    ]

abbrev pub AllLe : ℕ → List (List ℕ) → Type 0
AllLe b [] = Unit {0}
AllLe b (free ∷ rest) = (length free ≤ b) × AllLe b rest

abbrev pub AllLt : ℕ → List (List ℕ) → Type 0
AllLt b [] = Unit {0}
AllLt b (free ∷ rest) = (length free < b) × AllLt b rest

-- A frame that beats `best_free`, with the most free slots of all and more than any below it.
pub record Roomiest (i : ℕ) (frames : List (List ℕ)) (best_free : ℕ) (r : Option ℕ) : Type 0 where
  pub frame : ℕ
  pub free : List ℕ
  pub found : r ≡ some (i + frame)
  pub at : get_elem? frames frame ≡ some free
  pub beats : best_free < length free
  pub most : AllLe (length free) frames
  pub lowest : AllLt (length free) (take frame frames)

most_free-step :
    (i : ℕ) (free : List ℕ) (rest : List (List ℕ)) (b : ℕ) {r : Option ℕ}
    → length free ≤ b
    → Roomiest (suc i) rest b r
    → Roomiest i (free ∷ rest) b r
most_free-step i free rest b h m = record {
  frame = suc m.frame;
  free = m.free;
  found = m.found ∙ ap some (omega arith);
  at = m.at;
  beats = m.beats;
  most = (omega (arith, m.beats), m.most);
  lowest = (omega (arith, m.beats), m.lowest);
}

-- The scan for the roomiest frame keeps its candidate, which no frame beats, or finds a better one.
most_free-Roomiest :
    (i : ℕ) (frames : List (List ℕ)) (best : Option ℕ) (best_free : ℕ)
    → ((most_free i frames best best_free ≡ best) × AllLe best_free frames)
      ⊎ Roomiest i frames best_free (most_free i frames best best_free)
unfolding most_free
most_free-Roomiest i [] best best_free = inl (refl, tt)
most_free-Roomiest i (free ∷ rest) best best_free =
    elim (Bool-cases (ltb best_free (length free))) [
      | inl t ↦ rw t (elim (most_free-Roomiest (suc i) rest (some i) (length free)) [
        | inl (e, all) ↦ inr (record {
          frame = 0;
          free = free;
          found = e ∙ ap some (omega arith);
          at = refl;
          beats = ground arith;
          most = (omega arith, all);
          lowest = tt;
        })
        | inr m ↦
            let m' = most_free-step i free rest (length free) (omega arith) m in
            inr (record {
              frame = m'.frame;
              free = m'.free;
              found = m'.found;
              at = m'.at;
              beats = ground (arith, m'.beats);
              most = m'.most;
              lowest = m'.lowest;
            })
      ])
      | inr t ↦ rw t (elim (most_free-Roomiest (suc i) rest best best_free) [
        | inl (e, all) ↦ inl (e, (ground arith, all))
        | inr m ↦ inr (most_free-step i free rest best_free (ground arith) m)
      ])
    ]

room-none : (frames : List (List ℕ)) → AllLe 0 frames → room frames ≡ 0
room-none [] h = refl
room-none (free ∷ rest) h = omega (arith, room-none rest h.1)

-- Where some frame has a free slot, the fallback of `_pick_frame` finds a frame with the most free
-- slots, the lowest of those.
pub most_free-some :
    (frames : List (List ℕ)) → 0 < room frames → Roomiest 0 frames 0 (most_free 0 frames none 0)
most_free-some frames h = elim (most_free-Roomiest 0 frames none 0) [
  | inl (e, all) ↦ absurd (omega (arith, room-none frames all))
  | inr m ↦ m
]
