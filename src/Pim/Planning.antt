-- ===== src/Pim/Planning.antt =====
-- `_plan_frames` names frames of the pool only, so a planned admission keeps the contract.
use chip_hackathon_f.Prelude.{
  ℕ, suc, ◌+◌, ◌≤◌, ◌≡◌, refl, inl, inr, List, [], ◌∷◌, arith, leb, ltb, nat_beq, indicator, length,
  Bool-cases, ◌&&◌, ◌||◌,
}
use chip_hackathon_f.Dict.{weight-put}
use chip_hackathon_f.Alloc.{SeqId, seq_id_eq}
use chip_hackathon_f.Pim.{
  PimState, Slot, empties, partials, insert_slot, before, whole_slots, choose, plan, plan_frames,
  is_bestfit,
}
use chip_hackathon_f.Pim.Frames.{strays, strays-append}
use chip_hackathon_f.Pim.Valid.{IsValid, plan_strays}

abbrev slot_strays : ℕ → List Slot → ℕ
slot_strays n [] = 0
slot_strays n (a ∷ rest) = indicator (leb n a.frame) + slot_strays n rest

empties-strays :
    (n g f : ℕ) (frames : List (List ℕ)) → f + length frames ≤ n → strays n (empties g f frames) ≡ 0
unfolding empties
empties-strays n g f [] h = refl
empties-strays n g f (free ∷ rest) h = ground (arith, empties-strays n g (suc f) rest)

whole_slots-strays : (n g : ℕ) (fs : List ℕ) → slot_strays n (whole_slots g fs) ≡ strays n fs
whole_slots-strays n g [] = refl
whole_slots-strays n g (f ∷ fs) = omega (arith, whole_slots-strays n g fs)

insert_slot-strays :
    (n : ℕ) (a : Slot) (bs : List Slot)
    → slot_strays n (insert_slot a bs) ≡ indicator (leb n a.frame) + slot_strays n bs
unfolding insert_slot
insert_slot-strays n a [] = refl
insert_slot-strays n a (b ∷ bs) = elim (Bool-cases (before a b)) [
  | inl t ↦ rw t
  | inr t ↦ rw t (omega (arith, insert_slot-strays n a bs))
]

partials-strays :
    (n g f : ℕ) (frames : List (List ℕ))
    → f + length frames ≤ n
    → slot_strays n (partials g f frames) ≡ 0
unfolding partials
partials-strays n g f [] h = refl
partials-strays n g f (free ∷ rest) h =
    elim (Bool-cases (nat_beq (length free) g || nat_beq (length free) 0)) [
      | inl t ↦ rw t (partials-strays n g (suc f) rest (omega arith))
      | inr t ↦ rw t (
          ground (
            arith,
            insert_slot-strays n (record { room = length free; frame = f })
                (partials g (suc f) rest),
            partials-strays n g (suc f) rest,
          ))
    ]

choose-strays :
    (m n cap : ℕ) (slots : List Slot)
    → slot_strays n slots ≡ 0
    → strays n (choose m cap slots).0 ≡ 0
unfolding choose
choose-strays m n cap [] h = refl
choose-strays m n cap (a ∷ rest) h = ground (arith, choose-strays m n (cap + a.room) rest)

plan-strays :
    (m n g : ℕ) (frames : List (List ℕ)) → length frames ≡ n → strays n (plan m g frames).0 ≡ 0
unfolding plan
plan-strays m n g frames h = omega (
  arith,
  strays-append n (choose m 0 (whole_slots g (empties g 0 frames))).0
      (choose m (choose m 0 (whole_slots g (empties g 0 frames))).1 (partials g 0 frames)).0,
  choose-strays m n 0 (whole_slots g (empties g 0 frames)) (
      omega (
        arith,
        whole_slots-strays n g (empties g 0 frames),
        empties-strays n g 0 frames (omega arith),
      )),
  choose-strays m n (choose m 0 (whole_slots g (empties g 0 frames))).1 (partials g 0 frames)
      (partials-strays n g 0 frames (omega arith)),
)

-- A plan moves no block.
pub record Unmoved (size c : ℕ) (p q : PimState) : Type 0 where
  pub valid : IsValid size c q
  pub same_frames : q.frame_free ≡ p.frame_free
  pub same_size : q.frame_size ≡ p.frame_size
  pub same_free : q.nfree ≡ p.nfree

pub plan_frames-Unmoved :
    (size c : ℕ) (k : SeqId) (n : ℕ) (p : PimState)
    → IsValid size c p
    → Unmoved size c p (plan_frames k n p)
unfolding plan_frames
plan_frames-Unmoved size c k n p v =
    elim (Bool-cases
      (is_bestfit p.plan_mode && ltb 0 n && leb n (plan n p.frame_size p.frame_free).1)) [
        | inr t ↦
            rw t (record { valid = v; same_frames = refl; same_size = refl; same_free = refl })
        | inl t ↦ rw t (record {
          valid = record {
            some_slots = v.some_slots;
            setting = v.setting;
            frames = v.frames;
            covers = v.covers;
            totals = v.totals;
            planned = omega (
              arith,
              v.planned,
              plan-strays n p.n_frames p.frame_size p.frame_free v.frames,
              weight-put (plan_strays p.n_frames) k (plan n p.frame_size p.frame_free).0 p.plans,
            );
            affine = v.affine;
            heap = v.heap;
          };
          same_frames = refl;
          same_size = refl;
          same_free = refl;
        })
      ]
