-- ===== src/Sim/Batch.antt =====
-- The batch of active sequences as a dictionary with one entry for each id.
use chip_hackathon_f.Prelude.{
  ℕ, ◌+◌, ◌≤◌, ◌≡◌, refl, subst, inl, inr, true, false, none, some, List, [], ◌∷◌, arith, nat_beq,
  nat_eq, indicator, length, if◌then◌else◌, Option-cases, Bool-cases,
}
use chip_hackathon_f.Dict.{Dict, get, erase, weight, put, get-put}
use chip_hackathon_f.Alloc.{pop_last}
use chip_hackathon_f.Sim.{SeqState, others}

module _ {V : Type 0} where
  -- 1 at an entry of the id.
  abbrev pub holds : ℕ → ℕ → V → ℕ
  holds rid k v = indicator (nat_beq k rid)

  pub get-absent : (rid : ℕ) (d : Dict ℕ V) → weight (holds rid) d ≡ 0 → get rid d ≡ none
  unfolding get
  get-absent rid [] h = refl
  get-absent rid ((k, v) ∷ d) h = ground (arith, get-absent rid d)

  pub holds-absent : (rid : ℕ) (d : Dict ℕ V) → get rid d ≡ none → weight (holds rid) d ≡ 0
  unfolding get
  holds-absent rid [] h = refl
  holds-absent rid ((k, v) ∷ d) h = ground (arith, holds-absent rid d)

  -- Where each id has one entry, the entry that is erased is gone and the others stay.
  pub get-erase :
      (j rid : ℕ) (d : Dict ℕ V)
      → weight (holds rid) d ≤ 1
      → get j (erase rid d) ≡ (if nat_beq rid j then none else get j d)
  unfolding get erase
  get-erase j rid [] h = ground arith
  get-erase j rid ((k, v) ∷ d) h = ground (arith, get-erase j rid d, get-absent rid d)

  pub length-erase :
      (rid : ℕ) (v : V) (d : Dict ℕ V) → get rid d ≡ some v → length (erase rid d) + 1 ≡ length d
  unfolding get erase
  length-erase rid v [] h = cc
  length-erase rid v ((k, u) ∷ d) h = ground (arith, length-erase rid v d)

module _ {V : Type 0} (Q : ℕ → V → Type 0) where
  -- What holds of the entry that is written and of the others holds of all after a write.
  pub each-put :
      (rid : ℕ) (new : V) (d : Dict ℕ V)
      → Q rid new
      → ((j : ℕ) (v : V) → nat_beq rid j ≡ false → get j d ≡ some v → Q j v)
      → (j : ℕ) (v : V) → get j (put rid new d) ≡ some v
      → Q j v
  each-put rid new d q h j v e = elim (Bool-cases (nat_beq rid j)) [
    | inl t ↦
        let state : new ≡ v = ground (arith, get-put rid j new d, t, e) in
        let id : rid ≡ j = ground (arith, t) in subst (λ k. Q k v) id (subst (λ z. Q rid z) state q)
    | inr t ↦ h j v t (ground (arith, get-put rid j new d, t, e))
  ]

pub length-insert :
    {V : Type 0} (rid : ℕ) (v : V) (d : Dict ℕ V)
    → get rid d ≡ none
    → length (put rid v d) ≡ length d + 1
unfolding get put
length-insert rid v [] e = refl
length-insert rid v ((k, u) ∷ d) e = ground (arith, length-insert rid v d)

Found : ℕ → Dict ℕ SeqState → Type 0
Found victim d = (st : SeqState) × (get victim d ≡ some st)

Found-later :
    (victim k : ℕ) (st : SeqState) (d : Dict ℕ SeqState)
    → Found victim d
    → Found victim ((k, st) ∷ d)
unfolding get Found
Found-later victim k st d (u, e) = elim (Bool-cases (nat_beq k victim)) [
  | inl t ↦ (st, ground (arith, t))
  | inr t ↦ (u, ground (arith, t, e))
]

-- The last of the others is active, and not the sequence itself.
pub others-last :
    (rid victim : ℕ) (rest : List ℕ) (d : Dict ℕ SeqState)
    → pop_last (others rid d) ≡ some (rest, victim)
    → (nat_beq victim rid ≡ false) × ((st : SeqState) × (get victim d ≡ some st))
unfolding others pop_last get Found
others-last rid victim rest [] e = absurd cc
others-last rid victim rest ((k, st) ∷ d) e = elim (Bool-cases (nat_beq k rid)) [
  | inl t ↦
      let (differs, found) = others-last rid victim rest d (e' t e) in
      (differs, Found-later victim k st d found)
  | inr t ↦ elim (Option-cases (pop_last (others rid d))) [
    | inl f ↦
        let same : k ≡ victim = ground (arith, e, t, f) in
        (ground (arith, t, same), (st, ground (arith, same)))
    | inr ((ys, y), f) ↦
        let same : y ≡ victim = ground (arith, e, t, f) in
        let (differs, found) = others-last rid y ys d f in
        (
          ground (arith, differs, same),
          subst (λ z. Found z ((k, st) ∷ d)) same (Found-later y k st d found),
        )
  ]
]
  where
    e' :
        nat_beq k rid ≡ true
        → pop_last (others rid ((k, st) ∷ d)) ≡ some (rest, victim)
        → pop_last (others rid d) ≡ some (rest, victim)
    e' t h = ground (arith, t, h)
