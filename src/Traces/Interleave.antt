-- ===== src/Traces/Interleave.antt =====
-- `command_stream` takes turns between the channels and keeps the stream of each.
use chip_hackathon_f.Prelude.{
  ℕ, zero, suc, ◌≤◌, ◌≡◌, refl, ap, ◌∙◌, inl, inr, Option, none, some, List, [], ◌∷◌, ◌++◌, arith,
  nat_beq, nat_eq, if◌then◌else◌, length, get_elem?, take, drop, Bool-cases, Option-cases,
}
use chip_hackathon_f.Dict.{Dict, get, weight}
use chip_hackathon_f.PimModel.{Command}
use chip_hackathon_f.Sim.Batch.{holds, get-absent}
use chip_hackathon_f.Traces.{turn, turns_from, longest, interleave}

-- The commands of one channel, in their order.
abbrev pub of_channel : ℕ → List (ℕ × Command) → List Command
of_channel c [] = []
of_channel c ((d, cmd) ∷ rest) = if nat_beq d c then cmd ∷ of_channel c rest else of_channel c rest

of_channel-append :
    (c : ℕ) (xs ys : List (ℕ × Command))
    → of_channel c (xs ++ ys) ≡ of_channel c xs ++ of_channel c ys
of_channel-append c [] ys = refl
of_channel-append c ((d, cmd) ∷ xs) ys = ground (arith, of_channel-append c xs ys)

abbrev pub listed : Option Command → List Command
listed none = []
listed (some cmd) = cmd ∷ []

turn-absent :
    (c i : ℕ) (per_ch : Dict ℕ (List Command))
    → get c per_ch ≡ none
    → of_channel c (turn i per_ch) ≡ []
unfolding turn get
turn-absent c i [] e = refl
turn-absent c i ((d, cmds) ∷ rest) e = elim (Option-cases (get_elem? cmds i)) [
  | inl f ↦ rw f (turn-absent c i rest (ground (arith, e)))
  | inr (cmd, f) ↦ rw f (ground (arith, e, turn-absent c i rest))
]

of_channel-turn :
    (c i : ℕ) (cmds : List Command) (per_ch : Dict ℕ (List Command))
    → get c per_ch ≡ some cmds
    → weight (holds c) per_ch ≤ 1
    → of_channel c (turn i per_ch) ≡ listed (get_elem? cmds i)
unfolding turn get
of_channel-turn c i cmds [] e h = absurd cc
of_channel-turn c i cmds ((d, others) ∷ rest) e h = elim (Bool-cases (nat_beq d c)) [
  | inl t ↦
      let same : others ≡ cmds = ground (arith, t, e) in
      let none_left = turn-absent c i rest (get-absent c rest (ground (arith, t, h))) in
      elim (Option-cases (get_elem? others i)) [
        | inl f ↦ rw (← same, f) none_left
        | inr (cmd, f) ↦ rw (← same, f, t) (ap (λ r. cmd ∷ r) none_left)
      ]
  | inr t ↦
      let later = of_channel-turn c i cmds rest (ground (arith, t, e)) (omega (arith, h)) in
      elim (Option-cases (get_elem? others i)) [
        | inl f ↦ rw f later
        | inr (cmd, f) ↦ rw (f, t) later
      ]
]

take-nil : (n : ℕ) → take {A = Command} n [] ≡ []
take-nil zero = refl
take-nil (suc n) = refl

pub take-next :
    (n i : ℕ) (cmds : List Command)
    → listed (get_elem? cmds i) ++ take n (drop (suc i) cmds) ≡ take (suc n) (drop i cmds)
take-next n zero [] = take-nil n
take-next n (suc i) [] = take-nil n
take-next n zero (cmd ∷ cmds) = refl
take-next n (suc i) (cmd ∷ cmds) = take-next n i cmds

pub take-all : (n : ℕ) (cmds : List Command) → length cmds ≤ n → take n cmds ≡ cmds
take-all n [] h = take-nil n
take-all zero (cmd ∷ cmds) h = absurd (omega (arith, h))
take-all (suc n) (cmd ∷ cmds) h = ap (λ r. cmd ∷ r) (take-all n cmds (omega (arith, h)))

of_channel-turns_from :
    (n i c : ℕ) (cmds : List Command) (per_ch : Dict ℕ (List Command))
    → get c per_ch ≡ some cmds
    → weight (holds c) per_ch ≤ 1
    → of_channel c (turns_from n i per_ch) ≡ take n (drop i cmds)
unfolding turns_from
of_channel-turns_from zero i c cmds per_ch e h = refl
of_channel-turns_from (suc n) i c cmds per_ch e h =
    of_channel-append c (turn i per_ch) (turns_from n (suc i) per_ch)
    ∙ rw (of_channel-turn c i cmds per_ch e h, of_channel-turns_from n (suc i) c cmds per_ch e h)
        (take-next n i cmds)

length-le-longest :
    (c : ℕ) (cmds : List Command) (per_ch : Dict ℕ (List Command))
    → get c per_ch ≡ some cmds
    → length cmds ≤ longest per_ch
unfolding longest get
length-le-longest c cmds [] e = absurd cc
length-le-longest c cmds ((d, others) ∷ rest) e = elim (Bool-cases (nat_beq d c)) [
  | inl t ↦ let same : others ≡ cmds = ground (arith, t, e) in omega (arith, ap length same)
  | inr t ↦ omega (arith, length-le-longest c cmds rest (ground (arith, t, e)))
]

-- A channel without a stream has no command.
of_channel-absent :
    (c n i : ℕ) (per_ch : Dict ℕ (List Command))
    → get c per_ch ≡ none
    → of_channel c (turns_from n i per_ch) ≡ []
unfolding turns_from
of_channel-absent c zero i per_ch e = refl
of_channel-absent c (suc n) i per_ch e =
    of_channel-append c (turn i per_ch) (turns_from n (suc i) per_ch)
    ∙ rw (turn-absent c i per_ch e, of_channel-absent c n (suc i) per_ch e) refl

abbrev pub or_empty : Option (List Command) → List Command
or_empty none = []
or_empty (some cmds) = cmds

-- Where no channel has two streams, the interleaved commands of a channel are its stream, whole and in
-- order, and there are none of a channel without a stream.
pub of_channel-interleave :
    (c : ℕ) (per_ch : Dict ℕ (List Command))
    → weight (holds c) per_ch ≤ 1
    → of_channel c (interleave per_ch) ≡ or_empty (get c per_ch)
unfolding interleave
of_channel-interleave c per_ch h = elim (Option-cases (get c per_ch)) [
  | inl e ↦ rw e (of_channel-absent c (longest per_ch) 0 per_ch e)
  | inr (cmds, e) ↦ rw e (
      of_channel-turns_from (longest per_ch) 0 c cmds per_ch e h
      ∙ take-all (longest per_ch) cmds (length-le-longest c cmds per_ch e))
]
