-- ===== src/Examples/Sorting.antt =====
-- A stable insertion sort and a count of the distinct values, in the place of numpy's `argsort` and
-- `unique`.
use chip_hackathon_f.Prelude.{
  ℕ, suc, ◌+◌, ◌≤◌, ◌<◌, ◌≡◌, refl, ap, ◌∙◌, inl, inr, some, List, [], ◌∷◌, map, arith, ltb, leb,
  nat_beq, if◌then◌else◌, get_elem?, count, indicator, All, Bool-cases,
}
use chip_hackathon_f.Exec.{ok}
use chip_hackathon_f.PimModel.Window.{Tally, AllOccur}
use chip_hackathon_f.PimModel.Window.Sorting.{
  Indexed, Sorting, tally_of, times_of, gather, IsSorting,
}
use chip_hackathon_f.Examples.Memory.{insert_key, tally_keys, tally_keys-IsUnique}

-- A key and where it stood.
insert_keyed : ℕ → ℕ → List (ℕ × ℕ) → List (ℕ × ℕ)
insert_keyed k i [] = (k, i) ∷ []
insert_keyed k i ((j, n) ∷ ps) =
    if leb k j then (k, i) ∷ (j, n) ∷ ps else (j, n) ∷ insert_keyed k i ps

sort_from : ℕ → List ℕ → List (ℕ × ℕ)
sort_from i [] = []
sort_from i (x ∷ xs) = insert_keyed x i (sort_from (suc i) xs)

abbrev places_of : List (ℕ × ℕ) → List ℕ
places_of = map (λ (p : ℕ × ℕ). p.1)

abbrev keys_of : List (ℕ × ℕ) → List ℕ
keys_of = map (λ (p : ℕ × ℕ). p.0)

first_index : ℕ → List ℕ → ℕ
first_index v [] = 0
first_index v (x ∷ xs) = if nat_beq x v then 0 else suc (first_index v xs)

abbrev with_index : List ℕ → Tally → Indexed
with_index xs t = record { value = t.value; index = first_index t.value xs; times = t.times }

pub insertion : Sorting
insertion = record {
  argsort = λ xs. places_of (sort_from 0 xs);
  unique_index = λ xs. map (with_index xs) (tally_keys xs);
}

count-insert_keyed :
    (v k i : ℕ) (ps : List (ℕ × ℕ))
    → count v (keys_of (insert_keyed k i ps)) ≡ count v (k ∷ keys_of ps)
unfolding insert_keyed
count-insert_keyed v k i [] = refl
count-insert_keyed v k i ((j, n) ∷ ps) = elim (Bool-cases (leb k j)) [
  | inl t ↦ rw t refl
  | inr t ↦ rw t (omega (arith, count-insert_keyed v k i ps))
]

count-sort_from : (v i : ℕ) (xs : List ℕ) → count v (keys_of (sort_from i xs)) ≡ count v xs
unfolding sort_from
count-sort_from v i [] = refl
count-sort_from v i (x ∷ xs) =
    omega (arith, count-insert_keyed v x i (sort_from (suc i) xs), count-sort_from v (suc i) xs)

abbrev Placed : List ℕ → ℕ × ℕ → Type 0
Placed zs p = get_elem? zs p.1 ≡ some p.0

All-insert_keyed :
    (zs : List ℕ) (k i : ℕ) (ps : List (ℕ × ℕ))
    → Placed zs (k, i)
    → All (Placed zs) ps
    → All (Placed zs) (insert_keyed k i ps)
unfolding insert_keyed
All-insert_keyed zs k i [] p h = (p, tt)
All-insert_keyed zs k i ((j, n) ∷ ps) p (q, h) = elim (Bool-cases (leb k j)) [
  | inl t ↦ rw t (p, (q, h))
  | inr t ↦ rw t (q, All-insert_keyed zs k i ps p h)
]

All-sort_from :
    (zs : List ℕ) (i : ℕ) (xs : List ℕ)
    → ((j n : ℕ) → n ≡ i + j → get_elem? zs n ≡ get_elem? xs j)
    → All (Placed zs) (sort_from i xs)
unfolding sort_from
All-sort_from zs i [] h = tt
All-sort_from zs i (x ∷ xs) h =
    All-insert_keyed zs x i (sort_from (suc i) xs) (h 0 i (omega arith))
      (All-sort_from zs (suc i) xs (λ j n e. h (suc j) n (omega (arith, e))))

gather-places :
    (zs : List ℕ) (ps : List (ℕ × ℕ))
    → All (Placed zs) ps
    → gather zs (places_of ps) ≡ ok (keys_of ps)
unfolding gather
gather-places zs [] h = refl
gather-places zs ((k, i) ∷ ps) (p, h) = rw (p, gather-places zs ps h) refl

times_of-insert_key :
    (v k : ℕ) (ts : List Tally)
    → times_of v (insert_key k ts) ≡ indicator (nat_beq k v) + times_of v ts
unfolding insert_key
times_of-insert_key v k [] = ground arith
times_of-insert_key v k (t ∷ ts) = elim (Bool-cases (ltb k t.value)) [
  | inl c ↦ rw c (ground arith)
  | inr c ↦ elim (Bool-cases (nat_beq k t.value)) [
    | inl e ↦ rw (c, e) (ground (arith, e))
    | inr e ↦ rw (c, e) (omega (arith, times_of-insert_key v k ts))
  ]
]

times_of-tally_keys : (v : ℕ) (xs : List ℕ) → times_of v (tally_keys xs) ≡ count v xs
unfolding tally_keys
times_of-tally_keys v [] = refl
times_of-tally_keys v (x ∷ xs) =
    omega (arith, times_of-insert_key v x (tally_keys xs), times_of-tally_keys v xs)

first_index-found :
    (v : ℕ) (xs : List ℕ) → 0 < count v xs → get_elem? xs (first_index v xs) ≡ some v
unfolding first_index
first_index-found v [] h = absurd (omega (arith, h))
first_index-found v (x ∷ xs) h = elim (Bool-cases (nat_beq x v)) [
  | inl e ↦ rw e (ap some (ground (arith, e)))
  | inr e ↦ rw e (first_index-found v xs (ground (arith, e, h)))
]

first_indices_stand :
    (xs : List ℕ) (ts : List Tally)
    → AllOccur ts
    → ((v : ℕ) → times_of v ts ≤ count v xs)
    → All (λ (t : Indexed). get_elem? xs t.index ≡ some t.value) (map (with_index xs) ts)
first_indices_stand xs [] o h = tt
first_indices_stand xs (t ∷ ts) o h = (
  first_index-found t.value xs (ground (arith, h t.value, o.0)),
  first_indices_stand xs ts o.1 (λ v. omega (arith, h v)),
)

same_tallies : (xs : List ℕ) (ts : List Tally) → map tally_of (map (with_index xs) ts) ≡ ts
same_tallies xs [] = refl
same_tallies xs (t ∷ ts) = ap (λ us. t ∷ us) (same_tallies xs ts)

pub insertion-IsSorting : IsSorting tally_keys insertion
unfolding insertion
insertion-IsSorting = record {
  tallies = tally_keys-IsUnique;
  counted = times_of-tally_keys;
  permuted = λ xs. (
    keys_of (sort_from 0 xs),
    gather-places xs (sort_from 0 xs)
        (All-sort_from xs 0 xs (λ j n e. ap (get_elem? xs) (e ∙ omega arith))),
    λ v. count-sort_from v 0 xs,
  );
  same_tallies = λ xs. same_tallies xs (tally_keys xs);
  indexed = λ xs.
      first_indices_stand xs (tally_keys xs) (tally_keys-IsUnique.occurring xs)
        (λ v. omega (arith, times_of-tally_keys v xs));
}
