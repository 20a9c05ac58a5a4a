-- ===== src/PimModel/Window/Sorting.antt =====
-- What the window mode of `coalesce_channel_stream` (pimkv/pimmodel.py) uses of numpy: `argsort`, the
-- indexing of an array by an array, and `unique` with `return_index`.
use chip_hackathon_f.Prelude.{
  ℕ, zero, suc, ◌+◌, ◌≤◌, ◌≡◌, refl, ap, ◌∙◌, Option, none, some, List, [], ◌∷◌, map, arith,
  nat_beq, if◌then◌else◌, get_elem?, count, All,
}
use chip_hackathon_f.Exec.{Result, ok, err, index_error, cons_result}
use chip_hackathon_f.PimModel.Window.{Tally, Ascending, AllOccur, IsUnique}

-- A value, the index where it stands first, and how often it occurs.
pub record Indexed : Type 0 where
  pub value : ℕ
  pub index : ℕ
  pub times : ℕ

pub record Sorting : Type 0 where
  pub argsort : List ℕ → List ℕ
  pub unique_index : List ℕ → List Indexed

-- `xs[i]`; a list of values at a list of indices.
abbrev pub at_index {ℓ} : {A : Type ℓ} → Option A → Result A
at_index none = err index_error
at_index (some x) = ok x

unfoldable pub gather : List ℕ → List ℕ → Result (List ℕ)
gather xs [] = ok []
gather xs (i ∷ is) = cons_result (at_index (get_elem? xs i)) (gather xs is)

abbrev pub tally_of : Indexed → Tally
tally_of t = record { value = t.value; times = t.times }

-- How often a value is counted.
abbrev pub times_of : ℕ → List Tally → ℕ
times_of v [] = 0
times_of v (t ∷ ts) = (if nat_beq t.value v then t.times else 0) + times_of v ts

-- What is relied on of numpy: `unique` counts each value as often as it occurs; indexing by `argsort`
-- is a permutation; with indices, `unique` returns the same values and counts, and for each value an
-- index where it stands.
pub record IsSorting (unique : List ℕ → List Tally) (s : Sorting) : Type 0 where
  pub tallies : IsUnique unique
  pub counted : (v : ℕ) (xs : List ℕ) → times_of v (unique xs) ≡ count v xs
  pub permuted :
      (xs : List ℕ)
      → (ys : List ℕ) × (gather xs (s.argsort xs) ≡ ok ys) × ((v : ℕ) → count v ys ≡ count v xs)
  pub same_tallies : (xs : List ℕ) → map tally_of (s.unique_index xs) ≡ unique xs
  pub indexed :
      (xs : List ℕ) → All (λ (t : Indexed). get_elem? xs t.index ≡ some t.value) (s.unique_index xs)

Ascending-tail : (t : Tally) (ts : List Tally) → Ascending (t ∷ ts) → Ascending ts
Ascending-tail t [] h = tt
Ascending-tail t (u ∷ us) h = h.1

absent_below :
    (v : ℕ) (t : Tally) (ts : List Tally) → Ascending (t ∷ ts) → v ≤ t.value → times_of v ts ≡ 0
absent_below v t [] asc h = refl
absent_below v t (u ∷ us) asc h =
    ground (arith, h, asc.0, absent_below v u us asc.1 (omega (arith, h, asc.0)))

abbrev tally : ℕ → ℕ → Tally
tally v n = record { value = v; times = n }

-- Ascending tallies that count every value as often are the same.
pub tallies_agree :
    (ts us : List Tally)
    → Ascending ts
    → Ascending us
    → AllOccur ts
    → AllOccur us
    → ((v : ℕ) → times_of v ts ≡ times_of v us)
    → ts ≡ us
tallies_agree [] [] a b o p e = refl
tallies_agree [] (u ∷ us) a b o p e = absurd (ground (arith, e u.value, p.0))
tallies_agree (t ∷ ts) [] a b o p e = absurd (ground (arith, e t.value, o.0))
tallies_agree (t ∷ ts) (u ∷ us) a b o p e =
    let same_value : t.value ≡ u.value = ground (
      arith,
      e t.value,
      e u.value,
      o.0,
      p.0,
      absent_below t.value u us b,
      absent_below u.value t ts a,
    ) in
    let same_times : t.times ≡ u.times = ground (
      arith,
      e t.value,
      same_value,
      absent_below t.value t ts a (omega arith),
      absent_below t.value u us b (omega (arith, same_value)),
    ) in
    same_head t u same_value same_times
    ∙ ap (λ xs. u ∷ xs)
        (tallies_agree ts us (Ascending-tail t ts a) (Ascending-tail u us b) o.1 p.1
          (λ v. ground (arith, e v, same_value, same_times)))
  where
    same_head :
        (t u : Tally)
        → t.value ≡ u.value
        → t.times ≡ u.times
        → ◌≡◌ {A = List Tally} (t ∷ ts) (u ∷ ts)
    same_head t u v n =
        ap (λ (x : ℕ). tally x t.times ∷ ts) v ∙ ap (λ (x : ℕ). tally u.value x ∷ ts) n

abbrev Stands : List ℕ → ℕ → List ℕ → ℕ → Type 0
Stands xs v os k = (n : ℕ) × (get_elem? os k ≡ some n) × (get_elem? xs n ≡ some v)

-- What stands at an index of the gathered list stands at an index of the list.
pub gather-at :
    (xs is ys : List ℕ) (j v : ℕ)
    → gather xs is ≡ ok ys
    → get_elem? ys j ≡ some v
    → (i : ℕ) × (get_elem? is j ≡ some i) × (get_elem? xs i ≡ some v)
unfolding gather
gather-at xs [] ys j v e f =
    let none_there : ys ≡ [] = ground (arith, e) in absurd (ground (arith, none_there, f))
gather-at xs (i ∷ is) ys j v e f =
    go (get_elem? xs i) (gather xs is) refl refl e (λ zs k q g. gather-at xs is zs k v q g)
  where
    there :
        (j x : ℕ) (zs : List ℕ)
        → get_elem? xs i ≡ some x
        → x ∷ zs ≡ ys
        → get_elem? ys j ≡ some v
        → ((k : ℕ) → get_elem? zs k ≡ some v → Stands xs v is k)
        → Stands xs v (i ∷ is) j
    there zero x zs p q g rest = (i, refl, p ∙ ground (arith, q, g))
    there (suc j) x zs p q g rest = rest j (ground (arith, q, g))

    go :
        (o : Option ℕ) (r : Result (List ℕ))
        → get_elem? xs i ≡ o
        → gather xs is ≡ r
        → cons_result (at_index o) r ≡ ok ys
        → ((zs : List ℕ) (k : ℕ)
            → gather xs is ≡ ok zs
            → get_elem? zs k ≡ some v
            → Stands xs v is k)
        → Stands xs v (i ∷ is) j
    go none r p q g rest = absurd (ground (arith, g))
    go (some x) (err c) p q g rest = absurd (ground (arith, g))
    go (some x) (ok zs) p q g rest = there j x zs p (ground (arith, g)) f (λ k. rest zs k q)

module _ {unique : List ℕ → List Tally} {s : Sorting} (laws : IsSorting unique s) where
  -- The counts of a permuted list are the same.
  pub unique-permuted :
      (xs ys : List ℕ) → ((v : ℕ) → count v ys ≡ count v xs) → unique ys ≡ unique xs
  unique-permuted xs ys h =
      tallies_agree (unique ys) (unique xs) (laws.tallies.ascending ys) (laws.tallies.ascending xs)
        (laws.tallies.occurring ys) (laws.tallies.occurring xs)
        (λ v. laws.counted v ys ∙ h v ∙ omega (arith, laws.counted v xs))
