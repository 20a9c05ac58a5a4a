-- ===== src/Dict.antt =====
-- Python's `dict`: an association list in insertion order. A write to a present key keeps its place.
pub mod Weights
use chip_hackathon_f.Prelude.{
  ℕ, ◌+◌, ◌≤◌, ◌≡◌, refl, ◌⊎◌, inl, inr, Bool, true, false, Option, none, some, List, [], ◌∷◌, ◌++◌,
  arith, DictKey, ◌==◌, if◌then◌else◌, indicator, length,
}

abbrev pub Dict {ℓ κ} : Type ℓ → Type κ → Type (ℓ ⊔ κ)
Dict K V = List (K × V)

module _ {ℓ κ} {K : Type ℓ} {V : Type κ} ⦃e : DictKey K⦄ where
  unfoldable pub get : K → Dict K V → Option V
  get k [] = none
  get k ((j, v) ∷ d) = if j == k then some v else get k d

  unfoldable pub put : K → V → Dict K V → Dict K V
  put k v [] = (k, v) ∷ []
  put k v ((j, u) ∷ d) = if j == k then (j, v) ∷ d else (j, u) ∷ put k v d

  -- `del d[k]` and `d.pop(k, None)`.
  unfoldable pub erase : K → Dict K V → Dict K V
  erase k [] = []
  erase k ((j, u) ∷ d) = if j == k then d else (j, u) ∷ erase k d

-- A number of an entry that may be missing.
abbrev pub or_zero {ℓ} : {V : Type ℓ} → (V → ℕ) → Option V → ℕ
or_zero g none = 0
or_zero g (some v) = g v

-- The sum of a number over the entries; sizes, key counts and reference totals are sums.
module _ {ℓ κ} {K : Type ℓ} {V : Type κ} where
  abbrev pub weight : (K → V → ℕ) → Dict K V → ℕ
  weight g [] = 0
  weight g ((k, v) ∷ d) = g k v + weight g d

module _ {ℓ κ} {K : Type ℓ} {V : Type κ} ⦃e : DictKey K⦄ where
  pub get-put :
      (k j : K) (v : V) (d : Dict K V) → get j (put k v d) ≡ (if k == j then some v else get j d)
  unfolding get put
  get-put k j v [] = refl
  get-put k j v ((i, u) ∷ d) =
      ground (arith, get-put k j v d, e.agrees_iff i k, e.agrees_iff i j, e.agrees_iff k j)

  pub weight-put :
      (g : K → V → ℕ) (k : K) (v : V) (d : Dict K V)
      → weight g (put k v d) + or_zero (g k) (get k d) ≡ weight g d + g k v
  unfolding get put
  weight-put g k v [] = omega arith
  weight-put g k v ((i, u) ∷ d) = ground (arith, weight-put g k v d, e.agrees_iff i k)

  pub weight-erase :
      (g : K → V → ℕ) (k : K) (d : Dict K V)
      → weight g (erase k d) + or_zero (g k) (get k d) ≡ weight g d
  unfolding get erase
  weight-erase g k [] = omega arith
  weight-erase g k ((i, u) ∷ d) = ground (arith, weight-erase g k d, e.agrees_iff i k)
