-- ===== src/Alloc/FreeList.antt =====
-- Lists of free blocks: taking the last, exchanging two.
use chip_hackathon_f.Prelude.{
  ℕ, zero, suc, ◌+◌, ◌<◌, ◌≡◌, refl, inl, inr, none, some, List, [], ◌∷◌, arith, nat_beq, indicator,
  count, length, get_elem?, set, Option-cases,
}
use chip_hackathon_f.Alloc.{pop_last}

pub pop_last-none : (x : ℕ) (xs : List ℕ) → pop_last xs ≡ none → count x xs ≡ 0
unfolding pop_last
pop_last-none x [] e = refl
pop_last-none x (y ∷ xs) e = ground arith

pub pop_last-count :
    (x : ℕ) (xs ys : List ℕ) (y : ℕ)
    → pop_last xs ≡ some (ys, y)
    → count x xs ≡ count x ys + indicator (nat_beq y x)
unfolding pop_last
pop_last-count x [] ys y e = cc
pop_last-count x (z ∷ xs) ys y e = elim (Option-cases (pop_last xs)) [
  | inl n ↦ ground (arith, pop_last-none x xs n)
  | inr ((zs, w), p) ↦ ground (arith, pop_last-count x xs zs w p)
]

pub pop_last-length-none : (xs : List ℕ) → pop_last xs ≡ none → length xs ≡ 0
unfolding pop_last
pop_last-length-none [] e = refl
pop_last-length-none (y ∷ xs) e = ground arith

pub pop_last-length :
    (xs ys : List ℕ) (y : ℕ) → pop_last xs ≡ some (ys, y) → length xs ≡ length ys + 1
unfolding pop_last
pop_last-length [] ys y e = cc
pop_last-length (z ∷ xs) ys y e = elim (Option-cases (pop_last xs)) [
  | inl n ↦ ground (arith, pop_last-length-none xs n)
  | inr ((zs, w), p) ↦ ground (arith, pop_last-length xs zs w p)
]

pub pop_last-some : (xs : List ℕ) → 0 < length xs → (r : List ℕ × ℕ) × (pop_last xs ≡ some r)
pop_last-some xs h = elim (Option-cases (pop_last xs)) [
  | inl e ↦ absurd (omega (arith, pop_last-length-none xs e))
  | inr r ↦ r
]

pub count-set :
    (x i u v : ℕ) (xs : List ℕ)
    → get_elem? xs i ≡ some u
    → count x (set xs i v) + indicator (nat_beq u x) ≡ count x xs + indicator (nat_beq v x)
count-set x i u v [] e = cc
count-set x zero u v (y ∷ xs) e = ground arith
count-set x (suc i) u v (y ∷ xs) e = omega (arith, count-set x i u v xs e)

-- Writing a value elsewhere keeps the places that hold that value.
pub get_elem?-set_same :
    (i n y : ℕ) (xs : List ℕ) → get_elem? xs n ≡ some y → get_elem? (set xs i y) n ≡ some y
get_elem?-set_same i n y [] e = e
get_elem?-set_same zero zero y (x ∷ xs) e = refl
get_elem?-set_same zero (suc n) y (x ∷ xs) e = e
get_elem?-set_same (suc i) zero y (x ∷ xs) e = e
get_elem?-set_same (suc i) (suc n) y (x ∷ xs) e = get_elem?-set_same i n y xs e
