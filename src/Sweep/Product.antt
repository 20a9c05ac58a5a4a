-- ===== src/Sweep/Product.antt =====
-- Pairs and choices in their order: `itertools.product` (pimkv/sweep.py).
use chip_hackathon_f.Prelude.{
  ℕ, zero, suc, ◌+◌, ◌*◌, ◌<◌, ◌≡◌, refl, ap, ◌∙◌, some, List, [], ◌∷◌, ◌++◌, map, arith, length,
  length-append, length-map, get_elem?, lt_of_get_elem?,
}
use chip_hackathon_f.Sweep.{cross, product, string_eq}

module _ {ℓ κ μ} {A : Type ℓ} {B : Type κ} {C : Type μ} (f : A → B → C) where
  pub length-cross : (xs : List A) (ys : List B) → length (cross f xs ys) ≡ length xs * length ys
  unfolding cross
  length-cross [] ys = omega arith
  length-cross (x ∷ xs) ys =
      grind (
        arith,
        length-append (map (f x) ys) (cross f xs ys),
        length-map (f x) ys,
        length-cross xs ys,
      )

module _ {ℓ} {A : Type ℓ} where
  get-append_left :
      (xs ys : List A) (i : ℕ) → i < length xs → get_elem? (xs ++ ys) i ≡ get_elem? xs i
  get-append_left [] ys i h = elim h [ ]
  get-append_left (x ∷ xs) ys zero h = refl
  get-append_left (x ∷ xs) ys (suc i) h = get-append_left xs ys i (omega (arith, h))

  get-append_right :
      (xs ys : List A) (i : ℕ) → get_elem? (xs ++ ys) (length xs + i) ≡ get_elem? ys i
  get-append_right [] ys i = ap (get_elem? ys) (omega arith)
  get-append_right (x ∷ xs) ys i =
      let later : length (x ∷ xs) + i ≡ suc (length xs + i) = omega arith in
      ap (get_elem? (x ∷ xs ++ ys)) later ∙ get-append_right xs ys i

module _ {ℓ κ} {A : Type ℓ} {B : Type κ} (f : A → B) where
  get-map :
      (xs : List A) (i : ℕ) {x : A} → get_elem? xs i ≡ some x → get_elem? (map f xs) i ≡ some (f x)
  get-map [] i e = cc
  get-map (y ∷ xs) zero e = cc
  get-map (y ∷ xs) (suc i) e = get-map xs i e

module _ {ℓ κ μ} {A : Type ℓ} {B : Type κ} {C : Type μ} (f : A → B → C) where
  -- Where each pair stands.
  pub get-cross :
      (xs : List A) (ys : List B) (i j : ℕ) {x : A} {y : B}
      → get_elem? xs i ≡ some x
      → get_elem? ys j ≡ some y
      → get_elem? (cross f xs ys) (i * length ys + j) ≡ some (f x y)
  unfolding cross
  get-cross [] ys i j e h = absurd cc
  get-cross (z ∷ xs) ys zero j {x} {y} e h =
      let below : j < length (map (f z) ys) =
        omega (arith, length-map (f z) ys, lt_of_get_elem? ys j h) in
      ap (get_elem? (map (f z) ys ++ cross f xs ys)) (omega arith)
      ∙ get-append_left (map (f z) ys) (cross f xs ys) j below
      ∙ get-map (f z) ys j h
      ∙ cc
  get-cross (z ∷ xs) ys (suc i) j e h =
      ap (get_elem? (map (f z) ys ++ cross f xs ys)) (grind (arith, length-map (f z) ys))
      ∙ get-append_right (map (f z) ys) (cross f xs ys) (i * length ys + j)
      ∙ get-cross xs ys i j e h

abbrev pub sizes {ℓ} : {A : Type ℓ} → List (List A) → ℕ
sizes [] = 1
sizes (xs ∷ xss) = length xs * sizes xss

pub length-product {ℓ} : {A : Type ℓ} (xss : List (List A)) → length (product xss) ≡ sizes xss
unfolding product
length-product [] = refl
length-product (xs ∷ xss) =
    length-cross ◌∷◌ xs (product xss) ∙ ap (λ n. length xs * n) (length-product xss)
