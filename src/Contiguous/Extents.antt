-- ===== src/Contiguous/Extents.antt =====
-- Carving a span out of the free extents and giving it back.
use chip_hackathon_f.Prelude.{
  ℕ, ◌+◌, ◌≡◌, refl, inl, inr, ◌&&◌, some, List, [], ◌∷◌, ◌++◌, arith, ltb, leb, nat_beq, indicator,
  Bool-cases, Option-cases, All, ◌<◌, none,
}
use chip_hackathon_f.Contiguous.{
  Extent, total_size, first_fit, remove_extent, carve, extent_le, insert_extent, sort_extents,
  merge_from, merge, return_extent,
}

-- How often a block lies in the extents.
abbrev pub within : ℕ → Extent → ℕ
within b x = indicator (leb x.start b && ltb b (x.start + x.size))

abbrev pub cover : ℕ → List Extent → ℕ
cover b [] = 0
cover b (x ∷ xs) = within b x + cover b xs

cover-append : (b : ℕ) (xs ys : List Extent) → cover b (xs ++ ys) ≡ cover b xs + cover b ys
cover-append b [] ys = omega arith
cover-append b (x ∷ xs) ys = omega (arith, cover-append b xs ys)

cover-insert :
    (b : ℕ) (e : Extent) (xs : List Extent) → cover b (insert_extent e xs) ≡ within b e + cover b xs
unfolding insert_extent
cover-insert b e [] = refl
cover-insert b e (x ∷ xs) = elim (Bool-cases (extent_le x e)) [
  | inl t ↦ rw t (omega (arith, cover-insert b e xs))
  | inr t ↦ rw t
]

cover-sort : (b : ℕ) (xs : List Extent) → cover b (sort_extents xs) ≡ cover b xs
unfolding sort_extents
cover-sort b [] = refl
cover-sort b (x ∷ xs) = omega (arith, cover-insert b x (sort_extents xs), cover-sort b xs)

within-join :
    (b s m n : ℕ)
    → within b (record { start = s; size = m + n })
      ≡ within b (record { start = s; size = m }) + within b (record { start = s + m; size = n })
within-join b s m n = ground arith

cover-merge_from :
    (b : ℕ) (last : Extent) (xs : List Extent)
    → cover b (merge_from last xs) ≡ within b last + cover b xs
unfolding merge_from
cover-merge_from b last [] = refl
cover-merge_from b last (x ∷ xs) = elim (Bool-cases (nat_beq (last.start + last.size) x.start)) [
  | inl t ↦
      let e : x.start ≡ last.start + last.size = ground arith in
      rw (t, merge_from)
        (omega (
          arith,
          cover-merge_from b (record last { size = last.size + x.size }) xs,
          within-join b last.start last.size x.size,
          joined x e,
        ))
  | inr t ↦ rw (t, merge_from) (omega (arith, cover-merge_from b x xs))
]
  where
    joined :
        (x : Extent)
        → x.start ≡ last.start + last.size
        → within b (record { start = last.start + last.size; size = x.size }) ≡ within b x
    joined x e = rw e

cover-merge : (b : ℕ) (xs : List Extent) → cover b (merge xs) ≡ cover b xs
unfolding merge
cover-merge b [] = refl
cover-merge b (x ∷ xs) = cover-merge_from b x xs

-- After a span is given back, every block is covered by the free extents as often as before, and once
-- more where it lies in the span, whatever is sorted and merged.
pub cover-return_extent :
    (b : ℕ) (e : Extent) (xs : List Extent) → cover b (return_extent e xs) ≡ cover b xs + within b e
unfolding return_extent
cover-return_extent b e xs = omega (
  arith,
  cover-merge b (sort_extents (xs ++ e ∷ [])),
  cover-sort b (xs ++ e ∷ []),
  cover-append b xs (e ∷ []),
)

-- The free sizes are counted in the same way.
size-insert :
    (e : Extent) (xs : List Extent) → total_size (insert_extent e xs) ≡ e.size + total_size xs
unfolding insert_extent
size-insert e [] = refl
size-insert e (x ∷ xs) = elim (Bool-cases (extent_le x e)) [
  | inl t ↦ rw t (omega (arith, size-insert e xs))
  | inr t ↦ rw t
]

size-sort : (xs : List Extent) → total_size (sort_extents xs) ≡ total_size xs
unfolding sort_extents
size-sort [] = refl
size-sort (x ∷ xs) = omega (arith, size-insert x (sort_extents xs), size-sort xs)

size-merge_from :
    (last : Extent) (xs : List Extent) → total_size (merge_from last xs) ≡ last.size + total_size xs
unfolding merge_from
size-merge_from last [] = refl
size-merge_from last (x ∷ xs) = elim (Bool-cases (nat_beq (last.start + last.size) x.start)) [
  | inl t ↦
      rw (t, merge_from)
        (omega (arith, size-merge_from (record last { size = last.size + x.size }) xs))
  | inr t ↦ rw (t, merge_from) (omega (arith, size-merge_from x xs))
]

size-append : (xs ys : List Extent) → total_size (xs ++ ys) ≡ total_size xs + total_size ys
size-append [] ys = omega arith
size-append (x ∷ xs) ys = omega (arith, size-append xs ys)

pub size-return_extent :
    (e : Extent) (xs : List Extent) → total_size (return_extent e xs) ≡ total_size xs + e.size
unfolding return_extent merge
size-return_extent e xs =
    go (sort_extents (xs ++ e ∷ []))
      (omega (arith, size-sort (xs ++ e ∷ []), size-append xs (e ∷ [])))
  where
    go :
        (ys : List Extent)
        → total_size ys ≡ total_size xs + e.size
        → total_size (merge ys) ≡ total_size xs + e.size
    go [] h = h
    go (y ∷ ys) h = omega (arith, h, size-merge_from y ys)

-- Removing an empty extent takes no block away.
cover-remove :
    (b : ℕ) (e : Extent) (xs : List Extent) → e.size ≡ 0 → cover b (remove_extent e xs) ≡ cover b xs
unfolding remove_extent
cover-remove b e [] h = refl
cover-remove b e (x ∷ xs) h = elim (Bool-cases (nat_beq x.start e.start && nat_beq x.size e.size)) [
  | inl t ↦ rw t (ground (arith, h))
  | inr t ↦ rw t (omega (arith, cover-remove b e xs h))
]

size-remove :
    (e : Extent) (xs : List Extent) → e.size ≡ 0 → total_size (remove_extent e xs) ≡ total_size xs
unfolding remove_extent
size-remove e [] h = refl
size-remove e (x ∷ xs) h = elim (Bool-cases (nat_beq x.start e.start && nat_beq x.size e.size)) [
  | inl t ↦ rw t (ground (arith, h))
  | inr t ↦ rw t (omega (arith, size-remove e xs h))
]

-- What a reservation of n blocks takes: the blocks from `start` on, no others.
pub record Carved (n : ℕ) (xs : List Extent) (start : ℕ) (ys : List Extent) : Type 0 where
  pub covers : (b : ℕ) → cover b xs ≡ cover b ys + within b (record { start = start; size = n })
  pub sizes : total_size xs ≡ total_size ys + n

first_fit-Carved :
    (n : ℕ) (xs : List Extent) (start : ℕ) (ext : Extent) (ys : List Extent)
    → first_fit n xs ≡ some (start, ext, ys)
    → Carved n xs start ys
unfolding first_fit
first_fit-Carved n [] start ext ys e = absurd (cc)
first_fit-Carved n (x ∷ xs) start ext ys e = elim (Bool-cases (leb n x.size)) [
  | inl t ↦ record { covers = λ b. ground (arith, e, t); sizes = ground (arith, e, t) }
  | inr t ↦ elim (Option-cases (first_fit n xs)) [
    | inl f ↦ absurd (ground (arith, e, t, f))
    | inr ((s, x', zs), f) ↦
        let c = first_fit-Carved n xs s x' zs f in
        record {
          covers = λ b. ground (arith, e, t, f, c.covers b);
          sizes = ground (arith, e, t, f, c.sizes);
        }
  ]
]

-- Where a reservation of n blocks succeeds, it takes the n blocks from `start` on out of the free
-- extents and no others, and the total size of the extents shrinks by n.
pub carve-Carved :
    (n : ℕ) (xs : List Extent) (start : ℕ) (ys : List Extent)
    → carve n xs ≡ some (start, ys)
    → Carved n xs start ys
unfolding carve
carve-Carved n xs start ys e = elim (Option-cases (first_fit n xs)) [
  | inl f ↦ absurd (ground (arith, e, f))
  | inr ((s, x, zs), f) ↦
      let c = first_fit-Carved n xs s x zs f in
      elim (Bool-cases (nat_beq x.size 0)) [
        | inl t ↦
            let empty : x.size ≡ 0 = ground (arith, t) in
            record {
              covers = λ b. ground (arith, e, f, t, c.covers b, cover-remove b x zs empty);
              sizes = ground (arith, e, f, t, c.sizes, size-remove x zs empty);
            }
        | inr t ↦ record {
          covers = λ b. ground (arith, e, f, t, c.covers b);
          sizes = ground (arith, e, f, t, c.sizes);
        }
      ]
]

first_fit-none :
    (n : ℕ) (xs : List Extent) → first_fit n xs ≡ none → All (λ (x : Extent). x.size < n) xs
unfolding first_fit
first_fit-none n [] e = tt
first_fit-none n (x ∷ xs) e = elim (Bool-cases (leb n x.size)) [
  | inl t ↦ absurd (ground (arith, e, t))
  | inr t ↦ elim (Option-cases (first_fit n xs)) [
    | inl f ↦ (ground (arith, t), first_fit-none n xs f)
    | inr ((s, x', zs), f) ↦ absurd (ground (arith, e, t, f))
  ]
]

-- A reservation is refused only where every extent is smaller.
pub carve-none :
    (n : ℕ) (xs : List Extent) → carve n xs ≡ none → All (λ (x : Extent). x.size < n) xs
unfolding carve
carve-none n xs e = elim (Option-cases (first_fit n xs)) [
  | inl f ↦ first_fit-none n xs f
  | inr ((s, x, zs), f) ↦ absurd (ground (arith, e, f))
]
