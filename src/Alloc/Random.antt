-- ===== src/Alloc/Random.antt =====
-- RandomAlloc: uniformly random placement (pimkv/allocator.py). The generator of numpy is a
-- parameter; what the code relies on is that `integers(n)` lies below n.
use chip_hackathon_f.Prelude.{
  ℕ, ◌-◌, ◌<◌, ◌≡◌, none, some, Option, List, [], ◌∷◌, ◌++◌, arith, count, count-append,
  count-range_from, length, length-append, length-range_from, length-set, range, get_elem?,
  get_elem?-lt, set,
}
use chip_hackathon_f.Exec.{Result, ok, err, index_error, Returns, returns}
use chip_hackathon_f.Alloc.{SeqId, Policy, Pool, new_pool, pop_last}
use chip_hackathon_f.Alloc.FreeList.{
  pop_last-count, pop_last-length, pop_last-some, count-set, get_elem?-set_same,
}
use chip_hackathon_f.Alloc.Invariant.{View, Taken, Lawful, Inv}
use chip_hackathon_f.Alloc.Conservation.{new_pool-Inv}

-- `numpy.random.Generator`, as far as the simulator draws integers from it.
pub record Generator (G : Type 0) : Type 0 where
  pub integers : ℕ → G → ℕ × G

pub record RandomBlocks (G : Type 0) : Type 0 where
  pub free_blocks : List ℕ
  pub rng : G

-- `free[i], free[-1] = free[-1], free[i]`
abbrev swapped : ℕ → List ℕ → Option ℕ → Option ℕ → Option (List ℕ)
swapped i xs (some a) (some z) = some (set (set xs i z) (length xs - 1) a)
swapped i xs _ _ = none

unfoldable pub swap_with_last : ℕ → List ℕ → Option (List ℕ)
swap_with_last i xs = swapped i xs (get_elem? xs i) (get_elem? xs (length xs - 1))

module _ {G : Type 0} (gen : Generator G) where
  abbrev taken : Option (List ℕ × ℕ) → List ℕ → G → Result ℕ × RandomBlocks G
  taken none free g = (err index_error, record { free_blocks = free; rng = g })
  taken (some (rest, b)) free g = (ok b, record { free_blocks = rest; rng = g })

  abbrev popped : Option (List ℕ) → List ℕ → G → Result ℕ × RandomBlocks G
  popped none free g = (err index_error, record { free_blocks = free; rng = g })
  popped (some swapped) free g = taken (pop_last swapped) swapped g

  unfoldable pub alloc_one : SeqId → RandomBlocks G → Result ℕ × RandomBlocks G
  alloc_one k p =
      let (i, g) = gen.integers (length p.free_blocks) p.rng in
      popped (swap_with_last i p.free_blocks) p.free_blocks g

  unfoldable pub free_one : ℕ → RandomBlocks G → Result (Unit {0}) × RandomBlocks G
  free_one b p = (ok tt, record p { free_blocks = p.free_blocks ++ b ∷ [] })

  unfoldable pub num_free : RandomBlocks G → ℕ
  num_free p = length p.free_blocks

  abbrev pub policy : Policy (RandomBlocks G)
  policy = record { alloc_one = alloc_one; free_one = free_one; num_free = num_free }

unfoldable pub init : {G : Type 0} → ℕ → G → Pool (RandomBlocks G)
unfolding new_pool
init num_blocks rng = new_pool num_blocks (record { free_blocks = range num_blocks; rng = rng })

module _ {G : Type 0} (gen : Generator G) where
  abbrev pub view : View (RandomBlocks G)
  view = record { IsValid = λ _. Unit {0}; free = λ p. p.free_blocks }

  swap_with_last-some :
      (i : ℕ) (xs : List ℕ)
      → i < length xs
      → (ys : List ℕ) × (swap_with_last i xs ≡ some ys)
        × ((x : ℕ) → count x ys ≡ count x xs)
        × (length ys ≡ length xs)
  unfolding swap_with_last
  swap_with_last-some i xs h =
      let (a, ea) = get_elem?-lt xs i h in
      let (z, ez) = get_elem?-lt xs (length xs - 1) (omega arith) in
      (
        set (set xs i z) (length xs - 1) a,
        rw (ea, ez),
        λ x. omega (
          arith,
          count-set x i a z xs ea,
          count-set x (length xs - 1) z a (set xs i z)
              (get_elem?-set_same i (length xs - 1) z xs ez),
        ),
        omega (arith, length-set xs i z, length-set (set xs i z) (length xs - 1) a),
      )

  pub alloc_one-Taken :
      (k : SeqId) (p : RandomBlocks G)
      → (gen.integers (length p.free_blocks) p.rng).0 < length p.free_blocks
      → Returns (λ b q. Taken (policy gen) view p b q) (alloc_one gen k p)
  unfolding alloc_one num_free
  alloc_one-Taken k p h =
      let (ys, e, counts, same) =
        swap_with_last-some (gen.integers (length p.free_blocks) p.rng).0 p.free_blocks h in
      let ((rest, b), e') = pop_last-some ys (omega arith) in
      rw (e, e')
        (returns (record {
          valid = tt;
          counts = λ x. omega (arith, counts x, pop_last-count x ys rest b e');
          fewer = omega (arith, same, pop_last-length ys rest b e');
        }))

  module _ (in_range : (n : ℕ) (g : G) → 0 < n → (gen.integers n g).0 < n) where
    -- Random placement meets the contract of a placement policy.
    unfoldable pub Lawful-random : (n : ℕ) → Lawful (policy gen) n
    unfolding free_one num_free
    Lawful-random n = record {
      view = view;
      takes = λ k p _ h. alloc_one-Taken k p (in_range (length p.free_blocks) p.rng h);
      gives = λ b p _ _ _. returns (record {
        valid = tt;
        counts = λ x. omega (arith, count-append x p.free_blocks (b ∷ []));
        more = omega (arith, length-append p.free_blocks (b ∷ []));
      });
    }

    -- Where the generator draws below its bound, a new pool of the random policy satisfies the
    -- invariant, with every block free.
    pub init_random-Inv : (n : ℕ) (g : G) → Inv (Lawful-random n) [] (init n g)
    unfolding init num_free Lawful-random
    init_random-Inv n g =
        new_pool-Inv (Lawful-random n) (record { free_blocks = range n; rng = g }) tt
          (λ b. ground (arith, count-range_from b 0 n)) (length-range_from 0 n)
