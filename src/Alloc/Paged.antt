-- ===== src/Alloc/Paged.antt =====
-- PagedFirstFit, the vLLM baseline: a LIFO free list (pimkv/allocator.py).
use chip_hackathon_f.Prelude.{
  ℕ, ◌<◌, none, some, Option, List, [], ◌∷◌, ◌++◌, arith, count-append, count-range_from, length,
  length-append, length-range_from, range,
}
use chip_hackathon_f.Exec.{Result, ok, err, index_error, Returns, returns}
use chip_hackathon_f.Alloc.{SeqId, Policy, Pool, new_pool, pop_last}
use chip_hackathon_f.Alloc.FreeList.{pop_last-count, pop_last-length, pop_last-some}
use chip_hackathon_f.Alloc.Invariant.{View, Taken, Lawful, Inv}
use chip_hackathon_f.Alloc.Conservation.{new_pool-Inv}

-- The free list, in the order of the source: blocks are taken from and put back at the end.
abbrev pub FreeBlocks : Type 0
FreeBlocks = List ℕ

abbrev taken : Option (FreeBlocks × ℕ) → FreeBlocks → Result ℕ × FreeBlocks
taken none free = (err index_error, free)
taken (some (rest, b)) free = (ok b, rest)

unfoldable pub alloc_one : SeqId → FreeBlocks → Result ℕ × FreeBlocks
alloc_one k free = taken (pop_last free) free

unfoldable pub free_one : ℕ → FreeBlocks → Result (Unit {0}) × FreeBlocks
free_one b free = (ok tt, free ++ b ∷ [])

unfoldable pub num_free : FreeBlocks → ℕ
num_free free = length free

abbrev pub policy : Policy FreeBlocks
policy = record { alloc_one = alloc_one; free_one = free_one; num_free = num_free }

unfoldable pub init : ℕ → Pool FreeBlocks
unfolding new_pool
init num_blocks = new_pool num_blocks (range num_blocks)

abbrev pub view : View FreeBlocks
view = record { IsValid = λ _. Unit {0}; free = λ p. p }

pub alloc_one-Taken :
    (k : SeqId) (p : FreeBlocks)
    → 0 < num_free p
    → Returns (λ b q. Taken policy view p b q) (alloc_one k p)
unfolding alloc_one num_free
alloc_one-Taken k p h =
    let ((rest, b), e) = pop_last-some p h in
    rw e (
      returns (record {
        valid = tt;
        counts = λ x. ground (arith, pop_last-count x p rest b e);
        fewer = ground (arith, pop_last-length p rest b e);
      }))

-- The free list meets the contract of a placement policy.
unfoldable pub Lawful-paged : (n : ℕ) → Lawful policy n
unfolding free_one num_free
Lawful-paged n = record {
  view = view;
  takes = λ k p _ h. alloc_one-Taken k p h;
  gives = λ b p _ _ _. returns (record {
    valid = tt;
    counts = λ x. omega (arith, count-append x p (b ∷ []));
    more = omega (arith, length-append p (b ∷ []));
  });
}

-- A new pool satisfies the invariant, with every block free.
pub init_paged-Inv : (n : ℕ) → Inv (Lawful-paged n) [] (init n)
unfolding init num_free Lawful-paged
init_paged-Inv n =
    new_pool-Inv (Lawful-paged n) (range n) tt (λ b. ground (arith, count-range_from b 0 n))
      (length-range_from 0 n)
