-- ===== src/Contiguous.antt =====
-- ContiguousOracle: one contiguous span for each sequence (pimkv/allocator.py).
pub mod Extents
pub mod Invariant
pub mod Methods
pub mod Teardown
use chip_hackathon_f.Prelude.{
  ℕ, zero, suc, ◌+◌, ◌-◌, ◌≡◌, Bool, true, false, not, ◌&&◌, ◌||◌, Option, none, some, List, [],
  ◌∷◌, ◌++◌, arith, ltb, leb, nat_beq, nat_eq, if◌then◌else◌, length, take, drop, range_from,
}
use chip_hackathon_f.Dict.{Dict, get, put, erase, weight}
use chip_hackathon_f.Exec.{
  admission_failure, value_error, key_error, assertion_error, Result, ok, err, Exec, pure, raise,
  ◌>>=◌, ◌>>◌, continue,
}
use chip_hackathon_f.Alloc.{SeqId, seq_id_eq, Pool, new_pool, fetch, check, is_some, num_live}

pub record Extent : Type 0 where
  pub start : ℕ
  pub size : ℕ

pub record SpanState : Type 0 where
  pub extents : List Extent
  pub reserved : Dict SeqId (List ℕ)
  pub spans : Dict SeqId Extent

unfoldable pub init : ℕ → Pool SpanState
unfolding new_pool
init n =
    new_pool n (record { extents = record { start = 0; size = n } ∷ []; reserved = []; spans = [] })

abbrev pub total_size : List Extent → ℕ
total_size [] = 0
total_size (x ∷ xs) = x.size + total_size xs

abbrev pub lengths : SeqId → List ℕ → ℕ
lengths k blocks = length blocks

unfoldable pub num_free : SpanState → ℕ
num_free p = total_size p.extents + weight lengths p.reserved

-- The first extent that is large enough: where it started, what it is shortened to, and the extents with
-- it shortened in place.
unfoldable pub first_fit : ℕ → List Extent → Option (ℕ × Extent × List Extent)
first_fit n [] = none
first_fit n (x ∷ xs) = elim (leb n x.size) [
  | true ↦
      let ext : Extent = record { start = x.start + n; size = x.size - n } in
      some (x.start, ext, ext ∷ xs)
  | false ↦ elim (first_fit n xs) [
    | none ↦ none
    | some (start, ext, ys) ↦ some (start, ext, x ∷ ys)
  ]
]

-- `self.extents.remove(ext)`: the first extent equal to this one.
unfoldable pub remove_extent : Extent → List Extent → List Extent
remove_extent e [] = []
remove_extent e (x ∷ xs) =
    if nat_beq x.start e.start && nat_beq x.size e.size then xs else x ∷ remove_extent e xs

-- The extents after a reservation: a shortened extent of which nothing is left is dropped.
unfoldable pub carve : ℕ → List Extent → Option (ℕ × List Extent)
unfolding first_fit remove_extent
carve n xs = elim (first_fit n xs) [
  | none ↦ none
  | some (start, ext, ys) ↦ some (start, if nat_beq ext.size 0 then remove_extent ext ys else ys)
]

-- `self.refcount[b] = 1` for each block.
unfoldable pub set_ones : List ℕ → Dict ℕ ℕ → Dict ℕ ℕ
set_ones [] d = d
set_ones (b ∷ bs) d = set_ones bs (put b 1 d)

abbrev place : SeqId → ℕ → ℕ → Option (ℕ × List Extent) → Exec (Pool SpanState) (List ℕ)
place k n_prompt n_total none s = (err admission_failure, s)
place k n_prompt n_total (some (start, extents)) s =
    let span = range_from start n_total in
    let head = take n_prompt span in
    (
      ok head,
      record s {
        tables = put k head s.tables;
        refcount = set_ones head s.refcount;
        allocated_total = s.allocated_total + n_prompt;
        placement = record {
          extents = extents;
          reserved = put k (drop n_prompt span) s.placement.reserved;
          spans = put k (record { start = start; size = n_total }) s.placement.spans;
        };
      },
    )

unfoldable pub admit : SeqId → ℕ → ℕ → Exec (Pool SpanState) (List ℕ)
unfolding carve set_ones
admit k n_prompt_blocks n_total_blocks = do
  λ s. check (not (is_some (get k s.tables))) value_error s
  λ s. place k n_prompt_blocks n_total_blocks (carve n_total_blocks s.placement.extents) s

unfoldable pub admit_shared : SeqId → List ℕ → ℕ → ℕ → Exec (Pool SpanState) (List ℕ)
admit_shared k shared n_new n_total_blocks = admit k (length shared + n_new) n_total_blocks

-- The first reserved block becomes live; the table is written last.
abbrev grow : SeqId → List ℕ → Exec (Pool SpanState) ℕ
grow k [] = raise admission_failure
grow k (b ∷ rest) = do
  λ s. (
    ok tt,
    record s {
      refcount = put b 1 s.refcount;
      allocated_total = s.allocated_total + 1;
      placement = record s.placement { reserved = put k rest s.placement.reserved };
    },
  )
  table ← λ s. fetch (get k s.tables) s
  λ s. (ok b, record s { tables = put k (table ++ b ∷ []) s.tables })

unfoldable pub append_block : SeqId → Exec (Pool SpanState) ℕ
append_block k = do r ← λ s. fetch (get k s.placement.reserved) s; grow k r

-- The last n reserved blocks.
unfoldable pub take_scratch : SeqId → ℕ → Exec (Pool SpanState) (List ℕ)
unfolding set_ones
take_scratch k n = do
  r ← λ s. fetch (get k s.placement.reserved) s
  check (leb n (length r)) admission_failure
  λ s. (
    ok (drop (length r - n) r),
    record s {
      refcount = set_ones (drop (length r - n) r) s.refcount;
      allocated_total = s.allocated_total + n;
      placement = record s.placement {
        reserved = put k (take (length r - n) r) s.placement.reserved;
      };
    },
  )

-- `_unref_span_block`: the space comes back with the span, so only the counters change.
-- A stored count is at least 1, so `rc == 0` after the subtraction is 1 before it.
abbrev drop_ref : ℕ → ℕ → Exec (Pool SpanState) (Unit {0})
drop_ref b rc s =
    if nat_beq rc 1
    then (ok tt, record s { refcount = erase b s.refcount; freed_total = s.freed_total + 1 })
    else (ok tt, record s { refcount = put b (rc - 1) s.refcount })

unfoldable pub unref_span_block : ℕ → Exec (Pool SpanState) (Unit {0})
unref_span_block b s = continue (drop_ref b) (fetch (get b s.refcount) s)

unfoldable pub unref_blocks : List ℕ → Exec (Pool SpanState) (Unit {0})
unfolding unref_span_block
unref_blocks [] = pure tt
unref_blocks (b ∷ bs) = do unref_span_block b; unref_blocks bs

-- The order of `[start, size]` lists, and a sort by it.
abbrev pub extent_le : Extent → Extent → Bool
extent_le a b = ltb a.start b.start || (nat_beq a.start b.start && leb a.size b.size)

unfoldable pub insert_extent : Extent → List Extent → List Extent
insert_extent e [] = e ∷ []
insert_extent e (x ∷ xs) = if extent_le x e then x ∷ insert_extent e xs else e ∷ x ∷ xs

unfoldable pub sort_extents : List Extent → List Extent
unfolding insert_extent
sort_extents [] = []
sort_extents (x ∷ xs) = insert_extent x (sort_extents xs)

-- The merge loop: `last` is `merged[-1]`.
unfoldable pub merge_from : Extent → List Extent → List Extent
merge_from last [] = last ∷ []
merge_from last (x ∷ xs) = elim (nat_beq (last.start + last.size) x.start) [
  | true ↦ merge_from (record last { size = last.size + x.size }) xs
  | false ↦ last ∷ merge_from x xs
]

unfoldable pub merge : List Extent → List Extent
unfolding merge_from
merge [] = []
merge (x ∷ xs) = merge_from x xs

unfoldable pub return_extent : Extent → List Extent → List Extent
unfolding merge sort_extents
return_extent e xs = merge (sort_extents (xs ++ e ∷ []))

unfoldable pub release : SeqId → Exec (Pool SpanState) (Unit {0})
unfolding unref_blocks return_extent
release k = do
  table ← λ s. fetch (get k s.tables) s
  λ s. (ok tt, record s { tables = erase k s.tables })
  unref_blocks table
  reserved ← λ s. fetch (get k s.placement.reserved) s
  λ s. (
    ok tt,
    record s { placement = record s.placement { reserved = erase k s.placement.reserved } },
  )
  span ← λ s. fetch (get k s.placement.spans) s
  λ s. (
    ok tt,
    record s {
      placement = record s.placement {
        spans = erase k s.placement.spans;
        extents = return_extent span s.placement.extents;
      };
    },
  )

unfoldable pub assert_conservation : Exec (Pool SpanState) (Unit {0})
unfolding num_free num_live
assert_conservation s =
    (do
      check (nat_beq s.allocated_total (s.freed_total + num_live s)) assertion_error
      check (nat_beq (num_live s + num_free s.placement) s.num_blocks) assertion_error)
      s
