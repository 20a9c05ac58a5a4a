-- ===== src/Alloc.antt =====
-- KVAllocator: the block tables and reference counts that every placement policy shares
-- (pimkv/allocator.py). A policy is a record of the three hooks that a subclass gives.
pub mod Invariant
pub mod FreeList
pub mod Paged
pub mod Random
pub mod Primitives
pub mod Loops
pub mod Admission
pub mod Conservation
pub mod Teardown
pub mod RoundTrip
use chip_hackathon_f.Prelude.{
  ℕ, zero, suc, ◌+◌, ◌-◌, ◌≡◌, refl, ◌↔◌, Bool, true, false, not, Option, none, some, List, [], ◌∷◌,
  ◌++◌, arith, ltb, leb, nat_beq, nat_beq_iff, DictKey, ◌==◌, nat_eq, if◌then◌else◌, take, drop,
  length, get_elem?,
}
use chip_hackathon_f.Dict.{Dict, get, put, erase}
use chip_hackathon_f.Exec.{
  Error, admission_failure, value_error, key_error, index_error, assertion_error, Result, ok, err,
  Exec, pure, raise, ◌>>=◌, ◌>>◌, continue,
}

-- The keys of `tables`: a request id, `-1000 - prefix_id` for a pinned prefix, and SCRATCH_KEY.
pub data SeqId : Type 0 where
  seq cache : ℕ → SeqId
  scratch : SeqId

abbrev pub seq_id_beq : SeqId → SeqId → Bool
seq_id_beq (seq a) (seq b) = nat_beq a b
seq_id_beq (cache a) (cache b) = nat_beq a b
seq_id_beq scratch scratch = true
seq_id_beq _ _ = false

pub seq_id_beq_iff : (a b : SeqId) → (seq_id_beq a b ≡ true) ↔ (a ≡ b)
seq_id_beq_iff (seq a) (seq b) = ground arith
seq_id_beq_iff (cache a) (cache b) = ground arith
seq_id_beq_iff scratch scratch = ground arith
seq_id_beq_iff _ _ = ground arith

instance abbrev pub seq_id_eq : DictKey SeqId
seq_id_eq = record { agrees = seq_id_beq; agrees_iff = seq_id_beq_iff }

-- The hooks `_alloc_one`, `_free_one` and `num_free`, over the policy's own state.
pub record Policy (P : Type 0) : Type 0 where
  pub alloc_one : SeqId → P → Result ℕ × P
  pub free_one : ℕ → P → Result (Unit {0}) × P
  pub num_free : P → ℕ

pub record Pool (P : Type 0) : Type 0 where
  pub num_blocks : ℕ
  pub tables : Dict SeqId (List ℕ)
  pub refcount : Dict ℕ ℕ
  pub allocated_total : ℕ
  pub freed_total : ℕ
  pub cow_copies : ℕ
  pub placement : P

unfoldable pub new_pool : {P : Type 0} → ℕ → P → Pool P
new_pool n p = record {
  num_blocks = n;
  tables = [];
  refcount = [];
  allocated_total = 0;
  freed_total = 0;
  cow_copies = 0;
  placement = p;
}

-- `d[k]` of a dictionary in the state.
abbrev pub fetch {ℓ} : {S V : Type ℓ} → Option V → Exec S V
fetch none = raise key_error
fetch (some v) = pure v

abbrev pub check {ℓ} : {S : Type ℓ} → Bool → Error → Exec S (Unit {ℓ})
check true e = pure tt
check false e = raise e

abbrev pub is_some {ℓ} : {V : Type ℓ} → Option V → Bool
is_some none = false
is_some (some v) = true

-- `t.pop()` on a list.
unfoldable pub pop_last {ℓ} : {A : Type ℓ} → List A → Option (List A × A)
pop_last [] = none
pop_last (x ∷ xs) = elim (pop_last xs) [ none ↦ some ([], x) | some (ys, y) ↦ some (x ∷ ys, y) ]

-- The branches other than `branches[w]`.
unfoldable pub losers {ℓ} : {A : Type ℓ} → ℕ → List A → List A
losers w [] = []
losers zero (x ∷ xs) = xs
losers (suc w) (x ∷ xs) = x ∷ losers w xs

unfoldable pub num_live : {P : Type 0} → Pool P → ℕ
num_live s = length s.refcount

module _ {P : Type 0} (policy : Policy P) where
  open policy use {alloc_one, free_one, num_free}

  abbrev record_alloc : Pool P → Result ℕ × P → Result ℕ × Pool P
  record_alloc s (ok b, p) = (
    ok b,
    record s {
      refcount = put b 1 s.refcount;
      allocated_total = s.allocated_total + 1;
      placement = p;
    },
  )
  record_alloc s (err e, p) = (err e, record s { placement = p })

  unfoldable pub alloc : SeqId → Exec (Pool P) ℕ
  alloc k s = record_alloc s (alloc_one k s.placement)

  -- `[self._alloc(seq_id) for _ in range(n)]`
  unfoldable pub alloc_many : ℕ → SeqId → Exec (Pool P) (List ℕ)
  alloc_many zero k = pure []
  alloc_many (suc n) k = do b ← alloc k; bs ← alloc_many n k; pure (b ∷ bs)

  abbrev record_free : Pool P → Result (Unit {0}) × P → Result (Unit {0}) × Pool P
  record_free s (ok _, p) = (ok tt, record s { freed_total = s.freed_total + 1; placement = p })
  record_free s (err e, p) = (err e, record s { placement = p })

  -- A stored count is at least 1, so `rc - 1 == 0` is `rc == 1`.
  abbrev drop_ref : ℕ → ℕ → Exec (Pool P) (Unit {0})
  drop_ref b rc s =
      if nat_beq rc 1
      then record_free (record s { refcount = erase b s.refcount }) (free_one b s.placement)
      else (ok tt, record s { refcount = put b (rc - 1) s.refcount })

  unfoldable pub unref : ℕ → Exec (Pool P) (Unit {0})
  unref b s = continue (drop_ref b) (fetch (get b s.refcount) s)

  unfoldable pub unref_blocks : List ℕ → Exec (Pool P) (Unit {0})
  unref_blocks [] = pure tt
  unref_blocks (b ∷ bs) = do unref b; unref_blocks bs

  -- `self.refcount[b] += 1`
  unfoldable pub add_ref : ℕ → Exec (Pool P) (Unit {0})
  add_ref b s =
      continue (λ rc s. (ok tt, record s { refcount = put b (rc + 1) s.refcount }))
        (fetch (get b s.refcount) s)

  unfoldable pub add_refs : List ℕ → Exec (Pool P) (Unit {0})
  add_refs [] = pure tt
  add_refs (b ∷ bs) = do add_ref b; add_refs bs

  abbrev set_table : SeqId → List ℕ → Exec (Pool P) (Unit {0})
  set_table k t s = (ok tt, record s { tables = put k t s.tables })

  abbrev lookup_table : SeqId → Exec (Pool P) (List ℕ)
  lookup_table k s = fetch (get k s.tables) s

  -- The two guards that open `admit` and `admit_shared`.
  abbrev check_admission : SeqId → ℕ → Exec (Pool P) (Unit {0})
  check_admission k n s =
      (do
        check (not (is_some (get k s.tables))) value_error
        check (leb n (num_free s.placement)) admission_failure)
        s

  unfoldable pub admit : SeqId → ℕ → ℕ → Exec (Pool P) (List ℕ)
  admit k n_prompt_blocks n_total_blocks = do
    check_admission k n_prompt_blocks
    blocks ← alloc_many n_prompt_blocks k
    set_table k blocks
    pure blocks

  unfoldable pub admit_shared : SeqId → List ℕ → ℕ → ℕ → Exec (Pool P) (List ℕ)
  admit_shared k shared n_new n_total_blocks = do
    check_admission k n_new
    add_refs shared
    fresh ← alloc_many n_new k
    set_table k (shared ++ fresh)
    pure (shared ++ fresh)

  abbrev check_free : ℕ → Exec (Pool P) (Unit {0})
  check_free n s = check (leb n (num_free s.placement)) admission_failure s

  unfoldable pub append_block : SeqId → Exec (Pool P) ℕ
  append_block k = do
    check_free 1
    b ← alloc k
    table ← lookup_table k
    set_table k (table ++ b ∷ [])
    pure b

  unfoldable pub fork : SeqId → SeqId → Exec (Pool P) (Unit {0})
  fork parent child = do table ← lookup_table parent; add_refs table; set_table child table

  unfoldable pub alloc_scratch : SeqId → ℕ → Exec (Pool P) (List ℕ)
  alloc_scratch k n = do check_free n; alloc_many n k

  abbrev drop_tail : SeqId → Option (List ℕ × ℕ) → Exec (Pool P) (Unit {0})
  drop_tail k none = raise index_error
  drop_tail k (some (rest, b)) = do
    set_table k rest
    unref b
    λ s. (ok tt, record s { cow_copies = s.cow_copies + 1 })

  unfoldable pub unref_each : List (List ℕ) → Exec (Pool P) (Unit {0})
  unref_each [] = pure tt
  unref_each (br ∷ brs) = do unref_blocks br; unref_each brs

  abbrev replace_tail : Bool → SeqId → List ℕ → Exec (Pool P) (Unit {0})
  replace_tail true k table = drop_tail k (pop_last table)
  replace_tail false k table = pure tt

  -- `chosen` is the branch `branches[w]`; `br is not chosen` tells the others by their place.
  unfoldable pub spec_round_adopt : SeqId → Bool → ℕ → ℕ → List (List ℕ) → Exec (Pool P) (Unit {0})
  spec_round_adopt k replaces w keep branches = do
    table ← lookup_table k
    chosen ← λ s. fetch (get_elem? branches w) s
    replace_tail replaces k table
    rest ← lookup_table k
    set_table k (rest ++ take keep chosen)
    unref_blocks (drop keep chosen)
    unref_each (losers w branches)

  unfoldable pub release : SeqId → Exec (Pool P) (Unit {0})
  release k = do
    table ← lookup_table k
    λ s. (ok tt, record s { tables = erase k s.tables })
    unref_blocks table

  -- The source raises AssertionError where one of the two equations fails.
  unfoldable pub assert_conservation : Exec (Pool P) (Unit {0})
  unfolding num_live
  assert_conservation s =
      (do
        check (nat_beq s.allocated_total (s.freed_total + num_live s)) assertion_error
        check (nat_beq (num_live s + num_free s.placement) s.num_blocks) assertion_error)
        s
