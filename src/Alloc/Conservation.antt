-- ===== src/Alloc/Conservation.antt =====
-- Validation gate 5, and what the reference counts mean.
use chip_hackathon_f.Prelude.{
  ℕ, ◌+◌, ◌<◌, ◌≡◌, refl, true, some, List, [], arith, ltb, nat_beq, nat_eq, indicator, count,
}
use chip_hackathon_f.Dict.{get, weight, weight-erase}
use chip_hackathon_f.Dict.Weights.{is_key, refs-none, refs-get}
use chip_hackathon_f.Exec.{ok}
use chip_hackathon_f.Alloc.{SeqId, seq_id_eq, Policy, Pool, new_pool, num_live, assert_conservation}
use chip_hackathon_f.Alloc.Invariant.{Lawful, Inv, uses}

module _ {P : Type 0} {policy : Policy P} {size : ℕ} (laws : Lawful policy size) where
  -- A new pool satisfies the invariant, where its policy starts with every block free, once.
  pub new_pool-Inv :
      (p : P)
      → laws.view.IsValid p
      → ((b : ℕ) → count b (laws.view.free p) ≡ indicator (ltb b size))
      → policy.num_free p ≡ size
      → Inv laws [] (new_pool size p)
  unfolding new_pool
  new_pool-Inv p valid all total = record {
    valid = valid;
    counted = λ b. refl;
    placed = λ b. omega (arith, all b);
    alive = refl;
    ledger = refl;
    whole = omega arith;
    sized = refl;
  }

  -- Where the invariant of the pool holds, `assert_conservation` does not raise and changes nothing.
  pub assert_conservation-ok :
      (held : List ℕ) (s : Pool P) → Inv laws held s → assert_conservation policy s ≡ (ok tt, s)
  unfolding assert_conservation
  assert_conservation-ok held s v =
      let balanced : nat_beq s.allocated_total (s.freed_total + num_live s) ≡ true =
        unfold num_live in ground (arith, v.ledger) in
      let covered : nat_beq (num_live s + policy.num_free s.placement) s.num_blocks ≡ true =
        unfold num_live in ground (arith, v.whole, v.sized) in
      rw (balanced, covered)

  -- The stored count of a block is the number of times that tables and callers refer to it.
  pub refcount-eq-uses :
      (held : List ℕ) (s : Pool P) (b n : ℕ)
      → Inv laws held s
      → get b s.refcount ≡ some n
      → n ≡ weight (uses b) s.tables + count b held
  refcount-eq-uses held s b n v e =
      ground (arith, v.counted b, v.placed b, refs-get b n s.refcount e)

  -- The blocks of a table are live.
  pub table_is_live :
      (held : List ℕ) (s : Pool P) (k : SeqId) (table : List ℕ) (b : ℕ)
      → Inv laws held s
      → get k s.tables ≡ some table
      → 0 < count b table
      → 0 < weight (is_key b) s.refcount
  table_is_live held s k table b v e h =
      ground (arith, v.counted b, weight-erase (uses b) k s.tables, e, refs-none b s.refcount)

  -- The blocks of a table lie in the pool.
  pub table_in_range :
      (held : List ℕ) (s : Pool P) (k : SeqId) (table : List ℕ) (b : ℕ)
      → Inv laws held s
      → get k s.tables ≡ some table
      → 0 < count b table
      → b < size
  table_in_range held s k table b v e h =
      ground (arith, v.placed b, table_is_live held s k table b v e h)

  -- A policy may rearrange its own state, as long as the free blocks are the same.
  pub placement-Inv :
      (held : List ℕ) (s : Pool P) (q : P)
      → Inv laws held s
      → laws.view.IsValid q
      → ((b : ℕ) → count b (laws.view.free q) ≡ count b (laws.view.free s.placement))
      → policy.num_free q ≡ policy.num_free s.placement
      → Inv laws held (record s { placement = q })
  placement-Inv held s q v valid same total = record {
    valid = valid;
    counted = v.counted;
    placed = λ b. omega (arith, v.placed b, same b);
    alive = v.alive;
    ledger = v.ledger;
    whole = omega (arith, v.whole, total);
    sized = v.sized;
  }
