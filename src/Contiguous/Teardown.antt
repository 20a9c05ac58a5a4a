-- ===== src/Contiguous/Teardown.antt =====
-- What `release` of the contiguous oracle does.
use chip_hackathon_f.Prelude.{
  ℕ, ◌+◌, ◌≡◌, ap, some, List, [], ◌++◌, arith, nat_eq, count, count-append, length, length-append,
}
use chip_hackathon_f.Dict.{get, erase, weight-erase}
use chip_hackathon_f.Exec.{Returns, returns, Returns-continue}
use chip_hackathon_f.Alloc.{SeqId, seq_id_eq, Pool}
use chip_hackathon_f.Alloc.Invariant.{uses}
use chip_hackathon_f.Contiguous.{Extent, SpanState, lengths, release}
use chip_hackathon_f.Contiguous.Extents.{within, cover-return_extent, size-return_extent}
use chip_hackathon_f.Contiguous.Invariant.{SpanInv, unref_blocks-Freed}

module _ {size : ℕ} where
  -- In a contiguous pool that satisfies the invariant, where the span of the sequence is made up of its table, its reserved blocks and the blocks of it
  -- that were freed before (its scratch), `release` returns: the sequence is forgotten, no block is
  -- left in between, and the invariant holds.
  pub contiguous_release :
      (held limbo : List ℕ) (k : SeqId) (table r : List ℕ) (span : Extent) (s : Pool SpanState)
      → SpanInv size held limbo s
      → get k s.tables ≡ some table
      → get k s.placement.reserved ≡ some r
      → get k s.placement.spans ≡ some span
      → ((x : ℕ) → within x span ≡ count x table + count x r + count x limbo)
      → span.size ≡ length table + length r + length limbo
      → Returns
          (λ _ t.
            SpanInv size held [] t
            × (t.tables ≡ erase k s.tables)
            × (t.placement.reserved ≡ erase k s.placement.reserved)
            × (t.placement.spans ≡ erase k s.placement.spans))
          (release k s)
  unfolding release
  contiguous_release held limbo k table r span s v e f g parts sizes = rw e (
      Returns-continue _ (unref_blocks-Freed table held limbo _ forgotten) λ _ t u.
        let f' : get k t.placement.reserved ≡ some r = rw u.same_placement f in
        let g' : get k t.placement.spans ≡ some span = rw u.same_placement g in
        rw (f', g')
          (returns (
            record {
              counted = u.inv.counted;
              placed = λ x. ground (
                arith,
                u.inv.placed x,
                parts x,
                cover-return_extent x span t.placement.extents,
                weight-erase (uses x) k t.placement.reserved,
                f',
                count-append x table limbo,
              );
              alone = u.inv.alone;
              alive = u.inv.alive;
              ledger = u.inv.ledger;
              whole = ground (
                arith,
                u.inv.whole,
                sizes,
                size-return_extent span t.placement.extents,
                weight-erase lengths k t.placement.reserved,
                f',
                length-append table limbo,
              );
              sized = u.inv.sized;
            },
            u.same_tables,
            ap (λ p. erase k p.reserved) u.same_placement,
            ap (λ p. erase k p.spans) u.same_placement,
          )))
    where
      forgotten : SpanInv size (table ++ held) limbo (record s { tables = erase k s.tables })
      forgotten = record {
        counted = λ x.
            ground
              (arith, v.counted x, weight-erase (uses x) k s.tables, e, count-append x table held);
        placed = v.placed;
        alone = v.alone;
        alive = v.alive;
        ledger = v.ledger;
        whole = v.whole;
        sized = v.sized;
      }
