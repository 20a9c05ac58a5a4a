-- ===== src/Alloc/Teardown.antt =====
-- `fork`, `spec_round_adopt` and `release` keep the invariant, and return.
use chip_hackathon_f.Prelude.{
  ℕ, zero, suc, ◌+◌, ◌≡◌, ap, Bool, true, false, none, some, List, [], ◌∷◌, ◌++◌, arith, count,
  count-append, count-take-drop, take, drop, get_elem?, ◌==◌, if◌then◌else◌, ◌≤◌,
}
use mathlib.Core.List.{flatten}
use chip_hackathon_f.Dict.{get, put, erase, get-put, weight-put, weight-erase}
use chip_hackathon_f.Exec.{err, key_error, Returns, returns, Returns-continue, Returns-mono}
use chip_hackathon_f.Alloc.{
  SeqId, seq_id_beq_iff, seq_id_eq, Policy, Pool, pop_last, losers, fork, spec_round_adopt,
  replace_tail, release,
}
use chip_hackathon_f.Alloc.FreeList.{pop_last-count}
use chip_hackathon_f.Alloc.Invariant.{Lawful, Inv, uses}
use chip_hackathon_f.Alloc.Primitives.{Inv-perm, unref-Kept, unref_blocks-Kept}
use chip_hackathon_f.Alloc.Loops.{add_refs-Shared, unref_each-Kept}
use chip_hackathon_f.Alloc.Admission.{new_table-Inv, extend_table-Inv}
use chip_hackathon_f.Alloc.Conservation.{table_is_live}

losers-count :
    (x w : ℕ) (brs : List (List ℕ)) (chosen : List ℕ)
    → get_elem? brs w ≡ some chosen
    → count x (flatten brs) ≡ count x chosen + count x (flatten (losers w brs))
unfolding losers flatten
losers-count x w [] chosen e = cc
losers-count x zero (br ∷ brs) chosen e = ground (arith, count-append x br (flatten brs))
losers-count x (suc w) (br ∷ brs) chosen e = ground (
  arith,
  count-append x br (flatten brs),
  count-append x br (flatten (losers w brs)),
  losers-count x w brs chosen e,
)

module _ {P : Type 0} {policy : Policy P} {size : ℕ} (laws : Lawful policy size) where
  -- In a pool that satisfies the invariant, `fork` of a sequence that has a table onto one that has
  -- none returns: the new sequence has the same table, no block is allocated, and the invariant holds.
  pub fork-Returns :
      (held : List ℕ) (parent child : SeqId) (table : List ℕ) (s : Pool P)
      → Inv laws held s
      → get parent s.tables ≡ some table
      → get child s.tables ≡ none
      → Returns
          (λ _ t.
            Inv laws held t × (t.tables ≡ put child table s.tables) × (t.placement ≡ s.placement))
          (fork policy parent child s)
  unfolding fork
  fork-Returns held parent child table s v e fresh = rw e (
      Returns-continue _
        (add_refs-Shared laws table held s v (λ x. table_is_live laws held s parent table x v e))
        λ _ t a. returns (
          new_table-Inv laws table held child t a.inv (rw a.same_tables fresh),
          ap (put child table) a.same_tables,
          a.same_placement,
        ))

  -- In a pool that satisfies the invariant, `release` of a sequence that has a table returns, forgets
  -- the table, takes no free block, and keeps the invariant, by which every block that nothing refers
  -- to is free.
  pub release-Returns :
      (held : List ℕ) (k : SeqId) (table : List ℕ) (s : Pool P)
      → Inv laws held s
      → get k s.tables ≡ some table
      → Returns
          (λ _ t.
            Inv laws held t
            × (t.tables ≡ erase k s.tables)
            × (policy.num_free s.placement ≤ policy.num_free t.placement))
          (release policy k s)
  unfolding release
  release-Returns held k table s v e = rw e (
      Returns-mono (unref_blocks-Kept laws table held _ forgotten)
        (λ _ t a. (a.inv, a.same_tables, a.no_less)))
    where
      forgotten : Inv laws (table ++ held) (record s { tables = erase k s.tables })
      forgotten = record {
        valid = v.valid;
        counted = λ x.
            ground
              (arith, v.counted x, weight-erase (uses x) k s.tables, e, count-append x table held);
        placed = v.placed;
        alive = v.alive;
        ledger = v.ledger;
        whole = v.whole;
        sized = v.sized;
      }

  pub release-unknown :
      (k : SeqId) (s : Pool P) → get k s.tables ≡ none → release policy k s ≡ (err key_error, s)
  unfolding release
  release-unknown k s e = rw e

  -- The table without its last block, where that block was copied by the branches.
  abbrev pub Trimmed : Bool → List ℕ → List ℕ → Type 0
  Trimmed true table rest = (b : ℕ) × (pop_last table ≡ some (rest, b))
  Trimmed false table rest = table ≡ rest

  record Replaced (held : List ℕ) (k : SeqId) (rest : List ℕ) (s t : Pool P) : Type 0 where
    inv : Inv laws held t
    entries : (j : SeqId) → get j t.tables ≡ (if k == j then some rest else get j s.tables)

  replace_tail-Replaced :
      (replaces : Bool) (held : List ℕ) (k : SeqId) (table rest : List ℕ) (s : Pool P)
      → Inv laws held s
      → get k s.tables ≡ some table
      → Trimmed replaces table rest
      → Returns (λ _ t. Replaced held k rest s t) (replace_tail policy replaces k table s)
  replace_tail-Replaced false held k table rest s v e trim =
      returns (record { inv = v; entries = λ j. ground (arith, seq_id_beq_iff k j) })
  replace_tail-Replaced true held k table rest s v e (b, p) = rw p (
      Returns-continue _ (unref-Kept laws held b _ popped) λ _ t a. returns (record {
        inv = record {
          valid = a.inv.valid;
          counted = a.inv.counted;
          placed = a.inv.placed;
          alive = a.inv.alive;
          ledger = a.inv.ledger;
          whole = a.inv.whole;
          sized = a.inv.sized;
        };
        entries = λ j. rw a.same_tables (get-put k j rest s.tables);
      }))
    where
      popped : Inv laws (b ∷ held) (record s { tables = put k rest s.tables })
      popped = record {
        valid = v.valid;
        counted = λ x. ground (
          arith,
          v.counted x,
          weight-put (uses x) k rest s.tables,
          e,
          pop_last-count x table rest b p,
        );
        placed = v.placed;
        alive = v.alive;
        ledger = v.ledger;
        whole = v.whole;
        sized = v.sized;
      }

  -- In a pool that satisfies the invariant, `spec_round_adopt` returns, where the caller holds the blocks of all branches and chose the
  -- branch w: the table of the sequence is its old one (without the tail that the branch copied)
  -- and the first `keep` blocks of the chosen branch, every other table is as it was, the caller
  -- holds none of the branches' blocks any more, and the invariant holds.
  pub spec_round_adopt-Returns :
      (replaces : Bool) (held : List ℕ) (k : SeqId) (w keep : ℕ) (branches : List (List ℕ))
      (table rest chosen : List ℕ) (s : Pool P)
      → Inv laws (flatten branches ++ held) s
      → get k s.tables ≡ some table
      → get_elem? branches w ≡ some chosen
      → Trimmed replaces table rest
      → Returns
          (λ _ t.
            Inv laws held t
            × ((j : SeqId)
                → get j t.tables
                  ≡ (if k == j then some (rest ++ take keep chosen) else get j s.tables)))
          (spec_round_adopt policy k replaces w keep branches s)
  unfolding spec_round_adopt
  spec_round_adopt-Returns replaces held k w keep branches table rest chosen s v e c trim =
      rw (e, c)
        (Returns-continue _
          (replace_tail-Replaced replaces (flatten branches ++ held) k table rest s v e trim)
          λ _ t a.
            let e' : get k t.tables ≡ some rest = ground (arith, a.entries k, seq_id_beq_iff k k) in
            rw e' (
              Returns-continue _
                (unref_blocks-Kept laws (drop keep chosen) (flatten (losers w branches) ++ held) _
                  (extend_table-Inv laws rest (take keep chosen) _ k t (split t a.inv) e'))
                λ _ u b.
                  Returns-mono (unref_each-Kept laws (losers w branches) held u b.inv) λ _ z d. (
                    d.inv,
                    λ j.
                        rw (d.same_tables, b.same_tables)
                          (ground
                            (arith, get-put k j (rest ++ take keep chosen) t.tables, a.entries j)),
                  )))
    where
      split :
          (t : Pool P)
          → Inv laws (flatten branches ++ held) t
          → Inv laws
              (take keep chosen ++ (drop keep chosen ++ (flatten (losers w branches) ++ held)))
              t
      split t = Inv-perm laws λ x. omega (
        arith,
        losers-count x w branches chosen c,
        count-take-drop x keep chosen,
        count-append x (flatten branches) held,
        count-append x (take keep chosen)
            (drop keep chosen ++ (flatten (losers w branches) ++ held)),
        count-append x (drop keep chosen) (flatten (losers w branches) ++ held),
        count-append x (flatten (losers w branches)) held,
      )
