-- ===== src/Alloc/Loops.antt =====
-- The loops over blocks: allocating n of them, sharing a list, freeing several lists.
use chip_hackathon_f.Prelude.{
  ℕ, zero, suc, ◌+◌, ◌≤◌, ◌<◌, ◌≡◌, refl, ◌∙◌, inl, inr, some, List, [], ◌∷◌, ◌++◌, arith, nat_eq,
  count, count-append, length, Option-cases,
}
use mathlib.Core.List.{flatten, append_assoc}
use chip_hackathon_f.Dict.{get, put, weight, weight-put}
use chip_hackathon_f.Dict.Weights.{is_key, refs_of, is_dead, one, length-weight, keys-none}
use chip_hackathon_f.Exec.{Returns, returns, Returns-continue, Returns-mono}
use chip_hackathon_f.Alloc.{SeqId, Policy, Pool, alloc_many, unref_each, add_ref, add_refs}
use chip_hackathon_f.Alloc.Invariant.{Lawful, Inv}
use chip_hackathon_f.Alloc.Primitives.{Inv-perm, alloc-Allocated, Kept, unref_blocks-Kept}

module _ {P : Type 0} {policy : Policy P} {size : ℕ} (laws : Lawful policy size) where
  -- After n allocations: n blocks that were free, each handed out once.
  pub record AllocatedMany (held : List ℕ) (s : Pool P) (n : ℕ) (bs : List ℕ) (t : Pool P)
      : Type 0 where
    pub inv : Inv laws (bs ++ held) t
    pub same_tables : t.tables ≡ s.tables
    pub were_free :
        (x : ℕ) → weight (is_key x) t.refcount ≡ weight (is_key x) s.refcount + count x bs
    pub fewer : policy.num_free t.placement + n ≡ policy.num_free s.placement
    pub many : length bs ≡ n

  pub alloc_many-AllocatedMany :
      (n : ℕ) (held : List ℕ) (k : SeqId) (s : Pool P)
      → Inv laws held s
      → n ≤ policy.num_free s.placement
      → Returns (λ bs t. AllocatedMany held s n bs t) (alloc_many policy n k s)
  unfolding alloc_many
  alloc_many-AllocatedMany zero held k s v h = returns (record {
    inv = v;
    same_tables = refl;
    were_free = λ x. omega arith;
    fewer = omega arith;
    many = refl;
  })
  alloc_many-AllocatedMany (suc n) held k s v h =
      Returns-continue _ (alloc-Allocated laws held k s v (omega arith)) λ b t a.
        Returns-continue _
          (alloc_many-AllocatedMany n (b ∷ held) k t a.inv (omega (arith, a.fewer)))
          λ bs u m. returns (record {
            inv =
                Inv-perm laws
                  (λ x. omega (arith, count-append x bs (b ∷ held), count-append x bs held)) m.inv;
            same_tables = m.same_tables ∙ a.same_tables;
            were_free = λ x. omega (arith, a.was_free x, m.were_free x);
            fewer = omega (arith, a.fewer, m.fewer);
            many = omega (arith, m.many);
          })

  -- Sharing changes counts only.
  pub record Shared (held : List ℕ) (s t : Pool P) : Type 0 where
    pub inv : Inv laws held t
    pub same_tables : t.tables ≡ s.tables
    pub same_keys : (x : ℕ) → weight (is_key x) t.refcount ≡ weight (is_key x) s.refcount
    pub same_placement : t.placement ≡ s.placement

  live_count :
      (b : ℕ) (s : Pool P)
      → 0 < weight (is_key b) s.refcount
      → (n : ℕ) × (get b s.refcount ≡ some n)
  live_count b s h = elim (Option-cases (get b s.refcount)) [
    | inl e ↦ absurd (omega (arith, keys-none b s.refcount e))
    | inr p ↦ p
  ]

  add_ref-Shared :
      (held : List ℕ) (b : ℕ) (s : Pool P)
      → Inv laws held s
      → 0 < weight (is_key b) s.refcount
      → Returns (λ _ t. Shared (b ∷ held) s t) (add_ref policy b s)
  unfolding add_ref
  add_ref-Shared held b s v live =
      let (n, e) = live_count b s live in
      let same : length (put b (n + 1) s.refcount) ≡ length s.refcount = ground (
        arith,
        length-weight s.refcount,
        length-weight (put b (n + 1) s.refcount),
        weight-put one b (n + 1) s.refcount,
        e,
      ) in
      rw e (
        returns (record {
          inv = record {
            valid = v.valid;
            counted =
                λ x. ground (arith, v.counted x, weight-put (refs_of x) b (n + 1) s.refcount, e);
            placed = λ x. ground (arith, v.placed x, weight-put (is_key x) b (n + 1) s.refcount, e);
            alive = ground (arith, v.alive, weight-put is_dead b (n + 1) s.refcount, e);
            ledger = ground (arith, v.ledger, same);
            whole = ground (arith, v.whole, same);
            sized = v.sized;
          };
          same_tables = refl;
          same_keys = λ x. ground (arith, weight-put (is_key x) b (n + 1) s.refcount, e);
          same_placement = refl;
        }))

  pub add_refs-Shared :
      (bs held : List ℕ) (s : Pool P)
      → Inv laws held s
      → ((x : ℕ) → 0 < count x bs → 0 < weight (is_key x) s.refcount)
      → Returns (λ _ t. Shared (bs ++ held) s t) (add_refs policy bs s)
  unfolding add_refs
  add_refs-Shared [] held s v live =
      returns (record { inv = v; same_tables = refl; same_keys = λ x. refl; same_placement = refl })
  add_refs-Shared (b ∷ bs) held s v live =
      Returns-continue _ (add_ref-Shared held b s v (live b (ground arith))) λ _ t a.
        Returns-mono
          (add_refs-Shared bs (b ∷ held) t a.inv (λ x h. rw a.same_keys (live x (omega arith))))
          λ _ u m. record {
            inv =
                Inv-perm laws
                  (λ x. omega (arith, count-append x bs (b ∷ held), count-append x bs held)) m.inv;
            same_tables = m.same_tables ∙ a.same_tables;
            same_keys = λ x. m.same_keys x ∙ a.same_keys x;
            same_placement = m.same_placement ∙ a.same_placement;
          }

  pub unref_each-Kept :
      (brs : List (List ℕ)) (held : List ℕ) (s : Pool P)
      → Inv laws (flatten brs ++ held) s
      → Returns (λ _ t. Kept laws held s t) (unref_each policy brs s)
  unfolding unref_each flatten
  unref_each-Kept [] held s v =
      returns (record { inv = v; same_tables = refl; no_less = omega arith })
  unref_each-Kept (br ∷ brs) held s v =
      Returns-continue _
        (unref_blocks-Kept laws br (flatten brs ++ held) s
          (rw (← append_assoc br (flatten brs) held) v))
        λ _ t k. Returns-mono (unref_each-Kept brs held t k.inv) λ _ u l. record {
          inv = l.inv;
          same_tables = l.same_tables ∙ k.same_tables;
          no_less = omega (arith, k.no_less, l.no_less);
        }
