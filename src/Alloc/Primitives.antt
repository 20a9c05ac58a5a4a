-- ===== src/Alloc/Primitives.antt =====
-- `_alloc`, `_unref` and the reference loops keep the invariant, and return.
use chip_hackathon_f.Prelude.{
  ℕ, ◌+◌, ◌-◌, ◌<◌, ◌≡◌, refl, ◌∙◌, inl, inr, none, some, List, [], ◌∷◌, ◌++◌, arith, nat_beq,
  nat_eq, indicator, count, length, Option-cases, Bool-cases, ◌≤◌,
}
use chip_hackathon_f.Dict.{get, put, erase, weight, weight-put, weight-erase}
use chip_hackathon_f.Dict.Weights.{
  is_key, refs_of, is_dead, one, length-weight, get-none, refs-none, keys-none, keys-some, dead-get,
}
use chip_hackathon_f.Exec.{Result, Returns, returns, Returns-continue, Returns-mono}
use chip_hackathon_f.Alloc.{
  SeqId, Policy, Pool, alloc, unref, unref_blocks, record_alloc, record_free, drop_ref,
}
use chip_hackathon_f.Alloc.Invariant.{Lawful, Taken, Given, Inv}

module _ {P : Type 0} {policy : Policy P} {size : ℕ} (laws : Lawful policy size) where
  -- The invariant sees the held blocks as a multiset.
  pub Inv-perm :
      {g h : List ℕ} {s : Pool P} → ((b : ℕ) → count b g ≡ count b h) → Inv laws g s → Inv laws h s
  Inv-perm e v = record {
    valid = v.valid;
    counted = λ b. omega (arith, v.counted b, e b);
    placed = v.placed;
    alive = v.alive;
    ledger = v.ledger;
    whole = v.whole;
    sized = v.sized;
  }

  -- After `_alloc`: the block was free, and the caller holds it.
  pub record Allocated (held : List ℕ) (s : Pool P) (b : ℕ) (t : Pool P) : Type 0 where
    pub inv : Inv laws (b ∷ held) t
    pub same_tables : t.tables ≡ s.tables
    pub was_free :
        (x : ℕ)
        → weight (is_key x) t.refcount ≡ weight (is_key x) s.refcount + indicator (nat_beq b x)
    pub fewer : policy.num_free t.placement + 1 ≡ policy.num_free s.placement

  record_alloc-Allocated :
      (held : List ℕ) (s : Pool P) {r : Result ℕ × P}
      → Inv laws held s
      → Returns (λ b q. Taken policy laws.view s.placement b q) r
      → Returns (λ b t. Allocated held s b t) (record_alloc policy s r)
  record_alloc-Allocated held s v (returns {a = b} {s = q} taken) = returns (record {
    inv = record {
      valid = taken.valid;
      counted = λ x. ground (
        arith,
        v.counted x,
        weight-put (refs_of x) b 1 s.refcount,
        fresh,
        refs-none b s.refcount keys,
      );
      placed = λ x.
          ground (arith, v.placed x, taken.counts x, weight-put (is_key x) b 1 s.refcount, fresh);
      alive = ground (arith, v.alive, weight-put is_dead b 1 s.refcount, fresh);
      ledger = ground (arith, v.ledger, grown);
      whole = ground (arith, v.whole, grown, taken.fewer);
      sized = v.sized;
    };
    same_tables = refl;
    was_free = λ x. ground (arith, weight-put (is_key x) b 1 s.refcount, fresh);
    fewer = taken.fewer;
  })
    where
      keys : weight (is_key b) s.refcount ≡ 0
      keys = ground (arith, v.placed b, taken.counts b)

      fresh : get b s.refcount ≡ none
      fresh = get-none b s.refcount keys

      grown : length (put b 1 s.refcount) ≡ length s.refcount + 1
      grown = ground (
        arith,
        length-weight s.refcount,
        length-weight (put b 1 s.refcount),
        weight-put one b 1 s.refcount,
        fresh,
      )

  pub alloc-Allocated :
      (held : List ℕ) (k : SeqId) (s : Pool P)
      → Inv laws held s
      → 0 < policy.num_free s.placement
      → Returns (λ b t. Allocated held s b t) (alloc policy k s)
  unfolding alloc
  alloc-Allocated held k s v h =
      record_alloc-Allocated held s v (laws.takes k s.placement v.valid h)

  -- What a call that drops references does: the block tables stay, and no free block is taken.
  pub record Kept (held : List ℕ) (s t : Pool P) : Type 0 where
    pub inv : Inv laws held t
    pub same_tables : t.tables ≡ s.tables
    pub no_less : policy.num_free s.placement ≤ policy.num_free t.placement

  record_free-Kept :
      (held : List ℕ) (b : ℕ) (s : Pool P) {r : Result (Unit {0}) × P}
      → Inv laws (b ∷ held) s
      → get b s.refcount ≡ some 1
      → Returns (λ _ q. Given policy laws.view s.placement b q) r
      → Returns
          (λ _ t. Kept held s t)
          (record_free policy (record s { refcount = erase b s.refcount }) r)
  record_free-Kept held b s v last (returns {s = q} given) = returns (record {
    inv = record {
      valid = given.valid;
      counted = λ x. ground (arith, v.counted x, weight-erase (refs_of x) b s.refcount, last);
      placed = λ x.
          ground (arith, v.placed x, given.counts x, weight-erase (is_key x) b s.refcount, last);
      alive = ground (arith, v.alive, weight-erase is_dead b s.refcount, last);
      ledger = ground (arith, v.ledger, shrunk);
      whole = ground (arith, v.whole, shrunk, given.more);
      sized = v.sized;
    };
    same_tables = refl;
    no_less = omega (arith, given.more);
  })
    where
      shrunk : length (erase b s.refcount) + 1 ≡ length s.refcount
      shrunk = ground (
        arith,
        length-weight s.refcount,
        length-weight (erase b s.refcount),
        weight-erase one b s.refcount,
        last,
      )

  drop_ref-Kept :
      (held : List ℕ) (b n : ℕ) (s : Pool P)
      → Inv laws (b ∷ held) s
      → get b s.refcount ≡ some n
      → Returns (λ _ t. Kept held s t) (drop_ref policy b n s)
  drop_ref-Kept held b n s v e = elim (Bool-cases (nat_beq n 1)) [
    | inl last ↦ rw last (
        record_free-Kept held b s v (ground arith) (
          laws.gives b s.placement v.valid (ground (arith, v.placed b, live))
            (ground (arith, v.placed b, live))))
    | inr more ↦ rw more (
        returns (record {
          inv = record {
            valid = v.valid;
            counted = λ x.
                ground
                  (arith, v.counted x, weight-put (refs_of x) b (n - 1) s.refcount, e, positive);
            placed = λ x. ground (arith, v.placed x, weight-put (is_key x) b (n - 1) s.refcount, e);
            alive = ground (arith, v.alive, weight-put is_dead b (n - 1) s.refcount, e, positive);
            ledger = ground (arith, v.ledger, same);
            whole = ground (arith, v.whole, same);
            sized = v.sized;
          };
          same_tables = refl;
          no_less = omega arith;
        }))
  ]
    where
      live : 0 < weight (is_key b) s.refcount
      live = keys-some b n s.refcount e

      positive : 0 < n
      positive = dead-get b n s.refcount e v.alive

      same : length (put b (n - 1) s.refcount) ≡ length s.refcount
      same = ground (
        arith,
        length-weight s.refcount,
        length-weight (put b (n - 1) s.refcount),
        weight-put one b (n - 1) s.refcount,
        e,
      )

  -- A held block has a count.
  held_is_live :
      (held : List ℕ) (b : ℕ) (s : Pool P)
      → Inv laws (b ∷ held) s
      → (n : ℕ) × (get b s.refcount ≡ some n)
  held_is_live held b s v = elim (Option-cases (get b s.refcount)) [
    | inl e ↦
        absurd (ground (arith, v.counted b, refs-none b s.refcount (keys-none b s.refcount e)))
    | inr p ↦ p
  ]

  pub unref-Kept :
      (held : List ℕ) (b : ℕ) (s : Pool P)
      → Inv laws (b ∷ held) s
      → Returns (λ _ t. Kept held s t) (unref policy b s)
  unfolding unref
  unref-Kept held b s v =
      let (n, e) = held_is_live held b s v in rw e (drop_ref-Kept held b n s v e)

  pub unref_blocks-Kept :
      (bs held : List ℕ) (s : Pool P)
      → Inv laws (bs ++ held) s
      → Returns (λ _ t. Kept held s t) (unref_blocks policy bs s)
  unfolding unref_blocks
  unref_blocks-Kept [] held s v =
      returns (record { inv = v; same_tables = refl; no_less = omega arith })
  unref_blocks-Kept (b ∷ bs) held s v =
      Returns-continue (λ _. unref_blocks policy bs) (unref-Kept (bs ++ held) b s v)
        λ _ t k. Returns-mono (unref_blocks-Kept bs held t k.inv) λ _ u l. record {
          inv = l.inv;
          same_tables = l.same_tables ∙ k.same_tables;
          no_less = omega (arith, k.no_less, l.no_less);
        }
