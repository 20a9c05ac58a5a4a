-- ===== src/Contiguous/Invariant.antt =====
-- The invariant of the contiguous oracle, and the primitives that keep it.
use chip_hackathon_f.Prelude.{
  ℕ, ◌+◌, ◌≤◌, ◌≡◌, refl, ◌∙◌, inl, inr, true, none, some, List, [], ◌∷◌, ◌++◌, arith, ltb, nat_beq,
  nat_eq, indicator, count, count-append, length, length-append, Option-cases,
}
use chip_hackathon_f.Dict.{Dict, get, put, erase, weight, weight-put, weight-erase}
use chip_hackathon_f.Dict.Weights.{
  is_key, refs_of, is_dead, one, length-weight, get-none, refs-none, keys-none, refs-get,
}
use chip_hackathon_f.Exec.{ok, Returns, returns, Returns-continue, Returns-mono}
use chip_hackathon_f.Alloc.{seq_id_eq, Pool}
use chip_hackathon_f.Alloc.Invariant.{uses}
use chip_hackathon_f.Contiguous.{
  SpanState, init, lengths, set_ones, unref_span_block, unref_blocks, assert_conservation,
  total_size,
}
use chip_hackathon_f.Contiguous.Extents.{cover}

-- `held` are the scratch blocks of live sequences; `limbo` are blocks that were freed inside a span
-- that is not given back yet.
pub record SpanInv (size : ℕ) (held limbo : List ℕ) (s : Pool SpanState) : Type 0 where
  pub counted : (b : ℕ) → weight (refs_of b) s.refcount ≡ weight (uses b) s.tables + count b held
  pub placed :
      (b : ℕ)
      → weight (is_key b) s.refcount
          + cover b s.placement.extents
          + weight (uses b) s.placement.reserved
          + count b limbo
        ≡ indicator (ltb b size)
  pub alone : (b : ℕ) → weight (refs_of b) s.refcount ≤ 1
  pub alive : weight is_dead s.refcount ≡ 0
  pub ledger : s.allocated_total ≡ s.freed_total + length s.refcount
  pub whole :
      length s.refcount
        + (total_size s.placement.extents + weight lengths s.placement.reserved)
        + length limbo
      ≡ size
  pub sized : s.num_blocks ≡ size

-- Fresh blocks, each with the count 1.
pub record Ones (bs : List ℕ) (d e : Dict ℕ ℕ) : Type 0 where
  pub keys : (x : ℕ) → weight (is_key x) e ≡ weight (is_key x) d + count x bs
  pub refs : (x : ℕ) → weight (refs_of x) e ≡ weight (refs_of x) d + count x bs
  pub dead : weight is_dead e ≡ weight is_dead d
  pub larger : length e ≡ length d + length bs

pub set_ones-Ones :
    (bs : List ℕ) (d : Dict ℕ ℕ)
    → ((x : ℕ) → weight (is_key x) d + count x bs ≤ 1)
    → Ones bs d (set_ones bs d)
unfolding set_ones
set_ones-Ones [] d h = record {
  keys = λ x. omega arith;
  refs = λ x. omega arith;
  dead = refl;
  larger = omega arith;
}
set_ones-Ones (b ∷ bs) d h =
    let fresh : get b d ≡ none = get-none b d (ground (arith, h b)) in
    let r =
      set_ones-Ones bs (put b 1 d) (λ x. ground (arith, h x, weight-put (is_key x) b 1 d, fresh)) in
    record {
      keys = λ x. ground (arith, r.keys x, weight-put (is_key x) b 1 d, fresh);
      refs = λ x. ground (
        arith,
        r.refs x,
        weight-put (refs_of x) b 1 d,
        fresh,
        refs-none b d (keys-none b d fresh),
      );
      dead = ground (arith, r.dead, weight-put is_dead b 1 d, fresh);
      larger = ground (
        arith,
        r.larger,
        length-weight d,
        length-weight (put b 1 d),
        weight-put one b 1 d,
        fresh,
      );
    }

pub record Freed (size : ℕ) (held limbo : List ℕ) (s t : Pool SpanState) : Type 0 where
  pub inv : SpanInv size held limbo t
  pub same_tables : t.tables ≡ s.tables
  pub same_placement : t.placement ≡ s.placement

module _ {size : ℕ} where
  pub SpanInv-perm :
      {g h l m : List ℕ} {s : Pool SpanState}
      → ((b : ℕ) → count b g ≡ count b h)
      → ((b : ℕ) → count b l ≡ count b m)
      → length l ≡ length m
      → SpanInv size g l s
      → SpanInv size h m s
  SpanInv-perm e f n v = record {
    counted = λ b. omega (arith, v.counted b, e b);
    placed = λ b. omega (arith, v.placed b, f b);
    alone = v.alone;
    alive = v.alive;
    ledger = v.ledger;
    whole = omega (arith, v.whole);
    sized = v.sized;
  }

  -- A span block has one reference.
  single :
      (held limbo : List ℕ) (b n : ℕ) (s : Pool SpanState)
      → SpanInv size (b ∷ held) limbo s
      → get b s.refcount ≡ some n
      → n ≡ 1
  single held limbo b n s v e =
      ground (arith, v.counted b, v.placed b, v.alone b, refs-get b n s.refcount e)

  unref-Freed :
      (held limbo : List ℕ) (b : ℕ) (s : Pool SpanState)
      → SpanInv size (b ∷ held) limbo s
      → Returns (λ _ t. Freed size held (b ∷ limbo) s t) (unref_span_block b s)
  unfolding unref_span_block
  unref-Freed held limbo b s v = elim (Option-cases (get b s.refcount)) [
    | inl e ↦
        absurd (ground (arith, v.counted b, refs-none b s.refcount (keys-none b s.refcount e)))
    | inr (n, e) ↦
        let last : nat_beq n 1 ≡ true = ground (arith, single held limbo b n s v e) in
        let shrunk : length (erase b s.refcount) + 1 ≡ length s.refcount = ground (
          arith,
          length-weight s.refcount,
          length-weight (erase b s.refcount),
          weight-erase one b s.refcount,
          e,
        ) in
        let n_one : n ≡ 1 = ground arith in
        rw (e, last)
          (returns (record {
            inv = record {
              counted =
                  λ x. ground (arith, v.counted x, weight-erase (refs_of x) b s.refcount, e, n_one);
              placed = λ x. ground (arith, v.placed x, weight-erase (is_key x) b s.refcount, e);
              alone = λ x. ground (arith, v.alone x, weight-erase (refs_of x) b s.refcount, e);
              alive = ground (arith, v.alive, weight-erase is_dead b s.refcount, e, n_one);
              ledger = ground (arith, v.ledger, shrunk);
              whole = ground (arith, v.whole, shrunk);
              sized = v.sized;
            };
            same_tables = refl;
            same_placement = refl;
          }))
  ]

  pub unref_blocks-Freed :
      (bs held limbo : List ℕ) (s : Pool SpanState)
      → SpanInv size (bs ++ held) limbo s
      → Returns (λ _ t. Freed size held (bs ++ limbo) s t) (unref_blocks bs s)
  unfolding unref_blocks
  unref_blocks-Freed [] held limbo s v =
      returns (record { inv = v; same_tables = refl; same_placement = refl })
  unref_blocks-Freed (b ∷ bs) held limbo s v =
      Returns-continue _ (unref-Freed (bs ++ held) limbo b s v) λ _ t k.
        Returns-mono (unref_blocks-Freed bs held (b ∷ limbo) t k.inv) λ _ u l. record {
          inv =
              SpanInv-perm (λ x. refl)
                (λ x. omega (arith, count-append x bs (b ∷ limbo), count-append x bs limbo))
                (omega (arith, length-append bs (b ∷ limbo), length-append bs limbo)) l.inv;
          same_tables = l.same_tables ∙ k.same_tables;
          same_placement = l.same_placement ∙ k.same_placement;
        }

  -- Where the invariant of the contiguous oracle holds and no block of a span is in between,
  -- `assert_conservation` does not raise and changes nothing.
  pub conservation :
      (held : List ℕ) (s : Pool SpanState)
      → SpanInv size held [] s
      → assert_conservation s ≡ (ok tt, s)
  unfolding assert_conservation
  conservation held s v =
      let balanced : nat_beq s.allocated_total (s.freed_total + length s.refcount) ≡ true =
        ground (arith, v.ledger) in
      let covered : nat_beq
            (length s.refcount
              + (total_size s.placement.extents + weight lengths s.placement.reserved))
            s.num_blocks
          ≡ true =
        ground (arith, v.whole, v.sized) in
      rw (balanced, covered)

pub init-SpanInv : (n : ℕ) → SpanInv n [] [] (init n)
unfolding init
init-SpanInv n = record {
  counted = λ b. refl;
  placed = λ b. ground arith;
  alone = λ b. omega arith;
  alive = refl;
  ledger = refl;
  whole = omega arith;
  sized = refl;
}
