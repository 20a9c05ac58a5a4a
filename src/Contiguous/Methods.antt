-- ===== src/Contiguous/Methods.antt =====
-- What `admit`, `append_block` and `take_scratch` of the contiguous oracle do.
use chip_hackathon_f.Prelude.{
  ℕ, zero, suc, ◌+◌, ◌-◌, ◌≤◌, ◌≡◌, refl, ap, inl, inr, true, none, some, List, [], ◌∷◌, ◌++◌,
  arith, leb, nat_eq, count, count-append, count-take-drop, count-range_from, take, drop,
  range_from, length, length-take, length-drop, length-range_from, Option-cases, All, ◌<◌,
}
use chip_hackathon_f.Dict.{get, put, weight, weight-put, weight-erase, get-put}
use chip_hackathon_f.Dict.Weights.{
  is_key, refs_of, is_dead, one, length-weight, get-none, refs-none,
}
use chip_hackathon_f.Exec.{
  Result, ok, err, admission_failure, value_error, Returns, returns, Returns-mono,
}
use chip_hackathon_f.Alloc.{SeqId, seq_id_eq, seq_id_beq_iff, Pool}
use chip_hackathon_f.Alloc.Invariant.{uses}
use chip_hackathon_f.Contiguous.{
  Extent, SpanState, lengths, carve, set_ones, place, admit, append_block, take_scratch,
}
use chip_hackathon_f.Contiguous.Extents.{Carved, carve-Carved, carve-none}
use chip_hackathon_f.Contiguous.Invariant.{SpanInv, Ones, set_ones-Ones}

-- The outcomes of an admission: a known sequence, every extent smaller than the footprint (both leave the
-- pool as it was), or a result that satisfies `Q`.
pub data SpanAdmission (k : SeqId) (n : ℕ) (s : Pool SpanState)
    (Q : List ℕ → Pool SpanState → Type 0) : Result (List ℕ) × Pool SpanState → Type 0 where
  duplicate :
      (table : List ℕ) → get k s.tables ≡ some table → SpanAdmission k n s Q (err value_error, s)
  fragmented :
      get k s.tables ≡ none
      → All (λ (x : Extent). x.size < n) s.placement.extents
      → SpanAdmission k n s Q (err admission_failure, s)
  admitted :
      {bs : List ℕ} {t : Pool SpanState}
      → get k s.tables ≡ none
      → Q bs t
      → SpanAdmission k n s Q (ok bs, t)

-- The table is the head of one run of consecutive blocks, the rest of which is reserved.
pub record Spanned (k : SeqId) (n total start : ℕ) (s : Pool SpanState) (bs : List ℕ)
    (t : Pool SpanState) : Type 0 where
  pub consecutive : bs ≡ range_from start n
  pub written : t.tables ≡ put k bs s.tables
  pub span : get k t.placement.spans ≡ some (record { start = start; size = total })

returned :
    {k : SeqId} {n : ℕ} {s : Pool SpanState} {Q : List ℕ → Pool SpanState → Type 0}
    {r : Result (List ℕ) × Pool SpanState}
    → get k s.tables ≡ none
    → Returns Q r
    → SpanAdmission k n s Q r
returned e (returns q) = admitted e q

take-range_from : (n m lo : ℕ) → n ≤ m → take n (range_from lo m) ≡ range_from lo n
take-range_from zero m lo h = refl
take-range_from (suc n) zero lo h = absurd (omega (arith, h))
take-range_from (suc n) (suc m) lo h = ap (◌∷◌ lo) (take-range_from n m (suc lo) (omega (arith, h)))

module _ {size : ℕ} where
  span_once :
      (held : List ℕ) (n total start : ℕ) (ys : List Extent) (s : Pool SpanState)
      → SpanInv size held [] s
      → Carved total s.placement.extents start ys
      → (x : ℕ) → weight (is_key x) s.refcount + count x (take n (range_from start total)) ≤ 1
  span_once held n total start ys s v c x = ground (
    arith,
    v.placed x,
    c.covers x,
    count-range_from x start total,
    count-take-drop x n (range_from start total),
  )

  place-SpanInv :
      (held : List ℕ) (k : SeqId) (n total start : ℕ) (ys : List Extent) (s : Pool SpanState)
      → SpanInv size held [] s
      → n ≤ total
      → get k s.tables ≡ none
      → get k s.placement.reserved ≡ none
      → Carved total s.placement.extents start ys
      → Returns
          (λ bs t. SpanInv size held [] t × Spanned k n total start s bs t)
          (place k n total (some (start, ys)) s)
  place-SpanInv held k n total start ys s v h fresh clear c =
      let span = range_from start total in
      let o : Ones (take n span) s.refcount (set_ones (take n span) s.refcount) =
        set_ones-Ones (take n span) s.refcount (span_once held n total start ys s v c) in
      returns (
        record {
          counted = λ b.
              ground
                (arith, v.counted b, o.refs b, weight-put (uses b) k (take n span) s.tables, fresh);
          placed = λ b. ground (
            arith,
            v.placed b,
            o.keys b,
            c.covers b,
            count-range_from b start total,
            count-take-drop b n span,
            weight-put (uses b) k (drop n span) s.placement.reserved,
            clear,
          );
          alone = λ b. ground (
            arith,
            v.alone b,
            o.refs b,
            span_once held n total start ys s v c b,
            refs-none b s.refcount,
          );
          alive = omega (arith, v.alive, o.dead);
          ledger =
              omega (arith, v.ledger, o.larger, length-take n span, length-range_from start total);
          whole = ground (
            arith,
            v.whole,
            o.larger,
            c.sizes,
            weight-put lengths k (drop n span) s.placement.reserved,
            clear,
            length-take n span,
            length-drop n span,
            length-range_from start total,
          );
          sized = v.sized;
        },
        record {
          consecutive = take-range_from n total start h;
          written = refl;
          span = ground (
            arith,
            get-put k k (record { start = start; size = total }) s.placement.spans,
            seq_id_beq_iff k k,
          );
        },
      )

  -- In a contiguous pool that satisfies the invariant, with no more prompt blocks than the footprint
  -- and nothing reserved for the sequence, `admit` either refuses (a sequence that has a table:
  -- ValueError; every free extent smaller than the whole footprint: AdmissionFailure) and the pool is
  -- unchanged, or it keeps the invariant, and the table is a run of consecutive blocks.
  pub contiguous_admit :
      (held : List ℕ) (k : SeqId) (n total : ℕ) (s : Pool SpanState)
      → SpanInv size held [] s
      → n ≤ total
      → get k s.placement.reserved ≡ none
      → SpanAdmission k total s
          (λ bs t. SpanInv size held [] t × ((start : ℕ) × Spanned k n total start s bs t))
          (admit k n total s)
  unfolding admit
  contiguous_admit held k n total s v h clear = elim (Option-cases (get k s.tables)) [
    | inr (table, e) ↦ rw e (duplicate table e)
    | inl e ↦ elim (Option-cases (carve total s.placement.extents)) [
      | inl f ↦ rw (e, f) (fragmented e (carve-none total s.placement.extents f))
      | inr ((start, ys), f) ↦
          rw (e, f)
            (returned e (
              Returns-mono
                (place-SpanInv held k n total start ys s v h e clear
                  (carve-Carved total s.placement.extents start ys f))
                (λ _ t (i, spanned). (i, (start, spanned)))))
    ]
  ]

  -- In a contiguous pool that satisfies the invariant, where the sequence has a table and a reserved
  -- block, `append_block` returns the first reserved
  -- block, writes it at the end of the table, keeps the rest reserved, and keeps the invariant.
  pub contiguous_append :
      (held : List ℕ) (k : SeqId) (b : ℕ) (rest table : List ℕ) (s : Pool SpanState)
      → SpanInv size held [] s
      → get k s.tables ≡ some table
      → get k s.placement.reserved ≡ some (b ∷ rest)
      → Returns
          (λ c t.
            SpanInv size held [] t
            × (c ≡ b)
            × (t.tables ≡ put k (table ++ b ∷ []) s.tables)
            × (t.placement.reserved ≡ put k rest s.placement.reserved))
          (append_block k s)
  unfolding append_block
  contiguous_append held k b rest table s v e r =
      let fresh : weight (is_key b) s.refcount ≡ 0 =
        ground (arith, v.placed b, weight-erase (uses b) k s.placement.reserved, r) in
      let absent : get b s.refcount ≡ none = get-none b s.refcount fresh in
      rw (r, e)
        (returns (
          record {
            counted = λ x. ground (
              arith,
              v.counted x,
              weight-put (refs_of x) b 1 s.refcount,
              absent,
              refs-none b s.refcount fresh,
              weight-put (uses x) k (table ++ b ∷ []) s.tables,
              e,
              count-append x table (b ∷ []),
            );
            placed = λ x. ground (
              arith,
              v.placed x,
              weight-put (is_key x) b 1 s.refcount,
              absent,
              weight-put (uses x) k rest s.placement.reserved,
              r,
            );
            alone = λ x. ground (
              arith,
              v.alone x,
              weight-put (refs_of x) b 1 s.refcount,
              absent,
              refs-none b s.refcount fresh,
            );
            alive = ground (arith, v.alive, weight-put is_dead b 1 s.refcount, absent);
            ledger = ground (
              arith,
              v.ledger,
              length-weight s.refcount,
              length-weight (put b 1 s.refcount),
              weight-put one b 1 s.refcount,
              absent,
            );
            whole = ground (
              arith,
              v.whole,
              length-weight s.refcount,
              length-weight (put b 1 s.refcount),
              weight-put one b 1 s.refcount,
              absent,
              weight-put lengths k rest s.placement.reserved,
              r,
            );
            sized = v.sized;
          },
          refl,
          refl,
          refl,
        ))

  -- In a contiguous pool that satisfies the invariant, where at least n blocks are reserved for the
  -- sequence, `take_scratch` hands the last n of them out: the
  -- caller holds them, the others stay reserved, and the invariant holds.
  pub contiguous_scratch :
      (held : List ℕ) (k : SeqId) (n : ℕ) (r : List ℕ) (s : Pool SpanState)
      → SpanInv size held [] s
      → get k s.placement.reserved ≡ some r
      → n ≤ length r
      → Returns
          (λ bs t.
            SpanInv size (bs ++ held) [] t
            × (length bs ≡ n)
            × (t.tables ≡ s.tables)
            × (t.placement.reserved ≡ put k (take (length r - n) r) s.placement.reserved))
          (take_scratch k n s)
  unfolding take_scratch
  contiguous_scratch held k n r s v e h =
      let fits : leb n (length r) ≡ true = ground arith in
      let last = drop (length r - n) r in
      let once : (x : ℕ) → weight (is_key x) s.refcount + count x last ≤ 1 = λ x. ground (
        arith,
        v.placed x,
        weight-erase (uses x) k s.placement.reserved,
        e,
        count-take-drop x (length r - n) r,
      ) in
      let o = set_ones-Ones last s.refcount once in
      rw (e, fits)
        (returns (
          record {
            counted = λ x. omega (arith, v.counted x, o.refs x, count-append x last held);
            placed = λ x. ground (
              arith,
              v.placed x,
              o.keys x,
              weight-put (uses x) k (take (length r - n) r) s.placement.reserved,
              e,
              count-take-drop x (length r - n) r,
            );
            alone = λ x. ground (arith, v.alone x, o.refs x, once x, refs-none x s.refcount);
            alive = omega (arith, v.alive, o.dead);
            ledger = omega (arith, v.ledger, o.larger, length-drop (length r - n) r, h);
            whole = ground (
              arith,
              v.whole,
              o.larger,
              weight-put lengths k (take (length r - n) r) s.placement.reserved,
              e,
              length-take (length r - n) r,
              length-drop (length r - n) r,
            );
            sized = v.sized;
          },
          omega (arith, length-drop (length r - n) r, h),
          refl,
          refl,
        ))
