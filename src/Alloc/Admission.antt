-- ===== src/Alloc/Admission.antt =====
-- `admit`, `admit_shared`, `append_block` and `alloc_scratch`: what they do on every branch.
use chip_hackathon_f.Prelude.{
  ℕ, ◌+◌, ◌≤◌, ◌<◌, ◌≡◌, refl, ap, ◌∙◌, inl, inr, true, false, none, some, List, [], ◌∷◌, ◌++◌,
  arith, leb, count, count-append, length, Option-cases, Bool-cases,
}
use chip_hackathon_f.Dict.{get, put, weight, weight-put}
use chip_hackathon_f.Dict.Weights.{is_key}
use chip_hackathon_f.Exec.{
  Result, ok, err, admission_failure, value_error, Exec, Returns, returns, Returns-continue,
  continue,
}
use chip_hackathon_f.Alloc.{
  SeqId, seq_id_eq, Policy, Pool, check_admission, admit, admit_shared, append_block, alloc_scratch,
}
use chip_hackathon_f.Alloc.Invariant.{Lawful, Inv, uses}
use chip_hackathon_f.Alloc.Primitives.{Inv-perm, alloc-Allocated}
use chip_hackathon_f.Alloc.Loops.{AllocatedMany, alloc_many-AllocatedMany, add_refs-Shared}

module _ {P : Type 0} {policy : Policy P} {size : ℕ} (laws : Lawful policy size) where
  -- Held blocks move into a table that was not there.
  pub new_table-Inv :
      (table held : List ℕ) (k : SeqId) (s : Pool P)
      → Inv laws (table ++ held) s
      → get k s.tables ≡ none
      → Inv laws held (record s { tables = put k table s.tables })
  new_table-Inv table held k s v e = record {
    valid = v.valid;
    counted = λ x.
        ground
          (arith, v.counted x, weight-put (uses x) k table s.tables, e, count-append x table held);
    placed = v.placed;
    alive = v.alive;
    ledger = v.ledger;
    whole = v.whole;
    sized = v.sized;
  }

  -- Held blocks go to the end of a table.
  pub extend_table-Inv :
      (table more held : List ℕ) (k : SeqId) (s : Pool P)
      → Inv laws (more ++ held) s
      → get k s.tables ≡ some table
      → Inv laws held (record s { tables = put k (table ++ more) s.tables })
  extend_table-Inv table more held k s v e = record {
    valid = v.valid;
    counted = λ x. ground (
      arith,
      v.counted x,
      weight-put (uses x) k (table ++ more) s.tables,
      e,
      count-append x table more,
      count-append x more held,
    );
    placed = v.placed;
    alive = v.alive;
    ledger = v.ledger;
    whole = v.whole;
    sized = v.sized;
  }

  -- The outcomes of an admission: a known sequence, a full pool (both leave the pool as it was), or
  -- a result that satisfies `Q`.
  pub data Admission (k : SeqId) (n : ℕ) (s : Pool P) (Q : List ℕ → Pool P → Type 0)
      : Result (List ℕ) × Pool P → Type 0 where
    duplicate :
        (table : List ℕ) → get k s.tables ≡ some table → Admission k n s Q (err value_error, s)
    full :
        get k s.tables ≡ none
        → policy.num_free s.placement < n
        → Admission k n s Q (err admission_failure, s)
    admitted :
        {bs : List ℕ} {t : Pool P}
        → get k s.tables ≡ none
        → n ≤ policy.num_free s.placement
        → Q bs t
        → Admission k n s Q (ok bs, t)

  returned :
      {k : SeqId} {n : ℕ} {s : Pool P} {Q : List ℕ → Pool P → Type 0} {r : Result (List ℕ) × Pool P}
      → get k s.tables ≡ none
      → n ≤ policy.num_free s.placement
      → Returns Q r
      → Admission k n s Q r
  returned e h (returns q) = admitted e h q

  guarded :
      (k : SeqId) (n : ℕ) (s : Pool P) (Q : List ℕ → Pool P → Type 0)
      (body : Exec (Pool P) (List ℕ))
      → (get k s.tables ≡ none → n ≤ policy.num_free s.placement → Returns Q (body s))
      → Admission k n s Q (continue (λ _. body) (check_admission policy k n s))
  guarded k n s Q body h = elim (Option-cases (get k s.tables)) [
    | inr (table, e) ↦ rw e (duplicate table e)
    | inl e ↦ elim (Bool-cases (leb n (policy.num_free s.placement))) [
      | inl fits ↦ rw (e, fits) (returned e (ground arith) (h e (ground arith)))
      | inr tight ↦ rw (e, tight) (full e (ground arith))
    ]
  ]

  -- The table is written, the new part of it was free and is handed out once.
  pub record Admitted (held : List ℕ) (k : SeqId) (shared : List ℕ) (n : ℕ) (s : Pool P)
      (bs : List ℕ) (t : Pool P) : Type 0 where
    pub inv : Inv laws held t
    pub written : t.tables ≡ put k bs s.tables
    pub fresh : List ℕ
    pub laid_out : bs ≡ shared ++ fresh
    pub many : length fresh ≡ n
    pub were_free :
        (x : ℕ) → weight (is_key x) t.refcount ≡ weight (is_key x) s.refcount + count x fresh
    pub fewer : policy.num_free t.placement + n ≡ policy.num_free s.placement

  -- In a pool that satisfies the invariant, `admit` either refuses (a sequence that has a table:
  -- ValueError; fewer free blocks than the prompt takes: AdmissionFailure), and the pool is
  -- unchanged, or it returns n blocks that were free, writes them as the table of the sequence,
  -- takes n from the free count, and keeps the invariant.
  pub admit-Admission :
      (held : List ℕ) (k : SeqId) (n total : ℕ) (s : Pool P)
      → Inv laws held s
      → Admission k n s (λ bs t. Admitted held k [] n s bs t) (admit policy k n total s)
  unfolding admit
  admit-Admission held k n total s v = guarded k n s _ _ λ e h.
      Returns-continue _ (alloc_many-AllocatedMany laws n held k s v h) λ bs t m. returns (record {
        inv = new_table-Inv bs held k t m.inv (rw m.same_tables e);
        written = ap (put k bs) m.same_tables;
        fresh = bs;
        laid_out = refl;
        many = m.many;
        were_free = m.were_free;
        fewer = m.fewer;
      })

  -- In a pool that satisfies the invariant and where every shared block is live, `admit_shared` either
  -- refuses (a sequence that has a table: ValueError; fewer free blocks than the n new ones:
  -- AdmissionFailure) and the pool is unchanged, or it writes the shared blocks and n blocks that
  -- were free as the table of the sequence, takes n from the free count, and keeps the invariant.
  pub admit_shared-Admission :
      (held : List ℕ) (k : SeqId) (shared : List ℕ) (n total : ℕ) (s : Pool P)
      → Inv laws held s
      → ((x : ℕ) → 0 < count x shared → 0 < weight (is_key x) s.refcount)
      → Admission k n s
          (λ bs t. Admitted held k shared n s bs t)
          (admit_shared policy k shared n total s)
  unfolding admit_shared
  admit_shared-Admission held k shared n total s v live = guarded k n s _ _ λ e h.
      Returns-continue _ (add_refs-Shared laws shared held s v live) λ _ t a.
        Returns-continue _
          (alloc_many-AllocatedMany laws n (shared ++ held) k t a.inv (rw a.same_placement h))
          λ bs u m. returns (record {
            inv =
                new_table-Inv (shared ++ bs) held k u
                  (Inv-perm laws
                    (λ x. omega (
                      arith,
                      count-append x bs (shared ++ held),
                      count-append x shared held,
                      count-append x (shared ++ bs) held,
                      count-append x shared bs,
                    ))
                    m.inv)
                  (rw (m.same_tables, a.same_tables) e);
            written = ap (put k (shared ++ bs)) (m.same_tables ∙ a.same_tables);
            fresh = bs;
            laid_out = refl;
            many = m.many;
            were_free = λ x. omega (arith, m.were_free x, a.same_keys x);
            fewer = m.fewer ∙ ap policy.num_free a.same_placement;
          })

  -- In a pool that satisfies the invariant, with a free block and a table of the sequence,
  -- `append_block` returns a block that was not live, writes it at the end of the table, takes one from the free count, and keeps the invariant.
  pub append_block-Returns :
      (held : List ℕ) (k : SeqId) (table : List ℕ) (s : Pool P)
      → Inv laws held s
      → get k s.tables ≡ some table
      → 0 < policy.num_free s.placement
      → Returns
          (λ b t.
            Inv laws held t
            × (t.tables ≡ put k (table ++ b ∷ []) s.tables)
            × (weight (is_key b) s.refcount ≡ 0)
            × (policy.num_free t.placement + 1 ≡ policy.num_free s.placement))
          (append_block policy k s)
  unfolding append_block
  append_block-Returns held k table s v e h =
      let fits : leb 1 (policy.num_free s.placement) ≡ true = ground arith in
      rw fits (
        Returns-continue _ (alloc-Allocated laws held k s v h) λ b t a.
          let e' : get k t.tables ≡ some table = rw a.same_tables e in
          rw e' (
            returns (
              extend_table-Inv table (b ∷ []) held k t a.inv e',
              ap (put k (table ++ b ∷ [])) a.same_tables,
              ground (arith, a.was_free b, a.inv.placed b),
              a.fewer,
            )))

  pub append_block-full :
      (k : SeqId) (s : Pool P)
      → policy.num_free s.placement ≡ 0
      → append_block policy k s ≡ (err admission_failure, s)
  unfolding append_block
  append_block-full k s h = rw h

  -- In a pool that satisfies the invariant, with at least n free blocks, `alloc_scratch` returns n
  -- blocks that were free; no table is changed, the caller holds the blocks, and the invariant holds.
  pub alloc_scratch-Returns :
      (held : List ℕ) (k : SeqId) (n : ℕ) (s : Pool P)
      → Inv laws held s
      → n ≤ policy.num_free s.placement
      → Returns (λ bs t. AllocatedMany laws held s n bs t) (alloc_scratch policy k n s)
  unfolding alloc_scratch
  alloc_scratch-Returns held k n s v h =
      let fits : leb n (policy.num_free s.placement) ≡ true = ground arith in
      rw fits (alloc_many-AllocatedMany laws n held k s v h)

  pub alloc_scratch-full :
      (k : SeqId) (n : ℕ) (s : Pool P)
      → policy.num_free s.placement < n
      → alloc_scratch policy k n s ≡ (err admission_failure, s)
  unfolding alloc_scratch
  alloc_scratch-full k n s h =
      let tight : leb n (policy.num_free s.placement) ≡ false = ground arith in rw tight
