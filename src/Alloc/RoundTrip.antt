-- ===== src/Alloc/RoundTrip.antt =====
-- `admit` and then `release` of the same sequence (pimkv/allocator.py).
use chip_hackathon_f.Prelude.{
  ℕ, ◌+◌, ◌≤◌, ◌≡◌, sym, ap, ◌∙◌, ◌&&◌, inl, inr, none, some, List, [], arith, ltb, nat_beq, nat_eq,
  indicator, count, Option-cases,
}
use chip_hackathon_f.Dict.{get, put, erase, get-put, weight, weight-put, weight-erase}
use chip_hackathon_f.Dict.Weights.{keys-none, refs-none, refs-get, dead-get}
use chip_hackathon_f.Exec.{Result, Returns, Returns-mono, continue}
use chip_hackathon_f.Alloc.{SeqId, seq_id_eq, seq_id_beq_iff, Policy, Pool, admit, release}
use chip_hackathon_f.Alloc.Invariant.{Lawful, Inv, uses}
use chip_hackathon_f.Alloc.Admission.{
  Admission, admitted, duplicate, full, Admitted, admit-Admission,
}
use chip_hackathon_f.Alloc.Teardown.{release-Returns}

module _ {P : Type 0} {policy : Policy P} {size : ℕ} (laws : Lawful policy size) where
  -- The free blocks are those that nothing refers to.
  free_as_unused :
      (held : List ℕ) (s : Pool P) (b : ℕ)
      → Inv laws held s
      → count b (laws.view.free s.placement)
        ≡ indicator (ltb b size && nat_beq (weight (uses b) s.tables + count b held) 0)
  free_as_unused held s b v = elim (Option-cases (get b s.refcount)) [
    | inl e ↦
        ground (arith, v.counted b, v.placed b, keys-none b s.refcount e, refs-none b s.refcount)
    | inr (n, e) ↦ ground (
      arith,
      v.counted b,
      v.placed b,
      refs-get b n s.refcount e,
      dead-get b n s.refcount e v.alive,
      refs-none b s.refcount,
    )
  ]

  -- In a pool that satisfies the invariant, where the sequence has no table and the prompt's blocks are
  -- free, `admit` and then `release` of the sequence both return, and afterwards every block is free as
  -- often as it was before, the references of the tables are the same, and the invariant holds.
  pub release_undoes_admit :
      (held : List ℕ) (k : SeqId) (n total : ℕ) (s : Pool P)
      → Inv laws held s
      → get k s.tables ≡ none
      → n ≤ policy.num_free s.placement
      → Returns
          (λ _ u.
            Inv laws held u
            × ((b : ℕ) → weight (uses b) u.tables ≡ weight (uses b) s.tables)
            × ((b : ℕ)
                → count b (laws.view.free u.placement) ≡ count b (laws.view.free s.placement)))
          (continue (λ _. release policy k) (admit policy k n total s))
  release_undoes_admit held k n total s v fresh room =
      go (admit policy k n total s) (admit-Admission laws held k n total s v)
    where
      undone :
          (bs : List ℕ) (t u : Pool P)
          → t.tables ≡ put k bs s.tables
          → u.tables ≡ erase k t.tables
          → (b : ℕ) → weight (uses b) u.tables ≡ weight (uses b) s.tables
      undone bs t u written erased b =
          let own : get k (put k bs s.tables) ≡ some bs =
            ground (arith, get-put k k bs s.tables, seq_id_beq_iff k k) in
          ap (weight (uses b)) (erased ∙ ap (erase k) written)
          ∙ ground (
            arith,
            own,
            fresh,
            weight-erase (uses b) k (put k bs s.tables),
            weight-put (uses b) k bs s.tables,
          )

      go :
          (r : Result (List ℕ) × Pool P)
          → Admission laws k n s (λ bs t. Admitted laws held k [] n s bs t) r
          → Returns
              (λ _ u.
                Inv laws held u
                × ((b : ℕ) → weight (uses b) u.tables ≡ weight (uses b) s.tables)
                × ((b : ℕ)
                    → count b (laws.view.free u.placement) ≡ count b (laws.view.free s.placement)))
              (continue (λ _. release policy k) r)
      go _ (duplicate table e) = absurd (ground (arith, e, fresh))
      go _ (full e h) = absurd (omega (arith, h, room))
      go _ (admitted {bs} {t} e h a) =
          let own : get k t.tables ≡ some bs =
            ap (get k) a.written ∙ ground (arith, get-put k k bs s.tables, seq_id_beq_iff k k) in
          Returns-mono (release-Returns laws held k bs t a.inv own) λ _ u (inv, erased, _). (
            inv,
            undone bs t u a.written erased,
            λ b.
                let same = undone bs t u a.written erased b in
                free_as_unused held u b inv
                ∙ ap (λ w. indicator (ltb b size && nat_beq (w + count b held) 0)) same
                ∙ sym (free_as_unused held s b v),
          )
