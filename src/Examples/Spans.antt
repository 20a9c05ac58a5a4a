-- ===== src/Examples/Spans.antt =====
-- The contiguous oracle with eight blocks: a span of five, of which two are the prompt.
use chip_hackathon_f.Prelude.{ℕ, ◌+◌, ◌≡◌, refl, some, List, [], ◌∷◌, arith, nat_eq, count}
use chip_hackathon_f.Dict.{get, put, erase}
use chip_hackathon_f.Exec.{ok, Returns}
use chip_hackathon_f.Alloc.{SeqId, seq, seq_id_eq, Pool, new_pool}
use chip_hackathon_f.Contiguous.{
  SpanState, init, carve, first_fit, remove_extent, set_ones, admit, release,
}
use chip_hackathon_f.Contiguous.Extents.{within}
use chip_hackathon_f.Contiguous.Invariant.{SpanInv, init-SpanInv}
use chip_hackathon_f.Contiguous.Methods.{SpanAdmission, admitted, Spanned, contiguous_admit}
use chip_hackathon_f.Contiguous.Teardown.{contiguous_release}

admission-Q :
    {n : ℕ} {k : SeqId} {s t : Pool SpanState} {Q : List ℕ → Pool SpanState → Type 0} {bs : List ℕ}
    → SpanAdmission k n s Q (ok bs, t)
    → Q bs t
admission-Q (admitted _ q) = q

contiguous_admit_example :
    SpanAdmission
      (seq 0)
      5
      (init 8)
      (λ bs t. SpanInv 8 [] [] t × ((start : ℕ) × Spanned (seq 0) 2 5 start (init 8) bs t))
      (admit (seq 0) 2 5 (init 8))
unfolding init new_pool get
contiguous_admit_example =
    contiguous_admit [] (seq 0) 2 5 (init 8) (init-SpanInv 8) (omega arith) refl

abbrev spanned : Pool SpanState
spanned = (admit (seq 0) 2 5 (init 8)).1

spanned-SpanInv : SpanInv 8 [] [] spanned
unfolding init new_pool get put admit carve first_fit remove_extent set_ones
spanned-SpanInv =
    (admission-Q (contiguous_admit [] (seq 0) 2 5 (init 8) (init-SpanInv 8) (omega arith) refl)).0

spanned_table : get (seq 0) spanned.tables ≡ some (0 ∷ 1 ∷ [])
unfolding init new_pool get put admit carve first_fit remove_extent set_ones
spanned_table = refl

spanned_reserved : get (seq 0) spanned.placement.reserved ≡ some (2 ∷ 3 ∷ 4 ∷ [])
unfolding init new_pool get put admit carve first_fit remove_extent set_ones
spanned_reserved = refl

whole_span :
    (x : ℕ)
    → within x (record { start = 0; size = 5 })
      ≡ count x (0 ∷ 1 ∷ []) + count x (2 ∷ 3 ∷ 4 ∷ []) + count x []
whole_span x = ground arith

contiguous_release_example :
    Returns
      (λ _ t.
        SpanInv 8 [] [] t
        × (t.tables ≡ erase (seq 0) spanned.tables)
        × (t.placement.reserved ≡ erase (seq 0) spanned.placement.reserved)
        × (t.placement.spans ≡ erase (seq 0) spanned.placement.spans))
      (release (seq 0) spanned)
unfolding init new_pool get put admit carve first_fit remove_extent set_ones
contiguous_release_example =
    contiguous_release [] [] (seq 0) (0 ∷ 1 ∷ []) (2 ∷ 3 ∷ 4 ∷ []) (record { start = 0; size = 5 })
      spanned spanned-SpanInv spanned_table spanned_reserved refl whole_span refl
