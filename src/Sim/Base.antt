-- ===== src/Sim/Base.antt =====
-- The allocators that share `KVAllocator`'s methods, as the simulator calls them.
use chip_hackathon_f.Alloc.Conservation.{table_in_range, assert_conservation-ok}
use chip_hackathon_f.Dict.Weights.{refs_of, is_dead}
use chip_hackathon_f.Prelude.{
  ℕ, ◌≡◌, refl, ap, ◌∙◌, true, false, List, [], ◌∷◌, ◌++◌, arith, nat_eq, ◌+◌, ◌≤◌, none, some, inl,
  inr, length, indicator, Option-cases,
}
use chip_hackathon_f.Dict.{Dict, get, erase, get-put, put, weight, weight-put, weight-erase}
use chip_hackathon_f.Exec.{attribute_error, Exec, raise, Returns-mono, Result, Returns, returns}
use chip_hackathon_f.Alloc.{
  SeqId, seq_id_beq, seq_id_beq_iff, seq_id_eq, Policy, Pool, fetch, num_live, admit, admit_shared,
  append_block, alloc_scratch, spec_round_adopt, unref_blocks, release, assert_conservation,
}
use chip_hackathon_f.Alloc.Invariant.{Lawful, Inv, uses}
use chip_hackathon_f.Alloc.Admission.{
  append_block-Returns, Admission, duplicate, full, admitted, Admitted, admit-Admission,
}
use chip_hackathon_f.Alloc.Teardown.{release-Returns}
use chip_hackathon_f.Sim.{Operations}
use chip_hackathon_f.Sim.Contract.{Serves}

unfoldable pub get_table : {P : Type 0} → SeqId → Exec (Pool P) (List ℕ)
get_table k s = fetch (get k s.tables) s

-- `take_scratch` is a method of ContiguousOracle only.
abbrev pub operations : {P : Type 0} → Policy P → Operations (Pool P)
operations policy = record {
  num_blocks = λ s. s.num_blocks;
  num_free = λ s. policy.num_free s.placement;
  num_live = num_live;
  supports_sharing = true;
  persistent_scratch = false;
  get_table = get_table;
  admit = admit policy;
  admit_shared = admit_shared policy;
  append_block = append_block policy;
  take_scratch = λ k n. raise attribute_error;
  alloc_scratch = alloc_scratch policy;
  spec_round_adopt = spec_round_adopt policy;
  unref_blocks = unref_blocks policy;
  release = release policy;
  assert_conservation = assert_conservation policy;
}

pub get-erase_other :
    {V : Type 0} (k j : SeqId) (d : Dict SeqId V)
    → seq_id_beq k j ≡ false
    → get j (erase k d) ≡ get j d
unfolding get erase
get-erase_other k j [] h = refl
get-erase_other k j ((i, v) ∷ d) h =
    ground (
      arith,
      get-erase_other k j d h,
      h,
      seq_id_beq_iff i k,
      seq_id_beq_iff i j,
      seq_id_beq_iff k j,
    )

-- 1 at the table of the sequence.
abbrev pub entry_of : SeqId → SeqId → List ℕ → ℕ
entry_of k j t = indicator (seq_id_beq j k)

entry_none :
    (j k : SeqId) (d : Dict SeqId (List ℕ))
    → get k d ≡ none
    → seq_id_beq k j ≡ true
    → weight (entry_of j) d ≡ 0
unfolding get
entry_none j k [] f same = refl
entry_none j k ((i, t) ∷ d) f same =
    ground (arith, entry_none j k d, seq_id_beq_iff k j, seq_id_beq_iff i k, seq_id_beq_iff i j)

get-no_entry : (k : SeqId) (d : Dict SeqId (List ℕ)) → weight (entry_of k) d ≡ 0 → get k d ≡ none
unfolding get
get-no_entry k [] h = refl
get-no_entry k ((j, t) ∷ d) h = ground (arith, get-no_entry k d)

-- Where the sequence has one table, it has none after an `erase`.
pub get-erase_self :
    (k : SeqId) (d : Dict SeqId (List ℕ)) → weight (entry_of k) d ≤ 1 → get k (erase k d) ≡ none
unfolding get erase
get-erase_self k [] h = refl
get-erase_self k ((j, t) ∷ d) h = ground (arith, get-erase_self k d, get-no_entry k d)

no_tables : (d : Dict SeqId (List ℕ)) → ((k : SeqId) → get k d ≡ none) → d ≡ []
unfolding get
no_tables [] h = refl
no_tables ((j, t) ∷ d) h = absurd (ground (arith, h j, seq_id_beq_iff j j))

no_counts :
    (d : Dict ℕ ℕ) → ((b : ℕ) → weight (refs_of b) d ≡ 0) → weight is_dead d ≡ 0 → length d ≡ 0
no_counts [] h a = refl
no_counts ((b, n) ∷ d) h a = absurd (ground (arith, h b))

-- The invariant of the pool, and one table for each sequence.
pub record Tidy {P : Type 0} {policy : Policy P} {size : ℕ} (laws : Lawful policy size) (s : Pool P)
    : Type 0 where
  pub inv : Inv laws [] s
  pub one_table : (k : SeqId) → weight (entry_of k) s.tables ≤ 1

pub put_here :
    (k : SeqId) (t : List ℕ) (d e : Dict SeqId (List ℕ)) → e ≡ put k t d → get k e ≡ some t
put_here k t d e w = ap (get k) w ∙ ground (arith, get-put k k t d, seq_id_beq_iff k k)

pub put_there :
    (k j : SeqId) (t : List ℕ) (d e : Dict SeqId (List ℕ))
    → e ≡ put k t d
    → seq_id_beq k j ≡ false
    → get j e ≡ get j d
put_there k j t d e w h = ap (get j) w ∙ ground (arith, get-put k j t d)

put_one :
    (k j : SeqId) (t : List ℕ) (d e : Dict SeqId (List ℕ))
    → e ≡ put k t d
    → weight (entry_of j) d ≤ 1
    → weight (entry_of j) e ≤ 1
put_one k j t d e w h = rw w (elim (Option-cases (get k d)) [
  | inl f ↦ ground (arith, weight-put (entry_of j) k t d, f, entry_none j k d f, seq_id_beq_iff k j)
  | inr (u, f) ↦ ground (arith, weight-put (entry_of j) k t d, f)
])

module _ {P : Type 0} {policy : Policy P} {size : ℕ} (laws : Lawful policy size) where
  pub put-Tidy :
      (k : SeqId) (t : List ℕ) (s u : Pool P)
      → Tidy laws s
      → Inv laws [] u
      → u.tables ≡ put k t s.tables
      → Tidy laws u
  put-Tidy k t s u v inv w = record {
    inv = inv;
    one_table = λ j. put_one k j t s.tables u.tables w (v.one_table j);
  }

  pub erased_Tidy :
      (k : SeqId) (s u : Pool P)
      → Tidy laws s
      → Inv laws [] u
      → u.tables ≡ erase k s.tables
      → Tidy laws u
  erased_Tidy k s u v inv w = record {
    inv = inv;
    one_table = λ j. rw w (omega (arith, v.one_table j, weight-erase (entry_of j) k s.tables));
  }

  pub all_free :
      (s : Pool P)
      → Tidy laws s
      → ((k : SeqId) → get k s.tables ≡ none)
      → policy.num_free s.placement ≡ size
  all_free s v h =
      let unreferenced : (b : ℕ) → weight (refs_of b) s.refcount ≡ 0 =
        λ b. v.inv.counted b ∙ ap (λ d. weight (uses b) d + 0) (no_tables s.tables h) in
      omega (arith, v.inv.whole, no_counts s.refcount unreferenced v.inv.alive)

  -- An admission of a new sequence for which there is room succeeds.
  pub Admission-Returns :
      (k : SeqId) (n : ℕ) (s : Pool P) {Q : List ℕ → Pool P → Type 0} {r : Result (List ℕ) × Pool P}
      → get k s.tables ≡ none
      → n ≤ policy.num_free s.placement
      → Admission laws k n s Q r
      → Returns Q r
  Admission-Returns k n s e h (duplicate table f) = absurd cc
  Admission-Returns k n s e h (full f low) = absurd (omega (arith, h, low))
  Admission-Returns k n s e h (admitted f fits q) = returns q

  pub fresh-Admitted :
      (k : SeqId) (n total : ℕ) (s : Pool P)
      → Tidy laws s
      → get k s.tables ≡ none
      → n ≤ policy.num_free s.placement
      → Returns (λ bs t. Admitted laws [] k [] n s bs t) (admit policy k n total s)
  fresh-Admitted k n total s v e h =
      Admission-Returns k n s e h (admit-Admission laws [] k n total s v.inv)

-- Every allocator with a lawful policy does what the simulator relies on.
unfoldable pub serves :
    {P : Type 0} {policy : Policy P} {size : ℕ} → Lawful policy size → Serves (operations policy)
unfolding get_table
serves {size = size} laws = record {
  Good = Tidy laws;
  table = λ k s. get k s.tables;
  blocks = size;
  sized = λ s v. v.inv.sized;
  within = λ s v. omega (arith, v.inv.whole);
  emptied = λ s v none_left. all_free laws s v none_left;
  ranges = λ k t s b v e h. table_in_range laws [] s k t b v.inv e h;
  audits = λ s v. assert_conservation-ok laws [] s v.inv;
  reads = λ k t s e. rw e;
  releases = λ k t s v e.
      Returns-mono (release-Returns laws [] k t s v.inv e) λ _ u (inv, tables, no_less). (
        erased_Tidy laws k s u v inv tables,
        no_less,
        ap (get k) tables ∙ get-erase_self k s.tables (v.one_table k),
        λ j d. ap (get j) tables ∙ get-erase_other k j s.tables d,
      );
  admits = λ k n total s v fresh h.
      Returns-mono (fresh-Admitted laws k n total s v fresh h) λ bs u a. (
        put-Tidy laws k bs s u v a.inv a.written,
        a.fewer,
        ap length a.laid_out ∙ a.many,
        put_here k bs s.tables u.tables a.written,
        λ j. put_there k j bs s.tables u.tables a.written,
      );
  appends = λ k t s v e h.
      Returns-mono (append_block-Returns laws [] k t s v.inv e h)
        λ b u (inv, tables, was_free, fewer). (
          put-Tidy laws k (t ++ b ∷ []) s u v inv tables,
          fewer,
          put_here k (t ++ b ∷ []) s.tables u.tables tables,
          λ j. put_there k j (t ++ b ∷ []) s.tables u.tables tables,
        );
}
