-- ===== src/Sim/Oracle.antt =====
-- Oracle admission: the blocks that are promised to the batch are there when decoding asks for them.
use native.Mathlib.Nat.{lt_of_mul-lt-mul_right}
use chip_hackathon_f.Prelude.{
  ℕ, ◌+◌, ◌*◌, ◌≤◌, ◌<◌, ◌≡◌, refl, subst, sym, ap, ◌∙◌, inl, inr, true, false, some, List, [], ◌∷◌,
  arith, ltb, nat_beq, nat_eq, length, length-append, ◌++◌, Bool-cases, none,
}
use chip_hackathon_f.Dict.{
  Dict, get, put, weight, or_zero, get-put, weight-put, erase, weight-erase,
}
use chip_hackathon_f.Exec.{Returns, returns}
use chip_hackathon_f.Alloc.{seq, SeqId, seq_id_beq}
use chip_hackathon_f.Sim.{
  Operations, SeqState, Config, Sim, oracle, is_oracle, ensure_free, decode, decode_if,
}
use chip_hackathon_f.Sim.Batch.{holds, get-absent, holds-absent}
use chip_hackathon_f.Sim.Contract.{Serves, Running, Returns-lift}
use chip_hackathon_f.Sim.Decoding.{longer, one_more, updated-Running}

-- Two sums over the batch, where each entry is at most its promise and one is less.
module _ (used promised : ℕ → SeqState → ℕ) where
  abbrev pub KeptPromises : Dict ℕ SeqState → Type 0
  KeptPromises d = (j : ℕ) (sj : SeqState) → get j d ≡ some sj → used j sj ≤ promised j sj

  pub tail-KeptPromises :
      (k : ℕ) (v : SeqState) (d : Dict ℕ SeqState)
      → ((j : ℕ) → weight (holds j) ((k, v) ∷ d) ≤ 1)
      → KeptPromises ((k, v) ∷ d)
      → KeptPromises d
  unfolding get
  tail-KeptPromises k v d unique all j sj e = elim (Bool-cases (nat_beq k j)) [
    | inl t ↦ absurd (ground (arith, unique j, t, e, get-absent j d))
    | inr t ↦ all j sj (ground (arith, t, e))
  ]

  pub sum_le :
      (d : Dict ℕ SeqState)
      → ((j : ℕ) → weight (holds j) d ≤ 1)
      → KeptPromises d
      → weight used d ≤ weight promised d
  unfolding get
  sum_le [] unique all = omega arith
  sum_le ((k, v) ∷ d) unique all = omega (
    arith,
    all k v (ground arith),
    sum_le d (λ j. omega (arith, unique j)) (tail-KeptPromises k v d unique all),
  )

  sum_lt :
      (rid : ℕ) (st : SeqState) (d : Dict ℕ SeqState)
      → ((j : ℕ) → weight (holds j) d ≤ 1)
      → KeptPromises d
      → get rid d ≡ some st
      → used rid st < promised rid st
      → weight used d < weight promised d
  unfolding get
  sum_lt rid st [] unique all e h = absurd cc
  sum_lt rid st ((k, v) ∷ d) unique all e h = elim (Bool-cases (nat_beq k rid)) [
    | inl t ↦
        let state : st ≡ v = ground (arith, t, e) in
        let id : rid ≡ k = ground (arith, t) in
        let h' : used k v < promised k v =
          subst (λ i. used i v < promised i v) id
            (subst (λ z. used rid z < promised rid z) state h) in
        omega
          (arith, h', sum_le d (λ j. omega (arith, unique j)) (tail-KeptPromises k v d unique all))
    | inr t ↦ omega (
      arith,
      all k v (ground arith),
      sum_lt rid st d (λ j. omega (arith, unique j)) (tail-KeptPromises k v d unique all)
          (ground (arith, t, e)) h,
    )
  ]

-- Two readings of a batch that agree but for one sequence, whose entry is written.
module _ (f g : ℕ → SeqState → ℕ) (rid : ℕ)
    (same : (j : ℕ) (sj : SeqState) → nat_beq rid j ≡ false → f j sj ≡ g j sj) where
  same_weight : (d : Dict ℕ SeqState) → weight (holds rid) d ≡ 0 → weight g d ≡ weight f d
  same_weight [] h = refl
  same_weight ((k, v) ∷ d) h =
      omega (arith, same_weight d (omega (arith, h)), same k v (ground (arith, h)))

  weight_change :
      (st new : SeqState) (d : Dict ℕ SeqState)
      → weight (holds rid) d ≤ 1
      → get rid d ≡ some st
      → weight g (put rid new d) + f rid st ≡ weight f d + g rid new
  unfolding get put
  weight_change st new [] h e = absurd cc
  weight_change st new ((k, v) ∷ d) h e = elim (Bool-cases (nat_beq k rid)) [
    | inl t ↦
        let state : v ≡ st = ground (arith, t, e) in
        let id : k ≡ rid = ground (arith, t) in
        let first : f k v ≡ f rid st = ap (λ i. f i v) id ∙ ap (f rid) state in
        let written : g k new ≡ g rid new = ap (λ i. g i new) id in
        rw t (omega (arith, first, written, same_weight d (ground (arith, h, t))))
    | inr t ↦ rw t (
        omega (
          arith,
          same k v (ground (arith, t)),
          weight_change st new d (omega (arith, h)) (ground (arith, t, e)),
        ))
  ]

  -- The same where the sequence is new.
  pub weight_insert :
      (new : SeqState) (d : Dict ℕ SeqState)
      → get rid d ≡ none
      → weight g (put rid new d) ≡ weight f d + g rid new
  weight_insert new d e =
      ground (arith, weight-put g rid new d, e, same_weight d (holds-absent rid d e))

  -- The same where the sequence leaves.
  pub weight_remove :
      (st : SeqState) (d : Dict ℕ SeqState)
      → weight (holds rid) d ≤ 1
      → get rid d ≡ some st
      → weight g (erase rid d) + f rid st ≡ weight f d
  weight_remove st d h e =
      ground (
        arith,
        weight-erase f rid d,
        weight-erase (holds rid) rid d,
        e,
        h,
        same_weight (erase rid d),
      )

module _ {S : Type 0} {ops : Operations S} (serves : Serves ops) (cfg : Config) where
  -- What the terms of `committed` count for one sequence.
  abbrev pub handed_out : S → ℕ → SeqState → ℕ
  handed_out u rid st = or_zero length (serves.table (seq rid) u) + length st.scratch

  abbrev pub promised_to : ℕ → SeqState → ℕ
  promised_to rid st = st.total_blocks

  -- The inequality of the oracle gate, and what each sequence was promised.
  pub record Reserved (s : Sim S) : Type 0 where
    pub covered :
        weight promised_to s.active ≤ ops.num_free s.alloc + weight (handed_out s.alloc) s.active
    pub within :
        (rid : ℕ) (st : SeqState)
        → get rid s.active ≡ some st
        → handed_out s.alloc rid st ≤ st.total_blocks
    pub whole :
        (rid : ℕ) (st : SeqState)
        → get rid s.active ≡ some st
        → st.total_len ≤ st.total_blocks * cfg.block_tokens

  has_fewer :
      (st : SeqState) (table : List ℕ) (s : Sim S)
      → Reserved s
      → get st.rid s.active ≡ some st
      → st.tokens < st.total_len
      → length table * cfg.block_tokens ≤ st.tokens
      → length table < st.total_blocks
  has_fewer st table s r e unfinished full =
      lt_of_mul-lt-mul_right cfg.block_tokens (omega (arith, full, unfinished, r.whole st.rid st e))

  has_room :
      (st : SeqState) (table : List ℕ) (s : Sim S)
      → Running serves cfg.block_tokens s
      → Reserved s
      → get st.rid s.active ≡ some st
      → serves.table (seq st.rid) s.alloc ≡ some table
      → st.tokens < st.total_len
      → length table * cfg.block_tokens ≤ st.tokens
      → 0 < ops.num_free s.alloc
  has_room st table s v r e f unfinished full =
      let fewer = has_fewer st table s r e unfinished full in
      let less : handed_out s.alloc st.rid st < st.total_blocks =
        rw (f, (v.entries st.rid st e).no_scratch) (omega (arith, fewer)) in
      omega (
        arith,
        r.covered,
        sum_lt (handed_out s.alloc) promised_to st.rid st s.active v.unique r.within e less,
      )

  pub updated-Reserved :
      (st : SeqState) (s : Sim S) (u : S) (taken : ℕ)
      → Running serves cfg.block_tokens s
      → Reserved s
      → get st.rid s.active ≡ some st
      → ((j : ℕ) → nat_beq st.rid j ≡ false → serves.table (seq j) u ≡ serves.table (seq j) s.alloc)
      → ops.num_free u + taken ≡ ops.num_free s.alloc
      → handed_out u st.rid (longer serves cfg st) ≡ handed_out s.alloc st.rid st + taken
      → handed_out u st.rid (longer serves cfg st) ≤ st.total_blocks
      → Reserved (record s { alloc = u; active = put st.rid (longer serves cfg st) s.active })
  updated-Reserved st s u taken v r e same free handed fits = record {
    covered = omega (
      arith,
      r.covered,
      free,
      handed,
      weight_change (handed_out s.alloc) (handed_out u) st.rid
          (λ j sj d. ap (λ o. or_zero length o + length sj.scratch) (sym (same j d))) st
          (longer serves cfg st) s.active (v.unique st.rid) e,
      weight_change promised_to promised_to st.rid (λ j sj d. refl) st (longer serves cfg st)
          s.active (v.unique st.rid) e,
    );
    within = λ j sj f. elim (Bool-cases (nat_beq st.rid j)) [
      | inl t ↦
          let state : longer serves cfg st ≡ sj =
            ground (arith, get-put st.rid j (longer serves cfg st) s.active, t, f) in
          let id : st.rid ≡ j = ground (arith, t) in
          subst (λ k. handed_out u k sj ≤ sj.total_blocks) id
            (subst (λ z. handed_out u st.rid z ≤ z.total_blocks) state fits)
      | inr t ↦
          let old =
            r.within j sj
              (ground (arith, get-put st.rid j (longer serves cfg st) s.active, t, f)) in
          rw (same j t) old
    ];
    whole = λ j sj f. elim (Bool-cases (nat_beq st.rid j)) [
      | inl t ↦
          let state : longer serves cfg st ≡ sj =
            ground (arith, get-put st.rid j (longer serves cfg st) s.active, t, f) in
          subst (λ z. z.total_len ≤ z.total_blocks * cfg.block_tokens) state (r.whole st.rid st e)
      | inr t ↦
          r.whole j sj (ground (arith, get-put st.rid j (longer serves cfg st) s.active, t, f))
    ];
  }

  -- One token more of a sequence, and nothing else: the tables of the others are as they were.
  pub record Grown (st : SeqState) (s t : Sim S) : Type 0 where
    pub running : Running serves cfg.block_tokens t
    pub reserved : Reserved t
    pub written :
        t ≡ record s { alloc = t.alloc; active = put st.rid (longer serves cfg st) s.active }
    pub others_keep :
        (k : SeqId)
        → seq_id_beq (seq st.rid) k ≡ false
        → serves.table k t.alloc ≡ serves.table k s.alloc

  append-Grown :
      (st : SeqState) (table : List ℕ) (s : Sim S)
      → 0 < cfg.block_tokens
      → Running serves cfg.block_tokens s
      → Reserved s
      → get st.rid s.active ≡ some st
      → serves.table (seq st.rid) s.alloc ≡ some table
      → st.tokens ≤ length table * cfg.block_tokens
      → st.tokens < st.total_len
      → length table * cfg.block_tokens ≤ st.tokens
      → Returns (λ _ t. Grown st s t) (decode_if ops cfg true true st s)
  append-Grown st table s bt v r e f enough unfinished full =
      let bare = (v.entries st.rid st e).no_scratch in
      let fewer = has_fewer st table s r e unfinished full in
      Returns-lift (ops.append_block (seq st.rid)) _
        (record s { active = put st.rid (longer serves cfg st) s.active })
        (serves.appends (seq st.rid) table s.alloc v.good f
          (has_room st table s v r e f unfinished full))
        λ b u (good, free, here, same).
          let long : length (table ++ b ∷ []) ≡ length table + 1 = length-append table (b ∷ []) in
          let after : handed_out u st.rid (longer serves cfg st) ≡ length table + 1 =
            rw (here, bare) (omega (arith, long)) in
          let before : handed_out s.alloc st.rid st ≡ length table = rw (f, bare) (omega arith) in
          returns (record {
            running = updated-Running serves cfg st s u v e good same (record {
              same_id = refl;
              no_scratch = bare;
              table = table ++ b ∷ [];
              found = here;
              enough = one_more table b cfg.block_tokens st.tokens bt enough;
            });
            reserved =
                updated-Reserved st s u 1 v r e (λ j d. same (seq j) d) free
                  (omega (arith, after, before)) (omega (arith, after, fewer));
            written = refl;
            others_keep = same;
          })

  -- In a running simulation under oracle admission where the gate's inequality holds (what is promised
  -- to the batch is handed out or free), no sequence holds more blocks than it was promised and none was
  -- promised less than its total length takes, `decode` of an active sequence that is not finished
  -- returns: the sequence has one token more, nothing but the allocator changes besides, the other
  -- sequences keep their tables, every table holds its tokens, and the gate's inequality and both bounds
  -- on what is promised hold again.
  pub oracle_decode-Grown :
      (st : SeqState) (s : Sim S)
      → cfg.admission ≡ oracle
      → 0 < cfg.block_tokens
      → Running serves cfg.block_tokens s
      → Reserved s
      → get st.rid s.active ≡ some st
      → st.tokens < st.total_len
      → Returns (λ _ t. Grown st s t) (decode ops cfg st s)
  unfolding decode ensure_free
  oracle_decode-Grown st s mode bt v r e unfinished =
      let here = v.entries st.rid st e in
      let on : is_oracle cfg.admission ≡ true = ap is_oracle mode in
      rw (serves.reads (seq st.rid) here.table s.alloc here.found)
        (elim (Bool-cases (ltb (length here.table * cfg.block_tokens) (st.tokens + 1))) [
          | inl t ↦
              rw (t, on)
                (append-Grown st here.table s bt v r e here.found here.enough unfinished
                  (ground (arith, t)))
          | inr t ↦ rw t (
              returns (record {
                running =
                    updated-Running serves cfg st s s.alloc v e v.good (λ j _. refl)
                      (record {
                        same_id = refl;
                        no_scratch = here.no_scratch;
                        table = here.table;
                        found = here.found;
                        enough = ground (arith, t);
                      });
                reserved =
                    updated-Reserved st s s.alloc 0 v r e (λ j _. refl) (omega arith) (omega arith)
                      (r.within st.rid st e);
                written = refl;
                others_keep = λ k _. refl;
              }))
        ])
