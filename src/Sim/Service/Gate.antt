-- ===== src/Sim/Service/Gate.antt =====
-- The gate of oracle admission: what `committed` counts, and when a sequence is let in.
use chip_hackathon_f.Prelude.{
  ℕ, ◌+◌, ◌*◌, ◌≤◌, ◌<◌, ◌≡◌, refl, sym, subst, ap, inl, inr, true, false, Bool, none, some, List,
  [], ◌∷◌, arith, leb, nat_eq, length, ceil_div, Bool-cases, nat_beq, ◌∙◌,
}
use chip_hackathon_f.Dict.{Dict, get, put, weight}
use chip_hackathon_f.Exec.{ok, Returns, returns}
use chip_hackathon_f.Alloc.{SeqId, seq, seq_id_beq}
use chip_hackathon_f.Sim.{Operations, SeqState, Config, Sim, oracle}
use chip_hackathon_f.Sim.Batch.{holds, get-absent}
use chip_hackathon_f.Sim.Contract.{Serves, Entry, Running, Returns-attempt}
use chip_hackathon_f.Sim.Oracle.{handed_out, promised_to, sum_le, Reserved}
use chip_hackathon_f.Sim.Admission.{
  committed_of, committed, fits, scratch_per_seq, try_admit, fits_under, scratch_per,
}

pub leb→le : (a b : ℕ) → leb a b ≡ true → a ≤ b
leb→le a b h = ground arith

pub ceil_covers : (a b : ℕ) → 0 < b → a ≤ ceil_div a b * b
ceil_covers a b h = grind arith

pub ceil_mono : (a c b : ℕ) → 0 < b → a ≤ c → ceil_div a b ≤ ceil_div c b
ceil_mono a c b h le = grind arith

module _ {S : Type 0} {ops : Operations S} (serves : Serves ops) (cfg : Config) where
  abbrev pub promised : Sim S → ℕ
  promised s = weight (promised_to serves cfg) s.active

  abbrev pub handed : Sim S → ℕ
  handed s = weight (handed_out serves cfg s.alloc) s.active

  tail :
      (d : Dict ℕ SeqState) (k : ℕ) (st : SeqState) (s : Sim S)
      → ((j : ℕ) → weight (holds j) ((k, st) ∷ d) ≤ 1)
      → ((j : ℕ) (sj : SeqState)
          → get j ((k, st) ∷ d) ≡ some sj
          → Entry serves cfg.block_tokens s.alloc j sj)
      → (j : ℕ) (sj : SeqState) → get j d ≡ some sj
      → Entry serves cfg.block_tokens s.alloc j sj
  unfolding get
  tail d k st s unique entries j sj e = elim (Bool-cases (nat_beq k j)) [
    | inl t ↦ absurd (ground (arith, unique j, t, e, get-absent j d))
    | inr t ↦ entries j sj (ground (arith, t, e))
  ]

  committed_of-sums :
      (d : Dict ℕ SeqState) (s : Sim S)
      → ((j : ℕ) → weight (holds j) d ≤ 1)
      → ((j : ℕ) (st : SeqState) → get j d ≡ some st → Entry serves cfg.block_tokens s.alloc j st)
      → committed_of ops cfg d s
        ≡ (ok (weight (promised_to serves cfg) d, weight (handed_out serves cfg s.alloc) d), s)
  unfolding committed_of get
  committed_of-sums [] s unique entries = refl
  committed_of-sums ((k, st) ∷ d) s unique entries =
      let here = entries k st (ground arith) in
      let rest =
        committed_of-sums d s (λ j. omega (arith, unique j)) (tail d k st s unique entries) in
      let found : serves.table (seq st.rid) s.alloc ≡ some here.table =
        subst (λ i. serves.table (seq i) s.alloc ≡ some here.table) (sym here.same_id) here.found in
      rw (serves.reads (seq st.rid) here.table s.alloc found, rest, here.found) refl

  -- Where every active sequence has its table, `committed` is the difference of the two sums.
  committed-sums :
      (s : Sim S)
      → Running serves cfg.block_tokens s
      → committed ops cfg s ≡ (ok (promised s, handed s), s)
  unfolding committed
  committed-sums s v = committed_of-sums s.active s v.unique v.entries

  -- What `try_admit` writes into the batch.
  abbrev pub promised_all : SeqState → SeqState
  promised_all st = record st { total_blocks = ceil_div st.total_len cfg.block_tokens }

  abbrev pub joined : SeqState → Sim S → S → Sim S
  joined st s u = record s { alloc = u; active = put st.rid (promised_all st) s.active }

  pub record Joined (st : SeqState) (s : Sim S) (u : S) : Type 0 where
    pub good : serves.Good u
    pub table : List ℕ
    pub many : length table ≡ ceil_div st.tokens cfg.block_tokens
    pub found : serves.table (seq st.rid) u ≡ some table
    pub taken : ops.num_free u + length table ≡ ops.num_free s.alloc
    pub others_keep :
        (k : SeqId) → seq_id_beq (seq st.rid) k ≡ false → serves.table k u ≡ serves.table k s.alloc
    pub gate : ceil_div st.total_len cfg.block_tokens + promised s ≤ ops.num_free s.alloc + handed s

  -- The outcomes of trying to admit a sequence: it is in the batch, or nothing has changed.
  pub data Tried (st : SeqState) (s : Sim S) : Bool → Sim S → Type 0 where
    let_in : {t : Sim S} (u : S) → Joined st s u → t ≡ joined st s u → Tried st s true t
    refused :
        {t : Sim S}
        → t ≡ s
        → ops.num_free s.alloc + handed s < ceil_div st.total_len cfg.block_tokens + promised s
        → Tried st s false t

  no_scratch_per_seq : cfg.spec ≡ none → scratch_per_seq ops cfg ≡ 0
  unfolding scratch_per_seq
  no_scratch_per_seq plain = elim (Bool-cases ops.persistent_scratch) [
    | inl t ↦ ap (scratch_per ops cfg ops.persistent_scratch) plain ∙ rw t refl
    | inr t ↦ ap (scratch_per ops cfg ops.persistent_scratch) plain ∙ rw t refl
  ]

  fits-oracle :
      (total prompt_blocks : ℕ) (s : Sim S)
      → cfg.admission ≡ oracle
      → Running serves cfg.block_tokens s
      → fits ops cfg [] total prompt_blocks s
        ≡ (ok (leb (total + promised s) (ops.num_free s.alloc + handed s)), s)
  unfolding fits
  fits-oracle total prompt_blocks s mode v =
      ap (λ m. fits_under ops cfg m [] total prompt_blocks s) mode
      ∙ rw (committed-sums s v) (ground arith)

  pub try_admit-Tried :
      (st : SeqState) (s : Sim S)
      → cfg.admission ≡ oracle
      → cfg.spec ≡ none
      → 0 < cfg.block_tokens
      → Running serves cfg.block_tokens s
      → Reserved serves cfg s
      → st.prefix_id ≡ none
      → serves.table (seq st.rid) s.alloc ≡ none
      → st.tokens ≤ st.total_len
      → Returns (λ b t. Tried st s b t) (try_admit ops cfg st s)
  unfolding try_admit
  try_admit-Tried st s mode plain bt v r alone fresh short =
      let total = ceil_div st.total_len cfg.block_tokens in
      let none_extra : total + scratch_per_seq ops cfg ≡ total =
        omega (arith, no_scratch_per_seq plain) in
      rw (alone, none_extra, fits-oracle total (ceil_div st.tokens cfg.block_tokens) s mode v)
        (elim (Bool-cases (leb (total + promised s) (ops.num_free s.alloc + handed s))) [
          | inr t ↦ rw t (returns (refused refl (ground (arith, t))))
          | inl t ↦
              let small : ceil_div st.tokens cfg.block_tokens ≤ ops.num_free s.alloc = omega (
                arith,
                leb→le _ _ t,
                ceil_mono st.tokens st.total_len cfg.block_tokens bt short,
                sum_le (handed_out serves cfg s.alloc) (promised_to serves cfg) s.active v.unique
                    r.within,
              ) in
              rw t (
                Returns-attempt (ops.admit (seq st.rid) (ceil_div st.tokens cfg.block_tokens) total)
                  _ s
                  (serves.admits (seq st.rid) (ceil_div st.tokens cfg.block_tokens) total s.alloc
                    v.good fresh small)
                  λ bs u (good, free, many, found, same). rw (no_scratch_per_seq plain) (
                    returns (
                      let_in u
                        (record {
                          good = good;
                          table = bs;
                          many = many;
                          found = found;
                          taken = omega (arith, free, many);
                          others_keep = same;
                          gate = leb→le _ _ t;
                        })
                        refl)))
        ])
