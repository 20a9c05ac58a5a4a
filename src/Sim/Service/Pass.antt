-- ===== src/Sim/Service/Pass.antt =====
-- The decoding pass under oracle admission: every sequence of the batch gets one token.
use chip_hackathon_f.Prelude.{
  ℕ, ◌+◌, ◌≤◌, ◌<◌, ◌≡◌, refl, sym, subst, ap, ◌∙◌, inl, inr, true, false, Bool, none, some, List,
  [], ◌∷◌, ◌++◌, arith, nat_beq, nat_eq, length, count, count-append, Bool-cases, Option-cases, ltb,
  ◌⊎◌, if◌then◌else◌,
}
use chip_hackathon_f.Dict.{Dict, get, put, get-put, weight, weight-put}
use chip_hackathon_f.Exec.{Returns, returns, Returns-continue}
use chip_hackathon_f.Alloc.{SeqId, seq, cache, scratch}
use chip_hackathon_f.Sim.{Operations, SeqState, Config, Sim, oracle, decode}
use chip_hackathon_f.Sim.Batch.{holds, get-absent, holds-absent}
use chip_hackathon_f.Sim.Contract.{Serves, Running}
use chip_hackathon_f.Sim.Decoding.{longer, length-put}
use chip_hackathon_f.Sim.Oracle.{Reserved, Grown, oracle_decode-Grown}
use chip_hackathon_f.Sim.Loop.{step_of, finished_of, visit_if, decode_pass}
use chip_hackathon_f.Sim.Service.{in_batch, left_to_do}

pub in_batch-keys :
    (k : SeqId) (d e : Dict ℕ SeqState)
    → ((j : ℕ) → weight (holds j) e ≡ weight (holds j) d)
    → in_batch k d ≡ false
    → in_batch k e ≡ false
in_batch-keys (seq i) d e h out = elim (Option-cases (get i d)) [
  | inl f ↦ rw (get-absent i e (h i ∙ holds-absent i d f)) refl
  | inr (v, f) ↦ absurd (ground (arith, f, out))
]
in_batch-keys (cache i) d e h out = refl
in_batch-keys scratch d e h out = refl

module _ {S : Type 0} {ops : Operations S} (serves : Serves ops) (cfg : Config) where
  -- After the visits of a part of the batch, of which the `done` ones are finished.
  pub record Passing (d : Dict ℕ SeqState) (done : List ℕ) (s t : Sim S) : Type 0 where
    pub running : Running serves cfg.block_tokens t
    pub reserved : Reserved serves cfg t
    pub kept : t ≡ record s { alloc = t.alloc; active = t.active }
    pub keys : (j : ℕ) → weight (holds j) t.active ≡ weight (holds j) s.active
    pub size : length t.active ≡ length s.active
    pub tables :
        (k : SeqId) → in_batch k s.active ≡ false → serves.table k t.alloc ≡ serves.table k s.alloc
    pub visited : (j : ℕ) → count j done ≤ weight (holds j) d
    pub untouched : (j : ℕ) → weight (holds j) d ≡ 0 → get j t.active ≡ get j s.active
    pub unfinished :
        (j : ℕ) (st : SeqState)
        → get j t.active ≡ some st
        → 0 < weight (holds j) d
        → count j done ≡ 0
        → st.tokens < st.total_len
    pub finished :
        (j : ℕ) (st : SeqState)
        → get j t.active ≡ some st
        → 0 < count j done
        → st.tokens ≡ st.total_len
    pub progress : weight left_to_do t.active + length d ≡ weight left_to_do s.active

  -- A part of the batch that can be visited.
  pub record Due (d : Dict ℕ SeqState) (s : Sim S) : Type 0 where
    pub running : Running serves cfg.block_tokens s
    pub reserved : Reserved serves cfg s
    pub there : (j : ℕ) → weight (holds j) d ≤ weight (holds j) s.active
    pub unfinished :
        (j : ℕ) (st : SeqState)
        → get j s.active ≡ some st
        → 0 < weight (holds j) d
        → st.tokens < st.total_len

  module _ (rid : ℕ) (v st : SeqState) (s t : Sim S) (same : st.rid ≡ rid)
      (e : get rid s.active ≡ some st) (short : st.tokens < st.total_len)
      (g : Grown serves cfg st s t) where
    next_batch : t.active ≡ put rid (longer serves cfg st) s.active
    next_batch =
        ap (λ (z : Sim S). z.active) g.written
        ∙ ap (λ i. put i (longer serves cfg st) s.active) same

    now :
        (j : ℕ)
        → get j t.active ≡ (if nat_beq rid j then some (longer serves cfg st) else get j s.active)
    now j = ap (get j) next_batch ∙ get-put rid j (longer serves cfg st) s.active

    grown_tables :
        (k : SeqId) → in_batch k s.active ≡ false → serves.table k t.alloc ≡ serves.table k s.alloc
    grown_tables (seq i) out = g.others_keep (seq i) (ground (arith, e, out, same))
    grown_tables (cache i) out = g.others_keep (cache i) refl
    grown_tables scratch out = g.others_keep scratch refl

    Grown-Passing : Passing ((rid, v) ∷ []) (finished_of ops cfg rid (get rid t.active)) s t
    Grown-Passing = record {
      running = g.running;
      reserved = g.reserved;
      kept =
          g.written
          ∙ ap (λ (d : Dict ℕ SeqState). record s { alloc = t.alloc; active = d })
              (sym (ap (λ (z : Sim S). z.active) g.written));
      keys = λ j.
          ap (weight (holds j)) next_batch
          ∙ ground (arith, weight-put (holds j) rid (longer serves cfg st) s.active, e);
      size = ap length next_batch ∙ length-put rid (longer serves cfg st) st s.active e;
      tables = grown_tables;
      visited = λ j. ground (arith, now rid);
      untouched = λ j h. ground (arith, now j, h);
      unfinished = λ j sj f h none_done. ground (arith, now rid, now j, f, h, none_done);
      finished = λ j sj f h. ground (arith, now rid, now j, f, h, short);
      progress = ground (
        arith,
        ap (weight left_to_do) next_batch,
        weight-put left_to_do rid (longer serves cfg st) s.active,
        e,
        short,
      );
    }

  visit-Passing :
      (draws : ℕ → ℕ → List Bool × ℕ) (rid : ℕ) (v : SeqState) (d : Dict ℕ SeqState) (s : Sim S)
      → cfg.admission ≡ oracle
      → cfg.spec ≡ none
      → 0 < cfg.block_tokens
      → Due ((rid, v) ∷ d) s
      → Returns
          (λ done t. Passing ((rid, v) ∷ []) done s t)
          (visit_if ops cfg draws rid (get rid s.active) s)
  visit-Passing draws rid v d s mode plain bt due = elim (Option-cases (get rid s.active)) [
    | inl e ↦ absurd (ground (arith, due.there rid, holds-absent rid s.active e))
    | inr (st, e) ↦
        let same = (due.running.entries rid st e).same_id in
        let e' : get st.rid s.active ≡ some st =
          subst (λ k. get k s.active ≡ some st) (sym same) e in
        let plainly : step_of ops cfg cfg.spec draws s.t st s ≡ decode ops cfg st s =
          ap (λ o. step_of ops cfg o draws s.t st s) plain in
        let short = due.unfinished rid st e (ground arith) in
        rw e (
          Returns-continue _
            (subst (Returns (λ _ t. Grown serves cfg st s t)) (sym plainly)
              (oracle_decode-Grown serves cfg st s mode bt due.running due.reserved e' short))
            λ _ t g. returns (Grown-Passing rid v st s t same e short g))
  ]

  Passing-Due :
      (rid : ℕ) (v : SeqState) (d : Dict ℕ SeqState) (done : List ℕ) (s t : Sim S)
      → Due ((rid, v) ∷ d) s
      → Passing ((rid, v) ∷ []) done s t
      → Due d t
  Passing-Due rid v d done s t due p = record {
    running = p.running;
    reserved = p.reserved;
    there = λ j. omega (arith, due.there j, p.keys j);
    unfinished = λ j st e h.
        due.unfinished j st
          (sym (p.untouched j (omega (arith, due.there j, due.running.unique j, h))) ∙ e)
          (omega (arith, h));
  }

  Passing-trans :
      (rid : ℕ) (v : SeqState) (d : Dict ℕ SeqState) (done more : List ℕ) (s t u : Sim S)
      → Due ((rid, v) ∷ d) s
      → Passing ((rid, v) ∷ []) done s t
      → Passing d more t u
      → Passing ((rid, v) ∷ d) (done ++ more) s u
  Passing-trans rid v d done more s t u due p q = record {
    running = q.running;
    reserved = q.reserved;
    kept = q.kept ∙ ap (λ (z : Sim S). record z { alloc = u.alloc; active = u.active }) p.kept;
    keys = λ j. q.keys j ∙ p.keys j;
    size = q.size ∙ p.size;
    tables = λ k out.
        q.tables k (in_batch-keys k s.active t.active (λ j. p.keys j) out) ∙ p.tables k out;
    visited = λ j. omega (arith, count-append j done more, p.visited j, q.visited j);
    untouched = λ j h. q.untouched j (omega (arith, h)) ∙ p.untouched j (omega (arith, h));
    unfinished = λ j st e h none_done. left_over j st e h none_done (Bool-cases (nat_beq rid j));
    finished = λ j st e h. through j st e h (Bool-cases (ltb 0 (count j more)));
    progress = omega (arith, p.progress, q.progress);
  }
    where
      once : (j : ℕ) → nat_beq rid j ≡ true → weight (holds j) d ≡ 0
      once j same = ground (arith, due.there j, due.running.unique j, same)

      left_over :
          (j : ℕ) (st : SeqState)
          → get j u.active ≡ some st
          → 0 < weight (holds j) ((rid, v) ∷ d)
          → count j (done ++ more) ≡ 0
          → (nat_beq rid j ≡ true) ⊎ (nat_beq rid j ≡ false)
          → st.tokens < st.total_len
      left_over j st e h none_done (inl same) =
          p.unfinished j st (sym (q.untouched j (once j same)) ∙ e) (ground (arith, same))
            (omega (arith, none_done, count-append j done more))
      left_over j st e h none_done (inr other) =
          q.unfinished j st e (ground (arith, other, h))
            (omega (arith, none_done, count-append j done more))

      through :
          (j : ℕ) (st : SeqState)
          → get j u.active ≡ some st
          → 0 < count j (done ++ more)
          → (ltb 0 (count j more) ≡ true) ⊎ (ltb 0 (count j more) ≡ false)
          → st.tokens ≡ st.total_len
      through j st e h (inl later) = q.finished j st e (ground (arith, later))
      through j st e h (inr first) =
          let here : 0 < count j done = ground (arith, h, first, count-append j done more) in
          p.finished j st
            (sym (
                q.untouched j
                  (ground (arith, here, p.visited j, due.there j, due.running.unique j)))
              ∙ e)
            here

  -- Under oracle admission without speculation, with blocks of at least one token, the decoding pass over
  -- a part of a batch in order, whose reserved blocks are there and of which no sequence in the part
  -- is finished, returns: the batch is in order with the same ids, and what was promised is still there;
  -- the tokens left to decode are fewer by the length of the part; a sequence of the part that is listed
  -- as finished, at most once, has all its tokens, and one that is not listed has tokens left; no
  -- other sequence and no table outside of the batch changes.
  pub decode_pass-Passing :
      (draws : ℕ → ℕ → List Bool × ℕ) (d : Dict ℕ SeqState) (s : Sim S)
      → cfg.admission ≡ oracle
      → cfg.spec ≡ none
      → 0 < cfg.block_tokens
      → Due d s
      → Returns (λ done t. Passing d done s t) (decode_pass ops cfg draws d s)
  unfolding decode_pass
  decode_pass-Passing draws [] s mode plain bt due = returns (record {
    running = due.running;
    reserved = due.reserved;
    kept = refl;
    keys = λ j. refl;
    size = refl;
    tables = λ k out. refl;
    visited = λ j. omega arith;
    untouched = λ j h. refl;
    unfinished = λ j st e h none_done. absurd (omega (arith, h));
    finished = λ j st e h. absurd (omega (arith, h));
    progress = omega arith;
  })
  decode_pass-Passing draws ((rid, v) ∷ d) s mode plain bt due =
      Returns-continue _ (visit-Passing draws rid v d s mode plain bt due) λ done t p.
        Returns-continue _
          (decode_pass-Passing draws d t mode plain bt (Passing-Due rid v d done s t due p))
          λ more u q. returns (Passing-trans rid v d done more s t u due p q)
