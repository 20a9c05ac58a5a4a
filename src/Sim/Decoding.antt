-- ===== src/Sim/Decoding.antt =====
-- `decode`: one token of an active sequence.
use chip_hackathon_f.Prelude.{
  ℕ, ◌+◌, ◌*◌, ◌≤◌, ◌<◌, ◌≡◌, refl, subst, ◌∙◌, inl, inr, true, false, Bool, none, some, List, [],
  ◌∷◌, ◌++◌, arith, ltb, nat_beq, nat_eq, length, length-append, Bool-cases,
}
use chip_hackathon_f.Dict.{Dict, get, put, weight-put, get-put}
use chip_hackathon_f.Exec.{Returns, returns, Returns-continue, Returns-mono}
use chip_hackathon_f.Alloc.{SeqId, seq, seq_id_beq, pop_last}
use chip_hackathon_f.Sim.{Operations, SeqState, Config, Sim, vllm, others, decode, decode_if}
use chip_hackathon_f.Sim.Batch.{holds}
use chip_hackathon_f.Sim.Contract.{Serves, Entry, Running, Returns-lift}
use chip_hackathon_f.Sim.Preemption.{
  Roomed, roomy, gave_up, Room, ensure_free-Room, ensure_free-drops,
}

pub length-put :
    {V : Type 0} (k : ℕ) (v u : V) (d : Dict ℕ V) → get k d ≡ some u → length (put k v d) ≡ length d
unfolding get put
length-put k v u [] e = cc
length-put k v u ((j, w) ∷ d) e = ground (arith, length-put k v u d)

pub one_more :
    (table : List ℕ) (b bt n : ℕ)
    → 0 < bt
    → n ≤ length table * bt
    → n + 1 ≤ length (table ++ b ∷ []) * bt
one_more table b bt n h e =
    let long : length (table ++ b ∷ []) ≡ length table + 1 = length-append table (b ∷ []) in
    rw long (grind (arith, h, e))

module _ {S : Type 0} {ops : Operations S} (serves : Serves ops) (cfg : Config) where
  abbrev pub longer : SeqState → SeqState
  longer st = record st { tokens = st.tokens + 1 }

  -- What decoding leaves: one token more in a table that holds it, or a sequence that waits.
  pub data Decoded (st : SeqState) (t : Sim S) : Type 0 where
    decoded : get st.rid t.active ≡ some (record st { tokens = st.tokens + 1 }) → Decoded st t
    waits :
        (rest : List SeqState)
        → get st.rid t.active ≡ none
        → t.waiting ≡ record st { scratch = []; preempts = st.preempts + 1 } ∷ rest
        → Decoded st t

  pub record Step (st : SeqState) (s t : Sim S) : Type 0 where
    pub running : Running serves cfg.block_tokens t
    pub outcome : Decoded st t
    pub none_lost : length t.active + length t.waiting ≡ length s.active + length s.waiting
    pub stays_out : (j : ℕ) → get j s.active ≡ none → get j t.active ≡ none

  pub updated-Running :
      (st : SeqState) (s : Sim S) (u : S)
      → Running serves cfg.block_tokens s
      → get st.rid s.active ≡ some st
      → serves.Good u
      → ((j : SeqId)
          → seq_id_beq (seq st.rid) j ≡ false
          → serves.table j u ≡ serves.table j s.alloc)
      → Entry serves cfg.block_tokens u st.rid (longer st)
      → Running serves cfg.block_tokens
          (record s { alloc = u; active = put st.rid (longer st) s.active })
  updated-Running st s u v e good same here = record {
    good = good;
    unique = λ j. ground (arith, v.unique j, weight-put (holds j) st.rid (longer st) s.active, e);
    entries = λ j sj f. elim (Bool-cases (nat_beq st.rid j)) [
      | inl t ↦
          let state : longer st ≡ sj =
            ground (arith, get-put st.rid j (longer st) s.active, t, f) in
          let id : st.rid ≡ j = ground (arith, t) in
          subst (λ k. Entry serves cfg.block_tokens u k sj) id
            (subst (λ z. Entry serves cfg.block_tokens u st.rid z) state here)
      | inr t ↦
          let old = v.entries j sj (ground (arith, get-put st.rid j (longer st) s.active, t, f)) in
          record {
            same_id = old.same_id;
            no_scratch = old.no_scratch;
            table = old.table;
            found = same (seq j) t ∙ old.found;
            enough = old.enough;
          }
    ];
  }

  pub stepped :
      (st : SeqState) (s : Sim S) (u : S)
      → Running serves cfg.block_tokens s
      → get st.rid s.active ≡ some st
      → serves.Good u
      → ((j : SeqId)
          → seq_id_beq (seq st.rid) j ≡ false
          → serves.table j u ≡ serves.table j s.alloc)
      → Entry serves cfg.block_tokens u st.rid (longer st)
      → Step st s (record s { alloc = u; active = put st.rid (longer st) s.active })
  stepped st s u v e good same here = record {
    running = updated-Running st s u v e good same here;
    outcome = decoded (ground (arith, get-put st.rid st.rid (longer st) s.active));
    none_lost = omega (arith, length-put st.rid (longer st) st s.active e);
    stays_out = λ j f. ground (arith, get-put st.rid j (longer st) s.active, f, e);
  }

  pub append-Step :
      (st : SeqState) (table : List ℕ) (s : Sim S)
      → 0 < cfg.block_tokens
      → Running serves cfg.block_tokens s
      → get st.rid s.active ≡ some st
      → serves.table (seq st.rid) s.alloc ≡ some table
      → st.tokens ≤ length table * cfg.block_tokens
      → 0 < ops.num_free s.alloc
      → Returns (λ _ t. Step st s t) (decode_if ops cfg true true st s)
  append-Step st table s bt v e f enough free =
      Returns-lift (ops.append_block (seq st.rid)) _
        (record s { active = put st.rid (longer st) s.active })
        (serves.appends (seq st.rid) table s.alloc v.good f free)
        λ b u (good, fewer, here, same). returns (
          stepped st s u v e good same (record {
            same_id = refl;
            no_scratch = (v.entries st.rid st e).no_scratch;
            table = table ++ b ∷ [];
            found = here;
            enough = one_more table b cfg.block_tokens st.tokens bt enough;
          }))

  Step-after :
      (st : SeqState) (made : Bool) (s u t : Sim S)
      → Room serves cfg st.rid 1 st s made u
      → Step st u t
      → Step st s t
  Step-after st made s u t q r = record {
    running = r.running;
    outcome = r.outcome;
    none_lost = r.none_lost ∙ q.none_lost;
    stays_out = λ j f. r.stays_out j (q.stays_out j f);
  }

  after_made :
      (st : SeqState) (table : List ℕ) (s u : Sim S) (made : Bool)
      → 0 < cfg.block_tokens
      → serves.table (seq st.rid) s.alloc ≡ some table
      → st.tokens ≤ length table * cfg.block_tokens
      → Room serves cfg st.rid 1 st s made u
      → Roomed serves cfg st.rid 1 st s made u
      → Returns (λ _ t. Step st u t) (decode_if ops cfg made true st u)
  after_made st table s u true bt f enough q (roomy h e same) =
      append-Step st table u bt q.running e (same ∙ f) enough h
  after_made st table s u false bt f enough q (gave_up rest e w) = returns (record {
    running = q.running;
    outcome = waits rest e w;
    none_lost = refl;
    stays_out = λ j f. f;
  })

  -- In a running simulation under vllm admission, `decode` of an active sequence returns: either the
  -- sequence has one token more and its table still holds all its tokens, or it waits at the front of
  -- the queue with the tokens it had. The simulation is in order and no sequence is lost.
  pub decode-Step :
      (st : SeqState) (s : Sim S)
      → cfg.admission ≡ vllm
      → 0 < cfg.block_tokens
      → Running serves cfg.block_tokens s
      → get st.rid s.active ≡ some st
      → Returns (λ _ t. Step st s t) (decode ops cfg st s)
  unfolding decode
  decode-Step st s mode bt v e =
      let here = v.entries st.rid st e in
      rw (serves.reads (seq st.rid) here.table s.alloc here.found)
        (elim (Bool-cases (ltb (length here.table * cfg.block_tokens) (st.tokens + 1))) [
          | inl t ↦ rw t (
              Returns-continue _ (ensure_free-Room serves cfg st.rid 1 st s mode v e) λ made u r.
                Returns-mono
                  (after_made st here.table s u made bt here.found here.enough r r.outcome)
                  λ _ t q. Step-after st made s u t r q)
          | inr t ↦ rw t (
              returns (
                stepped st s s.alloc v e v.good (λ j _. refl)
                  (record {
                    same_id = refl;
                    no_scratch = here.no_scratch;
                    table = here.table;
                    found = here.found;
                    enough = ground (arith, t);
                  })))
        ])

  -- Where the table of the sequence is full and no block is free, decoding it drops the last of the
  -- other active sequences.
  pub decode-drops :
      (st : SeqState) (table rest : List ℕ) (victim : ℕ) (s : Sim S)
      → cfg.admission ≡ vllm
      → 0 < cfg.block_tokens
      → Running serves cfg.block_tokens s
      → get st.rid s.active ≡ some st
      → serves.table (seq st.rid) s.alloc ≡ some table
      → st.tokens ≡ length table * cfg.block_tokens
      → ops.num_free s.alloc ≡ 0
      → pop_last (others st.rid s.active) ≡ some (rest, victim)
      → Returns (λ _ t. get victim t.active ≡ none) (decode ops cfg st s)
  unfolding decode
  decode-drops st table rest victim s mode bt v e f full none_free last =
      let need : ltb (length table * cfg.block_tokens) (st.tokens + 1) ≡ true =
        ground (arith, full) in
      rw (serves.reads (seq st.rid) table s.alloc f, need)
        (Returns-continue _
          (ensure_free-drops serves cfg st.rid 1 victim rest st s mode v e
            (omega (arith, none_free)) last)
          λ made u (r, gone).
            Returns-mono (after_made st table s u made bt f (omega (arith, full)) r r.outcome)
              λ _ t q. q.stays_out victim gone)
