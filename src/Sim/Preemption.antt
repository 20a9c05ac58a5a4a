-- ===== src/Sim/Preemption.antt =====
-- `preempt` and `ensure_free`: no call fails, no sequence is lost, and the loop ends.
use chip_hackathon_f.Prelude.{
  ℕ, zero, suc, ◌+◌, ◌≤◌, ◌<◌, ◌≡◌, refl, ap, ◌∙◌, inl, inr, true, false, Bool, none, some, List,
  [], ◌∷◌, arith, leb, nat_beq, nat_eq, length, Option-cases, Bool-cases,
}
use chip_hackathon_f.Dict.{get, erase, weight-erase}
use chip_hackathon_f.Exec.{Returns, returns, Returns-continue, Returns-mono}
use chip_hackathon_f.Alloc.{SeqId, seq, seq_id_beq, pop_last}
use chip_hackathon_f.Sim.{
  Operations, SeqState, Config, Sim, vllm, is_oracle, others, preempt, make_room, ensure_free,
  give_up,
}
use chip_hackathon_f.Sim.Batch.{holds, get-erase, length-erase, others-last}
use chip_hackathon_f.Sim.Contract.{Serves, Entry, Running, Returns-lift}

module _ {S : Type 0} {ops : Operations S} (serves : Serves ops) (cfg : Config) where
  -- What a preemption leaves: the sequence waits at the front, with the tokens it has.
  pub record Preempted (rid : ℕ) (st : SeqState) (s t : Sim S) : Type 0 where
    pub running : Running serves cfg.block_tokens t
    pub removed : t.active ≡ erase rid s.active
    pub queued : t.waiting ≡ record st { scratch = []; preempts = st.preempts + 1 } ∷ s.waiting
    pub others_keep :
        (j : ℕ)
        → nat_beq rid j ≡ false
        → serves.table (seq j) t.alloc ≡ serves.table (seq j) s.alloc

  pub erased-Running :
      (rid : ℕ) (s : Sim S) (u : S)
      → Running serves cfg.block_tokens s
      → serves.Good u
      → ((j : SeqId) → seq_id_beq (seq rid) j ≡ false → serves.table j u ≡ serves.table j s.alloc)
      → (j : ℕ) (st : SeqState) → get j (erase rid s.active) ≡ some st
      → Entry serves cfg.block_tokens u j st
  erased-Running rid s u v good same j st e = elim (Bool-cases (nat_beq rid j)) [
    | inl t ↦ absurd (ground (arith, get-erase j rid s.active (v.unique rid), t, e))
    | inr t ↦
        let old = v.entries j st (ground (arith, get-erase j rid s.active (v.unique rid), t, e)) in
        record {
          same_id = old.same_id;
          no_scratch = old.no_scratch;
          table = old.table;
          found = same (seq j) t ∙ old.found;
          enough = old.enough;
        }
  ]

  -- In a running simulation, `preempt` of an active sequence returns: it is not active any more, it
  -- waits at the front of the queue with the tokens it has, one more preemption and no scratch, every
  -- other sequence keeps its table, and the simulation is in order.
  pub preempt-Returns :
      (rid : ℕ) (st : SeqState) (s : Sim S)
      → Running serves cfg.block_tokens s
      → get rid s.active ≡ some st
      → Returns (λ _ t. Preempted rid st s t) (preempt ops cfg rid s)
  unfolding preempt
  preempt-Returns rid st s v e =
      let here = v.entries rid st e in
      rw (e, here.no_scratch)
        (Returns-lift (ops.release (seq rid)) _ (record s { active = erase rid s.active })
          (serves.releases (seq rid) here.table s.alloc v.good here.found)
          λ _ u (good, _, _, same). returns (record {
            running = record {
              good = good;
              unique = λ j. omega (arith, v.unique j, weight-erase (holds j) rid s.active);
              entries = erased-Running rid s u v good same;
            };
            removed = refl;
            queued = refl;
            others_keep = λ j d. same (seq j) d;
          }))

  -- The outcomes of making room for n blocks: there is room, and the sequence is as it was; or it
  -- waits at the front of the queue, and nobody else is active.
  pub data Roomed (rid n : ℕ) (st : SeqState) (s : Sim S) : Bool → Sim S → Type 0 where
    roomy :
        {t : Sim S}
        → n ≤ ops.num_free t.alloc
        → get rid t.active ≡ some st
        → serves.table (seq rid) t.alloc ≡ serves.table (seq rid) s.alloc
        → Roomed rid n st s true t
    gave_up :
        {t : Sim S} (rest : List SeqState)
        → get rid t.active ≡ none
        → t.waiting ≡ record st { scratch = []; preempts = st.preempts + 1 } ∷ rest
        → Roomed rid n st s false t

  pub record Room (rid n : ℕ) (st : SeqState) (s : Sim S) (made : Bool) (t : Sim S) : Type 0 where
    pub running : Running serves cfg.block_tokens t
    pub outcome : Roomed rid n st s made t
    pub none_lost : length t.active + length t.waiting ≡ length s.active + length s.waiting
    pub stays_out : (j : ℕ) → get j s.active ≡ none → get j t.active ≡ none

  Room-trans :
      (rid n : ℕ) (st : SeqState) (s t u : Sim S) (made : Bool)
      → serves.table (seq rid) t.alloc ≡ serves.table (seq rid) s.alloc
      → length t.active + length t.waiting ≡ length s.active + length s.waiting
      → ((j : ℕ) → get j s.active ≡ none → get j t.active ≡ none)
      → Room rid n st t made u
      → Room rid n st s made u
  Room-trans rid n st s t u made same lost out r = record {
    running = r.running;
    outcome = go r.outcome;
    none_lost = r.none_lost ∙ lost;
    stays_out = λ j e. r.stays_out j (out j e);
  }
    where
      go : {m : Bool} → Roomed rid n st t m u → Roomed rid n st s m u
      go (roomy h e f) = roomy h e (f ∙ same)
      go (gave_up rest e q) = gave_up rest e q

  Preempted-length :
      (rid : ℕ) (st : SeqState) (s t : Sim S)
      → get rid s.active ≡ some st
      → Preempted rid st s t
      → length t.active + length t.waiting ≡ length s.active + length s.waiting
  Preempted-length rid st s t e p =
      omega (arith, ap length p.removed, ap length p.queued, length-erase rid st s.active e)

  -- Who is not active is not active after a preemption.
  Preempted-out :
      (rid : ℕ) {st : SeqState} (s t : Sim S)
      → Running serves cfg.block_tokens s
      → Preempted rid st s t
      → (j : ℕ) → get j s.active ≡ none
      → get j t.active ≡ none
  Preempted-out rid s t v p j e =
      rw p.removed (ground (arith, get-erase j rid s.active (v.unique rid), e))

  give_up-Room :
      (rid n : ℕ) (st : SeqState) (s : Sim S)
      → Running serves cfg.block_tokens s
      → get rid s.active ≡ some st
      → Returns (λ made t. Room rid n st s made t) (give_up ops cfg rid s)
  give_up-Room rid n st s v e =
      Returns-continue _
        (preempt-Returns rid st (record s { self_preemptions = s.self_preemptions + 1 })
          (record { good = v.good; unique = v.unique; entries = v.entries }) e)
        λ _ t p. returns (record {
          running = p.running;
          outcome = gave_up s.waiting (gone t p.removed) p.queued;
          none_lost =
              omega
                (arith, ap length p.removed, ap length p.queued, length-erase rid st s.active e);
          stays_out =
              λ j f. rw p.removed (ground (arith, get-erase j rid s.active (v.unique rid), f));
        })
    where
      gone : (t : Sim S) → t.active ≡ erase rid s.active → get rid t.active ≡ none
      gone t r = rw r (ground (arith, get-erase rid rid s.active (v.unique rid)))

  still :
      (rid : ℕ) {st lost : SeqState} (s u : Sim S) (victim : ℕ)
      → nat_beq victim rid ≡ false
      → Running serves cfg.block_tokens s
      → Preempted victim lost s u
      → get rid s.active ≡ some st
      → get rid u.active ≡ some st
  still rid s u victim differs v p e =
      rw p.removed (ground (arith, get-erase rid victim s.active (v.unique victim), differs, e))

  make_room-Room :
      (fuel rid n : ℕ) (st : SeqState) (s : Sim S)
      → Running serves cfg.block_tokens s
      → get rid s.active ≡ some st
      → length s.active < fuel
      → Returns (λ made t. Room rid n st s made t) (make_room ops cfg fuel rid n s)
  unfolding make_room
  make_room-Room zero rid n st s v e h = absurd (omega (arith, h))
  make_room-Room (suc fuel) rid n st s v e h = elim (Bool-cases (leb n (ops.num_free s.alloc))) [
    | inl t ↦
        rw (t, make_room)
          (returns (record {
            running = v;
            outcome = roomy (ground (arith, t)) e refl;
            none_lost = refl;
            stays_out = λ j f. f;
          }))
    | inr t ↦ elim (Option-cases (pop_last (others rid s.active))) [
      | inl f ↦ rw (t, f, make_room) (give_up-Room rid n st s v e)
      | inr ((rest, victim), f) ↦
          let (differs, (lost, found)) = others-last rid victim rest s.active f in
          rw (t, f, make_room)
            (Returns-continue _ (preempt-Returns victim lost s v found) λ _ u p.
              Returns-mono
                (make_room-Room fuel rid n st u p.running (still rid s u victim differs v p e)
                  (omega (arith, h, ap length p.removed, length-erase victim lost s.active found)))
                λ made w r.
                  Room-trans rid n st s u w made (p.others_keep rid differs)
                    (Preempted-length victim lost s u found p) (Preempted-out victim s u v p) r)
    ]
  ]

  -- Where there is too little room, the last of the others is not active any more.
  make_room-drops :
      (fuel rid n victim : ℕ) (rest : List ℕ) (st : SeqState) (s : Sim S)
      → Running serves cfg.block_tokens s
      → get rid s.active ≡ some st
      → length s.active < suc fuel
      → ops.num_free s.alloc < n
      → pop_last (others rid s.active) ≡ some (rest, victim)
      → Returns
          (λ made t. Room rid n st s made t × (get victim t.active ≡ none))
          (make_room ops cfg (suc fuel) rid n s)
  unfolding make_room
  make_room-drops fuel rid n victim rest st s v e h low f =
      let (differs, (lost, found)) = others-last rid victim rest s.active f in
      let tight : leb n (ops.num_free s.alloc) ≡ false = ground arith in
      rw (tight, f, make_room)
        (Returns-continue _ (preempt-Returns victim lost s v found) λ _ u p.
          Returns-mono
            (make_room-Room fuel rid n st u p.running (still rid s u victim differs v p e)
              (omega (arith, h, ap length p.removed, length-erase victim lost s.active found)))
            λ made w r. (
              Room-trans rid n st s u w made (p.others_keep rid differs)
                  (Preempted-length victim lost s u found p) (Preempted-out victim s u v p) r,
              r.stays_out victim (
                  rw p.removed
                    (ground (arith, get-erase victim victim s.active (v.unique victim)))),
            ))

  -- In a running simulation, `ensure_free` under vllm admission returns, whatever it is asked for:
  -- either there is room for the n blocks and the sequence is active as it was, with its table; or
  -- the sequence itself waits at the front of the queue with one more preemption. In both cases the
  -- simulation is in order and no sequence is lost: as many are active or waiting as before.
  pub ensure_free-Room :
      (rid n : ℕ) (st : SeqState) (s : Sim S)
      → cfg.admission ≡ vllm
      → Running serves cfg.block_tokens s
      → get rid s.active ≡ some st
      → Returns (λ made t. Room rid n st s made t) (ensure_free ops cfg rid n s)
  unfolding ensure_free
  ensure_free-Room rid n st s mode v e =
      let off : is_oracle cfg.admission ≡ false = ap is_oracle mode in
      elim (Bool-cases (leb n (ops.num_free s.alloc))) [
        | inl t ↦
            rw (off, t)
              (returns (record {
                running = v;
                outcome = roomy (ground (arith, t)) e refl;
                none_lost = refl;
                stays_out = λ j f. f;
              }))
        | inr t ↦ rw (off, t) (make_room-Room (suc (length s.active)) rid n st s v e (omega arith))
      ]

  pub ensure_free-drops :
      (rid n victim : ℕ) (rest : List ℕ) (st : SeqState) (s : Sim S)
      → cfg.admission ≡ vllm
      → Running serves cfg.block_tokens s
      → get rid s.active ≡ some st
      → ops.num_free s.alloc < n
      → pop_last (others rid s.active) ≡ some (rest, victim)
      → Returns
          (λ made t. Room rid n st s made t × (get victim t.active ≡ none))
          (ensure_free ops cfg rid n s)
  unfolding ensure_free
  ensure_free-drops rid n victim rest st s mode v e low f =
      let off : is_oracle cfg.admission ≡ false = ap is_oracle mode in
      let tight : leb n (ops.num_free s.alloc) ≡ false = ground arith in
      rw (off, tight)
        (make_room-drops (length s.active) rid n victim rest st s v e (omega arith) low f)
