-- ===== src/Sim/Passes.antt =====
-- The passes over the batch: decoding every sequence, and releasing those that are done.
use chip_hackathon_f.Prelude.{
  ℕ, ◌+◌, ◌*◌, ◌≤◌, ◌<◌, ◌≡◌, refl, sym, subst, ap, ◌∙◌, inl, inr, Bool, none, some, List, [], ◌∷◌,
  arith, nat_beq, nat_eq, length, count, indicator, Option-cases, if◌then◌else◌, ltb,
}
use chip_hackathon_f.Dict.{Dict, get, erase, weight, weight-erase}
use chip_hackathon_f.Exec.{
  Result, err, key_error, Returns, returns, Returns-continue, Returns-mono, continue,
}
use chip_hackathon_f.Alloc.{seq, pop_last}
use chip_hackathon_f.Sim.{Operations, SeqState, Config, Sim, vllm, others, decode}
use chip_hackathon_f.Sim.Batch.{holds, get-erase, holds-absent}
use chip_hackathon_f.Sim.Contract.{Serves, Running, Returns-lift}
use chip_hackathon_f.Sim.Preemption.{erased-Running}
use chip_hackathon_f.Sim.Decoding.{Step, decode-Step, decode-drops}
use chip_hackathon_f.Sim.Loop.{step_of, visit_if, decode_pass, finish}

module _ {S : Type 0} {ops : Operations S} (serves : Serves ops) (cfg : Config) where
  pub record Passed (s t : Sim S) : Type 0 where
    pub running : Running serves cfg.block_tokens t
    pub none_lost : length t.active + length t.waiting ≡ length s.active + length s.waiting

  visit-Passed :
      (draws : ℕ → ℕ → List Bool × ℕ) (rid : ℕ) (s : Sim S)
      → cfg.admission ≡ vllm
      → cfg.spec ≡ none
      → 0 < cfg.block_tokens
      → Running serves cfg.block_tokens s
      → Returns (λ _ t. Passed s t) (visit_if ops cfg draws rid (get rid s.active) s)
  visit-Passed draws rid s mode plain bt v = elim (Option-cases (get rid s.active)) [
    | inl e ↦ rw e (returns (record { running = v; none_lost = refl }))
    | inr (st, e) ↦
        let here = v.entries rid st e in
        let e' : get st.rid s.active ≡ some st =
          subst (λ k. get k s.active ≡ some st) (sym here.same_id) e in
        let plainly : step_of ops cfg cfg.spec draws s.t st s ≡ decode ops cfg st s =
          ap (λ o. step_of ops cfg o draws s.t st s) plain in
        rw e (
          Returns-continue _
            (subst (Returns (λ _ t. Step serves cfg st s t)) (sym plainly)
              (decode-Step serves cfg st s mode bt v e'))
            λ _ t r. returns (record { running = r.running; none_lost = r.none_lost }))
  ]

  -- Under vllm admission without speculation, the decoding pass over a running simulation returns:
  -- afterwards it is in order, so that every active sequence has a table that holds its tokens, and
  -- no sequence is lost, whatever was preempted on the way.
  pub decode_pass-Passed :
      (draws : ℕ → ℕ → List Bool × ℕ) (d : Dict ℕ SeqState) (s : Sim S)
      → cfg.admission ≡ vllm
      → cfg.spec ≡ none
      → 0 < cfg.block_tokens
      → Running serves cfg.block_tokens s
      → Returns (λ _ t. Passed s t) (decode_pass ops cfg draws d s)
  unfolding decode_pass
  decode_pass-Passed draws [] s mode plain bt v = returns (record { running = v; none_lost = refl })
  decode_pass-Passed draws ((rid, _) ∷ d) s mode plain bt v =
      Returns-continue _ (visit-Passed draws rid s mode plain bt v) λ _ t p.
        Returns-continue _ (decode_pass-Passed draws d t mode plain bt p.running)
          λ _ u q. returns (record { running = q.running; none_lost = q.none_lost ∙ p.none_lost })

  -- Releasing sequences that are all active, each named once, returns: they have left the batch, every
  -- other sequence is in it or not as before and in the state it was in, each is counted as completed,
  -- and the simulation is in order.
  pub finish-Returns :
      (rids : List ℕ) (s : Sim S)
      → Running serves cfg.block_tokens s
      → ((j : ℕ) → count j rids ≤ weight (holds j) s.active)
      → Returns
          (λ _ t.
            Running serves cfg.block_tokens t
            × (t.completed ≡ s.completed + length rids)
            × ((j : ℕ) → weight (holds j) t.active + count j rids ≡ weight (holds j) s.active)
            × ((j : ℕ) → get j t.active ≡ (if ltb 0 (count j rids) then none else get j s.active)))
          (finish ops cfg rids s)
  unfolding finish
  finish-Returns [] s v all = returns (v, omega arith, λ j. omega arith, λ j. refl)
  finish-Returns (rid ∷ rids) s v all = elim (Option-cases (get rid s.active)) [
    | inl e ↦ absurd (ground (arith, all rid, holds-absent rid s.active e))
    | inr (st, e) ↦
        let here = v.entries rid st e in
        rw (e, here.no_scratch)
          (Returns-lift (ops.release (seq rid)) _ (record s { active = erase rid s.active })
            (serves.releases (seq rid) here.table s.alloc v.good here.found)
            λ _ u (good, _, _, same).
              let left : (j : ℕ)
                  → weight (holds j) (erase rid s.active) + indicator (nat_beq rid j)
                    ≡ weight (holds j) s.active =
                λ j. ground (arith, weight-erase (holds j) rid s.active, e) in
              Returns-mono
                (finish-Returns rids _
                  (record {
                    good = good;
                    unique = λ j. omega (arith, v.unique j, left j);
                    entries = erased-Running serves cfg rid s u v good same;
                  })
                  (λ j. omega (arith, all j, left j)))
                λ _ t (running, done, rest, now). (
                  running,
                  omega (arith, done),
                  λ j. omega (arith, rest j, left j),
                  λ j. ground (arith, now j, get-erase j rid s.active (v.unique rid)),
                ))
  ]

  -- In a running simulation under vllm admission where no block is free, decoding a sequence whose
  -- table is full and then finishing the last of the other active sequences raises KeyError: the
  -- decoding has preempted that sequence, so that it is not active any more.
  pub finish-raises :
      (st : SeqState) (table rest rids : List ℕ) (victim : ℕ) (s : Sim S)
      → cfg.admission ≡ vllm
      → 0 < cfg.block_tokens
      → Running serves cfg.block_tokens s
      → get st.rid s.active ≡ some st
      → serves.table (seq st.rid) s.alloc ≡ some table
      → st.tokens ≡ length table * cfg.block_tokens
      → ops.num_free s.alloc ≡ 0
      → pop_last (others st.rid s.active) ≡ some (rest, victim)
      → (t : Sim S) × (continue (λ _. finish ops cfg (victim ∷ rids)) (decode ops cfg st s)
          ≡ (err key_error, t))
  unfolding finish
  finish-raises st table rest rids victim s mode bt v e f full none_free last =
      raises (decode-drops serves cfg st table rest victim s mode bt v e f full none_free last)
    where
      raises :
          {r : Result (Unit {0}) × Sim S}
          → Returns (λ _ t. get victim t.active ≡ none) r
          → (t : Sim S) × (continue (λ _. finish ops cfg (victim ∷ rids)) r ≡ (err key_error, t))
      raises (returns {s = t} gone) = (t, rw gone)
