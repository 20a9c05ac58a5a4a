-- ===== src/Sim/Service/Finish.antt =====
-- Releasing the finished sequences of the batch, and the end of a step.
use chip_hackathon_f.Prelude.{
  ℕ, ◌+◌, ◌≤◌, ◌≡◌, refl, sym, subst, ap, ◌∙◌, inl, inr, false, none, some, List, [], ◌∷◌, arith,
  nat_beq, nat_eq, length, count, Bool-cases, Option-cases, if◌then◌else◌, indicator, ltb,
}
use chip_hackathon_f.Dict.{get, erase, weight, weight-erase, or_zero}
use chip_hackathon_f.Exec.{Returns, returns, Returns-mono}
use chip_hackathon_f.Alloc.{SeqId, seq, cache, scratch, seq_id_beq}
use chip_hackathon_f.Sim.{Operations, SeqState, Config, Sim}
use chip_hackathon_f.Sim.Batch.{holds, get-erase, length-erase, holds-absent}
use chip_hackathon_f.Sim.Contract.{Serves, Running, Returns-lift}
use chip_hackathon_f.Sim.Preemption.{erased-Running}
use chip_hackathon_f.Sim.Oracle.{handed_out, promised_to, Reserved, weight_remove}
use chip_hackathon_f.Sim.Loop.{finish}
use chip_hackathon_f.Sim.Service.{in_batch, left_to_do}

module _ {S : Type 0} {ops : Operations S} (serves : Serves ops) (cfg : Config) where
  -- The batch without the sequences that were released.
  pub record Finished (rids : List ℕ) (s t : Sim S) : Type 0 where
    pub running : Running serves cfg.block_tokens t
    pub reserved : Reserved serves cfg t
    pub owned : (k : SeqId) → in_batch k t.active ≡ false → serves.table k t.alloc ≡ none
    pub kept : t ≡ record s { alloc = t.alloc; active = t.active; completed = t.completed }
    pub now : (j : ℕ) → get j t.active ≡ (if ltb 0 (count j rids) then none else get j s.active)
    pub counted : t.completed + length t.active ≡ s.completed + length s.active
    pub no_more : weight left_to_do t.active ≤ weight left_to_do s.active

  module _ (rid : ℕ) (st : SeqState) (s : Sim S) (u : S) (v : Running serves cfg.block_tokens s)
      (r : Reserved serves cfg s) (e : get rid s.active ≡ some st) (good : serves.Good u)
      (no_less : ops.num_free s.alloc ≤ ops.num_free u)
      (same : (j : SeqId)
        → seq_id_beq (seq rid) j ≡ false
        → serves.table j u ≡ serves.table j s.alloc) where
    left : (j : ℕ) → get j (erase rid s.active) ≡ (if nat_beq rid j then none else get j s.active)
    left j = get-erase j rid s.active (v.unique rid)

    erased_within :
        (j : ℕ) (sj : SeqState)
        → get j (erase rid s.active) ≡ some sj
        → handed_out serves cfg u j sj ≤ sj.total_blocks
    erased_within j sj f = elim (Bool-cases (nat_beq rid j)) [
      | inl t ↦ absurd (ground (arith, left j, t, f))
      | inr t ↦ rw (same (seq j) t) (r.within j sj (ground (arith, left j, t, f)))
    ]

    erased_owned :
        serves.table (seq rid) u ≡ none
        → ((k : SeqId) → in_batch k s.active ≡ false → serves.table k s.alloc ≡ none)
        → (k : SeqId) → in_batch k (erase rid s.active) ≡ false
        → serves.table k u ≡ none
    erased_owned forgotten owned (seq i) out = elim (Bool-cases (nat_beq rid i)) [
      | inl t ↦
          let id : rid ≡ i = ground (arith, t) in
          subst (λ j. serves.table (seq j) u ≡ none) id forgotten
      | inr t ↦ same (seq i) t ∙ owned (seq i) (ground (arith, left i, t, out))
    ]
    erased_owned forgotten owned (cache i) out = same (cache i) refl ∙ owned (cache i) refl
    erased_owned forgotten owned scratch out = same scratch refl ∙ owned scratch refl

    erased_count :
        (j : ℕ)
        → weight (holds j) (erase rid s.active) + indicator (nat_beq rid j)
          ≡ weight (holds j) s.active
    erased_count j = ground (arith, weight-erase (holds j) rid s.active, e)

    erased-Reserved :
        Reserved serves cfg
          (record s { alloc = u; active = erase rid s.active; completed = s.completed + 1 })
    erased-Reserved = record {
      covered = omega (
        arith,
        r.covered,
        r.within rid st e,
        no_less,
        weight_remove (promised_to serves cfg) (promised_to serves cfg) rid (λ j sj d. refl) st
            s.active (v.unique rid) e,
        weight_remove (handed_out serves cfg s.alloc) (handed_out serves cfg u) rid
            (λ j sj d. ap (λ o. or_zero length o + length sj.scratch) (sym (same (seq j) d))) st
            s.active (v.unique rid) e,
      );
      within = erased_within;
      whole = λ j sj f. r.whole j sj (ground (arith, left j, f));
    }

  pub finish-Finished :
      (rids : List ℕ) (s : Sim S)
      → Running serves cfg.block_tokens s
      → Reserved serves cfg s
      → ((k : SeqId) → in_batch k s.active ≡ false → serves.table k s.alloc ≡ none)
      → ((j : ℕ) → count j rids ≤ weight (holds j) s.active)
      → Returns (λ _ t. Finished rids s t) (finish ops cfg rids s)
  unfolding finish
  finish-Finished [] s v r owned all = returns (record {
    running = v;
    reserved = r;
    owned = owned;
    kept = refl;
    now = λ j. refl;
    counted = refl;
    no_more = omega arith;
  })
  finish-Finished (rid ∷ rids) s v r owned all = elim (Option-cases (get rid s.active)) [
    | inl e ↦ absurd (ground (arith, all rid, holds-absent rid s.active e))
    | inr (st, e) ↦
        let here = v.entries rid st e in
        rw (e, here.no_scratch)
          (Returns-lift (ops.release (seq rid)) _ (record s { active = erase rid s.active })
            (serves.releases (seq rid) here.table s.alloc v.good here.found)
            λ _ u (good, no_less, forgotten, same).
              Returns-mono
                (finish-Finished rids _
                  (record {
                    good = good;
                    unique = λ j.
                        omega
                          (arith, v.unique j, erased_count rid st s u v r e good no_less same j);
                    entries = erased-Running serves cfg rid s u v good same;
                  })
                  (erased-Reserved rid st s u v r e good no_less same)
                  (erased_owned rid st s u v r e good no_less same forgotten owned)
                  (λ j. omega (arith, all j, erased_count rid st s u v r e good no_less same j)))
                λ _ t f. record {
                  running = f.running;
                  reserved = f.reserved;
                  owned = f.owned;
                  kept = f.kept;
                  now = λ j. ground (arith, f.now j, get-erase j rid s.active (v.unique rid));
                  counted = omega (arith, f.counted, length-erase rid st s.active e);
                  no_more = omega (arith, f.no_more, weight-erase left_to_do rid s.active);
                })
  ]
