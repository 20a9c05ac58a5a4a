-- ===== src/Sim/Service/Step.antt =====
-- A step of `simulate` under oracle admission: it goes on with less to do, or everything is done.
use chip_hackathon_f.Prelude.{
  ℕ, ◌+◌, ◌%◌, ◌≤◌, ◌<◌, ◌≡◌, refl, sym, subst, ap, ◌∙◌, inl, inr, max, not, ◌&&◌, true, false,
  Bool, none, some, List, [], ◌∷◌, ◌++◌, arith, ltb, nat_beq, nat_eq, length, count, Bool-cases,
  indicator,
}
use chip_hackathon_f.Dict.{Dict, get}
use chip_hackathon_f.Exec.{ok, Returns, returns, Returns-continue, Returns-mono}
use chip_hackathon_f.Sim.{Operations, SeqState, Request, Config, Sim, oracle}
use chip_hackathon_f.Sim.Batch.{get-absent, holds-absent}
use chip_hackathon_f.Sim.Contract.{Serves}
use chip_hackathon_f.Sim.Loop.{any_active, any_arrival, admit_waiting, audit, serve, idle, step}
use chip_hackathon_f.Sim.Service.{
  Awaited, Awaited-mono, demand, ahead, too_big, fitting, Steady, Accounts, Accounts-trans,
}
use chip_hackathon_f.Sim.Service.Joining.{no_active, same-Accounts}
use chip_hackathon_f.Sim.Service.Admission.{Settled, admit_arrivals-Arrived}
use chip_hackathon_f.Sim.Service.Pass.{in_batch-keys, Passing, decode_pass-Passing}
use chip_hackathon_f.Sim.Service.Finish.{Finished, finish-Finished}

ahead_later : (t : ℕ) (rs : List Request) → ahead (t + 1) rs ≤ ahead t rs
ahead_later t [] = omega arith
ahead_later t (r ∷ rs) = ground arith

length-active : (d : Dict ℕ SeqState) → any_active d ≡ true → 0 < length d
length-active [] h = absurd cc
length-active (x ∷ d) h = omega arith

pub no_arrival : (rs : List Request) → any_arrival rs ≡ false → rs ≡ []
no_arrival [] h = refl
no_arrival (r ∷ rs) h = absurd cc

module _ {S : Type 0} {ops : Operations S} (serves : Serves ops) (cfg : Config) where
  -- What the pass and the releases leave of the batch.
  module _ (done : List ℕ) (s t u : Sim S) (steps live : ℕ) (v : Steady serves cfg s)
      (p : Passing serves cfg s.active done s t)
      (f : Finished serves cfg done (record t { decode_steps = steps; peak_live = live }) u) where
    absent_after : (j : ℕ) → get j s.active ≡ none → get j u.active ≡ none
    absent_after j e =
        ground (arith, f.now j, get-absent j t.active (p.keys j ∙ holds-absent j s.active e))

    unfinished_after : (j : ℕ) (st : SeqState) → get j u.active ≡ some st → st.tokens < st.total_len
    unfinished_after j st e = elim (Bool-cases (ltb 0 (count j done))) [
      | inl gone ↦ absurd (ground (arith, f.now j, gone, e))
      | inr there ↦
          let e' : get j t.active ≡ some st = ground (arith, f.now j, there, e) in
          p.unfinished j st e' (ground (arith, p.keys j, get-absent j t.active, e'))
            (ground (arith, there))
    ]

    served-Steady : Steady serves cfg (record u { t = u.t + 1 })
    served-Steady = record {
      running = record {
        good = f.running.good;
        unique = f.running.unique;
        entries = f.running.entries;
      };
      reserved = record {
        covered = f.reserved.covered;
        within = f.reserved.within;
        whole = f.reserved.whole;
      };
      no_waiting =
          ap (λ (z : Sim S). z.waiting) f.kept
          ∙ ap (λ (z : Sim S). z.waiting) p.kept
          ∙ v.no_waiting;
      no_prefix =
          ap (λ (z : Sim S). z.prefix_cache) f.kept
          ∙ ap (λ (z : Sim S). z.prefix_cache) p.kept
          ∙ v.no_prefix;
      owned = f.owned;
      unfinished = unfinished_after;
      awaited =
          subst (Awaited u.active)
            (sym (ap (λ (z : Sim S). z.arrivals) f.kept ∙ ap (λ (z : Sim S). z.arrivals) p.kept))
            (Awaited-mono s.active u.active s.arrivals absent_after v.awaited);
    }

    served-Accounts :
        any_active s.active ≡ true → Accounts serves cfg 1 s (record u { t = u.t + 1 })
    served-Accounts some_active =
        let arrivals : u.arrivals ≡ s.arrivals =
          ap (λ (z : Sim S). z.arrivals) f.kept ∙ ap (λ (z : Sim S). z.arrivals) p.kept in
        let dropped : u.dropped ≡ s.dropped =
          ap (λ (z : Sim S). z.dropped) f.kept ∙ ap (λ (z : Sim S). z.dropped) p.kept in
        let clock : u.t ≡ s.t = ap (λ (z : Sim S). z.t) f.kept ∙ ap (λ (z : Sim S). z.t) p.kept in
        let completed : t.completed ≡ s.completed = ap (λ (z : Sim S). z.completed) p.kept in
        record {
          dropped =
              ap (λ (d : List ℕ). d ++ too_big cfg.block_tokens serves.blocks u.arrivals) dropped
              ∙ ap (λ rs. s.dropped ++ too_big cfg.block_tokens serves.blocks rs) arrivals;
          completed = omega (
            arith,
            f.counted,
            p.size,
            completed,
            ap (fitting cfg.block_tokens serves.blocks) arrivals,
          );
          done = omega (
            arith,
            ap demand arrivals,
            ap (λ c. ahead (c + 1) u.arrivals) clock ∙ ap (ahead (s.t + 1)) arrivals,
            ahead_later s.t s.arrivals,
            f.no_more,
            p.progress,
            length-active s.active some_active,
          );
        }

  audit-ok : (s : Sim S) → serves.Good s.alloc → audit ops cfg s ≡ (ok tt, s)
  audit-ok s good =
      elim (Bool-cases (not (nat_beq cfg.check_every 0) && nat_beq (s.t % cfg.check_every) 0)) [
        | inl t ↦ rw (t, serves.audits s.alloc good) refl
        | inr t ↦ rw t refl
      ]

  -- The outcomes of a step: the run goes on with less to do, or the batch and the line are empty.
  pub data Turn (s : Sim S) : Bool → Sim S → Type 0 where
    goes_on : {t : Sim S} → Steady serves cfg t → Accounts serves cfg 1 s t → Turn s true t
    ends :
        {t : Sim S}
        → Steady serves cfg t
        → Accounts serves cfg 0 s t
        → t.active ≡ []
        → t.arrivals ≡ []
        → Turn s false t

  module _ (draws : ℕ → ℕ → List Bool × ℕ) (mode : cfg.admission ≡ oracle) (plain : cfg.spec ≡ none)
      (bt : 0 < cfg.block_tokens) where
    serve-Turn :
        (s : Sim S)
        → Steady serves cfg s
        → any_active s.active ≡ true
        → Returns (λ again t. Turn s again t) (serve ops cfg draws s)
    serve-Turn s v some_active =
        Returns-continue _
          (decode_pass-Passing serves cfg draws s.active s mode plain bt (record {
            running = v.running;
            reserved = v.reserved;
            there = λ j. omega arith;
            unfinished = λ j st e h. v.unfinished j st e;
          }))
          λ done t p.
            Returns-continue _
              (finish-Finished serves cfg done
                (record t {
                  decode_steps = t.decode_steps + 1;
                  peak_live = max t.peak_live (ops.num_live t.alloc);
                })
                (record {
                  good = p.running.good;
                  unique = p.running.unique;
                  entries = p.running.entries;
                })
                (record {
                  covered = p.reserved.covered;
                  within = p.reserved.within;
                  whole = p.reserved.whole;
                })
                (λ k out.
                  let out' = in_batch-keys k t.active s.active (λ j. sym (p.keys j)) out in
                  p.tables k out' ∙ v.owned k out')
                (λ j. omega (arith, p.visited j, p.keys j)))
              λ _ u f. rw (audit-ok u f.running.good) (
                returns (
                  goes_on (served-Steady done s t u _ _ v p f)
                    (served-Accounts done s t u _ _ v p f some_active)))

    idle-Turn :
        (rs : List Request) (s : Sim S)
        → Steady serves cfg s
        → Settled serves cfg s
        → any_active s.active ≡ false
        → s.arrivals ≡ rs
        → Returns (λ again t. Turn s again t) (idle ops cfg rs s)
    idle-Turn [] s v settled empty e =
        returns (ends v (same-Accounts serves cfg s) (no_active s.active empty) e)
    idle-Turn (r ∷ rest) s v settled empty e = returns (
        goes_on
          (record {
            running = record {
              good = v.running.good;
              unique = v.running.unique;
              entries = v.running.entries;
            };
            reserved = record {
              covered = v.reserved.covered;
              within = v.reserved.within;
              whole = v.reserved.whole;
            };
            no_waiting = v.no_waiting;
            no_prefix = v.no_prefix;
            owned = v.owned;
            unfinished = v.unfinished;
            awaited = v.awaited;
          })
          (record {
            dropped = refl;
            completed = refl;
            done = omega (
              arith,
              settled empty,
              ap (λ rs. indicator (any_arrival rs)) e,
              ap (ahead (max (s.t + 1) r.arrival_step)) e ∙ arrived s.t r rest,
            );
          }))
      where
        arrived :
            (t : ℕ) (r : Request) (rest : List Request)
            → ahead (max (t + 1) r.arrival_step) (r ∷ rest) ≡ 0
        arrived t r rest = ground arith

    nobody_waits : (s : Sim S) → s.waiting ≡ [] → admit_waiting ops cfg s.waiting s ≡ (ok false, s)
    unfolding admit_waiting
    nobody_waits s e = ap (λ w. admit_waiting ops cfg w s) e

    after :
        (s t : Sim S) {b : Bool} {u : Sim S} → Accounts serves cfg 0 s t → Turn t b u → Turn s b u
    after s t a (goes_on v q) = goes_on v (Accounts-trans serves cfg 0 1 a q)
    after s t a (ends v q e f) = ends v (Accounts-trans serves cfg 0 0 a q) e f

    -- Under oracle admission without speculation, with blocks of at least one token and a batch of at
    -- least one sequence, a step from a steady state returns: either it asks for another one and there is
    -- less to do, or the batch is empty and no request is left; in both cases the state is steady
    -- again, and who is dropped in the end and how many are completed is as before.
    pub step-Turn :
        (s : Sim S)
        → 0 < cfg.max_batch
        → Steady serves cfg s
        → Returns (λ again t. Turn s again t) (step ops cfg draws s)
    unfolding step
    step-Turn s mb v = rw (nobody_waits s v.no_waiting) (
        Returns-continue _ (admit_arrivals-Arrived serves cfg s.arrivals s mode plain bt mb v refl)
          λ _ t a. elim (Bool-cases (any_active t.active)) [
            | inl on ↦
                rw on (Returns-mono (serve-Turn t a.steady on) λ b u q. after s t a.accounts q)
            | inr off ↦ rw off (
                Returns-mono (idle-Turn t.arrivals t a.steady a.settled off refl)
                  λ b u q. after s t a.accounts q)
          ])
