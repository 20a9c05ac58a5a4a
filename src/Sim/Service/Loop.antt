-- ===== src/Sim/Service/Loop.antt =====
-- The loop of `simulate` under oracle admission: it ends, with every request accounted for.
use mathlib.Core.List.{append-nil}
use chip_hackathon_f.Prelude.{
  ℕ, zero, suc, ◌+◌, ◌<◌, ◌≡◌, refl, sym, ap, ◌∙◌, inl, inr, false, Bool, none, List, [], ◌++◌,
  arith, nat_eq, length, Bool-cases,
}
use chip_hackathon_f.Dict.{get}
use chip_hackathon_f.Exec.{Returns, returns, Returns-continue, Returns-mono, Exec}
use chip_hackathon_f.Alloc.{SeqId, seq, cache, scratch}
use chip_hackathon_f.Sim.{Operations, Config, Sim, oracle}
use chip_hackathon_f.Sim.Contract.{Serves}
use chip_hackathon_f.Sim.Loop.{more, loop, again_if}
use chip_hackathon_f.Sim.Service.{in_batch, too_big, fitting, Steady, Accounts, work}
use chip_hackathon_f.Sim.Service.Joining.{no_active, same-Accounts}
use chip_hackathon_f.Sim.Service.Step.{no_arrival, Turn, goes_on, ends, step-Turn}

module _ {S : Type 0} {ops : Operations S} (serves : Serves ops) (cfg : Config) where
  module _ (draws : ℕ → ℕ → List Bool × ℕ) (mode : cfg.admission ≡ oracle) (plain : cfg.spec ≡ none)
      (bt : 0 < cfg.block_tokens) where
    -- The end of a run.
    pub record Ended (s t : Sim S) : Type 0 where
      pub empty : t.active ≡ []
      pub none_left : t.arrivals ≡ []
      pub dropped : t.dropped ≡ s.dropped ++ too_big cfg.block_tokens serves.blocks s.arrivals
      pub completed :
          t.completed
          ≡ s.completed + length s.active + fitting cfg.block_tokens serves.blocks s.arrivals
      pub steady : Steady serves cfg t
      pub all_free : ops.num_free t.alloc ≡ serves.blocks

    ended :
        (s t : Sim S)
        → Steady serves cfg t
        → Accounts serves cfg 0 s t
        → t.active ≡ []
        → t.arrivals ≡ []
        → Ended s t
    unfolding get
    ended s t v a e f = record {
      empty = e;
      none_left = f;
      steady = v;
      dropped =
          sym (append-nil t.dropped)
          ∙ ap (λ rs. t.dropped ++ too_big cfg.block_tokens serves.blocks rs) (sym f)
          ∙ a.dropped;
      completed =
          omega (arith, a.completed, ap length e, ap (fitting cfg.block_tokens serves.blocks) f);
      all_free = serves.emptied t.alloc v.running.good (λ k. v.owned k (out k));
    }
      where
        out : (k : SeqId) → in_batch k t.active ≡ false
        out (seq i) = rw e refl
        out (cache i) = refl
        out scratch = refl

    quiet : (s : Sim S) → more ops cfg s ≡ false → (s.active ≡ []) × (s.arrivals ≡ [])
    quiet s h = (no_active s.active (ground (arith, h)), no_arrival s.arrivals (ground (arith, h)))

    again_if-Ended :
        (turns : ℕ) (s : Sim S) {others : Exec (Sim S) (Unit {0})}
        → work serves cfg s < suc turns
        → ((t : Sim S)
            → Steady serves cfg t
            → work serves cfg t < turns
            → Returns (λ _ u. Ended t u) (others t))
        → {b : Bool} {t : Sim S} → Turn serves cfg s b t
        → Returns (λ _ u. Ended s u) (again_if ops cfg others b t)
    again_if-Ended turns s h next (ends v a e f) = returns (ended s _ v a e f)
    again_if-Ended turns s h next (goes_on {t} v a) =
        Returns-mono (next t v (omega (arith, h, a.done))) λ _ u e. record {
          empty = e.empty;
          none_left = e.none_left;
          steady = e.steady;
          dropped = e.dropped ∙ a.dropped;
          completed = e.completed ∙ a.completed;
          all_free = e.all_free;
        }

    -- Under oracle admission without speculation, with blocks of at least one token and a batch of at
    -- least one sequence, the loop of the simulation ends from every steady state, with more turns than the tokens that are to be decoded, the requests and one for the clock:
    -- the batch is empty, no request is left, the dropped requests are exactly those whose length the
    -- pool cannot hold, in their order, every other one is completed, and every block is free again.
    pub loop-Ended :
        (turns : ℕ) (s : Sim S)
        → 0 < cfg.max_batch
        → Steady serves cfg s
        → work serves cfg s < turns
        → Returns (λ _ t. Ended s t) (loop ops cfg turns draws s)
    unfolding loop
    loop-Ended zero s mb v h = absurd (omega (arith, h))
    loop-Ended (suc turns) s mb v h = elim (Bool-cases (more ops cfg s)) [
      | inr off ↦
          rw (off, loop)
            (returns (ended s s v (same-Accounts serves cfg s) (quiet s off).0 (quiet s off).1))
      | inl on ↦
          rw (on, loop)
            (Returns-continue _ (step-Turn serves cfg draws mode plain bt s mb v)
              λ b t q. again_if-Ended turns s h (λ u w less. loop-Ended turns u mb w less) q)
    ]
