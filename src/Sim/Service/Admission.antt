-- ===== src/Sim/Service/Admission.antt =====
-- `admit_arrivals` under oracle admission: requests enter the batch, are dropped, or wait.
use chip_hackathon_f.Sim.Admission.{try_admit}
use chip_hackathon_f.Prelude.{
  ◌<◌, ◌≡◌, refl, sym, subst, ap, inl, inr, false, Bool, none, ◌&&◌, List, [], ◌∷◌, ◌++◌, arith,
  ltb, leb, nat_eq, length, Bool-cases, indicator,
}
use chip_hackathon_f.Exec.{Returns, returns, Returns-continue, Returns-mono, Result, Exec}
use chip_hackathon_f.Alloc.{seq}
use chip_hackathon_f.Sim.{Operations, Request, Config, Sim, oracle}
use chip_hackathon_f.Sim.Contract.{Serves}
use chip_hackathon_f.Sim.Loop.{new_sequence, any_active, admit_arrivals, any_arrival, next_arrival}
use chip_hackathon_f.Sim.Service.{Awaited, Steady, Accounts, Accounts-trans, ahead}
use chip_hackathon_f.Sim.Service.Gate.{Tried, let_in, refused, try_admit-Tried}
use chip_hackathon_f.Sim.Service.Joining.{
  no_active, same-Accounts, admitted-Steady, admitted-Accounts, dropped-Steady, dropped-Accounts,
}

module _ {S : Type 0} {ops : Operations S} (serves : Serves ops) (cfg : Config) where
  -- Nobody can be admitted now: somebody is active, or no request has arrived.
  abbrev pub Settled : Sim S → Type 0
  Settled s =
      any_active s.active ≡ false → ahead s.t s.arrivals ≡ indicator (any_arrival s.arrivals)

  pub record Arrived (s t : Sim S) : Type 0 where
    pub steady : Steady serves cfg t
    pub accounts : Accounts serves cfg 0 s t
    pub settled : Settled t

  then_on :
      {s t : Sim S} {r : Result (Unit {0}) × Sim S}
      → Accounts serves cfg 0 s t
      → Returns (λ _ u. Arrived t u) r
      → Returns (λ _ u. Arrived s u) r
  then_on a q = Returns-mono q λ _ u p. record {
    steady = p.steady;
    accounts = Accounts-trans serves cfg 0 0 a p.accounts;
    settled = p.settled;
  }

  attempt_first :
      (q : Request) (rest : List Request) (s : Sim S)
      → cfg.admission ≡ oracle
      → cfg.spec ≡ none
      → 0 < cfg.block_tokens
      → Steady serves cfg s
      → s.arrivals ≡ q ∷ rest
      → Returns
          (λ b t. Tried serves cfg (new_sequence q) s b t)
          (try_admit ops cfg (new_sequence q) s)
  unfolding new_sequence
  attempt_first q rest s mode plain bt v e =
      let (absent, alone, _, _, _) = subst (Awaited s.active) e v.awaited in
      try_admit-Tried serves cfg (new_sequence q) s mode plain bt v.running v.reserved alone
        (v.owned (seq q.rid) (rw absent refl)) (omega arith)

  attempt-Arrived :
      (q : Request) (rest : List Request) (s : Sim S) {others : Exec (Sim S) (Unit {0})}
      → 0 < cfg.block_tokens
      → Steady serves cfg s
      → s.arrivals ≡ q ∷ rest
      → ((u : Sim S)
          → Steady serves cfg u
          → u.arrivals ≡ rest
          → Returns (λ _ t. Arrived u t) (others u))
      → {b : Bool} {t : Sim S} → Tried serves cfg (new_sequence q) s b t
      → Returns (λ _ t. Arrived s t) (next_arrival ops cfg q rest others b t)
  unfolding new_sequence
  attempt-Arrived q rest s {others} bt v e next (let_in u j w) =
      subst (λ t. Returns (λ _ t. Arrived s t) (others (record t { arrivals = rest }))) (sym w)
        (then_on (admitted-Accounts serves cfg q rest s u v e j)
          (next _ (admitted-Steady serves cfg q rest s u bt v e j) refl))
  attempt-Arrived q rest s {others} bt v e next (refused w tight) =
      subst (λ t. Returns (λ _ t. Arrived s t) (next_arrival ops cfg q rest others false t)) (sym w)
        (elim (Bool-cases (any_active s.active)) [
          | inl t ↦
              rw (t, next_arrival)
                (returns (record {
                  steady = v;
                  accounts = same-Accounts serves cfg s;
                  settled = λ idle. absurd cc;
                }))
          | inr t ↦
              rw (t, next_arrival)
                (then_on (dropped-Accounts serves cfg q rest s v e (no_active s.active t) tight)
                  (next _ (dropped-Steady serves cfg q rest (s.dropped ++ q.rid ∷ []) s v e) refl))
        ])

  -- Under oracle admission without speculation, with blocks of at least one token and a batch of at
  -- least one sequence, `admit_arrivals` returns from every steady state: the state is steady again, who
  -- is dropped in the end and how many are completed is as before, the work left does not grow, and
  -- with an empty batch the next request has not arrived yet.
  pub admit_arrivals-Arrived :
      (rs : List Request) (s : Sim S)
      → cfg.admission ≡ oracle
      → cfg.spec ≡ none
      → 0 < cfg.block_tokens
      → 0 < cfg.max_batch
      → Steady serves cfg s
      → s.arrivals ≡ rs
      → Returns (λ _ t. Arrived s t) (admit_arrivals ops cfg rs s)
  unfolding admit_arrivals
  admit_arrivals-Arrived [] s mode plain bt mb v e =
      returns
        (record { steady = v; accounts = same-Accounts serves cfg s; settled = λ _. rw e refl })
  admit_arrivals-Arrived (q ∷ rest) s mode plain bt mb v e =
      elim (Bool-cases (leb q.arrival_step s.t && ltb (length s.active) cfg.max_batch)) [
        | inr t ↦
            rw (t, admit_arrivals)
              (returns (record {
                steady = v;
                accounts = same-Accounts serves cfg s;
                settled = λ idle. rw e (ground (arith, t, mb, ap length (no_active s.active idle)));
              }))
        | inl t ↦
            rw (t, admit_arrivals)
              (Returns-continue _ (attempt_first q rest s mode plain bt v e) λ b t tried.
                attempt-Arrived q rest s bt v e
                  (λ u uv f. admit_arrivals-Arrived rest u mode plain bt mb uv f) tried)
      ]
