-- ===== src/Sim/Service/Whole.antt =====
-- `simulate` from the empty pool under oracle admission.
use chip_hackathon_f.Prelude.{
  ℕ, ◌+◌, ◌≤◌, ◌<◌, ◌≡◌, refl, ap, ◌∙◌, Bool, none, List, [], ◌∷◌, arith, nat_beq, nat_eq, length,
  indicator, inl, inr, Bool-cases, ◌⊎◌,
}
use chip_hackathon_f.Dict.{get}
use chip_hackathon_f.Exec.{Result, ok, Returns, returns, Returns-continue, err, zero_division}
use chip_hackathon_f.Alloc.{SeqId}
use chip_hackathon_f.Geometry.{DramGeometry, ModelShape}
use chip_hackathon_f.Sim.{Operations, Request, Config, Sim, oracle}
use chip_hackathon_f.Sim.Contract.{Serves}
use chip_hackathon_f.Sim.Loop.{release_prefixes}
use chip_hackathon_f.Sim.Setup.{comes_before, insert_request, sort_requests, initial, begin}
use chip_hackathon_f.Sim.Simulate.{prefix_ids, run, summary, simulate, concluded, Summary}
use chip_hackathon_f.Sim.Service.{
  Awaited, named, demand, too_big, fitting, holds_request, Steady, work,
}
use chip_hackathon_f.Sim.Service.Joining.{ahead-le-one}
use chip_hackathon_f.Sim.Service.Loop.{Ended, loop-Ended}

named-insert_request :
    (i : ℕ) (r : Request) (qs : List Request)
    → named i (insert_request r qs) ≡ indicator (nat_beq r.rid i) + named i qs
unfolding insert_request
named-insert_request i r [] = refl
named-insert_request i r (q ∷ qs) = ground (arith, named-insert_request i r qs)

demand-insert_request :
    (r : Request) (qs : List Request) → demand (insert_request r qs) ≡ 1 + r.output_len + demand qs
unfolding insert_request
demand-insert_request r [] = refl
demand-insert_request r (q ∷ qs) = ground (arith, demand-insert_request r qs)

fitting-insert_request :
    (bt blocks : ℕ) (r : Request) (qs : List Request)
    → fitting bt blocks (insert_request r qs)
      ≡ indicator (holds_request bt blocks r) + fitting bt blocks qs
unfolding insert_request
fitting-insert_request bt blocks r [] = refl
fitting-insert_request bt blocks r (q ∷ qs) = elim (Bool-cases (comes_before r q)) [
  | inl t ↦ rw t refl
  | inr t ↦ rw t (omega (arith, fitting-insert_request bt blocks r qs))
]

demand-sort_requests : (rs : List Request) → demand (sort_requests rs) ≡ demand rs
unfolding sort_requests
demand-sort_requests [] = refl
demand-sort_requests (r ∷ rs) =
    omega (arith, demand-insert_request r (sort_requests rs), demand-sort_requests rs)

fitting-sort_requests :
    (bt blocks : ℕ) (rs : List Request)
    → fitting bt blocks (sort_requests rs) ≡ fitting bt blocks rs
unfolding sort_requests
fitting-sort_requests bt blocks [] = refl
fitting-sort_requests bt blocks (r ∷ rs) = omega (
  arith,
  fitting-insert_request bt blocks r (sort_requests rs),
  fitting-sort_requests bt blocks rs,
)

named-sort_requests : (i : ℕ) (rs : List Request) → named i (sort_requests rs) ≡ named i rs
unfolding sort_requests
named-sort_requests i [] = refl
named-sort_requests i (r ∷ rs) =
    omega (arith, named-insert_request i r (sort_requests rs), named-sort_requests i rs)

Awaited-insert_request :
    (r : Request) (qs : List Request) → Awaited [] (r ∷ qs) → Awaited [] (insert_request r qs)
unfolding insert_request
Awaited-insert_request r [] a = a
Awaited-insert_request r (q ∷ qs)
      (absent, plain, output, once, (absent', plain', output', once', rest)) =
    elim (Bool-cases (comes_before r q)) [
      | inl t ↦ rw t (absent, plain, output, once, (absent', plain', output', once', rest))
      | inr t ↦ rw t (
        absent',
        plain',
        output',
        ground (arith, named-insert_request q.rid r qs, once, once'),
        Awaited-insert_request r qs (absent, plain, output, omega (arith, once), rest),
      )
    ]

Awaited-sort_requests : (rs : List Request) → Awaited [] rs → Awaited [] (sort_requests rs)
unfolding sort_requests
Awaited-sort_requests [] a = tt
Awaited-sort_requests (r ∷ rs) (absent, plain, output, once, rest) =
    Awaited-insert_request r (sort_requests rs)
      (absent, plain, output, named-sort_requests r.rid rs ∙ once, Awaited-sort_requests rs rest)

-- The number of requests that no pool of so many blocks can hold.
length-too_big :
    (bt blocks : ℕ) (rs : List Request)
    → length (too_big bt blocks rs) + fitting bt blocks rs ≡ length rs
length-too_big bt blocks [] = refl
length-too_big bt blocks (r ∷ rs) = elim (Bool-cases (holds_request bt blocks r)) [
  | inl t ↦ rw t (omega (arith, length-too_big bt blocks rs))
  | inr t ↦ rw t (omega (arith, length-too_big bt blocks rs))
]

length-insert_request :
    (r : Request) (qs : List Request) → length (insert_request r qs) ≡ length qs + 1
unfolding insert_request
length-insert_request r [] = refl
length-insert_request r (q ∷ qs) = ground (arith, length-insert_request r qs)

length-sort_requests : (rs : List Request) → length (sort_requests rs) ≡ length rs
unfolding sort_requests
length-sort_requests [] = refl
length-sort_requests (r ∷ rs) =
    omega (arith, length-insert_request r (sort_requests rs), length-sort_requests rs)

module _ {S : Type 0} {ops : Operations S} (serves : Serves ops) (cfg : Config) where
  pub initial-Steady :
      (requests : List Request) (alloc : S)
      → serves.Good alloc
      → ((k : SeqId) → serves.table k alloc ≡ none)
      → Awaited [] requests
      → Steady serves cfg (initial requests alloc)
  unfolding initial get
  initial-Steady requests alloc good no_table a = record {
    running = record { good = good; unique = λ rid. omega arith; entries = λ rid st e. absurd cc };
    reserved = record {
      covered = omega arith;
      within = λ rid st e. absurd cc;
      whole = λ rid st e. absurd cc;
    };
    no_waiting = refl;
    no_prefix = refl;
    owned = λ k out. no_table k;
    unfinished = λ rid st e. absurd cc;
    awaited = Awaited-sort_requests requests a;
  }

  module _ (draws : ℕ → ℕ → List Bool × ℕ) (mode : cfg.admission ≡ oracle) (plain : cfg.spec ≡ none)
      (bt : 0 < cfg.block_tokens) (mb : 0 < cfg.max_batch) (requests : List Request) (alloc : S)
      (good : serves.Good alloc) (no_table : (k : SeqId) → serves.table k alloc ≡ none)
      (a : Awaited [] requests) where
    work-initial : work serves cfg (initial requests alloc) ≤ demand requests + 1
    unfolding initial
    work-initial =
        omega (arith, demand-sort_requests requests, ahead-le-one 0 (sort_requests requests))

    no_pinned :
        (s : Sim S)
        → s.prefix_cache ≡ []
        → release_prefixes ops cfg (prefix_ids s.prefix_cache) s ≡ (ok tt, s)
    unfolding prefix_ids release_prefixes
    no_pinned s e = ap (λ d. release_prefixes ops cfg (prefix_ids d) s) e

    -- Under oracle admission without speculation, from an empty pool and requests that share no prefix,
    -- each with an id of its own and some output, the loop of `simulate` and what follows it return,
    -- with two turns more than the requests and the tokens to decode: nobody is left, the dropped
    -- requests are exactly those whose length the pool cannot hold, in the order of arrival, every other
    -- one is completed, and every block is free.
    pub run-Ended :
        (turns : ℕ)
        → demand requests + 1 < turns
        → Returns
            (λ _ t. Ended serves cfg draws mode plain bt (initial requests alloc) t)
            (run ops cfg turns draws (initial requests alloc))
    unfolding run
    run-Ended turns h =
        Returns-continue _
          (loop-Ended serves cfg draws mode plain bt turns (initial requests alloc) mb
            (initial-Steady requests alloc good no_table a) (omega (arith, h, work-initial)))
          λ _ t e.
            rw (no_pinned t e.steady.no_prefix, serves.audits t.alloc e.steady.running.good)
              (returns e)

    begin-initial :
        (g : DramGeometry) (shape : ModelShape) (s : Sim S)
        → begin ops cfg g shape requests alloc ≡ ok s
        → initial requests alloc ≡ s
    unfolding begin
    begin-initial g shape s e = ground (arith, e)

    -- What `simulate` comes to in a pool that may have no block.
    abbrev pub Concluded : Result Summary × S → Type 0
    Concluded r =
        ((0 < serves.blocks)
          × Returns
              (λ sum u.
                (sum.completed ≡ fitting cfg.block_tokens serves.blocks requests)
                × (sum.completed + sum.dropped ≡ length requests)
                × (ops.num_free u ≡ serves.blocks))
              r)
        ⊎ ((serves.blocks ≡ 0) × (r.0 ≡ err zero_division))

    counts :
        (shape : ModelShape) {r : Result (Unit {0}) × Sim S}
        → Returns (λ _ t. Ended serves cfg draws mode plain bt (initial requests alloc) t) r
        → Concluded (concluded ops cfg shape requests r)
    unfolding summary initial
    counts shape (returns {s = t} e) =
        let sized : ops.num_blocks t.alloc ≡ serves.blocks =
          serves.sized t.alloc e.steady.running.good in
        let done : t.completed ≡ fitting cfg.block_tokens serves.blocks requests =
          omega
            (arith, e.completed, fitting-sort_requests cfg.block_tokens serves.blocks requests) in
        elim (Bool-cases (nat_beq (ops.num_blocks t.alloc) 0)) [
          | inl z ↦ rw z (inr (ground (arith, z, sized), refl))
          | inr z ↦ rw z (
              inl (
                ground (arith, z, sized),
                returns (
                  done,
                  omega (
                    arith,
                    done,
                    ap length e.dropped,
                    length-too_big cfg.block_tokens serves.blocks (sort_requests requests),
                    fitting-sort_requests cfg.block_tokens serves.blocks requests,
                    length-sort_requests requests,
                  ),
                  e.all_free,
                ),
              ))
        ]

    -- Under oracle admission without speculation, from an allocator that does what the simulator relies
    -- on and has no table, and for requests that share no prefix, each with an id of its own and some
    -- output, with blocks of at least one token and a batch of at least one sequence: where the guards
    -- of `simulate` let it begin, it ends, with two turns more than the requests and the tokens to
    -- decode. For a pool of some blocks it returns the summary of a whole run, which counts as completed
    -- the requests whose length the pool holds and as dropped all the others, and every block is free at
    -- the end; for a pool of no blocks it raises ZeroDivisionError.
    pub simulate-counts :
        (turns : ℕ) (g : DramGeometry) (shape : ModelShape) (s : Sim S)
        → begin ops cfg g shape requests alloc ≡ ok s
        → demand requests + 1 < turns
        → ((0 < serves.blocks)
            × Returns
                (λ sum u.
                  (sum.completed ≡ fitting cfg.block_tokens serves.blocks requests)
                  × (sum.completed + sum.dropped ≡ length requests)
                  × (ops.num_free u ≡ serves.blocks))
                (simulate ops cfg g shape requests turns draws alloc))
          ⊎ ((serves.blocks ≡ 0)
              × ((simulate ops cfg g shape requests turns draws alloc).0 ≡ err zero_division))
    unfolding simulate
    simulate-counts turns g shape s e h =
        rw (e, ← begin-initial g shape s e) (counts shape (run-Ended turns h))
