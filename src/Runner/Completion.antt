-- ===== src/Runner/Completion.antt =====
-- `main` under oracle admission: with every allocator that shares `KVAllocator`'s methods, it returns
-- and accounts for every request.
use chip_hackathon_f.Prelude.{
  ℕ, ◌+◌, ◌*◌, ◌/◌, ◌%◌, ◌≤◌, ◌<◌, ◌≡◌, refl, sym, subst, ap, ◌∙◌, Bool, true, false, none, List,
  [], nat_eq, ◌⊎◌, inl, inr, arith,
}
use chip_hackathon_f.Exec.{ok, Result, err, zero_division}
use chip_hackathon_f.Alloc.{SeqId, Pool, seq_id_eq}
use chip_hackathon_f.Alloc.Paged.{Lawful-paged}
use chip_hackathon_f.Alloc.Random.{Generator, Lawful-random}
use chip_hackathon_f.Factory.{Built, paged_first_fit, random_alloc, contiguous_oracle, pim}
use chip_hackathon_f.Geometry.{kv_bytes_per_token, total_bursts}
use chip_hackathon_f.Sim.{Operations, oracle}
use chip_hackathon_f.Sim.Base.{serves}
use chip_hackathon_f.Sim.Contract.{Serves}
use chip_hackathon_f.Sim.Frames.{serves_frames}
use chip_hackathon_f.Sim.Setup.{initial}
use chip_hackathon_f.Sim.Simulate.{Summary}
use chip_hackathon_f.Sim.Service.{Awaited, demand, fitting}
use chip_hackathon_f.Sim.Service.Whole.{simulate-counts}
use chip_hackathon_f.Runner.{
  Args, Samples, Floats, Prepared, prepare, config_of, simulate_pool, simulate_built, main,
}
use chip_hackathon_f.Runner.Preparation.{
  is_plain, stream-Awaited, plain-spec, returned, begins, Counts, pool_size, is_contiguous, Ready,
  prepare-Facts,
}

module _ {G : Type 0} (gen : Generator G)
    (in_range : (n : ℕ) (g : G) → 0 < n → (gen.integers n g).0 < n) (rng : G) (floats : Floats)
    (args : Args) where
  module _ (turns : ℕ) (draws : ℕ → ℕ → List Bool × ℕ) (mode : args.admission ≡ oracle)
      (plain : is_plain args.workload ≡ true) (mb : 0 < args.max_batch) where
    -- A summary with the counts of a whole run, or the quotient by a pool of no blocks.
    abbrev Reported : Prepared G → ℕ → Result Summary → Type 0
    Reported p blocks r =
        ((0 < blocks) × ((sum : Summary) × (r ≡ ok sum) × Counts p.tokens blocks p.stream sum))
        ⊎ ((blocks ≡ 0) × (r ≡ err zero_division))

    -- One pool under the contract of the simulator.
    pool-Counts :
        {P : Type 0} {ops : Operations (Pool P)} (laws : Serves ops) (p : Prepared G) (s : Pool P)
        → ops.num_blocks s ≡ s.num_blocks
        → laws.Good s
        → ((k : SeqId) → laws.table k s ≡ none)
        → 0 < p.tokens
        → Awaited [] p.stream
        → kv_bytes_per_token p.shape % p.geom.burst_bytes ≡ 0
        → s.num_blocks * (p.tokens * (kv_bytes_per_token p.shape / p.geom.burst_bytes))
          ≤ total_bursts p.geom
        → demand p.stream + 1 < turns
        → Reported p s.num_blocks (simulate_pool gen rng floats args turns draws ops p s)
    unfolding config_of
    pool-Counts {ops = ops} laws p s size good no_table bt a whole within h =
        let cfg = config_of gen rng floats args p.tokens s.num_blocks in
        let blocks : laws.blocks ≡ s.num_blocks = sym (laws.sized s good) ∙ size in
        let fits : ops.num_blocks s * (p.tokens * (kv_bytes_per_token p.shape / p.geom.burst_bytes))
            ≤ total_bursts p.geom =
          rw size within in
        elim (simulate-counts laws cfg draws mode (plain-spec args plain) bt mb p.stream s good
          no_table a turns p.geom p.shape (initial p.stream s)
          (begins laws cfg p.geom p.shape p.stream s mode whole fits) h) [
            | inl (some_blocks, r) ↦
                let (sum, e, (u, (completed, counted, _))) = returned r in
                inl (
                  omega (arith, some_blocks, blocks),
                  (
                    sum,
                    e,
                    record {
                      completed = completed ∙ ap (λ n. fitting p.tokens n p.stream) blocks;
                      all_counted = counted;
                    },
                  ),
                )
            | inr (no_blocks, e) ↦ inr (omega (arith, no_blocks, blocks), e)
          ]

    built-Counts :
        (p : Prepared G) (b : Built G)
        → Ready gen in_range b
        → 0 < p.tokens
        → Awaited [] p.stream
        → kv_bytes_per_token p.shape % p.geom.burst_bytes ≡ 0
        → pool_size b * (p.tokens * (kv_bytes_per_token p.shape / p.geom.burst_bytes))
          ≤ total_bursts p.geom
        → demand p.stream + 1 < turns
        → Reported p (pool_size b) (simulate_built gen rng floats args turns draws p b)
    unfolding serves serves_frames
    built-Counts p (paged_first_fit s) (good, no_table) bt a whole within h =
        pool-Counts (serves (Lawful-paged s.num_blocks)) p s refl good no_table bt a whole within h
    built-Counts p (random_alloc s) (good, no_table) bt a whole within h =
        pool-Counts (serves (Lawful-random gen in_range s.num_blocks)) p s refl good no_table bt a
          whole within h
    built-Counts p (contiguous_oracle s) ready bt a whole within h = absurd cc
    built-Counts p (pim s) (good, no_table) bt a whole within h =
        pool-Counts (serves_frames s.num_blocks) p s refl good no_table bt a whole within h

    -- `main` under oracle admission, for a workload without speculation and shared prefixes, an
    -- allocator that is not the contiguous oracle and without compaction, where the generator draws
    -- below its bounds, outputs are drawn of at least 32 tokens (which only `longctx` takes as they are)
    -- and the batch holds at least one sequence: if the arguments are accepted, the cache of a token is
    -- a whole number of bursts and the pool fits the memory, then with two turns more than the requests
    -- and the tokens to decode, for a pool of some blocks a summary is returned, which counts as
    -- completed the requests whose length the pool holds and as dropped all the others, and for a pool
    -- of no blocks ZeroDivisionError is raised.
    pub main-Counts :
        (d : Samples) (p : Prepared G)
        → is_contiguous args.allocator ≡ false
        → args.compact_num ≡ 0
        → ((i : ℕ) → 32 ≤ d.outputs i)
        → prepare gen rng floats args d ≡ ok p
        → kv_bytes_per_token p.shape % p.geom.burst_bytes ≡ 0
        → pool_size p.built * (p.tokens * (kv_bytes_per_token p.shape / p.geom.burst_bytes))
          ≤ total_bursts p.geom
        → demand p.stream + 1 < turns
        → ((0 < pool_size p.built)
            × ((sum : Summary) × (main gen rng floats args turns draws d ≡ ok sum)
                × Counts p.tokens (pool_size p.built) p.stream sum))
          ⊎ ((pool_size p.built ≡ 0) × (main gen rng floats args turns draws d ≡ err zero_division))
    unfolding main
    main-Counts d p shared off drawn e whole within h =
        let facts = prepare-Facts gen in_range rng floats args d p shared off e in
        let awaited : Awaited [] p.stream =
          subst (Awaited []) (sym facts.listed)
            (stream-Awaited args.workload d args.requests plain drawn) in
        rw e (built-Counts p p.built facts.ready facts.tokens awaited whole within h)
