-- ===== src/Runner/Preparation.antt =====
-- What `main` has when it calls `simulate`: a stream, blocks of some tokens, a new allocator.
use native.Mathlib.Nat.{mul-mod_left, div-add-mod}
use chip_hackathon_f.Prelude.{
  ceil_div, ℕ, zero, suc, ◌+◌, ◌*◌, ◌/◌, ◌%◌, ◌≤◌, ◌<◌, ◌≡◌, refl, sym, subst, ap, ◌∙◌, Bool, true,
  false, inl, inr, none, List, [], arith, length, leb, ltb, nat_beq, nat_eq, Bool-cases,
  if◌then◌else◌,
}
use chip_hackathon_f.Dict.{get}
use chip_hackathon_f.Exec.{Result, ok, err, value_error, Returns, returns}
use chip_hackathon_f.Alloc.{SeqId, Pool, new_pool, seq_id_eq}
use chip_hackathon_f.Alloc.Paged
use chip_hackathon_f.Alloc.Paged.{Lawful-paged, init_paged-Inv}
use chip_hackathon_f.Alloc.Random
use chip_hackathon_f.Alloc.Random.{Generator, Lawful-random, init_random-Inv}
use chip_hackathon_f.Pim
use chip_hackathon_f.Pim.{PlanMode, init_state}
use chip_hackathon_f.Pim.Admission.{init_state-Inv}
use chip_hackathon_f.Pim.Contract.{Lawful-pim}
use chip_hackathon_f.Factory.{
  AllocatorName, paged, random, contiguous, pim_aware, Built, paged_first_fit, random_alloc,
  contiguous_oracle, pim, make_allocator, padded,
}
use chip_hackathon_f.Geometry.{
  DramGeometry, ModelShape, kv_bytes_per_token, rowgroup_bytes, total_bursts, frame_blocks_for,
  derive_block_tokens, shard_kv,
}
use chip_hackathon_f.Sim.{Operations, Request, Config, oracle}
use chip_hackathon_f.Sim.Base.{Tidy}
use chip_hackathon_f.Sim.Contract.{Serves}
use chip_hackathon_f.Sim.Setup.{begin, initial}
use chip_hackathon_f.Sim.Simulate.{Summary}
use chip_hackathon_f.Sim.Service.{Awaited, fitting}
use chip_hackathon_f.Workload.Streams.{steady-Awaited, longctx-Awaited, fixedlen-Awaited}
use chip_hackathon_f.Runner
use chip_hackathon_f.Runner.{
  WorkloadName, Args, Samples, Floats, Prepared, stream, prepare, config_of, spec_of, is_spec,
  simulate_pool, simulate_built, main, block_tokens_of, allocator_of, packed, in_frames, in_pool,
  in_shard, pool_blocks_of, is_pim_aware, dram_presets, model_presets,
}

-- The workloads without speculation and shared prefixes.
abbrev pub is_plain : WorkloadName → Bool
is_plain Runner.steady = true
is_plain Runner.longctx = true
is_plain Runner.prefix = false
is_plain Runner.spec = false
is_plain Runner.fixedlen = true

pub stream-Awaited :
    (w : WorkloadName) (d : Samples) (n : ℕ)
    → is_plain w ≡ true
    → ((i : ℕ) → 32 ≤ d.outputs i)
    → Awaited [] (stream w d n)
unfolding stream
stream-Awaited Runner.steady d n h drawn = steady-Awaited d.parts d.gaps d.prompts d.outputs n
stream-Awaited Runner.longctx d n h drawn =
    longctx-Awaited d.parts d.gaps d.prompts d.outputs n drawn
stream-Awaited Runner.prefix d n h drawn = absurd cc
stream-Awaited Runner.spec d n h drawn = absurd cc
stream-Awaited Runner.fixedlen d n h drawn =
    fixedlen-Awaited d.parts d.gaps 2048 128 n (omega arith)

pub plain-spec : (args : Args) → is_plain args.workload ≡ true → spec_of args ≡ none
unfolding spec_of
plain-spec args h = rw (not_spec args.workload h) refl
  where
    not_spec : (w : WorkloadName) → is_plain w ≡ true → is_spec w ≡ false
    not_spec Runner.steady h = refl
    not_spec Runner.longctx h = refl
    not_spec Runner.prefix h = absurd cc
    not_spec Runner.spec h = absurd cc
    not_spec Runner.fixedlen h = refl

pub returned :
    {S A : Type 0} {Q : A → S → Type 0} {r : Result A × S}
    → Returns Q r
    → (a : A) × (r.0 ≡ ok a) × ((s : S) × Q a s)
returned (returns {a} {s} q) = (a, refl, (s, q))

module _ {S : Type 0} {ops : Operations S} (serves : Serves ops) (cfg : Config) where
  -- Where the pool fits the memory, `simulate` begins.
  pub begins :
      (g : DramGeometry) (shape : ModelShape) (requests : List Request) (alloc : S)
      → cfg.admission ≡ oracle
      → kv_bytes_per_token shape % g.burst_bytes ≡ 0
      → ops.num_blocks alloc * (cfg.block_tokens * (kv_bytes_per_token shape / g.burst_bytes))
        ≤ total_bursts g
      → begin ops cfg g shape requests alloc ≡ ok (initial requests alloc)
  unfolding begin
  begins g shape requests alloc mode whole within =
      let exact : nat_beq (kv_bytes_per_token shape % g.burst_bytes) 0 ≡ true =
        ground (arith, whole) in
      let inside : ltb (total_bursts g)
            (ops.num_blocks alloc * (cfg.block_tokens * (kv_bytes_per_token shape / g.burst_bytes)))
          ≡ false =
        ground (arith, within) in
      rw (exact, inside, mode) refl

-- The counts of a whole run: the requests whose length the pool holds are completed, the others dropped.
pub record Counts (block_tokens blocks : ℕ) (requests : List Request) (sum : Summary) : Type 0 where
  pub completed : sum.completed ≡ fitting block_tokens blocks requests
  pub all_counted : sum.completed + sum.dropped ≡ length requests

abbrev pub pool_size : {G : Type 0} → Built G → ℕ
pool_size (paged_first_fit s) = s.num_blocks
pool_size (random_alloc s) = s.num_blocks
pool_size (contiguous_oracle s) = s.num_blocks
pool_size (pim s) = s.num_blocks

abbrev pub is_contiguous : AllocatorName → Bool
is_contiguous contiguous = true
is_contiguous _ = false

module _ {G : Type 0} (gen : Generator G)
    (in_range : (n : ℕ) (g : G) → 0 < n → (gen.integers n g).0 < n) where
  abbrev Fresh : {P : Type 0} → (Pool P → Type 0) → Pool P → Type 0
  Fresh Good s = Good s × ((k : SeqId) → get k s.tables ≡ none)

  -- A new allocator that keeps its invariant and has no table; the contiguous oracle is none of them.
  abbrev pub Ready : Built G → Type 0
  Ready (paged_first_fit s) = Fresh (Tidy (Lawful-paged s.num_blocks)) s
  Ready (random_alloc s) = Fresh (Tidy (Lawful-random gen in_range s.num_blocks)) s
  Ready (contiguous_oracle s) = true ≡ false
  Ready (pim s) = Fresh (Tidy (Lawful-pim s.num_blocks 0)) s

  paged-Ready : (n : ℕ) → Ready (paged_first_fit (Paged.init n))
  unfolding Paged.init new_pool get
  paged-Ready n = (record { inv = init_paged-Inv n; one_table = λ k. omega arith }, λ k. refl)

  random-Ready : (n : ℕ) (rng : G) → Ready (random_alloc (Random.init n rng))
  unfolding Random.init new_pool get
  random-Ready n rng =
      (record { inv = init_random-Inv gen in_range n rng; one_table = λ k. omega arith }, λ k. refl)

  pim-Ready :
      (n g : ℕ) (segregate : Bool) (mode : PlanMode) (den : ℕ)
      → 0 < g
      → n % g ≡ 0
      → Ready (pim (new_pool n (init_state n g segregate mode 0 den)))
  unfolding new_pool get
  pim-Ready n g segregate mode den pos whole = (
    record {
      inv = init_state-Inv n g segregate mode 0 den pos whole;
      one_table = λ k. omega arith;
    },
    λ k. refl,
  )

  make_allocator-Ready :
      (rng : G) (name : AllocatorName) (n g : ℕ) (segregate : Bool) (mode : PlanMode) (den : ℕ)
      (b : Built G)
      → is_contiguous name ≡ false
      → 0 < g
      → make_allocator rng name n g segregate mode 0 den ≡ ok b
      → Ready b
  unfolding make_allocator padded Pim.init
  make_allocator-Ready rng paged n g segregate mode den b h pos e =
      subst Ready {x = paged_first_fit (Paged.init n)} (ground (arith, e)) (paged-Ready n)
  make_allocator-Ready rng random n g segregate mode den b h pos e =
      subst Ready {x = random_alloc (Random.init n rng)} (ground (arith, e)) (random-Ready n rng)
  make_allocator-Ready rng contiguous n g segregate mode den b h pos e = absurd cc
  make_allocator-Ready rng pim_aware n g segregate mode den b h pos e =
      let whole : ceil_div n g * g % g ≡ 0 = mul-mod_left (ceil_div n g) g in
      let exact : nat_beq (ceil_div n g * g % g) 0 ≡ true = ground (arith, whole) in
      let state = init_state (ceil_div n g * g) g segregate mode 0 den in
      subst Ready {x = pim (new_pool (ceil_div n g * g) state)} (ground (arith, e, exact))
        (pim-Ready (ceil_div n g * g) g segregate mode den pos whole)

quotient-pos : (q d r n : ℕ) → d * q + r ≡ n → r ≡ 0 → d < n → 0 < q
quotient-pos zero d r n e exact h = absurd (omega (arith, e, exact, h))
quotient-pos (suc q) d r n e exact h = omega arith

-- A frame has at least one block.
frame_blocks_for-pos :
    (g : DramGeometry) (s : ModelShape) (block_tokens fb : ℕ)
    → frame_blocks_for g s block_tokens ≡ ok fb
    → 0 < fb
unfolding frame_blocks_for
frame_blocks_for-pos g s block_tokens fb e =
    frame (rowgroup_bytes g * g.channels) (block_tokens * kv_bytes_per_token s) e
  where
    frame :
        (frame_bytes bytes : ℕ)
        → (if leb frame_bytes bytes
            then (if nat_beq (bytes % frame_bytes) 0 then ok 1 else err value_error)
            else if nat_beq (frame_bytes % bytes) 0
            then ok (frame_bytes / bytes)
            else err value_error)
          ≡ ok fb
        → 0 < fb
    frame frame_bytes bytes e = elim (Bool-cases (leb frame_bytes bytes)) [
      | inl t ↦ ground (arith, t, e)
      | inr t ↦
          let exact : frame_bytes % bytes ≡ 0 = ground (arith, t, e) in
          let positive : 0 < frame_bytes / bytes =
            quotient-pos (frame_bytes / bytes) bytes (frame_bytes % bytes) frame_bytes
              (div-add-mod frame_bytes bytes) exact (ground (arith, t)) in
          ground (arith, t, e, positive)
    ]

module _ {G : Type 0} (gen : Generator G)
    (in_range : (n : ℕ) (g : G) → 0 < n → (gen.integers n g).0 < n) (rng : G) (floats : Floats)
    (args : Args) where
  some_tokens : (g : DramGeometry) (s : ModelShape) → 0 < block_tokens_of gen rng floats args g s
  unfolding derive_block_tokens
  some_tokens g s = ground arith

  -- What `main` has prepared.
  pub record Facts (d : Samples) (p : Prepared G) : Type 0 where
    pub listed : p.stream ≡ stream args.workload d args.requests
    pub tokens : 0 < p.tokens
    pub ready : Ready gen in_range p.built

  module _ (d : Samples) (p : Prepared G) (shared : is_contiguous args.allocator ≡ false)
      (off : args.compact_num ≡ 0) where
    packed-Facts :
        (g : DramGeometry) (s : ModelShape) (n fb : ℕ) (r : Result (Built G))
        → r ≡ allocator_of gen rng floats args n fb
        → 0 < fb
        → packed gen rng floats args g s
            (block_tokens_of gen rng floats args g s)
            (stream args.workload d args.requests)
            r
          ≡ ok p
        → Facts d p
    packed-Facts g s n fb (err x) made pos e = absurd cc
    packed-Facts g s n fb (ok b) made pos e =
        let same : record {
          geom = g;
          shape = s;
          tokens = block_tokens_of gen rng floats args g s;
          stream = stream args.workload d args.requests;
          built = b;
        }
            ≡ p =
          ground (arith, e) in
        let frame = if is_pim_aware args.allocator then fb else 1 in
        let made' : make_allocator rng args.allocator n frame args.segregate_scratch args.pim_plan 0
              args.compact_den
            ≡ ok b =
          ap
            (λ c.
              make_allocator rng args.allocator n frame args.segregate_scratch args.pim_plan c
                args.compact_den)
            (sym off)
          ∙ sym made in
        subst (Facts d) same (record {
          listed = refl;
          tokens = some_tokens g s;
          ready =
              make_allocator-Ready gen in_range rng args.allocator n frame args.segregate_scratch
                args.pim_plan args.compact_den b shared (ground (arith, pos)) made';
        })

    frames-Facts :
        (g : DramGeometry) (s : ModelShape) (n : ℕ) (r : Result ℕ)
        → r ≡ frame_blocks_for g s (block_tokens_of gen rng floats args g s)
        → in_frames gen rng floats args g s
            (block_tokens_of gen rng floats args g s)
            (stream args.workload d args.requests)
            n
            r
          ≡ ok p
        → Facts d p
    frames-Facts g s n (err x) made e = absurd cc
    frames-Facts g s n (ok fb) made e =
        packed-Facts g s n fb (allocator_of gen rng floats args n fb) refl
          (frame_blocks_for-pos g s (block_tokens_of gen rng floats args g s) fb (sym made)) e

    pool-Facts :
        (g : DramGeometry) (s : ModelShape) (r : Result ℕ)
        → in_pool gen rng floats args g s
            (block_tokens_of gen rng floats args g s)
            (stream args.workload d args.requests)
            r
          ≡ ok p
        → Facts d p
    pool-Facts g s (err x) e = absurd cc
    pool-Facts g s (ok n) e =
        frames-Facts g s n (frame_blocks_for g s (block_tokens_of gen rng floats args g s)) refl e

    shard-Facts :
        (r : Result (DramGeometry × ModelShape))
        → in_shard gen rng floats args d r ≡ ok p
        → Facts d p
    shard-Facts (err x) e = absurd cc
    shard-Facts (ok (g, s)) e =
        pool-Facts g s
          (pool_blocks_of gen rng floats args (stream args.workload d args.requests)
            (block_tokens_of gen rng floats args g s))
          e

    pub prepare-Facts : prepare gen rng floats args d ≡ ok p → Facts d p
    unfolding prepare
    prepare-Facts e =
        shard-Facts (shard_kv (dram_presets args.dram) (model_presets args.model) args.kv_shards) e
