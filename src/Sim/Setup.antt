-- ===== src/Sim/Setup.antt =====
-- How `simulate` begins (pimkv/sim.py): its guards, the order of the requests, and the local state.
use native.Mathlib.Nat.{mul-le-mul_right}
use chip_hackathon_f.Prelude.{
  ℕ, ◌+◌, ◌<◌, ◌*◌, ◌/◌, ◌%◌, ◌≤◌, ◌≡◌, Bool, true, false, ◌&&◌, ◌||◌, not, List, [], ◌∷◌, arith,
  ltb, leb, nat_beq, if◌then◌else◌,
}
use chip_hackathon_f.Exec.{value_error, Result, ok, err}
use chip_hackathon_f.Geometry.{DramGeometry, ModelShape, kv_bytes_per_token, total_bursts}
use chip_hackathon_f.Sim.{Operations, Request, Config, Sim, is_oracle}

-- `sorted(requests, key=lambda r: (r.arrival_step, r.rid))`
abbrev pub comes_before : Request → Request → Bool
comes_before a b =
    ltb a.arrival_step b.arrival_step || (nat_beq a.arrival_step b.arrival_step && leb a.rid b.rid)

unfoldable pub insert_request : Request → List Request → List Request
insert_request r [] = r ∷ []
insert_request r (q ∷ qs) = if comes_before r q then r ∷ q ∷ qs else q ∷ insert_request r qs

unfoldable pub sort_requests : List Request → List Request
unfolding insert_request
sort_requests [] = []
sort_requests (r ∷ rs) = insert_request r (sort_requests rs)

unfoldable pub initial : {S : Type 0} → List Request → S → Sim S
unfolding sort_requests
initial requests alloc = record {
  alloc = alloc;
  active = [];
  prefix_cache = [];
  waiting = [];
  arrivals = sort_requests requests;
  t = 0;
  completed = 0;
  dropped = [];
  frag_failures = 0;
  decode_steps = 0;
  spec_stalls = 0;
  copied_tokens = 0;
  peak_live = 0;
  preemptions = 0;
  self_preemptions = 0;
}

-- The cache of a token is a whole number of bursts, the pool fits the memory, and the contiguous
-- oracle runs under oracle admission only.
unfoldable pub begin :
    {S : Type 0}
    → Operations S
    → Config
    → DramGeometry
    → ModelShape
    → List Request
    → S
    → Result (Sim S)
unfolding initial
begin ops cfg g shape requests alloc =
    if not (nat_beq (kv_bytes_per_token shape % g.burst_bytes) 0)
    then err value_error
    else if ltb (total_bursts g)
        (ops.num_blocks alloc * (cfg.block_tokens * (kv_bytes_per_token shape / g.burst_bytes)))
    then err value_error
    else if not (is_oracle cfg.admission) && ops.persistent_scratch
    then err value_error
    else ok (initial requests alloc)

accepted_fits :
    {S : Type 0} (a c : Bool) (m total : ℕ) (x : Sim S) {s : Sim S}
    → (if a
        then err value_error
        else if ltb total m
        then err value_error
        else if c
        then err value_error
        else ok x)
      ≡ ok s
    → m ≤ total
accepted_fits true c m total x e = absurd cc
accepted_fits false c m total x e = ground (arith, e)

pub fits_below :
    (block offset bpb n total : ℕ)
    → block < n
    → offset < bpb
    → n * bpb ≤ total
    → block * bpb + offset < total
fits_below block offset bpb n total below small fits =
    omega (arith, mul-le-mul_right bpb below, small, fits)

-- Where the guards of `simulate` let it begin, every burst of every block of the pool is in range of the address map.
pub begin_in_range :
    {S : Type 0} (ops : Operations S) (cfg : Config) (g : DramGeometry) (shape : ModelShape)
    (requests : List Request) (alloc : S) (s : Sim S) (block offset : ℕ)
    → begin ops cfg g shape requests alloc ≡ ok s
    → block < ops.num_blocks alloc
    → offset < cfg.block_tokens * (kv_bytes_per_token shape / g.burst_bytes)
    → block * (cfg.block_tokens * (kv_bytes_per_token shape / g.burst_bytes)) + offset
      < total_bursts g
unfolding begin
begin_in_range ops cfg g shape requests alloc s block offset started below small =
    let bpb = cfg.block_tokens * (kv_bytes_per_token shape / g.burst_bytes) in
    let fits : ops.num_blocks alloc * bpb ≤ total_bursts g =
      accepted_fits _ _ _ _ (initial requests alloc) started in
    fits_below block offset bpb (ops.num_blocks alloc) (total_bursts g) below small fits
