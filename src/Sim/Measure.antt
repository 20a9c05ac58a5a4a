-- ===== src/Sim/Measure.antt =====
-- What `measure_seq` computes of a table before the address map, and the counts of
-- `placement_diagnostics` (pimkv/sim.py); the quotients are left out.
use native.Mathlib.Nat.{mod-lt, mul_assoc, mul-le-mul_right}
use chip_hackathon_f.Prelude.{
  ℕ, suc, ◌+◌, ◌-◌, ◌*◌, ◌/◌, ◌%◌, ◌≤◌, ◌<◌, ◌≡◌, Option, none, some, List, [], ◌∷◌, map, arith,
  nat_beq, indicator, Bool, false, ◌||◌, get_elem?, get_elem?-lt, length, ceil_div, ltb,
  if◌then◌else◌,
}

-- `blocks[lb // bpb] * bpb + (lb % bpb)` of one burst; `none` is an IndexError.
abbrev address_in : ℕ → ℕ → Option ℕ → Option ℕ
address_in offset bpb none = none
address_in offset bpb (some block) = some (block * bpb + offset)

unfoldable pub burst_address : List ℕ → ℕ → ℕ → Option ℕ
burst_address table bpb lb = address_in (lb % bpb) bpb (get_elem? table (lb / bpb))

-- Pairs of consecutive blocks that are adjacent, and pairs in one frame.
unfoldable pub adjacent_pairs : List ℕ → ℕ
adjacent_pairs [] = 0
adjacent_pairs (b ∷ []) = 0
adjacent_pairs (b ∷ c ∷ bs) = indicator (nat_beq c (b + 1)) + adjacent_pairs (c ∷ bs)

unfoldable pub same_frame_pairs : ℕ → List ℕ → ℕ
same_frame_pairs g [] = 0
same_frame_pairs g (b ∷ []) = 0
same_frame_pairs g (b ∷ c ∷ bs) = indicator (nat_beq (c / g) (b / g)) + same_frame_pairs g (c ∷ bs)

abbrev occurs : ℕ → List ℕ → Bool
occurs f [] = false
occurs f (g ∷ gs) = nat_beq g f || occurs f gs

-- `len(np.unique(fr))`
unfoldable pub distinct : List ℕ → ℕ
distinct [] = 0
distinct (f ∷ fs) = if occurs f fs then distinct fs else suc (distinct fs)

-- `blk_adj` and `same_frame` as hits of pairs, and `frame_spread` as its two numbers.
pub record Diagnostics : Type 0 where
  pub pairs : ℕ
  pub adjacent : ℕ
  pub same_frame : Option ℕ
  pub spread : Option (ℕ × ℕ)

unfoldable pub placement_diagnostics : List ℕ → ℕ → Option Diagnostics
unfolding adjacent_pairs same_frame_pairs distinct
placement_diagnostics table g =
    if ltb (length table) 2
    then none
    else some (record {
      pairs = length table - 1;
      adjacent = adjacent_pairs table;
      same_frame = if ltb 1 g then some (same_frame_pairs g table) else none;
      spread =
          if ltb 1 g
          then some (distinct (map (λ b. b / g) table), ceil_div (length table) g)
          else none;
    })

quotient-lt : (lb n bpb : ℕ) → 0 < bpb → lb < n * bpb → lb / bpb < n
quotient-lt lb n bpb pos h = grind (arith, h, pos)

-- For a positive number of bursts per block, where the table holds the tokens of a sequence, every
-- burst of its cache has an address, and the address lies inside the block of the table that the burst belongs to.
pub burst_address-some :
    (table : List ℕ) (tokens bt bpt lb : ℕ)
    → 0 < bt * bpt
    → tokens ≤ length table * bt
    → lb < tokens * bpt
    → (block : ℕ) × (offset : ℕ) × (get_elem? table (lb / (bt * bpt)) ≡ some block)
      × (offset < bt * bpt)
      × (burst_address table (bt * bpt) lb ≡ some (block * (bt * bpt) + offset))
unfolding burst_address
burst_address-some table tokens bt bpt lb pos enough h =
    let inside : lb < length table * (bt * bpt) =
      omega (arith, h, mul-le-mul_right bpt enough, mul_assoc (length table) bt bpt) in
    let (block, e) =
      get_elem?-lt table (lb / (bt * bpt)) (quotient-lt lb (length table) (bt * bpt) pos inside) in
    (block, lb % (bt * bpt), e, mod-lt lb pos, rw e)
