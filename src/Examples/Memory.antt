-- ===== src/Examples/Memory.antt =====
-- A small memory, its address maps, and bursts in the execution model.
use chip_hackathon_f.Prelude.{
  ℕ, suc, ◌+◌, ◌*◌, ◌^◌, ◌≤◌, ◌<◌, ◌≡◌, refl, inl, inr, List, [], ◌∷◌, arith, ltb, nat_beq, length,
  Bool-cases, if◌then◌else◌,
}
use chip_hackathon_f.Exec.{ok}
use chip_hackathon_f.Geometry.{DramGeometry, is_pow2, all_pow2, checked}
use chip_hackathon_f.Geometry.PowersOfTwo.{Exponents, checked-Accepted, Accepted-Exponents}
use chip_hackathon_f.AddrMap.{
  Coords, host_cacheline, pim_friendly, scheme_fields, total_bits, map_addr, inverse,
}
use chip_hackathon_f.AddrMap.Schemes.{total_bits-bursts, map_addr-inverse}
use chip_hackathon_f.PimModel.{Burst, Counts}
use chip_hackathon_f.PimModel.Window.{
  Tally, total, Ascending, AllOccur, IsUnique, window, coalesce_channel,
}
use chip_hackathon_f.PimModel.Sequence.{sequence_metrics, Fractions, sequence_metrics-Fractions}
use chip_hackathon_f.PimModel.Window.Bounds.{coalesce_channel_bounds}

abbrev pub small : DramGeometry
small = record {
  channels = 2;
  bank_groups = 2;
  banks_per_group = 2;
  row_bytes = 64;
  burst_bytes = 32;
  rows_per_bank = 4;
  cacheline_bytes = 64;
}

small_is_accepted : checked small ≡ ok small
unfolding checked all_pow2 is_pow2
small_is_accepted = refl

Accepted-Exponents_example : Exponents small
Accepted-Exponents_example =
    Accepted-Exponents small (checked-Accepted small small small_is_accepted)

total_bits-bursts_example : 2 ^ total_bits (scheme_fields small host_cacheline) ≡ 64
total_bits-bursts_example = total_bits-bursts small small host_cacheline small_is_accepted

map_addr-inverse_example :
    (c : Coords) × (map_addr small (scheme_fields small pim_friendly) 37 ≡ ok c)
    × (inverse (scheme_fields small pim_friendly) c ≡ 37)
map_addr-inverse_example =
    map_addr-inverse small small pim_friendly 37 small_is_accepted (omega arith)

abbrev burst : ℕ → ℕ → Burst
burst bank row = record { channel = 0; bank = bank; row = row; col = 0 }

abbrev pub bursts : List Burst
bursts = burst 0 7 ∷ burst 1 7 ∷ burst 0 7 ∷ burst 1 9 ∷ []

-- A sorted tally by insertion, in the place of `numpy.unique`.
abbrev tally : ℕ → ℕ → Tally
tally value times = record { value = value; times = times }

unfoldable pub insert_key : ℕ → List Tally → List Tally
insert_key k [] = tally k 1 ∷ []
insert_key k (t ∷ ts) =
    if ltb k t.value
    then tally k 1 ∷ t ∷ ts
    else if nat_beq k t.value
    then tally k (t.times + 1) ∷ ts
    else t ∷ insert_key k ts

unfoldable pub tally_keys : List ℕ → List Tally
tally_keys [] = []
tally_keys (k ∷ ks) = insert_key k (tally_keys ks)

total-insert_key : (k : ℕ) (ts : List Tally) → total (insert_key k ts) ≡ suc (total ts)
unfolding insert_key
total-insert_key k [] = refl
total-insert_key k (t ∷ ts) = ground (arith, total-insert_key k ts)

occur-insert_key : (k : ℕ) (ts : List Tally) → AllOccur ts → AllOccur (insert_key k ts)
unfolding insert_key
occur-insert_key k [] h = (omega arith, tt)
occur-insert_key k (t ∷ ts) h = elim (Bool-cases (ltb k t.value)) [
  | inl c ↦ rw c (omega arith, h)
  | inr c ↦ elim (Bool-cases (nat_beq k t.value)) [
    | inl e ↦ rw (c, e) (omega arith, h.1)
    | inr e ↦ rw (c, e) (h.0, occur-insert_key k ts h.1)
  ]
]

Ascending-insert_after :
    (k : ℕ) (t : Tally) (ts : List Tally)
    → t.value < k
    → Ascending (t ∷ ts)
    → Ascending (t ∷ insert_key k ts)
unfolding insert_key
Ascending-insert_after k t [] h asc = (h, tt)
Ascending-insert_after k t (u ∷ us) h asc = elim (Bool-cases (ltb k u.value)) [
  | inl c ↦ rw c (h, (ground (arith, c), asc.1))
  | inr c ↦ elim (Bool-cases (nat_beq k u.value)) [
    | inl e ↦ rw (c, e) (h, same_head k u us (ground (arith, e)) asc.1)
    | inr e ↦ rw (c, e) (asc.0, Ascending-insert_after k u us (ground (arith, c, e)) asc.1)
  ]
]
  where
    same_head :
        (k : ℕ) (u : Tally) (us : List Tally)
        → k ≡ u.value
        → Ascending (u ∷ us)
        → Ascending (tally k (u.times + 1) ∷ us)
    same_head k u [] e a = tt
    same_head k u (v ∷ vs) e a = (omega (arith, e, a.0), a.1)

Ascending-insert_key : (k : ℕ) (ts : List Tally) → Ascending ts → Ascending (insert_key k ts)
unfolding insert_key
Ascending-insert_key k [] h = tt
Ascending-insert_key k (t ∷ ts) h = elim (Bool-cases (ltb k t.value)) [
  | inl c ↦ rw c (ground (arith, c), h)
  | inr c ↦ elim (Bool-cases (nat_beq k t.value)) [
    | inl e ↦ rw (c, e) (same_head ts (ground (arith, e)) h)
    | inr e ↦ rw (c, e) (Ascending-insert_after k t ts (ground (arith, c, e)) h)
  ]
]
  where
    same_head :
        (us : List Tally)
        → k ≡ t.value
        → Ascending (t ∷ us)
        → Ascending (tally k (t.times + 1) ∷ us)
    same_head [] e a = tt
    same_head (v ∷ vs) e a = (omega (arith, e, a.0), a.1)

Ascending-tally_keys : (ks : List ℕ) → Ascending (tally_keys ks)
unfolding tally_keys
Ascending-tally_keys [] = tt
Ascending-tally_keys (k ∷ ks) = Ascending-insert_key k (tally_keys ks) (Ascending-tally_keys ks)

occur-tally_keys : (ks : List ℕ) → AllOccur (tally_keys ks)
unfolding tally_keys
occur-tally_keys [] = tt
occur-tally_keys (k ∷ ks) = occur-insert_key k (tally_keys ks) (occur-tally_keys ks)

total-tally_keys : (ks : List ℕ) → total (tally_keys ks) ≡ length ks
unfolding tally_keys
total-tally_keys [] = refl
total-tally_keys (k ∷ ks) = omega (arith, total-insert_key k (tally_keys ks), total-tally_keys ks)

pub tally_keys-IsUnique : IsUnique tally_keys
tally_keys-IsUnique = record {
  ascending = Ascending-tally_keys;
  occurring = occur-tally_keys;
  complete = total-tally_keys;
}

coalesce_channel_bounds_example :
    (r : Counts) × (coalesce_channel tally_keys 4 window 3 bursts ≡ ok r)
    × (r.n_bursts ≡ 4)
    × (r.n_hits ≤ r.n_cmds)
    × (r.n_cmds ≤ r.n_bursts)
    × (r.n_bursts ≤ 4 * r.n_cmds)
coalesce_channel_bounds_example =
    coalesce_channel_bounds tally_keys tally_keys-IsUnique 4 (omega arith) window 3 bursts
      (omega arith)

sequence_metrics-Fractions_example :
    (r : Counts) × (sequence_metrics tally_keys 4 window 3 bursts ≡ ok r) × Fractions 4 r
sequence_metrics-Fractions_example =
    sequence_metrics-Fractions tally_keys tally_keys-IsUnique 4 (omega arith) window 3 bursts
      (omega arith)
