-- ===== src/AddrMap/Schemes.antt =====
-- The layouts of the three schemes cover exactly the bursts of the geometry.
use native.Mathlib.Nat.{pow-suc}
use chip_hackathon_f.Prelude.{
  ℕ, zero, suc, ◌+◌, ◌/◌, ◌^◌, ◌≤◌, ◌<◌, ◌≡◌, refl, sym, ap, ◌∙◌, true, false, arith, nat_beq, ltb,
}
use chip_hackathon_f.Bits.{pow_pos}
use chip_hackathon_f.Exec.{ok}
use chip_hackathon_f.Geometry.{DramGeometry, checked, cols_per_row, total_bursts}
use chip_hackathon_f.Geometry.PowersOfTwo.{Exponents, Accepted-Exponents, checked-Accepted}
use chip_hackathon_f.AddrMap.{
  bit_length, bits, Scheme, host_centric, host_cacheline, pim_friendly, scheme_fields, total_bits,
  Coords, map_fields, map_addr, inverse, zeros,
}
use chip_hackathon_f.AddrMap.RoundTrip.{inverse-map}

bit_length-pow : (fuel k : ℕ) → 2 ^ k ≤ fuel → bit_length fuel (2 ^ k) ≡ suc k
unfolding bit_length
bit_length-pow zero k h = absurd (omega (arith, pow_pos k))
bit_length-pow (suc fuel) zero h = ap suc (bit_length-zero fuel)
  where
    bit_length-zero : (f : ℕ) → bit_length f 0 ≡ 0
    bit_length-zero zero = refl
    bit_length-zero (suc f) = refl
bit_length-pow (suc fuel) (suc k) h =
    let half : 2 ^ suc k / 2 ≡ 2 ^ k = omega (arith, pow-suc 2 k) in
    let test : nat_beq (2 ^ suc k) 0 ≡ false = ground (arith, pow_pos (suc k)) in
    rw (test, half) (ap suc (bit_length-pow fuel k (omega (arith, pow-suc 2 k, pow_pos k))))

pub bits-pow : (k : ℕ) → bits (2 ^ k) ≡ k
unfolding bits
bits-pow k = omega (arith, bit_length-pow (2 ^ k) k (omega arith))

bits_of : (n k : ℕ) → n ≡ 2 ^ k → bits n ≡ k
bits_of n k e = ap bits e ∙ bits-pow k

width :
    (g : DramGeometry) (s : Scheme) (x : Exponents g)
    → total_bits (scheme_fields g s)
      ≡ x.cols + (x.channels + (x.banks_per_group + (x.bank_groups + x.rows)))
unfolding scheme_fields total_bits
width g host_centric x = omega (
  arith,
  bits_of g.channels x.channels x.channels_eq,
  bits_of g.bank_groups x.bank_groups x.bank_groups_eq,
  bits_of g.banks_per_group x.banks_per_group x.banks_per_group_eq,
  bits_of g.rows_per_bank x.rows x.rows_eq,
  bits_of (cols_per_row g) x.cols x.cols_eq,
)
width g host_cacheline x = omega (
  arith,
  bits_of g.channels x.channels x.channels_eq,
  bits_of g.bank_groups x.bank_groups x.bank_groups_eq,
  bits_of g.banks_per_group x.banks_per_group x.banks_per_group_eq,
  bits_of g.rows_per_bank x.rows x.rows_eq,
  bits_of (cols_per_row g) x.cols x.cols_eq,
)
width g pim_friendly x = omega (
  arith,
  bits_of g.channels x.channels x.channels_eq,
  bits_of g.bank_groups x.bank_groups x.bank_groups_eq,
  bits_of g.banks_per_group x.banks_per_group x.banks_per_group_eq,
  bits_of g.rows_per_bank x.rows x.rows_eq,
  bits_of (cols_per_row g) x.cols x.cols_eq,
)

-- The assertion in `AddrMap.__init__` holds: for every geometry that `__post_init__` accepts and
-- each of the three schemes, two to the number of bits laid out is the number of bursts.
pub total_bits-bursts :
    (g h : DramGeometry) (s : Scheme)
    → checked g ≡ ok h
    → 2 ^ total_bits (scheme_fields g s) ≡ total_bursts g
total_bits-bursts g h s accepted =
    let x = Accepted-Exponents g (checked-Accepted g h accepted) in
    ap (λ (n : ℕ). 2 ^ n) (width g s x) ∙ sym x.bursts_eq

-- For an accepted geometry and each scheme, every burst in range is mapped, and the inverse map
-- takes its coordinates back to it.
pub map_addr-inverse :
    (g h : DramGeometry) (s : Scheme) (lin : ℕ)
    → checked g ≡ ok h
    → lin < total_bursts g
    → (c : Coords) × (map_addr g (scheme_fields g s) lin ≡ ok c)
      × (inverse (scheme_fields g s) c ≡ lin)
unfolding map_addr
map_addr-inverse g h s lin accepted in_range =
    let test : ltb lin (total_bursts g) ≡ true = ground arith in
    (
      map_fields (scheme_fields g s) lin 0 zeros zeros,
      rw test,
      inverse-map (scheme_fields g s) lin (rw (total_bits-bursts g h s accepted) in_range),
    )

-- For an accepted geometry and each scheme, two bursts in range with the same coordinates are the same
-- burst.
pub map_addr-injective :
    (g h : DramGeometry) (s : Scheme) (a b : ℕ) (c : Coords)
    → checked g ≡ ok h
    → map_addr g (scheme_fields g s) a ≡ ok c
    → map_addr g (scheme_fields g s) b ≡ ok c
    → a ≡ b
unfolding map_addr
map_addr-injective g h s a b c accepted p q =
    let bound = total_bits-bursts g h s accepted in
    let fields = scheme_fields g s in
    sym (inverse-map fields a (rw bound (ground arith)))
    ∙ ap (inverse fields) (ground arith)
    ∙ inverse-map fields b (rw bound (ground arith))
