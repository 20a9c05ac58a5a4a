-- ===== src/Geometry/PowersOfTwo.antt =====
-- What `_is_pow2` accepts, and what that makes of the derived sizes.
use Prim.Native.Nat.{bit_and}
use native.Mathlib.Nat.{pow-suc, mul-div_cancel, mod-eq_of_lt, pow-le-pow_right}
use chip_hackathon_f.Prelude.{
  ℕ, zero, suc, ◌+◌, ◌-◌, ◌*◌, ◌/◌, ◌%◌, ◌^◌, ◌≤◌, ◌<◌, ◌≡◌, ap, ◌∙◌, true, arith, nat_beq, ltb,
  Bool-cases, inl, inr,
}
use chip_hackathon_f.Bits.{and_halves, zero-and, pow-add, pow_pos}
use chip_hackathon_f.Exec.{ok}
use chip_hackathon_f.Geometry.{DramGeometry, is_pow2, checked, cols_per_row, total_bursts}

and_self : (n a : ℕ) → a ≤ n → bit_and a a ≡ a
and_self n zero h = zero-and 0
and_self zero (suc a) h = absurd (omega arith)
and_self (suc n) (suc a) h =
    omega (arith, and_halves (suc a) (suc a), and_self n (suc a / 2) (omega arith))

-- A positive number that shares no digit with its predecessor is a power of two.
pow2_of_digits : (n x : ℕ) → x ≤ n → 0 < x → bit_and x (x - 1) ≡ 0 → (k : ℕ) × (x ≡ 2 ^ k)
pow2_of_digits zero x h pos e = absurd (omega arith)
pow2_of_digits (suc n) x h pos e = elim (Bool-cases (nat_beq (x % 2) 0)) [
  | inl even ↦
      let half : (x - 1) / 2 ≡ x / 2 - 1 = ground arith in
      let lower : bit_and (x / 2) (x / 2 - 1) ≡ 0 =
        omega (arith, and_halves x (x - 1), ap (bit_and (x / 2)) half) in
      let (k, p) = pow2_of_digits n (x / 2) (omega arith) (ground arith) lower in
      (suc k, ground (arith, p, pow-suc 2 k))
  | inr odd ↦
      let half : (x - 1) / 2 ≡ x / 2 = ground arith in
      (0, ground (arith, and_halves x (x - 1), ap (bit_and (x / 2)) half, and_self (x / 2) (x / 2)))
]

pub is_pow2-pow : (x : ℕ) → is_pow2 x ≡ true → (k : ℕ) × (x ≡ 2 ^ k)
unfolding is_pow2
is_pow2-pow x h = pow2_of_digits x x (omega arith) (ground arith) (ground arith)

-- A power of two divided by one that divides it.
pow_order : (a b : ℕ) → 2 ^ a % 2 ^ b ≡ 0 → b ≤ a
pow_order a b h = elim (Bool-cases (ltb a b)) [
  | inl lt ↦
      let le : 2 ^ suc a ≤ 2 ^ b =
        pow-le-pow_right {n = 2} (omega arith) {i = suc a} {j = b} (ground arith) in
      let small : 2 ^ a < 2 ^ b = omega (arith, pow-suc 2 a, pow_pos a) in
      absurd (omega (arith, mod-eq_of_lt small, pow_pos a))
  | inr le ↦ ground arith
]

pub pow2-div : (a b : ℕ) → 2 ^ a % 2 ^ b ≡ 0 → (k : ℕ) × (2 ^ a / 2 ^ b ≡ 2 ^ k) × (a ≡ k + b)
pow2-div a b h =
    let e : a ≡ a - b + b = omega (arith, pow_order a b h) in
    (
      a - b,
      ap (λ (n : ℕ). 2 ^ n / 2 ^ b) e
          ∙ rw (pow-add (a - b) b) (mul-div_cancel (2 ^ (a - b)) (pow_pos b)),
      e,
    )

-- The sizes of a geometry that `__post_init__` accepts, as powers of two.
pub record Exponents (g : DramGeometry) : Type 0 where
  pub channels : ℕ
  pub bank_groups : ℕ
  pub banks_per_group : ℕ
  pub rows : ℕ
  pub cols : ℕ
  pub line : ℕ
  pub channels_eq : g.channels ≡ 2 ^ channels
  pub bank_groups_eq : g.bank_groups ≡ 2 ^ bank_groups
  pub banks_per_group_eq : g.banks_per_group ≡ 2 ^ banks_per_group
  pub rows_eq : g.rows_per_bank ≡ 2 ^ rows
  pub cols_eq : cols_per_row g ≡ 2 ^ cols
  pub line_eq : g.cacheline_bytes / g.burst_bytes ≡ 2 ^ line
  pub bursts_eq :
      total_bursts g ≡ 2 ^ (cols + (channels + (banks_per_group + (bank_groups + rows))))

-- The guards of `__post_init__`.
pub record Accepted (g : DramGeometry) : Type 0 where
  pub channels : is_pow2 g.channels ≡ true
  pub bank_groups : is_pow2 g.bank_groups ≡ true
  pub banks_per_group : is_pow2 g.banks_per_group ≡ true
  pub row : is_pow2 g.row_bytes ≡ true
  pub burst : is_pow2 g.burst_bytes ≡ true
  pub rows : is_pow2 g.rows_per_bank ≡ true
  pub line : is_pow2 g.cacheline_bytes ≡ true
  pub row_divides : g.row_bytes % g.burst_bytes ≡ 0
  pub line_divides : g.cacheline_bytes % g.burst_bytes ≡ 0

pub checked-Accepted : (g h : DramGeometry) → checked g ≡ ok h → Accepted g
unfolding checked
checked-Accepted g h e = ground arith

-- In a geometry that passes the guards of `__post_init__`, the channels, bank groups, banks, rows,
-- columns and bursts of a cacheline are powers of two, and so is the number of bursts, whose exponent
-- is the sum of those of the columns, channels, banks, bank groups and rows.
pub Accepted-Exponents : (g : DramGeometry) → Accepted g → Exponents g
Accepted-Exponents g v =
    let (c, ec) = is_pow2-pow g.channels v.channels in
    let (bg, ebg) = is_pow2-pow g.bank_groups v.bank_groups in
    let (ba, eba) = is_pow2-pow g.banks_per_group v.banks_per_group in
    let (r, er) = is_pow2-pow g.row_bytes v.row in
    let (b, eb) = is_pow2-pow g.burst_bytes v.burst in
    let (ro, ero) = is_pow2-pow g.rows_per_bank v.rows in
    let (l, el) = is_pow2-pow g.cacheline_bytes v.line in
    let (co, eco, r_split) = pow2-div r b (rw (← er, ← eb) v.row_divides) in
    let (li, eli, l_split) = pow2-div l b (rw (← el, ← eb) v.line_divides) in
    record {
      channels = c;
      bank_groups = bg;
      banks_per_group = ba;
      rows = ro;
      cols = co;
      line = li;
      channels_eq = ec;
      bank_groups_eq = ebg;
      banks_per_group_eq = eba;
      rows_eq = ero;
      cols_eq = rw (er, eb) eco;
      line_eq = rw (el, eb) eli;
      bursts_eq = rw (ec, ebg, eba, ero, er, eb, r_split) (bursts c bg ba ro co b);
    }
  where
    bursts :
        (c bg ba ro k b : ℕ)
        → 2 ^ c * (2 ^ bg * 2 ^ ba) * 2 ^ ro * 2 ^ (k + b) / 2 ^ b
          ≡ 2 ^ (k + (c + (ba + (bg + ro))))
    bursts c bg ba ro k b =
        let e : c + (bg + ba) + ro + (k + b) ≡ k + (c + (ba + (bg + ro))) + b = omega arith in
        rw
          (
            ← pow-add bg ba,
            ← pow-add c (bg + ba),
            ← pow-add (c + (bg + ba)) ro,
            ← pow-add (c + (bg + ba) + ro) (k + b),
            e,
            pow-add (k + (c + (ba + (bg + ro)))) b,
          )
          (mul-div_cancel (2 ^ (k + (c + (ba + (bg + ro))))) (pow_pos b))
