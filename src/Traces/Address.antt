-- ===== src/Traces/Address.antt =====
-- The addresses of AttAcc's commands hold their coordinates.
use Prim.Native.Nat.{bit_and, bit_or}
use native.Mathlib.Nat.{pow-suc}
use chip_hackathon_f.Prelude.{
  ℕ, zero, suc, ◌+◌, ◌*◌, ◌/◌, ◌%◌, ◌^◌, ◌≤◌, ◌<◌, ◌≡◌, refl, ap, ◌∙◌, arith, sym,
}
use chip_hackathon_f.Bits.{shl, or_halves, and-mask}
use chip_hackathon_f.AddrMap.{Coords, ch, ro, bg, ba, co}
use chip_hackathon_f.Traces.{pim_address, RamulatorLine, ramulator_line}

or-zero : (n a : ℕ) → a ≤ n → bit_or a 0 ≡ a
or-zero n zero h = refl
or-zero zero (suc a) h = absurd (omega arith)
or-zero (suc n) (suc a) h = omega (arith, or_halves (suc a) 0, or-zero n (suc a / 2) (omega arith))

double : (k : ℕ) → 2 ^ suc k ≡ 2 * 2 ^ k
double k = omega (arith, pow-suc 2 k)

-- Where the digits do not meet, `|` is a sum, with the higher part on the left.
shl-or : (k c x : ℕ) → x < 2 ^ k → bit_or (shl c k) x ≡ c * 2 ^ k + x
shl-or zero c x h =
    let e : x ≡ 0 = omega arith in rw e (omega (arith, or-zero (c * 1) (c * 1) (omega arith)))
shl-or (suc k) c x h =
    let d : c * 2 ^ suc k ≡ 2 * (c * 2 ^ k) = omega (arith, ap (λ (t : ℕ). c * t) (double k)) in
    let half : shl c (suc k) / 2 ≡ shl c k = omega arith in
    let even : shl c (suc k) % 2 ≡ 0 = omega arith in
    or_halves (shl c (suc k)) x
    ∙ rw (half, even) (omega (arith, shl-or k c (x / 2) (omega (arith, double k))))

or_low : (k c n x : ℕ) → n ≡ c * 2 ^ k → x < 2 ^ k → bit_or n x ≡ n + x
or_low k c n x e h = ap (λ t. bit_or t x) e ∙ shl-or k c x h ∙ ap (λ (t : ℕ). t + x) (sym e)

-- An address is the sum of its fields.
pub pim_address-sum :
    (channel bank row col : ℕ)
    → row < 2 ^ 14
    → col < 2 ^ 5
    → bank < 2 ^ 4
    → pim_address channel bank row col
      ≡ (channel * 2 ^ 24 + bank / 4 * 2 ^ 21 + bank % 4 * 2 ^ 19 + row * 2 ^ 5 + col) * 2 ^ 5
unfolding pim_address
pim_address-sum channel bank row col r c b =
    let odd : bit_and channel 1 ≡ channel % 2 = and-mask 1 channel in
    let low : bit_and bank 3 ≡ bank % 4 = and-mask 2 bank in
    let n1 = channel / 2 * 2 ^ 25 in
    let n2 = channel * 2 ^ 24 in
    let n3 = n2 + bank / 4 * 2 ^ 21 in
    let n4 = n3 + bank % 4 * 2 ^ 19 in
    let n5 = n4 + row * 2 ^ 5 in
    let e1 : bit_or n1 (channel % 2 * 2 ^ 24) ≡ n2 =
      or_low 25 (channel / 2) n1 (channel % 2 * 2 ^ 24) refl (omega arith) ∙ omega arith in
    let e2 : bit_or n2 (0 * 2 ^ 23) ≡ n2 = or-zero n2 n2 (omega arith) in
    let e3 : bit_or n2 (bank / 4 * 2 ^ 21) ≡ n3 =
      or_low 24 channel n2 (bank / 4 * 2 ^ 21) refl (omega (arith, b)) in
    let e4 : bit_or n3 (bank % 4 * 2 ^ 19) ≡ n4 =
      or_low 21 (channel * 8 + bank / 4) n3 (bank % 4 * 2 ^ 19) (omega arith) (omega arith) in
    let e5 : bit_or n4 (row * 2 ^ 5) ≡ n5 =
      or_low 19 (channel * 32 + bank / 4 * 4 + bank % 4) n4 (row * 2 ^ 5) (omega arith)
        (omega (arith, r)) in
    let e6 : bit_or n5 (col * 2 ^ 0) ≡ n5 + col =
      ap (bit_or n5) (omega arith)
      ∙ or_low 5 (channel * 2 ^ 19 + bank / 4 * 2 ^ 16 + bank % 4 * 2 ^ 14 + row) n5 col
          (omega arith) c in
    rw (odd, low, e1, e2, e3, e4, e5, e6) refl

-- From the address of a command, in a memory of up to 16 banks, 2^14 rows and 2^5 columns, the channel,
-- the bank, the row and the column can be read off: no two fields overlap.
pub pim_address-fields :
    (channel bank row col : ℕ)
    → row < 2 ^ 14
    → col < 2 ^ 5
    → bank < 2 ^ 4
    → (pim_address channel bank row col / 2 ^ 5 % 2 ^ 5 ≡ col)
      × (pim_address channel bank row col / 2 ^ 10 % 2 ^ 14 ≡ row)
      × (pim_address channel bank row col / 2 ^ 24 % 2 ^ 2 ≡ bank % 4)
      × (pim_address channel bank row col / 2 ^ 26 % 2 ^ 2 ≡ bank / 4)
      × (pim_address channel bank row col / 2 ^ 29 ≡ channel)
      × (pim_address channel bank row col % 2 ^ 5 ≡ 0)
pim_address-fields channel bank row col r c b =
    rw (pim_address-sum channel bank row col r c b)
      (omega arith, omega arith, omega arith, omega arith, omega arith, omega arith)

-- Two bursts that are on the same line of Ramulator's trace have the same coordinates.
pub ramulator_line-injective :
    (m n : Coords)
    → ramulator_line m ≡ ramulator_line n
    → (m ch ≡ n ch) × (m bg ≡ n bg) × (m ba ≡ n ba) × (m ro ≡ n ro) × (m co ≡ n co)
unfolding ramulator_line
ramulator_line-injective m n e = (
  omega (
    arith,
    ap (λ (l : RamulatorLine). l.channel) e,
    ap (λ (l : RamulatorLine). l.pseudo_channel) e,
  ),
  ap (λ (l : RamulatorLine). l.group) e,
  ap (λ (l : RamulatorLine). l.bank) e,
  ap (λ (l : RamulatorLine). l.row) e,
  omega (arith, ap (λ (l : RamulatorLine). l.col) e),
)
