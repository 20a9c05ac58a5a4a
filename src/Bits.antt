-- ===== src/Bits.antt =====
-- Shifts, masks and powers of two.
use Prim.Native.Nat.{digits, bit_and, bit_or, bit_and-bitwise, bit_or-bitwise}
use native.Mathlib.Nat.{add_comm, pow-suc, mul-add-mod_self_left, div-add-mod, mod-lt, mod-eq_of_lt}
use chip_hackathon_f.Prelude.{
  ℕ, zero, suc, ◌+◌, ◌-◌, ◌*◌, ◌/◌, ◌%◌, ◌^◌, ◌≤◌, ◌<◌, min, max, ◌≡◌, refl, ap, ◌∙◌, arith,
}

-- `x >> k` and `x << k`
abbrev pub shr : ℕ → ℕ → ℕ
shr x k = x / 2 ^ k

abbrev pub shl : ℕ → ℕ → ℕ
shl x k = x * 2 ^ k

-- `(1 << k) - 1`
abbrev pub mask : ℕ → ℕ
mask k = 2 ^ k - 1

module _ (z : ℕ → ℕ) (f : ℕ → ℕ → ℕ) where
  -- Any fuel that covers the first number gives the same digits.
  enough_digits : (n m a b : ℕ) → a ≤ n → a ≤ m → digits z f n a b ≡ digits z f m a b
  enough_digits zero zero zero b p q = refl
  enough_digits zero (suc m) zero b p q = refl
  enough_digits (suc n) zero zero b p q = refl
  enough_digits (suc n) (suc m) zero b p q = refl
  enough_digits zero m (suc a) b p q = absurd (omega arith)
  enough_digits (suc n) zero (suc a) b p q = absurd (omega arith)
  enough_digits (suc n) (suc m) (suc a) b p q =
      ap (λ d. d * 2 + f (suc a % 2) (b % 2))
        (enough_digits n m (suc a / 2) (b / 2) (omega arith) (omega arith))

pub zero-and : (b : ℕ) → bit_and 0 b ≡ 0
zero-and b = bit_and-bitwise 0 b

pub zero-or : (b : ℕ) → bit_or 0 b ≡ b
zero-or b = bit_or-bitwise 0 b

-- The lowest digit apart.
pub and_halves : (a b : ℕ) → bit_and a b ≡ bit_and (a / 2) (b / 2) * 2 + min (a % 2) (b % 2)
and_halves zero b = omega (arith, zero-and b, zero-and (b / 2))
and_halves (suc a) b = omega (
  arith,
  bit_and-bitwise (suc a) b,
  bit_and-bitwise (suc a / 2) (b / 2),
  enough_digits (λ b. zero) min a (suc a / 2) (suc a / 2) (b / 2) (omega arith) (omega arith),
)

pub or_halves : (a b : ℕ) → bit_or a b ≡ bit_or (a / 2) (b / 2) * 2 + max (a % 2) (b % 2)
or_halves zero b = omega (arith, zero-or b, zero-or (b / 2))
or_halves (suc a) b = omega (
  arith,
  bit_or-bitwise (suc a) b,
  bit_or-bitwise (suc a / 2) (b / 2),
  enough_digits (λ b. b) max a (suc a / 2) (suc a / 2) (b / 2) (omega arith) (omega arith),
)

pub and-zero : (n a : ℕ) → a ≤ n → bit_and a 0 ≡ 0
and-zero n zero h = refl
and-zero zero (suc a) h = absurd (omega arith)
and-zero (suc n) (suc a) h =
    omega (arith, and_halves (suc a) 0, and-zero n (suc a / 2) (omega arith))

pub pow_pos : (k : ℕ) → 0 < 2 ^ k
pow_pos zero = omega arith
pow_pos (suc k) = omega (arith, pow-suc 2 k, pow_pos k)

pub pow-add : (a b : ℕ) → 2 ^ (a + b) ≡ 2 ^ a * 2 ^ b
pow-add a zero = let e : a + zero ≡ a = omega arith in rw e (omega arith)
pow-add a (suc b) =
    let e : a + suc b ≡ suc (a + b) = omega arith in
    rw e (
      omega (
        arith,
        pow-suc 2 (a + b),
        ap (λ (t : ℕ). 2 ^ a * t) (pow-suc 2 b),
        ap (λ (t : ℕ). t * 2) (pow-add a b),
      ))

-- The remainder by a product, one factor after the other.
pub mod_mul : (a m n : ℕ) → 0 < m → 0 < n → a % (m * n) ≡ a % m + m * (a / m % n)
mod_mul a m n hm hn =
    ap (λ (t : ℕ). t % (m * n)) split
    ∙ mul-add-mod_self_left (m * n) (a / m / n) (m * (a / m % n) + a % m)
    ∙ mod-eq_of_lt small
    ∙ add_comm (m * (a / m % n)) (a % m)
  where
    split : a ≡ m * n * (a / m / n) + (m * (a / m % n) + a % m)
    split = omega (arith, div-add-mod a m, ap (λ (t : ℕ). m * t) (div-add-mod (a / m) n))

    small : m * (a / m % n) + a % m < m * n
    small = grind (arith, mod-lt a hm, mod-lt (a / m) hn)

double : (k : ℕ) → 2 ^ suc k ≡ 2 * 2 ^ k
double k = omega (arith, pow-suc 2 k)

-- A mask keeps the low digits.
pub and-mask : (k a : ℕ) → bit_and a (mask k) ≡ a % 2 ^ k
and-mask zero a = omega (arith, and-zero a a (omega arith))
and-mask (suc k) a =
    let half : mask (suc k) / 2 ≡ mask k = omega (arith, double k, pow_pos k) in
    let odd : mask (suc k) % 2 ≡ 1 = omega (arith, double k, pow_pos k) in
    and_halves a (mask (suc k))
    ∙ rw (half, odd, double k)
        (omega (arith, and-mask k (a / 2), mod_mul a 2 (2 ^ k) (omega arith) (pow_pos k)))

-- Where the digits do not meet, `|` is a sum.
pub or-shl : (k x c : ℕ) → x < 2 ^ k → bit_or x (shl c k) ≡ x + c * 2 ^ k
or-shl zero x c h = let e : x ≡ 0 = omega arith in rw e (omega (arith, zero-or (c * 1)))
or-shl (suc k) x c h =
    let d : c * 2 ^ suc k ≡ 2 * (c * 2 ^ k) = omega (arith, ap (λ (t : ℕ). c * t) (double k)) in
    let half : shl c (suc k) / 2 ≡ shl c k = omega arith in
    let even : shl c (suc k) % 2 ≡ 0 = omega arith in
    or_halves x (shl c (suc k))
    ∙ rw (half, even) (omega (arith, or-shl k (x / 2) c (omega (arith, double k))))
