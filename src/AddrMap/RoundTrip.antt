-- ===== src/AddrMap/RoundTrip.antt =====
-- `map` and `inverse` undo one another, for every layout.
use Prim.Native.Nat.{bit_and, bit_or}
use native.Mathlib.Nat.{
  mod-lt, mod-eq_of_lt, div-div-eq-div-mul, div-one, mod-one, mul_comm, add-mul-mod_self_left,
  add-mul-div_left, div-eq_of_lt,
}
use chip_hackathon_f.Prelude.{
  ℕ, ◌+◌, ◌*◌, ◌/◌, ◌%◌, ◌^◌, ◌<◌, ◌≡◌, refl, sym, ap, subst, ◌∙◌, inl, inr, true, [], ◌∷◌, arith,
  nat_beq, Bool-cases,
}
use chip_hackathon_f.Bits.{shr, shl, mask, and-mask, or-shl, pow-add, pow_pos, mod_mul}
use chip_hackathon_f.AddrMap.{
  Field, field_beq, field_beq_iff, Coords, update, Layout, total_bits, map_fields, inverse_fields,
  inverse, zeros,
}

-- Each coordinate fits the bits read so far.
abbrev pub Fits : Coords → Coords → Type 0
Fits c widths = (f : Field) → c f < 2 ^ widths f

-- The value that the loops build, with the chunk above the bits read before.
chunk_sum :
    (x lin shift nb k : ℕ)
    → x < 2 ^ k
    → bit_or x (shl (bit_and (shr lin shift) (mask nb)) k) ≡ x + lin / 2 ^ shift % 2 ^ nb * 2 ^ k
chunk_sum x lin shift nb k h =
    or-shl k x (bit_and (shr lin shift) (mask nb)) h
    ∙ ap (λ (t : ℕ). x + t * 2 ^ k) (and-mask nb (shr lin shift))

chunk_lt : (x c nb k : ℕ) → x < 2 ^ k → c < 2 ^ nb → x + c * 2 ^ k < 2 ^ (k + nb)
chunk_lt x c nb k h hc = rw (pow-add k nb) (grind arith)

-- A number has one quotient and one remainder.
unique_digits : (m a q x c : ℕ) → a < m → x < m → a + m * q ≡ x + c * m → (a ≡ x) × (q ≡ c)
unique_digits m a q x c ha hx e =
    let e' : a + m * q ≡ x + m * c = e ∙ ap (λ (t : ℕ). x + t) (mul_comm c m) in
    (
      sym (mod-eq_of_lt ha)
          ∙ sym (add-mul-mod_self_left a m q)
          ∙ ap (λ (t : ℕ). t % m) e'
          ∙ add-mul-mod_self_left x m c
          ∙ mod-eq_of_lt hx,
      sym (quotient a q ha) ∙ ap (λ (t : ℕ). t / m) e' ∙ quotient x c hx,
    )
  where
    quotient : (y z : ℕ) → y < m → (y + m * z) / m ≡ z
    quotient y z h =
        add-mul-div_left y z (omega arith) ∙ ap (λ (t : ℕ). t + z) (div-eq_of_lt h) ∙ omega arith

-- The low digits of a number whose first k + nb digits are known.
low_digits :
    (a x c nb k : ℕ)
    → a % 2 ^ (k + nb) ≡ x + c * 2 ^ k
    → x < 2 ^ k
    → (a % 2 ^ k ≡ x) × (a / 2 ^ k % 2 ^ nb ≡ c)
low_digits a x c nb k e hx =
    unique_digits (2 ^ k) (a % 2 ^ k) (a / 2 ^ k % 2 ^ nb) x c (mod-lt a (pow_pos k)) hx
      (sym (mod_mul a (2 ^ k) (2 ^ nb) (pow_pos k) (pow_pos nb)) ∙ rw (← pow-add k nb) e)

chunk_of : (lin shift nb : ℕ) → bit_and (shr lin shift) (mask nb) ≡ lin / 2 ^ shift % 2 ^ nb
chunk_of lin shift nb = and-mask nb (shr lin shift)

module _ (f : Field) (nb lin shift : ℕ) (out widths : Coords) (fits : Fits out widths) where
  -- The coordinates after one round of the loop of `map`, and their widths.
  abbrev next_out : Coords
  next_out = update f (bit_or (out f) (shl (bit_and (shr lin shift) (mask nb)) (widths f))) out

  abbrev next_widths : Coords
  next_widths = update f (widths f + nb) widths

  next_out_self : next_out f ≡ out f + lin / 2 ^ shift % 2 ^ nb * 2 ^ widths f
  next_out_self =
      let same : field_beq f f ≡ true = (field_beq_iff f f).1 refl in
      rw same (chunk_sum (out f) lin shift nb (widths f) (fits f))

  next-Fits : Fits next_out next_widths
  next-Fits g = elim (Bool-cases (field_beq f g)) [
    | inl same ↦ rw same (
        rw (chunk_sum (out f) lin shift nb (widths f) (fits f)) (
          chunk_lt (out f) (lin / 2 ^ shift % 2 ^ nb) nb (widths f) (fits f)
            (mod-lt (lin / 2 ^ shift) (pow_pos nb))))
    | inr other ↦ rw other (fits g)
  ]

-- What one round adds can be read back.
round_digits :
    (f : Field) (nb lin shift x : ℕ) (out widths : Coords) (fits : Fits out widths)
    → x % 2 ^ next_widths f nb lin shift out widths fits f
      ≡ next_out f nb lin shift out widths fits f
    → (x % 2 ^ widths f ≡ out f) × (x / 2 ^ widths f % 2 ^ nb ≡ lin / 2 ^ shift % 2 ^ nb)
round_digits f nb lin shift x out widths fits e =
    let same : field_beq f f ≡ true = (field_beq_iff f f).1 refl in
    let width : next_widths f nb lin shift out widths fits f ≡ widths f + nb = rw same in
    low_digits x (out f) (lin / 2 ^ shift % 2 ^ nb) nb (widths f)
      (ap (λ (k : ℕ). x % 2 ^ k) (sym width) ∙ e ∙ next_out_self f nb lin shift out widths fits)
      (fits f)

round_keeps :
    (f : Field) (nb lin shift : ℕ) (c out widths : Coords) (fits : Fits out widths)
    → ((g : Field)
        → c g % 2 ^ next_widths f nb lin shift out widths fits g
          ≡ next_out f nb lin shift out widths fits g)
    → (g : Field) → c g % 2 ^ widths g ≡ out g
round_keeps f nb lin shift c out widths fits h g = elim (Bool-cases (field_beq f g)) [
  | inl same ↦
      subst (λ g. c g % 2 ^ widths g ≡ out g) ((field_beq_iff f g).0 same)
        (round_digits f nb lin shift (c f) out widths fits (h f)).0
  | inr other ↦ rw other at (h g)
]

-- Later rounds of `map` leave the digits that are read already as they are.
map_fields-keeps :
    (fields : Layout) (lin shift : ℕ) (out widths : Coords)
    → Fits out widths
    → (g : Field) → map_fields fields lin shift out widths g % 2 ^ widths g ≡ out g
unfolding map_fields
map_fields-keeps [] lin shift out widths fits g = mod-eq_of_lt (fits g)
map_fields-keeps ((f, nb) ∷ rest) lin shift out widths fits g = elim (Bool-cases (nat_beq nb 0)) [
  | inl none ↦ rw none (map_fields-keeps rest lin shift out widths fits g)
  | inr some ↦ rw some (
      round_keeps f nb lin shift _ out widths fits
        (map_fields-keeps rest lin (shift + nb) (next_out f nb lin shift out widths fits)
          (next_widths f nb lin shift out widths fits) (next-Fits f nb lin shift out widths fits))
        g)
]

-- The digits of `lin` from `shift` on, as the loops take them apart.
split_digits :
    (lin shift nb k : ℕ)
    → lin / 2 ^ shift % 2 ^ (nb + k)
      ≡ lin / 2 ^ shift % 2 ^ nb + 2 ^ nb * (lin / 2 ^ (shift + nb) % 2 ^ k)
split_digits lin shift nb k =
    rw (pow-add nb k, pow-add shift nb, ← div-div-eq-div-mul lin (2 ^ shift) (2 ^ nb))
      (mod_mul (lin / 2 ^ shift) (2 ^ nb) (2 ^ k) (pow_pos nb) (pow_pos k))

-- The loop of `inverse` puts back what the loop of `map` took apart.
inverse-map_fields :
    (fields : Layout) (lin shift acc : ℕ) (out widths : Coords)
    → Fits out widths
    → acc < 2 ^ shift
    → inverse_fields fields (map_fields fields lin shift out widths) shift widths acc
      ≡ acc + lin / 2 ^ shift % 2 ^ total_bits fields * 2 ^ shift
unfolding map_fields inverse_fields total_bits
inverse-map_fields [] lin shift acc out widths fits h = rw (mod-one (lin / 2 ^ shift)) (omega arith)
inverse-map_fields ((f, nb) ∷ rest) lin shift acc out widths fits h =
    elim (Bool-cases (nat_beq nb 0)) [
      | inl none ↦
          let z : nb ≡ 0 = ground arith in
          let w : nb + total_bits rest ≡ total_bits rest = omega arith in
          rw (none, w) (inverse-map_fields rest lin shift acc out widths fits h)
      | inr some ↦
          let out' = next_out f nb lin shift out widths fits in
          let widths' = next_widths f nb lin shift out widths fits in
          let fits' = next-Fits f nb lin shift out widths fits in
          let m = map_fields rest lin (shift + nb) out' widths' in
          let c = lin / 2 ^ shift % 2 ^ nb in
          let same : m f / 2 ^ widths f % 2 ^ nb ≡ c =
            (round_digits f nb lin shift (m f) out widths fits
              (map_fields-keeps rest lin (shift + nb) out' widths' fits' f)).1 in
          let read : bit_or acc (shl (bit_and (shr (m f) (widths f)) (mask nb)) shift)
              ≡ acc + c * 2 ^ shift =
            chunk_sum acc (m f) (widths f) nb shift h ∙ ap (λ (t : ℕ). acc + t * 2 ^ shift) same in
          rw (some, read)
            (inverse-map_fields rest lin (shift + nb) (acc + c * 2 ^ shift) out' widths' fits'
                (chunk_lt acc c nb shift h (mod-lt (lin / 2 ^ shift) (pow_pos nb)))
              ∙ joined acc lin shift nb (total_bits rest))
    ]
  where
    joined :
        (acc lin shift nb k : ℕ)
        → acc
            + lin / 2 ^ shift % 2 ^ nb * 2 ^ shift
            + lin / 2 ^ (shift + nb) % 2 ^ k * 2 ^ (shift + nb)
          ≡ acc + lin / 2 ^ shift % 2 ^ (nb + k) * 2 ^ shift
    joined acc lin shift nb k = rw (split_digits lin shift nb k, pow-add shift nb) (omega arith)

no_digits : Fits zeros zeros
no_digits f = omega arith

-- For every layout, the inverse map takes the coordinates of a burst below two to the number of bits
-- back to the burst.
pub inverse-map :
    (fields : Layout) (lin : ℕ)
    → lin < 2 ^ total_bits fields
    → inverse fields (map_fields fields lin 0 zeros zeros) ≡ lin
unfolding inverse
inverse-map fields lin h =
    inverse-map_fields fields lin 0 0 zeros zeros no_digits (omega arith)
    ∙ rw (div-one lin, mod-eq_of_lt h) (omega arith)
