-- ===== src/AddrMap.antt =====
-- The physical address map (pimkv/addrmap.py), for one burst: the source maps an array of them
-- elementwise. A layout is a list of bit fields from the lowest bit up.
pub mod RoundTrip
pub mod Schemes
use Prim.Native.Nat.{bit_and, bit_or}
use chip_hackathon_f.Prelude.{
  ℕ, zero, suc, ◌+◌, ◌-◌, ◌*◌, ◌/◌, ◌^◌, ◌≡◌, ◌↔◌, Bool, true, false, Option, List, [], ◌∷◌, arith,
  ltb, nat_beq, nat_beq_iff, if◌then◌else◌, min,
}
use chip_hackathon_f.Bits.{shr, shl, mask}
use chip_hackathon_f.Exec.{value_error, Result, ok, err}
use chip_hackathon_f.Geometry.{DramGeometry, cols_per_row, total_bursts}

pub data Field : Type 0 where
  ch bg ba ro co : Field

abbrev pub field_index : Field → ℕ
field_index ch = 0
field_index bg = 1
field_index ba = 2
field_index ro = 3
field_index co = 4

abbrev pub field_beq : Field → Field → Bool
field_beq f g = nat_beq (field_index f) (field_index g)

pub field_beq_iff : (f g : Field) → (field_beq f g ≡ true) ↔ (f ≡ g)
field_beq_iff ch ch = ground arith
field_beq_iff bg bg = ground arith
field_beq_iff ba ba = ground arith
field_beq_iff ro ro = ground arith
field_beq_iff co co = ground arith
field_beq_iff f g = ground arith

-- DRAM coordinates, or a shift for each field.
abbrev pub Coords : Type 0
Coords = Field → ℕ

abbrev pub update : Field → ℕ → Coords → Coords
update f v c g = if field_beq f g then v else c g

abbrev pub Layout : Type 0
Layout = List (Field × ℕ)

-- `int(n).bit_length() - 1`
unfoldable pub bit_length : ℕ → ℕ → ℕ
bit_length zero n = 0
bit_length (suc fuel) n = if nat_beq n 0 then 0 else suc (bit_length fuel (n / 2))

unfoldable pub bits : ℕ → ℕ
unfolding bit_length
bits n = bit_length n n - 1

pub data Scheme : Type 0 where
  host_centric host_cacheline pim_friendly : Scheme

unfoldable pub scheme_fields : DramGeometry → Scheme → Layout
scheme_fields g host_centric =
    (co, bits (cols_per_row g))
    ∷ (ch, bits g.channels)
    ∷ (ba, bits g.banks_per_group)
    ∷ (bg, bits g.bank_groups)
    ∷ (ro, bits g.rows_per_bank)
    ∷ []
scheme_fields g host_cacheline =
    let co_lo = min (bits (g.cacheline_bytes / g.burst_bytes)) (bits (cols_per_row g)) in
    (co, co_lo)
    ∷ (ch, bits g.channels)
    ∷ (ba, bits g.banks_per_group)
    ∷ (bg, bits g.bank_groups)
    ∷ (co, bits (cols_per_row g) - co_lo)
    ∷ (ro, bits g.rows_per_bank)
    ∷ []
scheme_fields g pim_friendly =
    (ba, bits g.banks_per_group)
    ∷ (bg, bits g.bank_groups)
    ∷ (co, bits (cols_per_row g))
    ∷ (ro, bits g.rows_per_bank)
    ∷ (ch, bits g.channels)
    ∷ []

-- `sum(b for _, b in self.fields)`
unfoldable pub total_bits : Layout → ℕ
total_bits [] = 0
total_bits ((f, nb) ∷ rest) = nb + total_bits rest

-- The loop of `map`: `out`, `in_field_shift` and `shift` are its variables.
unfoldable pub map_fields : Layout → ℕ → ℕ → Coords → Coords → Coords
map_fields [] lin shift out in_field_shift = out
map_fields ((f, nb) ∷ rest) lin shift out in_field_shift =
    let skipped = map_fields rest lin shift out in_field_shift in
    let chunk = bit_and (shr lin shift) (mask nb) in
    let taken =
      map_fields rest lin (shift + nb)
        (update f (bit_or (out f) (shl chunk (in_field_shift f))) out)
        (update f (in_field_shift f + nb) in_field_shift) in
    if nat_beq nb 0 then skipped else taken

abbrev pub zeros : Coords
zeros f = 0

-- `map` of a geometry and its layout.
unfoldable pub map_addr : DramGeometry → Layout → ℕ → Result Coords
unfolding map_fields
map_addr g fields lin =
    if ltb lin (total_bursts g) then ok (map_fields fields lin 0 zeros zeros) else err value_error

-- The loop of `inverse`.
unfoldable pub inverse_fields : Layout → Coords → ℕ → Coords → ℕ → ℕ
inverse_fields [] vals shift in_field_shift lin = lin
inverse_fields ((f, nb) ∷ rest) vals shift in_field_shift lin =
    let skipped = inverse_fields rest vals shift in_field_shift lin in
    let chunk = bit_and (shr (vals f) (in_field_shift f)) (mask nb) in
    let taken =
      inverse_fields rest vals (shift + nb) (update f (in_field_shift f + nb) in_field_shift)
        (bit_or lin (shl chunk shift)) in
    if nat_beq nb 0 then skipped else taken

unfoldable pub inverse : Layout → Coords → ℕ
unfolding inverse_fields
inverse fields vals = inverse_fields fields vals 0 zeros 0

-- `MappedAddrs.bank`: the bank group is folded in.
unfoldable pub flat_bank : DramGeometry → Coords → ℕ
flat_bank g c = c bg * g.banks_per_group + c ba
