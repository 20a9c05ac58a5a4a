-- ===== src/Traces.antt =====
-- The traces for the external simulators (pimkv/attacc.py and pimkv/ramulator.py): the bursts of a
-- sequence, the commands and their addresses. Starting the simulators and the tables of results are
-- left out; a line of a trace file is given by its fields.
pub mod Address
pub mod Interleave
pub mod Count
pub mod Stats
use chip_hackathon_f.PimModel.Window.Sorting.{Sorting}
use Prim.Native.Nat.{bit_and, bit_or}
use chip_hackathon_f.Prelude.{
  ℕ, zero, suc, ◌+◌, ◌*◌, ◌/◌, ◌%◌, max, Bool, true, false, Option, none, some, List, [], ◌∷◌, ◌++◌,
  map, range, length, get_elem?, nat_beq,
}
use chip_hackathon_f.Bits.{shr, shl}
use chip_hackathon_f.Exec.{index_error, Result, ok, err, each, and_then}
use chip_hackathon_f.Geometry.{DramGeometry, ModelShape, banks_per_channel, kv_bytes_per_token}
use chip_hackathon_f.AddrMap.{Coords, ch, ro, bg, ba, co, Layout, map_addr, flat_bank}
use chip_hackathon_f.PimModel.{Burst, Command}
use chip_hackathon_f.PimModel.Sequence.{in_channel}
use chip_hackathon_f.PimModel.Window.{Tally, Mode}
use chip_hackathon_f.PimModel.Window.Stream.{coalesce_channel_stream}
use chip_hackathon_f.Sim.Measure.{burst_address}

abbrev pub or_index_error : Option ℕ → Result ℕ
or_index_error none = err index_error
or_index_error (some a) = ok a

-- The bursts of the first `len` tokens of a sequence: their addresses, and then their coordinates.
unfoldable pub enumerate_bursts :
    List ℕ → ℕ → DramGeometry → ModelShape → ℕ → Layout → Result (List Coords)
unfolding each
enumerate_bursts table len g shape block_tokens fields =
    let bpt = kv_bytes_per_token shape / g.burst_bytes in
    let bpb = block_tokens * bpt in
    and_then (each (λ lb. or_index_error (burst_address table bpb lb)) (range (len * bpt)))
      λ lins. each (map_addr g fields) lins

-- AttAcc's levels: the shifts of the fields of an address.
abbrev pub sh_co : ℕ
sh_co = 0

abbrev pub sh_ro : ℕ
sh_ro = 5

abbrev pub sh_ba : ℕ
sh_ba = sh_ro + 14

abbrev pub sh_bg : ℕ
sh_bg = sh_ba + 2

abbrev pub sh_ra : ℕ
sh_ra = sh_bg + 2

abbrev pub sh_pch : ℕ
sh_pch = sh_ra + 1

abbrev pub sh_ch : ℕ
sh_ch = sh_pch + 1

abbrev pub tx_offset : ℕ
tx_offset = 5

unfoldable pub pim_address : ℕ → ℕ → ℕ → ℕ → ℕ
pim_address channel bank row col =
    shl
      (bit_or
        (bit_or
          (bit_or
            (bit_or
              (bit_or (bit_or (shl (shr channel 1) sh_ch) (shl (bit_and channel 1) sh_pch))
                (shl 0 sh_ra))
              (shl (shr bank 2) sh_bg))
            (shl (bit_and bank 3) sh_ba))
          (shl row sh_ro))
        (shl col sh_co))
      tx_offset

-- `np.unique` is ascending, so that `sorted(per_ch)` is the order in which the streams were made.
-- The streams of the channels in turn: the first command of each, the second of each, and so on.
abbrev pub from_channel : ℕ → Option Command → List (ℕ × Command) → List (ℕ × Command)
from_channel c none rest = rest
from_channel c (some cmd) rest = (c, cmd) ∷ rest

unfoldable pub turn : ℕ → List (ℕ × List Command) → List (ℕ × Command)
turn i [] = []
turn i ((c, cmds) ∷ rest) = from_channel c (get_elem? cmds i) (turn i rest)

unfoldable pub turns_from : ℕ → ℕ → List (ℕ × List Command) → List (ℕ × Command)
unfolding turn
turns_from zero i per_ch = []
turns_from (suc n) i per_ch = turn i per_ch ++ turns_from n (suc i) per_ch

unfoldable pub longest : List (ℕ × List Command) → ℕ
longest [] = 0
longest ((c, cmds) ∷ rest) = max (length cmds) (longest rest)

unfoldable pub interleave : List (ℕ × List Command) → List (ℕ × Command)
unfolding turns_from longest
interleave per_ch = turns_from (longest per_ch) 0 per_ch

abbrev pub to_burst : DramGeometry → Coords → Burst
to_burst g m = record { channel = m ch; bank = flat_bank g m; row = m ro; col = m co }

module _ (unique : List ℕ → List Tally) (sorting : Sorting) where
  unfoldable pub channel_streams :
      DramGeometry → ℕ → Mode → List ℕ → List Burst → Result (List (ℕ × List Command))
  channel_streams g window mode cs bs =
      each
        (λ c.
          and_then
            (coalesce_channel_stream sorting (banks_per_channel g) mode window (in_channel c bs))
            λ cmds. ok (c, cmds))
        cs

  -- The all-bank commands of one decode sweep of a sequence.
  unfoldable pub command_stream :
      List ℕ → ℕ → DramGeometry → ModelShape → ℕ → Layout → ℕ → Mode → Result (List (ℕ × Command))
  unfolding enumerate_bursts channel_streams interleave flat_bank
  command_stream table len g shape block_tokens fields window mode =
      and_then (enumerate_bursts table len g shape block_tokens fields) λ ms.
        let bs = map (to_burst g) ms in
        and_then
          (channel_streams g window mode (map (λ t. t.value) (unique (map (λ b. b.channel) bs))) bs)
          λ per_ch. ok (interleave per_ch)

-- `PIM_MAC_AB`: the address of the line of each command.
unfoldable pub attacc_lines : List (ℕ × Command) → List ℕ
unfolding pim_address
attacc_lines = map λ (p : ℕ × Command). pim_address p.0 0 p.1.row p.1.col

-- A request of Ramulator's trace, with a rank of 0.
pub record RamulatorLine : Type 0 where
  pub channel : ℕ
  pub pseudo_channel : ℕ
  pub group : ℕ
  pub bank : ℕ
  pub row : ℕ
  pub col : ℕ

unfoldable pub ramulator_line : Coords → RamulatorLine
ramulator_line m = record {
  channel = m ch / 2;
  pseudo_channel = m ch % 2;
  group = m bg;
  bank = m ba;
  row = m ro;
  col = m co * 8;
}

unfoldable pub ramulator_lines : List Coords → List RamulatorLine
unfolding ramulator_line
ramulator_lines = map ramulator_line
