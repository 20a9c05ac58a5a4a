-- ===== src/Geometry.antt =====
-- DramGeometry, ModelShape, PimTiming and what is derived from them (pimkv/config.py), and the frame
-- size of pimkv/run.py. Names and messages are left out.
pub mod PowersOfTwo
use Prim.Native.Nat.{bit_and}
use chip_hackathon_f.Prelude.{
  ℕ, zero, suc, ◌+◌, ◌-◌, ◌*◌, ◌/◌, ◌%◌, ◌≡◌, Bool, true, false, ◌&&◌, ltb, leb, nat_beq,
  if◌then◌else◌, ceil_div, max, not, ◌||◌,
}
use chip_hackathon_f.Exec.{value_error, Result, ok, err}

unfoldable pub is_pow2 : ℕ → Bool
is_pow2 x = ltb 0 x && nat_beq (bit_and x (x - 1)) 0

pub record DramGeometry : Type 0 where
  pub channels : ℕ
  pub bank_groups : ℕ
  pub banks_per_group : ℕ
  pub row_bytes : ℕ
  pub burst_bytes : ℕ
  pub rows_per_bank : ℕ
  pub cacheline_bytes : ℕ

-- The seven powers of two that `__post_init__` asks for.
unfoldable pub all_pow2 : DramGeometry → Bool
unfolding is_pow2
all_pow2 g =
    is_pow2 g.channels
    && is_pow2 g.bank_groups
    && is_pow2 g.banks_per_group
    && is_pow2 g.row_bytes
    && is_pow2 g.burst_bytes
    && is_pow2 g.rows_per_bank
    && is_pow2 g.cacheline_bytes

-- `__post_init__`: the geometry, or ValueError.
unfoldable pub checked : DramGeometry → Result DramGeometry
unfolding all_pow2
checked g =
    if not (all_pow2 g)
    then err value_error
    else if not (nat_beq (g.row_bytes % g.burst_bytes) 0)
    then err value_error
    else if not (nat_beq (g.cacheline_bytes % g.burst_bytes) 0)
    then err value_error
    else ok g

abbrev pub banks_per_channel : DramGeometry → ℕ
banks_per_channel g = g.bank_groups * g.banks_per_group

abbrev pub cols_per_row : DramGeometry → ℕ
cols_per_row g = g.row_bytes / g.burst_bytes

abbrev pub rowgroup_bytes : DramGeometry → ℕ
rowgroup_bytes g = g.row_bytes * banks_per_channel g

abbrev pub allbank_cmd_bytes : DramGeometry → ℕ
allbank_cmd_bytes g = g.burst_bytes * banks_per_channel g

abbrev pub capacity_bytes : DramGeometry → ℕ
capacity_bytes g = g.channels * banks_per_channel g * g.rows_per_bank * g.row_bytes

abbrev pub total_bursts : DramGeometry → ℕ
total_bursts g = capacity_bytes g / g.burst_bytes

pub record ModelShape : Type 0 where
  pub kv_heads : ℕ
  pub head_dim : ℕ
  pub dtype_bytes : ℕ

abbrev pub kv_bytes_per_token : ModelShape → ℕ
kv_bytes_per_token s = 2 * s.kv_heads * s.head_dim * s.dtype_bytes

abbrev pub hbm3_pim : DramGeometry
hbm3_pim = record {
  channels = 32;
  bank_groups = 4;
  banks_per_group = 4;
  row_bytes = 1024;
  burst_bytes = 32;
  rows_per_bank = 16384;
  cacheline_bytes = 64;
}

abbrev pub gddr6_pim : DramGeometry
gddr6_pim = record {
  channels = 8;
  bank_groups = 4;
  banks_per_group = 4;
  row_bytes = 2048;
  burst_bytes = 32;
  rows_per_bank = 16384;
  cacheline_bytes = 64;
}

abbrev pub llama_gqa_8kv : ModelShape
llama_gqa_8kv = record { kv_heads = 8; head_dim = 128; dtype_bytes = 2 }

abbrev pub mqa_1kv : ModelShape
mqa_1kv = record { kv_heads = 1; head_dim = 128; dtype_bytes = 2 }

abbrev pub mha_32kv : ModelShape
mha_32kv = record { kv_heads = 32; head_dim = 128; dtype_bytes = 2 }

-- `replace` runs `__post_init__` on the new geometry again. A count of no shards is a
-- ZeroDivisionError, which is not modelled: the callers give at least 1.
abbrev paired : ModelShape → Result DramGeometry → Result (DramGeometry × ModelShape)
paired s (ok g) = ok (g, s)
paired s (err e) = err e

unfoldable pub shard_kv : DramGeometry → ModelShape → ℕ → Result (DramGeometry × ModelShape)
unfolding checked
shard_kv g s n_shards =
    if nat_beq n_shards 1
    then ok (g, s)
    else if not (nat_beq (g.channels % n_shards) 0) || not (nat_beq (s.kv_heads % n_shards) 0)
    then err value_error
    else paired (record s { kv_heads = s.kv_heads / n_shards })
        (checked (record g { channels = g.channels / n_shards }))

unfoldable pub block_bytes : DramGeometry → ℕ → Bool → ℕ
block_bytes g rowgroups_per_block spread_channels =
    let one_channel = rowgroups_per_block * rowgroup_bytes g in
    if spread_channels then one_channel * g.channels else one_channel

unfoldable pub derive_block_tokens : DramGeometry → ModelShape → ℕ → Bool → ℕ
unfolding block_bytes
derive_block_tokens g s rowgroups_per_block spread_channels =
    max 1 (ceil_div (block_bytes g rowgroups_per_block spread_channels) (kv_bytes_per_token s))

-- `frame_blocks_for` of pimkv/run.py.
unfoldable pub frame_blocks_for : DramGeometry → ModelShape → ℕ → Result ℕ
frame_blocks_for g s block_tokens =
    let frame_bytes = rowgroup_bytes g * g.channels in
    let bytes = block_tokens * kv_bytes_per_token s in
    if leb frame_bytes bytes
    then (if nat_beq (bytes % frame_bytes) 0 then ok 1 else err value_error)
    else if nat_beq (frame_bytes % bytes) 0
    then ok (frame_bytes / bytes)
    else err value_error
