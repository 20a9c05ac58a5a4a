-- ===== src/PimModel.antt =====
-- The analytical execution model (pimkv/pimmodel.py). The two arrays of a channel are one list of
-- bursts; a row or column of -1 in the source is `none`.
pub mod Streams
pub mod Window
pub mod Bounds
pub mod Sequence
use chip_hackathon_f.Prelude.{
  ℕ, zero, suc, ◌+◌, ◌-◌, ◌*◌, ◌/◌, ◌≡◌, Bool, true, false, not, ◌&&◌, ◌||◌, Option, none, some,
  List, [], ◌∷◌, ◌++◌, arith, ltb, leb, nat_beq, if◌then◌else◌, indicator, length, take, drop, max,
}
use chip_hackathon_f.Geometry.{DramGeometry, banks_per_channel}

pub record Burst : Type 0 where
  pub channel : ℕ
  pub bank : ℕ
  pub row : ℕ
  pub col : ℕ

abbrev pub mem : ℕ → List ℕ → Bool
mem x [] = false
mem x (y ∷ ys) = nat_beq y x || mem x ys

abbrev pub is_row : Option ℕ → ℕ → Bool
is_row none r = false
is_row (some q) r = nat_beq q r

-- The result `(n_cmds, n_hits, n_bursts)`.
pub record Counts : Type 0 where
  pub n_cmds : ℕ
  pub n_hits : ℕ
  pub n_bursts : ℕ

-- The variables of `_coalesce_inorder`; `cur_banks` is a set.
pub record Inorder : Type 0 where
  pub n_cmds : ℕ
  pub n_hits : ℕ
  pub open_row : Option ℕ
  pub cur_row : Option ℕ
  pub cur_banks : List ℕ

abbrev pub cold : Inorder
cold = record { n_cmds = 0; n_hits = 0; open_row = none; cur_row = none; cur_banks = [] }

abbrev issue_row : Option ℕ → Inorder → Inorder
issue_row none s = s
issue_row (some r) s = record s {
  n_cmds = s.n_cmds + 1;
  n_hits = s.n_hits + indicator (is_row s.open_row r);
  open_row = some r;
}

-- `if cur_row != -1`: issue the current command.
unfoldable pub issue : Inorder → Inorder
issue s = issue_row s.cur_row s

-- A burst that does not fit the current command.
abbrev pub breaks : ℕ → Option ℕ → List ℕ → Burst → Bool
breaks size cur_row cur_banks b =
    not (is_row cur_row b.row) || mem b.bank cur_banks || nat_beq (length cur_banks) size

unfoldable pub inorder_burst : ℕ → Burst → Inorder → Inorder
unfolding issue
inorder_burst size b s =
    if breaks size s.cur_row s.cur_banks b
    then record (issue s) { cur_row = some b.row; cur_banks = b.bank ∷ [] }
    else record s { cur_banks = b.bank ∷ s.cur_banks }

unfoldable pub inorder_bursts : ℕ → List Burst → Inorder → Inorder
inorder_bursts size [] s = s
inorder_bursts size (b ∷ bs) s = inorder_bursts size bs (inorder_burst size b s)

unfoldable pub coalesce_inorder : ℕ → List Burst → Counts
unfolding inorder_bursts inorder_burst issue
coalesce_inorder size bs =
    let s = issue (inorder_bursts size bs cold) in
    record { n_cmds = s.n_cmds; n_hits = s.n_hits; n_bursts = length bs }

-- A command of the stream: its row and a column.
pub record Command : Type 0 where
  pub row : ℕ
  pub col : ℕ

-- The in-order branch of `coalesce_channel_stream`.
pub record Stream : Type 0 where
  pub out : List Command
  pub cur_row : Option ℕ
  pub cur_col : ℕ
  pub cur_banks : List ℕ

abbrev pub empty_stream : Stream
empty_stream = record { out = []; cur_row = none; cur_col = 0; cur_banks = [] }

abbrev emit_row : Option ℕ → Stream → List Command
emit_row none s = s.out
emit_row (some r) s = s.out ++ record { row = r; col = s.cur_col } ∷ []

unfoldable pub emit : Stream → List Command
emit s = emit_row s.cur_row s

unfoldable pub stream_burst : ℕ → Burst → Stream → Stream
unfolding emit
stream_burst size b s =
    if breaks size s.cur_row s.cur_banks b
    then record { out = emit s; cur_row = some b.row; cur_col = b.col; cur_banks = b.bank ∷ [] }
    else record s { cur_banks = b.bank ∷ s.cur_banks }

unfoldable pub stream_bursts : ℕ → List Burst → Stream → Stream
stream_bursts size [] s = s
stream_bursts size (b ∷ bs) s = stream_bursts size bs (stream_burst size b s)

unfoldable pub stream_inorder : ℕ → List Burst → List Command
unfolding stream_bursts stream_burst emit
stream_inorder size bs = emit (stream_bursts size bs empty_stream)
