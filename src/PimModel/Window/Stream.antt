-- ===== src/PimModel/Window/Stream.antt =====
-- The window mode of `coalesce_channel_stream` (pimkv/pimmodel.py). What numpy sorts and counts is a
-- parameter (PimModel/Window/Sorting).
pub mod Length
use chip_hackathon_f.PimModel.Window.Sorting.{
  Indexed, Sorting, at_index, gather, tally_of, IsSorting, unique-permuted, gather-at,
}
use chip_hackathon_f.Prelude.{
  ℕ, zero, suc, ◌+◌, ◌/◌, ◌<◌, ◌≡◌, refl, sym, ap, ◌∙◌, inl, inr, true, false, Option, none, some,
  List, [], ◌∷◌, ◌++◌, arith, ltb, nat_beq, if◌then◌else◌, length, length-append, take, drop, max,
  map, Option-cases, Bool-cases, All, get_elem?,
}
use chip_hackathon_f.Exec.{value_error, Result, ok, err, index_error, each, and_then}
use chip_hackathon_f.PimModel.{Burst, Counts, Command, stream_inorder}
use chip_hackathon_f.PimModel.Streams.{stream_inorder-counts}
use chip_hackathon_f.PimModel.Window.{
  Tally, Group, keys, add_key, groups, sum_cmds, last_of, Mode, window, inorder, coalesce_windows,
  coalesce_channel, total,
}

-- A row of the window with its commands and a column.
pub record ColGroup : Type 0 where
  pub row : ℕ
  pub cmds : ℕ
  pub col : ℕ

-- A segment of equal `ukey // B`: the row, the greatest count in it, and `idx` where it starts.
pub record Segment : Type 0 where
  pub row : ℕ
  pub cmds : ℕ
  pub first : ℕ

abbrev pub add_indexed : ℕ → Indexed → List Segment → List Segment
add_indexed size t [] = record { row = t.value / size; cmds = t.times; first = t.index } ∷ []
add_indexed size t (g ∷ gs) =
    if nat_beq (t.value / size) g.row
    then record { row = g.row; cmds = max t.times g.cmds; first = t.index } ∷ gs
    else record { row = t.value / size; cmds = t.times; first = t.index } ∷ g ∷ gs

unfoldable pub segments_of : ℕ → List Indexed → List Segment
segments_of size [] = []
segments_of size (t ∷ ts) = add_indexed size t (segments_of size ts)

-- The first segment starts at 0, so that no key at all is an IndexError.
unfoldable pub segments : ℕ → List Indexed → Result (List Segment)
unfolding segments_of
segments size [] = err index_error
segments size (t ∷ ts) = ok (segments_of size (t ∷ ts))

-- `cw[order[idx[i]]]`
abbrev pub with_col : List ℕ → List ℕ → Segment → Result ColGroup
with_col cols order g = and_then (at_index (get_elem? order g.first)) λ o.
    and_then (at_index (get_elem? cols o)) λ c. ok (record { row = g.row; cmds = g.cmds; col = c })

-- `next((k for k, g in enumerate(groups) if g[0] == r), None)` and `groups.pop(k)`.
unfoldable pub pop_row : ℕ → List ColGroup → Option (ColGroup × List ColGroup)
pop_row r [] = none
pop_row r (g ∷ gs) = elim (nat_beq g.row r) [
  | true ↦ some (g, gs)
  | false ↦ elim (pop_row r gs) [ none ↦ none | some (h, hs) ↦ some (h, g ∷ hs) ]
]

abbrev pub moved_back : List ColGroup → Option (ColGroup × List ColGroup) → List ColGroup
moved_back gs none = gs
moved_back gs (some (g, rest)) = rest ++ g ∷ []

abbrev pub moved_front : List ColGroup → Option (ColGroup × List ColGroup) → List ColGroup
moved_front gs none = gs
moved_front gs (some (g, rest)) = g ∷ rest

-- The group of the last burst goes last, where there are others.
unfoldable pub last_row_last : Option ℕ → List ColGroup → List ColGroup
unfolding pop_row
last_row_last none gs = gs
last_row_last (some r) gs = if ltb 1 (length gs) then moved_back gs (pop_row r gs) else gs

-- The group of the row that is open goes first.
unfoldable pub open_row_first : Option ℕ → List ColGroup → List ColGroup
unfolding pop_row
open_row_first none gs = gs
open_row_first (some r) gs = moved_front gs (pop_row r gs)

-- `[(int(r), int(c))] * int(mm)`
abbrev pub repeat : ℕ → Command → List Command
repeat zero c = []
repeat (suc n) c = c ∷ repeat n c

unfoldable pub emit_groups : List ColGroup → List Command
emit_groups [] = []
emit_groups (g ∷ gs) = repeat g.cmds (record { row = g.row; col = g.col }) ++ emit_groups gs

module _ (s : Sorting) (size : ℕ) where
  -- The groups of one window, each with the column of the burst that its first key points at.
  unfoldable pub column_groups : List Burst → Result (List ColGroup)
  unfolding gather segments each
  column_groups now =
      let key = keys size now in
      let order = s.argsort key in
      and_then (gather key order) λ sorted.
        and_then (segments size (s.unique_index sorted))
          λ segs. each (with_col (map (λ b. b.col) now) order) segs

  abbrev pub issued : Option ℕ → List Burst → List ColGroup → List Command
  issued carry now gs = emit_groups (open_row_first carry (last_row_last (last_of none now) gs))

  abbrev pub window_stream : Option ℕ → List Burst → Result (List Command)
  window_stream carry now = and_then (column_groups now) λ gs. ok (issued carry now gs)

  unfoldable pub stream_windows :
      ℕ → ℕ → List Burst → Option ℕ → List Command → Result (List Command)
  unfolding column_groups last_row_last open_row_first emit_groups
  stream_windows zero w bs carry out = ok out
  stream_windows (suc fuel) w [] carry out = ok out
  stream_windows (suc fuel) w (b ∷ bs) carry out =
      let now = take w (b ∷ bs) in
      let rest : List Command → Result (List Command) =
        λ cmds. stream_windows fuel w (drop w (b ∷ bs)) (last_of carry now) (out ++ cmds) in
      and_then (window_stream carry now) rest

  unfoldable pub coalesce_channel_stream : Mode → ℕ → List Burst → Result (List Command)
  unfolding stream_windows
  coalesce_channel_stream m w [] = ok []
  coalesce_channel_stream inorder w (b ∷ bs) = ok (stream_inorder size (b ∷ bs))
  coalesce_channel_stream window zero (b ∷ bs) = err value_error
  coalesce_channel_stream window (suc w) (b ∷ bs) =
      stream_windows (length (b ∷ bs)) (suc w) (b ∷ bs) none []
