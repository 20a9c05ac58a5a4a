-- ===== src/PimModel/Window/Stream/Length.antt =====
-- The window mode of `coalesce_channel_stream` (pimkv/pimmodel.py): how many commands it issues.
use chip_hackathon_f.PimModel.Window.Sorting.{
  Indexed, Sorting, tally_of, IsSorting, unique-permuted, gather-at,
}
use chip_hackathon_f.Prelude.{
  ℕ, zero, suc, ◌+◌, ◌/◌, ◌<◌, ◌≡◌, refl, sym, ap, ◌∙◌, inl, inr, Option, none, some, List, [], ◌∷◌,
  ◌++◌, arith, ltb, nat_beq, length, length-append, take, drop, map, Option-cases, Bool-cases, All,
  get_elem?,
}
use chip_hackathon_f.Exec.{ok, each}
use chip_hackathon_f.PimModel.{Burst, Counts, Command}
use chip_hackathon_f.PimModel.Streams.{stream_inorder-counts}
use chip_hackathon_f.PimModel.Window.{
  Tally, Group, keys, add_key, groups, sum_cmds, last_of, Mode, window, inorder, coalesce_windows,
  coalesce_channel, total,
}
use chip_hackathon_f.PimModel.Window.Stream.{
  ColGroup, Segment, add_indexed, segments_of, segments, with_col, pop_row, last_row_last,
  open_row_first, repeat, emit_groups, column_groups, issued, window_stream, stream_windows,
  coalesce_channel_stream,
}

strip : Segment → Group
strip g = record { row = g.row; cmds = g.cmds }

abbrev sum_segs : List Segment → ℕ
sum_segs [] = 0
sum_segs (g ∷ gs) = g.cmds + sum_segs gs

abbrev sum_cols : List ColGroup → ℕ
sum_cols [] = 0
sum_cols (g ∷ gs) = g.cmds + sum_cols gs

add_indexed-strip :
    (size : ℕ) (t : Indexed) (gs : List Segment)
    → map strip (add_indexed size t gs) ≡ add_key size (tally_of t) (map strip gs)
unfolding strip
add_indexed-strip size t [] = refl
add_indexed-strip size t (g ∷ gs) = elim (Bool-cases (nat_beq (t.value / size) g.row)) [
  | inl e ↦ rw e refl
  | inr e ↦ rw e refl
]

segments-strip :
    (size : ℕ) (ts : List Indexed) → map strip (segments_of size ts) ≡ groups size (map tally_of ts)
unfolding segments_of groups
segments-strip size [] = refl
segments-strip size (t ∷ ts) =
    add_indexed-strip size t (segments_of size ts)
    ∙ ap (add_key size (tally_of t)) (segments-strip size ts)

sum-strip : (gs : List Segment) → sum_cmds (map strip gs) ≡ sum_segs gs
unfolding strip
sum-strip [] = refl
sum-strip (g ∷ gs) = omega (arith, sum-strip gs)

-- A segment starts at the index of one of its keys.
All-segments :
    (P : ℕ → Type 0) (size : ℕ) (ts : List Indexed)
    → All (λ (t : Indexed). P t.index) ts
    → All (λ (g : Segment). P g.first) (segments_of size ts)
unfolding segments_of
All-segments P size [] h = tt
All-segments P size (t ∷ ts) (p, h) = go (segments_of size ts) (All-segments P size ts h)
  where
    go :
        (gs : List Segment)
        → All (λ (g : Segment). P g.first) gs
        → All (λ (g : Segment). P g.first) (add_indexed size t gs)
    go [] a = (p, tt)
    go (g ∷ gs) (q, a) = elim (Bool-cases (nat_beq (t.value / size) g.row)) [
      | inl e ↦ rw e (p, a)
      | inr e ↦ rw e (p, (q, a))
    ]

-- An index of the order, and of a column there.
abbrev HasCol : List ℕ → List ℕ → ℕ → Type 0
HasCol cols order i =
    (o : ℕ) × (get_elem? order i ≡ some o) × ((c : ℕ) × (get_elem? cols o ≡ some c))

with_cols-sum :
    (cols order : List ℕ) (segs : List Segment)
    → All (λ (g : Segment). HasCol cols order g.first) segs
    → (gs : List ColGroup) × (each (with_col cols order) segs ≡ ok gs)
      × (sum_cols gs ≡ sum_segs segs)
unfolding each
with_cols-sum cols order [] h = ([], refl, refl)
with_cols-sum cols order (g ∷ segs) ((o, eo, (c, ec)), h) =
    let (gs, e, size) = with_cols-sum cols order segs h in
    (record { row = g.row; cmds = g.cmds; col = c } ∷ gs, rw (eo, ec, e) refl, omega (arith, size))

sum-append : (xs ys : List ColGroup) → sum_cols (xs ++ ys) ≡ sum_cols xs + sum_cols ys
sum-append [] ys = omega arith
sum-append (x ∷ xs) ys = omega (arith, sum-append xs ys)

sum-pop_row :
    (r : ℕ) (gs : List ColGroup) (g : ColGroup) (rest : List ColGroup)
    → pop_row r gs ≡ some (g, rest)
    → g.cmds + sum_cols rest ≡ sum_cols gs
unfolding pop_row
sum-pop_row r [] g rest e = absurd cc
sum-pop_row r (h ∷ hs) g rest e = elim (Bool-cases (nat_beq h.row r)) [
  | inl t ↦ ground (arith, t, e)
  | inr t ↦ elim (Option-cases (pop_row r hs)) [
    | inl f ↦ absurd (ground (arith, t, f, e))
    | inr ((k, ks), f) ↦ ground (arith, t, f, e, sum-pop_row r hs k ks f)
  ]
]

sum-last_row_last :
    (last : Option ℕ) (gs : List ColGroup) → sum_cols (last_row_last last gs) ≡ sum_cols gs
unfolding last_row_last
sum-last_row_last none gs = refl
sum-last_row_last (some r) gs = elim (Bool-cases (ltb 1 (length gs))) [
  | inr t ↦ rw t refl
  | inl t ↦ elim (Option-cases (pop_row r gs)) [
    | inl f ↦ rw (t, f) refl
    | inr ((g, rest), f) ↦
        rw (t, f) (omega (arith, sum-append rest (g ∷ []), sum-pop_row r gs g rest f))
  ]
]

sum-open_row_first :
    (carry : Option ℕ) (gs : List ColGroup) → sum_cols (open_row_first carry gs) ≡ sum_cols gs
unfolding open_row_first
sum-open_row_first none gs = refl
sum-open_row_first (some r) gs = elim (Option-cases (pop_row r gs)) [
  | inl f ↦ rw f refl
  | inr ((g, rest), f) ↦ rw f (sum-pop_row r gs g rest f)
]

length-repeat : (n : ℕ) (c : Command) → length (repeat n c) ≡ n
length-repeat zero c = refl
length-repeat (suc n) c = ap suc (length-repeat n c)

length-emit_groups : (gs : List ColGroup) → length (emit_groups gs) ≡ sum_cols gs
unfolding emit_groups
length-emit_groups [] = refl
length-emit_groups (g ∷ gs) =
    let c : Command = record { row = g.row; col = g.col } in
    omega (
      arith,
      length-append (repeat g.cmds c) (emit_groups gs),
      length-repeat g.cmds c,
      length-emit_groups gs,
    )

col_at :
    (size : ℕ) (now : List Burst) (o v : ℕ)
    → get_elem? (keys size now) o ≡ some v
    → (c : ℕ) × (get_elem? (map (λ b. b.col) now) o ≡ some c)
col_at size [] o v e = absurd cc
col_at size (b ∷ bs) zero v e = (b.col, refl)
col_at size (b ∷ bs) (suc o) v e = col_at size bs o v e

module _ {unique : List ℕ → List Tally} {s : Sorting} (laws : IsSorting unique s) (size : ℕ) where
  -- The groups of a window are made, and have the commands of the counting model.
  column_groups-sum :
      (b : Burst) (bs : List Burst)
      → (gs : List ColGroup) × (column_groups s size (b ∷ bs) ≡ ok gs)
        × (sum_cols gs ≡ sum_cmds (groups size (unique (keys size (b ∷ bs)))))
  unfolding column_groups
  column_groups-sum b bs =
      let now = b ∷ bs in
      let key = keys size now in
      let (sorted, gathered, same) = laws.permuted key in
      let us = s.unique_index sorted in
      let tallies : map tally_of us ≡ unique key =
        laws.same_tallies sorted ∙ unique-permuted laws key sorted same in
      let starts : All (λ (t : Indexed). HasCol (map (λ b. b.col) now) (s.argsort key) t.index) us =
        All-map us
          (λ t e.
            let (o, eo, ev) = gather-at key (s.argsort key) sorted t.index t.value gathered e in
            (o, eo, col_at size now o t.value ev))
          (laws.indexed sorted) in
      let (gs, e, sum) =
        with_cols-sum (map (λ b. b.col) now) (s.argsort key) (segments_of size us)
          (All-segments (HasCol (map (λ b. b.col) now) (s.argsort key)) size us starts) in
      (
        gs,
        rw (gathered, some_segments us (ap length tallies)) e,
        sum
            ∙ sym (sum-strip (segments_of size us))
            ∙ ap sum_cmds (segments-strip size us)
            ∙ ap (λ ts. sum_cmds (groups size ts)) tallies,
      )
    where
      All-map :
          {P Q : Indexed → Type 0} (us : List Indexed)
          → ((t : Indexed) → P t → Q t)
          → All P us
          → All Q us
      All-map [] f h = tt
      All-map (u ∷ us) f (p, h) = (f u p, All-map us f h)

      some_segments :
          (us : List Indexed)
          → length (map tally_of us) ≡ length (unique (keys size (b ∷ bs)))
          → segments size us ≡ ok (segments_of size us)
      some_segments [] e =
          absurd
            (no_tally (unique (keys size (b ∷ bs))) e (laws.tallies.complete (keys size (b ∷ bs))))
        where
          no_tally : (ts : List Tally) → 0 ≡ length ts → total ts ≡ length (keys size (b ∷ bs)) → ⊥
          no_tally [] e c = omega (arith, c)
          no_tally (t ∷ ts) e c = omega (arith, e)
      some_segments (u ∷ us) e = refl

  length-window_stream :
      (carry : Option ℕ) (b : Burst) (bs : List Burst)
      → (cmds : List Command) × (window_stream s size carry (b ∷ bs) ≡ ok cmds)
        × (length cmds ≡ sum_cmds (groups size (unique (keys size (b ∷ bs)))))
  length-window_stream carry b bs =
      let (gs, e, sum) = column_groups-sum b bs in
      let last = last_of none (b ∷ bs) in
      (
        issued s size carry (b ∷ bs) gs,
        rw e refl,
        length-emit_groups (open_row_first carry (last_row_last last gs))
            ∙ sum-open_row_first carry (last_row_last last gs)
            ∙ sum-last_row_last last gs
            ∙ sum,
      )

  length-stream_windows :
      (fuel w : ℕ) (bs : List Burst) (carry : Option ℕ) (out : List Command) (c : Counts)
      → 0 < w
      → length out ≡ c.n_cmds
      → (cmds : List Command) × (stream_windows s size fuel w bs carry out ≡ ok cmds)
        × (length cmds ≡ (coalesce_windows unique size fuel w bs carry c).n_cmds)
  unfolding stream_windows coalesce_windows
  length-stream_windows zero w bs carry out c wp h = (out, refl, h)
  length-stream_windows (suc fuel) w [] carry out c wp h = (out, refl, h)
  length-stream_windows (suc fuel) zero (b ∷ bs) carry out c wp h = absurd (omega (arith, wp))
  length-stream_windows (suc fuel) (suc w) (b ∷ bs) carry out c wp h =
      let now = take (suc w) (b ∷ bs) in
      let (cmds, e, sum) = length-window_stream carry b (take w bs) in
      let (all, e', total) =
        length-stream_windows fuel (suc w) (drop (suc w) (b ∷ bs)) (last_of carry now) (out ++ cmds)
          _ wp (omega (arith, h, sum, length-append out cmds)) in
      (all, rw (e) e', total)

  -- With a window of at least one burst, where numpy's `argsort` and `unique` do what their
  -- documentation says, `coalesce_channel` and `coalesce_channel_stream` both return in both modes, and
  -- the stream has as many commands as the counting model counts.
  pub stream-length :
      (m : Mode) (w : ℕ) (bs : List Burst)
      → 0 < w
      → (r : Counts) × (out : List Command) × (coalesce_channel unique size m w bs ≡ ok r)
        × (coalesce_channel_stream s size m w bs ≡ ok out)
        × (length out ≡ r.n_cmds)
  unfolding coalesce_channel coalesce_channel_stream
  stream-length window w [] wp = (_, _, refl, refl, refl)
  stream-length inorder w [] wp = (_, _, refl, refl, refl)
  stream-length inorder w (b ∷ bs) wp =
      (_, _, refl, refl, sym (stream_inorder-counts size (b ∷ bs)).0)
  stream-length window zero (b ∷ bs) wp = absurd (omega arith)
  stream-length window (suc w) (b ∷ bs) wp =
      let counts : Counts = record { n_cmds = 0; n_hits = 0; n_bursts = length (b ∷ bs) } in
      let (out, e, size) =
        length-stream_windows (length (b ∷ bs)) (suc w) (b ∷ bs) none [] counts wp refl in
      (_, out, refl, e, size)
