-- ===== src/PimModel/Window.antt =====
-- The window mode of `coalesce_channel` (pimkv/pimmodel.py). `numpy.unique` is a parameter: the
-- distinct values in ascending order, each with its number of occurrences.
pub mod Bounds
pub mod Sorting
pub mod Stream
use chip_hackathon_f.Prelude.{
  ℕ, zero, suc, ◌+◌, ◌-◌, ◌*◌, ◌/◌, ◌<◌, ◌≡◌, ◌≢◌, Bool, true, false, Option, none, some, List, [],
  ◌∷◌, map, arith, ltb, nat_beq, if◌then◌else◌, indicator, length, take, drop, max, count,
}
use chip_hackathon_f.Exec.{value_error, Result, ok, err}
use chip_hackathon_f.PimModel.{Burst, Counts, coalesce_inorder}

-- A value and how often it occurs.
pub record Tally : Type 0 where
  pub value : ℕ
  pub times : ℕ

-- A row of the window, and the commands that it needs.
pub record Group : Type 0 where
  pub row : ℕ
  pub cmds : ℕ

-- `key = rw * B + bw`
abbrev pub keys : ℕ → List Burst → List ℕ
keys size = map (λ b. b.row * size + b.bank)

abbrev pub add_key : ℕ → Tally → List Group → List Group
add_key size t [] = record { row = t.value / size; cmds = t.times } ∷ []
add_key size t (g ∷ gs) =
    if nat_beq (t.value / size) g.row
    then record { row = g.row; cmds = max t.times g.cmds } ∷ gs
    else record { row = t.value / size; cmds = t.times } ∷ g ∷ gs

-- The segments of equal `ukey // B`, each with the greatest count in it.
unfoldable pub groups : ℕ → List Tally → List Group
groups size [] = []
groups size (t ∷ ts) = add_key size t (groups size ts)

abbrev pub sum_cmds : List Group → ℕ
sum_cmds [] = 0
sum_cmds (g ∷ gs) = g.cmds + sum_cmds gs

-- `searchsorted`, and the test that the row found is the carried one.
unfoldable pub has_row : ℕ → List Group → Bool
has_row r [] = false
has_row r (g ∷ gs) = if ltb g.row r then has_row r gs else nat_beq g.row r

abbrev pub carried : Option ℕ → List Group → Bool
carried none gs = false
carried (some r) gs = has_row r gs

-- `rw[-1]`
abbrev pub last_of : Option ℕ → List Burst → Option ℕ
last_of carry [] = carry
last_of carry (b ∷ bs) = last_of (some b.row) bs

pub data Mode : Type 0 where
  window inorder : Mode

module _ (unique : List ℕ → List Tally) (size : ℕ) where
  abbrev pub window_groups : List Burst → List Group
  window_groups bs = groups size (unique (keys size bs))

  abbrev pub window_misses : Option ℕ → List Burst → ℕ
  window_misses carry bs = length (window_groups bs) - indicator (carried carry (window_groups bs))

  -- `for s in range(0, n, window)`: one round for each window, so n rounds are enough.
  unfoldable pub coalesce_windows : ℕ → ℕ → List Burst → Option ℕ → Counts → Counts
  unfolding groups has_row
  coalesce_windows zero w bs carry c = c
  coalesce_windows (suc fuel) w [] carry c = c
  coalesce_windows (suc fuel) w (b ∷ bs) carry c =
      let now = take w (b ∷ bs) in
      let cmds_w = sum_cmds (window_groups now) in
      coalesce_windows fuel w (drop w (b ∷ bs)) (last_of carry now) (record c {
        n_cmds = c.n_cmds + cmds_w;
        n_hits = c.n_hits + (cmds_w - window_misses carry now);
      })

  -- A `range` with step 0 raises ValueError.
  unfoldable pub coalesce_channel : Mode → ℕ → List Burst → Result Counts
  unfolding coalesce_windows
  coalesce_channel m w [] = ok (record { n_cmds = 0; n_hits = 0; n_bursts = 0 })
  coalesce_channel inorder w (b ∷ bs) = ok (coalesce_inorder size (b ∷ bs))
  coalesce_channel window zero (b ∷ bs) = err value_error
  coalesce_channel window (suc w) (b ∷ bs) = ok (
      coalesce_windows (length (b ∷ bs)) (suc w) (b ∷ bs) none
        (record { n_cmds = 0; n_hits = 0; n_bursts = length (b ∷ bs) }))

-- What is relied on of `numpy.unique`.
abbrev pub total : List Tally → ℕ
total [] = 0
total (t ∷ ts) = t.times + total ts

abbrev pub Ascending : List Tally → Type 0
Ascending [] = Unit {0}
Ascending (t ∷ []) = Unit {0}
Ascending (t ∷ u ∷ ts) = (t.value < u.value) × Ascending (u ∷ ts)

abbrev pub AllOccur : List Tally → Type 0
AllOccur [] = Unit {0}
AllOccur (t ∷ ts) = (0 < t.times) × AllOccur ts

pub record IsUnique (unique : List ℕ → List Tally) : Type 0 where
  pub ascending : (xs : List ℕ) → Ascending (unique xs)
  pub occurring : (xs : List ℕ) → AllOccur (unique xs)
  pub complete : (xs : List ℕ) → total (unique xs) ≡ length xs
