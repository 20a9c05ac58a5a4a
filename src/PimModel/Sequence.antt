-- ===== src/PimModel/Sequence.antt =====
-- `sequence_metrics` (pimkv/pimmodel.py) up to the two quotients: the counts of all channels.
use native.Mathlib.Nat.{mul-add}
use chip_hackathon_f.Prelude.{
  ℕ, ◌+◌, ◌*◌, ◌≤◌, ◌<◌, ◌≡◌, refl, List, [], ◌∷◌, map, arith, nat_beq, if◌then◌else◌,
}
use chip_hackathon_f.Exec.{Result, ok, err}
use chip_hackathon_f.PimModel.{Burst, Counts}
use chip_hackathon_f.PimModel.Window.{Tally, IsUnique, Mode, coalesce_channel}
use chip_hackathon_f.PimModel.Window.Bounds.{coalesce_channel_bounds}

-- `bank[ch == c]` and `row[ch == c]`
unfoldable pub in_channel : ℕ → List Burst → List Burst
in_channel c [] = []
in_channel c (b ∷ bs) = let rest = in_channel c bs in if nat_beq b.channel c then b ∷ rest else rest

abbrev pub plus : Counts → Counts → Counts
plus a b = record {
  n_cmds = a.n_cmds + b.n_cmds;
  n_hits = a.n_hits + b.n_hits;
  n_bursts = a.n_bursts + b.n_bursts;
}

abbrev add_result : Result Counts → Result Counts → Result Counts
add_result (ok a) (ok b) = ok (plus a b)
add_result (ok a) (err e) = err e
add_result (err e) r = err e

module _ (unique : List ℕ → List Tally) (size : ℕ) where
  -- The loop over the channels.
  unfoldable pub count_channels : Mode → ℕ → List ℕ → List Burst → Result Counts
  unfolding in_channel
  count_channels m w [] bs = ok (record { n_cmds = 0; n_hits = 0; n_bursts = 0 })
  count_channels m w (c ∷ cs) bs =
      add_result (coalesce_channel unique size m w (in_channel c bs)) (count_channels m w cs bs)

  unfoldable pub sequence_metrics : Mode → ℕ → List Burst → Result Counts
  unfolding count_channels
  sequence_metrics m w bs =
      count_channels m w (map (λ t. t.value) (unique (map (λ b. b.channel) bs))) bs

-- The counts of which M1 = n_hits / n_cmds and M2 = n_bursts / (size * n_cmds) are at most 1.
pub record Fractions (size : ℕ) (c : Counts) : Type 0 where
  pub hits : c.n_hits ≤ c.n_cmds
  pub busy : c.n_cmds ≤ c.n_bursts
  pub used : c.n_bursts ≤ size * c.n_cmds

module _ (unique : List ℕ → List Tally) (laws : IsUnique unique) (size : ℕ) (pos : 0 < size) where
  count_channels-Fractions :
      (m : Mode) (w : ℕ) (cs : List ℕ) (bs : List Burst)
      → 0 < w
      → (r : Counts) × (count_channels unique size m w cs bs ≡ ok r) × Fractions size r
  unfolding count_channels
  count_channels-Fractions m w [] bs wp =
      (_, refl, record { hits = omega arith; busy = omega arith; used = omega arith })
  count_channels-Fractions m w (c ∷ cs) bs wp =
      let (a, ea, all, hits, busy, used) =
        coalesce_channel_bounds unique laws size pos m w (in_channel c bs) wp in
      let (b, eb, rest) = count_channels-Fractions m w cs bs wp in
      (
        plus a b,
        rw (ea, eb),
        record {
          hits = omega (arith, hits, rest.hits);
          busy = omega (arith, busy, rest.busy);
          used = omega (arith, used, rest.used, mul-add size a.n_cmds b.n_cmds);
        },
      )

  -- With `numpy.unique` as documented, at least one bank and a window of at least one burst,
  -- `sequence_metrics` returns counts in both modes whose row-hit fraction M1 and bank use M2 are at
  -- most 1: no more hits than commands, and no more bursts than banks times commands; and there are
  -- no more commands than bursts.
  pub sequence_metrics-Fractions :
      (m : Mode) (w : ℕ) (bs : List Burst)
      → 0 < w
      → (r : Counts) × (sequence_metrics unique size m w bs ≡ ok r) × Fractions size r
  unfolding sequence_metrics
  sequence_metrics-Fractions m w bs wp =
      count_channels-Fractions m w (map (λ t. t.value) (unique (map (λ b. b.channel) bs))) bs wp
