-- ===== src/PimModel/Window/Bounds.antt =====
-- The window mode: hits, commands and bursts bound one another.
use native.Mathlib.Nat.{mul-le-mul_left, mod-lt, div-add-mod}
use chip_hackathon_f.Prelude.{
  ℕ, zero, suc, ◌+◌, ◌-◌, ◌*◌, ◌/◌, ◌≤◌, ◌<◌, ◌≡◌, refl, ap, subst, ◌∙◌, inl, inr, Option, none,
  List, [], ◌∷◌, arith, nat_beq, length, length-take, length-drop, length-map, take, drop, max,
  Bool-cases,
}
use chip_hackathon_f.Exec.{ok}
use chip_hackathon_f.PimModel.{Burst, Counts, coalesce_inorder}
use chip_hackathon_f.PimModel.Bounds.{coalesce_inorder_bounds}
use chip_hackathon_f.PimModel.Window.{
  Tally, Group, keys, groups, sum_cmds, Mode, window, inorder, window_groups, coalesce_windows,
  coalesce_channel, last_of, total, Ascending, AllOccur, IsUnique,
}

-- The groups of a run of keys that begins with t: what the first group and the rest can hold.
record Fits (size : ℕ) (t : Tally) (ts : List Tally) : Type 0 where
  first : Group
  others : List Group
  made : groups size (t ∷ ts) ≡ first ∷ others
  same_row : first.row ≡ t.value / size
  holds :
      total (t ∷ ts) + first.cmds * t.value
      ≤ first.cmds * (size * (t.value / size + 1)) + size * sum_cmds others
  used : first.cmds + sum_cmds others ≤ total (t ∷ ts)
  busy : suc (length others) ≤ first.cmds + sum_cmds others
  some_cmd : 0 < first.cmds

-- A key lies below the end of its row.
key_lt : (size k : ℕ) → 0 < size → suc k ≤ size * (k / size + 1)
key_lt size k h = grind (arith, div-add-mod k size, mod-lt k h)

alone_holds : (size k c : ℕ) → 0 < size → c + c * k ≤ c * (size * (k / size + 1))
alone_holds size k c h = omega (arith, mul-le-mul_left c (key_lt size k h))

-- What the first group holds is at most `size` times its commands.
row_holds : (size k m s n : ℕ) → n + m * k ≤ m * (size * (k / size + 1)) + s → n ≤ size * m + s
row_holds size k m s n h = omega (arith, mul-le-mul_left m (lower size k))
  where
    lower : (size k : ℕ) → size * (k / size) ≤ k
    lower size k = omega (arith, div-add-mod k size)

join_sums :
    (c m a k j d s n : ℕ)
    → c ≤ m + a
    → n + m * (k + 1 + j) ≤ m * (k + 1 + j + d) + s
    → c + n + (m + a) * k ≤ (m + a) * (k + 1 + j + d) + s
join_sums c m a k j d s n le h = omega arith

join_holds :
    (c m k k' e s n : ℕ)
    → k < k'
    → k' ≤ e
    → n + m * k' ≤ m * e + s
    → c + n + max c m * k ≤ max c m * e + s
join_holds c m k k' e s n lt le h =
    let pm : max c m ≡ m + (max c m - m) = omega arith in
    let pk : k' ≡ k + 1 + (k' - k - 1) = omega arith in
    let pe : e ≡ k + 1 + (k' - k - 1) + (e - k') = omega arith in
    rw (pm, pe)
      (join_sums c m (max c m - m) k (k' - k - 1) (e - k') s n (omega arith)
        (omega (arith, h, ap (λ (t : ℕ). m * t) pk, ap (λ (t : ℕ). m * t) pe)))

groups-Fits :
    (size : ℕ) (t : Tally) (ts : List Tally)
    → 0 < size
    → Ascending (t ∷ ts)
    → AllOccur (t ∷ ts)
    → Fits size t ts
unfolding groups
groups-Fits size t [] pos asc occ = record {
  first = record { row = t.value / size; cmds = t.times };
  others = [];
  made = refl;
  same_row = refl;
  holds = omega (arith, alone_holds size t.value t.times pos);
  used = omega arith;
  busy = omega (arith, occ.0);
  some_cmd = occ.0;
}
groups-Fits size t (u ∷ ts) pos asc occ =
    let f = groups-Fits size u ts pos asc.1 occ.1 in
    elim (Bool-cases (nat_beq (t.value / size) f.first.row)) [
      | inl same ↦
          let row : u.value / size ≡ t.value / size = ground (arith, f.same_row) in
          record {
            first = record { row = f.first.row; cmds = max t.times f.first.cmds };
            others = f.others;
            made = rw (f.made, same);
            same_row = ground arith;
            holds = omega (
              arith,
              join_holds t.times f.first.cmds t.value u.value (size * (t.value / size + 1))
                  (size * sum_cmds f.others) (total (u ∷ ts)) asc.0
                  (rw (← row) (omega (arith, key_lt size u.value pos))) (rw (← row) f.holds),
            );
            used = omega (arith, f.used);
            busy = omega (arith, f.busy);
            some_cmd = omega (arith, f.some_cmd);
          }
      | inr other ↦ record {
        first = record { row = t.value / size; cmds = t.times };
        others = f.first ∷ f.others;
        made = rw (f.made, other);
        same_row = refl;
        holds = omega (
          arith,
          alone_holds size t.value t.times pos,
          row_holds size u.value f.first.cmds (size * sum_cmds f.others) (total (u ∷ ts)) f.holds,
        );
        used = omega (arith, f.used);
        busy = omega (arith, f.busy, occ.0);
        some_cmd = occ.0;
      }
    ]

-- The commands of one window, for its bursts.
record WindowFits (size n : ℕ) (gs : List Group) : Type 0 where
  used : sum_cmds gs ≤ n
  holds : n ≤ size * sum_cmds gs
  busy : length gs ≤ sum_cmds gs

groups-WindowFits :
    (size : ℕ) (ts : List Tally)
    → 0 < size
    → Ascending ts
    → AllOccur ts
    → WindowFits size (total ts) (groups size ts)
unfolding groups
groups-WindowFits size [] pos asc occ = omega arith
groups-WindowFits size (t ∷ ts) pos asc occ =
    let f = groups-Fits size t ts pos asc occ in
    rw f.made (record {
      used = f.used;
      holds = omega (
        arith,
        row_holds size t.value f.first.cmds (size * sum_cmds f.others) (total (t ∷ ts)) f.holds,
      );
      busy = f.busy;
    })

-- The three bounds, over what was counted before.
pub record CountFits (size n : ℕ) (c r : Counts) : Type 0 where
  pub hits : r.n_hits + c.n_cmds ≤ r.n_cmds + c.n_hits
  pub used : r.n_cmds ≤ c.n_cmds + n
  pub holds : n + size * c.n_cmds ≤ size * r.n_cmds
  pub same_bursts : r.n_bursts ≡ c.n_bursts

module _ (unique : List ℕ → List Tally) (laws : IsUnique unique) (size : ℕ) (pos : 0 < size) where
  window_fits : (bs : List Burst) → WindowFits size (length bs) (window_groups unique size bs)
  window_fits bs =
      let e : total (unique (keys size bs)) ≡ length bs =
        laws.complete (keys size bs) ∙ length-map (λ b. b.row * size + b.bank) bs in
      subst (λ n. WindowFits size n (window_groups unique size bs)) e
        (groups-WindowFits size (unique (keys size bs)) pos (laws.ascending (keys size bs))
          (laws.occurring (keys size bs)))

  windows-CountFits :
      (fuel w : ℕ) (bs : List Burst) (carry : Option ℕ) (c : Counts)
      → 0 < w
      → length bs ≤ fuel
      → CountFits size (length bs) c (coalesce_windows unique size fuel w bs carry c)
  unfolding coalesce_windows
  windows-CountFits zero w bs carry c wp h =
      let e : length bs ≡ 0 = omega arith in rw e (omega arith)
  windows-CountFits (suc fuel) w [] carry c wp h = omega arith
  windows-CountFits (suc fuel) w (b ∷ bs) carry c wp h =
      let now = take w (b ∷ bs) in
      let f = window_fits now in
      let r =
        windows-CountFits fuel w (drop w (b ∷ bs)) (last_of carry now) _ wp
          (omega (arith, length-drop w (b ∷ bs))) in
      record {
        hits = omega (arith, r.hits, f.busy);
        used = omega (arith, r.used, f.used, length-take w (b ∷ bs), length-drop w (b ∷ bs));
        holds = omega (arith, r.holds, f.holds, length-take w (b ∷ bs), length-drop w (b ∷ bs));
        same_bursts = r.same_bursts;
      }

  -- With `numpy.unique` as documented, at least one bank and a window of at least one burst,
  -- `coalesce_channel` returns in both modes: it counts every burst, the hits are at most the commands,
  -- the commands at most the bursts, and the bursts at most banks times commands.
  pub coalesce_channel_bounds :
      (m : Mode) (w : ℕ) (bs : List Burst)
      → 0 < w
      → (r : Counts) × (coalesce_channel unique size m w bs ≡ ok r)
        × (r.n_bursts ≡ length bs)
        × (r.n_hits ≤ r.n_cmds)
        × (r.n_cmds ≤ r.n_bursts)
        × (r.n_bursts ≤ size * r.n_cmds)
  unfolding coalesce_channel coalesce_inorder
  coalesce_channel_bounds window w [] wp = (_, refl, refl, omega arith, omega arith, omega arith)
  coalesce_channel_bounds inorder w [] wp = (_, refl, refl, omega arith, omega arith, omega arith)
  coalesce_channel_bounds inorder w (b ∷ bs) wp =
      let x = coalesce_inorder_bounds size (b ∷ bs) pos in (_, refl, refl, x.0, x.1, x.2)
  coalesce_channel_bounds window zero (b ∷ bs) wp = absurd (omega arith)
  coalesce_channel_bounds window (suc w) (b ∷ bs) wp =
      let f =
        windows-CountFits (length (b ∷ bs)) (suc w) (b ∷ bs) none _ (omega arith) (omega arith) in
      (
        _,
        refl,
        f.same_bursts,
        omega (arith, f.hits),
        omega (arith, f.used, f.same_bursts),
        omega (arith, f.holds, f.same_bursts),
      )
