-- ===== src/PimModel/Bounds.antt =====
-- The in-order mode: hits, commands and bursts bound one another (M1 and M2 lie between 0 and 1).
use chip_hackathon_f.Prelude.{
  ℕ, suc, ◌+◌, ◌*◌, ◌≤◌, ◌<◌, ◌≡◌, inl, inr, Option, none, some, List, [], ◌∷◌, arith, length,
  Bool-cases, Option-cases,
}
use chip_hackathon_f.PimModel.{
  Burst, Inorder, cold, issue, breaks, inorder_burst, inorder_bursts, coalesce_inorder,
}

abbrev open_command : Option ℕ → ℕ
open_command none = 0
open_command (some r) = 1

-- `seen` bursts so far: those of the open command, and at most `size` for each one issued.
record Bounded (size seen : ℕ) (s : Inorder) : Type 0 where
  hits : s.n_hits ≤ s.n_cmds
  few : s.n_cmds + open_command s.cur_row ≤ seen
  full : seen ≤ size * s.n_cmds + length s.cur_banks
  room : length s.cur_banks ≤ size
  idle : length s.cur_banks ≤ size * open_command s.cur_row

issue-Bounded :
    (size seen : ℕ) (s : Inorder)
    → Bounded size seen s
    → ((issue s).n_hits ≤ (issue s).n_cmds)
      × ((issue s).n_cmds ≤ seen)
      × (seen ≤ size * (issue s).n_cmds)
unfolding issue
issue-Bounded size seen s v = elim (Option-cases s.cur_row) [
  | inl e ↦ ground (arith, e, v.hits, v.few, v.full, v.idle)
  | inr (r, e) ↦
      let more : size * (s.n_cmds + 1) ≡ size * s.n_cmds + size = omega arith in
      ground (arith, e, v.hits, v.few, v.full, v.room, more)
]

burst-Bounded :
    (size seen : ℕ) (b : Burst) (s : Inorder)
    → 0 < size
    → Bounded size seen s
    → Bounded size (seen + 1) (inorder_burst size b s)
unfolding inorder_burst
burst-Bounded size seen b s pos v = elim (Bool-cases (breaks size s.cur_row s.cur_banks b)) [
  | inl t ↦
      let i = issue-Bounded size seen s v in
      rw t (record {
        hits = i.0;
        few = omega (arith, i.1);
        full = omega (arith, i.2);
        room = omega arith;
        idle = omega arith;
      })
  | inr t ↦ rw t (record {
    hits = v.hits;
    few = omega (arith, v.few);
    full = omega (arith, v.full);
    room = ground (arith, v.room);
    idle = ground (arith, v.room);
  })
]

bursts-Bounded :
    (size seen : ℕ) (bs : List Burst) (s : Inorder)
    → 0 < size
    → Bounded size seen s
    → Bounded size (seen + length bs) (inorder_bursts size bs s)
unfolding inorder_bursts
bursts-Bounded size seen [] s pos v = let e : seen + 0 ≡ seen = omega arith in rw e v
bursts-Bounded size seen (b ∷ bs) s pos v =
    let e : seen + suc (length bs) ≡ seen + 1 + length bs = omega arith in
    rw e (bursts-Bounded size (seen + 1) bs _ pos (burst-Bounded size seen b s pos v))

-- In the in-order mode, with at least one bank: no more hits than commands, no more commands than
-- bursts, and no more bursts than banks times commands.
pub coalesce_inorder_bounds :
    (size : ℕ) (bs : List Burst)
    → 0 < size
    → let counts = coalesce_inorder size bs in
      (counts.n_hits ≤ counts.n_cmds)
      × (counts.n_cmds ≤ counts.n_bursts)
      × (counts.n_bursts ≤ size * counts.n_cmds)
unfolding coalesce_inorder
coalesce_inorder_bounds size bs pos =
    let start : Bounded size 0 cold = omega arith in
    let e : 0 + length bs ≡ length bs = omega arith in
    issue-Bounded size (length bs) (inorder_bursts size bs cold)
      (rw e at (bursts-Bounded size 0 bs cold pos start))
