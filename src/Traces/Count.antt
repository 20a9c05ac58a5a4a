-- ===== src/Traces/Count.antt =====
-- `command_stream` issues as many commands as the execution model counts.
use chip_hackathon_f.PimModel.Window.Sorting.{Sorting, IsSorting}
use chip_hackathon_f.Prelude.{
  ℕ, zero, suc, ◌+◌, ◌≤◌, ◌<◌, ◌≡◌, refl, ap, ◌∙◌, inl, inr, List, [], ◌∷◌, map, arith, length,
  length-append, get_elem?, take, drop, Option-cases,
}
use chip_hackathon_f.Exec.{ok, each}
use chip_hackathon_f.Geometry.{DramGeometry, ModelShape, banks_per_channel}
use chip_hackathon_f.AddrMap.{Coords, Layout}
use chip_hackathon_f.PimModel.{Burst, Command, Counts}
use chip_hackathon_f.PimModel.Window.{Tally, Mode}
use chip_hackathon_f.PimModel.Window.Stream.Length.{stream-length}
use chip_hackathon_f.PimModel.Sequence.{in_channel, count_channels, sequence_metrics, plus}
use chip_hackathon_f.Traces.{
  turn, turns_from, longest, interleave, channel_streams, command_stream, enumerate_bursts,
  to_burst,
}
use chip_hackathon_f.Traces.Interleave.{listed, take-next, take-all}

abbrev total : List (ℕ × List Command) → ℕ
total [] = 0
total ((c, cmds) ∷ rest) = length cmds + total rest

length-turn :
    (i c : ℕ) (cmds : List Command) (rest : List (ℕ × List Command))
    → length (turn i ((c, cmds) ∷ rest)) ≡ length (listed (get_elem? cmds i)) + length (turn i rest)
unfolding turn
length-turn i c cmds rest = elim (Option-cases (get_elem? cmds i)) [
  | inl e ↦ rw e (omega arith)
  | inr (cmd, e) ↦ rw e (omega arith)
]

length-turns_from :
    (n i c : ℕ) (cmds : List Command) (rest : List (ℕ × List Command))
    → length (turns_from n i ((c, cmds) ∷ rest))
      ≡ length (take n (drop i cmds)) + length (turns_from n i rest)
unfolding turns_from
length-turns_from zero i c cmds rest = refl
length-turns_from (suc n) i c cmds rest = omega (
  arith,
  length-append (turn i ((c, cmds) ∷ rest)) (turns_from n (suc i) ((c, cmds) ∷ rest)),
  length-append (turn i rest) (turns_from n (suc i) rest),
  length-turn i c cmds rest,
  length-turns_from n (suc i) c cmds rest,
  length-append (listed (get_elem? cmds i)) (take n (drop (suc i) cmds)),
  ap length (take-next n i cmds),
)

no_turns : (n i : ℕ) → length (turns_from n i []) ≡ 0
unfolding turns_from turn
no_turns zero i = refl
no_turns (suc n) i = no_turns n (suc i)

length-turns :
    (n : ℕ) (per_ch : List (ℕ × List Command))
    → longest per_ch ≤ n
    → length (turns_from n 0 per_ch) ≡ total per_ch
unfolding longest
length-turns n [] h = no_turns n 0
length-turns n ((c, cmds) ∷ rest) h = omega (
  arith,
  length-turns_from n 0 c cmds rest,
  ap length (take-all n cmds (omega (arith, h))),
  length-turns n rest (omega (arith, h)),
)

module _ {unique : List ℕ → List Tally} {s : Sorting} (laws : IsSorting unique s) (g : DramGeometry)
    (mode : Mode) (w : ℕ) (wp : 0 < w) where
  channels-count :
      (cs : List ℕ) (bs : List Burst)
      → (r : Counts) × (per_ch : List (ℕ × List Command)) × (count_channels unique
            (banks_per_channel g)
            mode
            w
            cs
            bs
          ≡ ok r)
        × (channel_streams unique s g w mode cs bs ≡ ok per_ch)
        × (total per_ch ≡ r.n_cmds)
  unfolding count_channels channel_streams each
  channels-count [] bs = (_, _, refl, refl, refl)
  channels-count (c ∷ cs) bs =
      let (a, out, ea, eout, size) =
        stream-length laws (banks_per_channel g) mode w (in_channel c bs) wp in
      let (b, rest, eb, erest, sizes) = channels-count cs bs in
      (
        plus a b,
        (c, out) ∷ rest,
        rw (ea, eb) refl,
        rw (eout, erest) refl,
        omega (arith, size, sizes),
      )

  -- With a window of at least one burst, where numpy's `argsort` and `unique` do what their
  -- documentation says and the bursts of a sequence have addresses, `command_stream` returns, `sequence_metrics` returns for the same bursts,
  -- and the stream has as many commands as it counts, in both modes.
  pub command_stream-count :
      (table : List ℕ) (len : ℕ) (shape : ModelShape) (block_tokens : ℕ) (fields : Layout)
      (ms : List Coords)
      → enumerate_bursts table len g shape block_tokens fields ≡ ok ms
      → (r : Counts) × (out : List (ℕ × Command)) × (sequence_metrics unique
            (banks_per_channel g)
            mode
            w
            (map (to_burst g) ms)
          ≡ ok r)
        × (command_stream unique s table len g shape block_tokens fields w mode ≡ ok out)
        × (length out ≡ r.n_cmds)
  unfolding sequence_metrics command_stream interleave
  command_stream-count table len shape block_tokens fields ms e =
      let bs = map (to_burst g) ms in
      let (r, per_ch, er, ech, size) =
        channels-count (map (λ t. t.value) (unique (map (λ b. b.channel) bs))) bs in
      (
        r,
        interleave per_ch,
        er,
        rw (e, ech) refl,
        length-turns (longest per_ch) per_ch (omega arith) ∙ size,
      )
