-- ===== src/PimModel/Streams.antt =====
-- The in-order mode: what it counts, and that the command stream agrees with the counts.
use chip_hackathon_f.Prelude.{
  ℕ, ◌+◌, ◌≡◌, refl, sym, ap, ◌∙◌, inl, inr, Option, none, some, List, [], ◌∷◌, ◌++◌, arith,
  indicator, length, length-append, Bool-cases, Option-cases,
}
use chip_hackathon_f.PimModel.{
  Burst, is_row, Inorder, cold, issue, breaks, inorder_burst, inorder_bursts, coalesce_inorder,
  Command, Stream, empty_stream, emit, stream_burst, stream_bursts, stream_inorder,
}

-- The row that is open after a stream of commands.
abbrev pub last_row : Option ℕ → List Command → Option ℕ
last_row open_row [] = open_row
last_row open_row (c ∷ cs) = last_row (some c.row) cs

-- Row hits of a stream: the commands on the row that the command before them left open.
abbrev pub row_hits : Option ℕ → List Command → ℕ
row_hits open_row [] = 0
row_hits open_row (c ∷ cs) = indicator (is_row open_row c.row) + row_hits (some c.row) cs

row_hits-append :
    (o : Option ℕ) (cs : List Command) (c : Command)
    → row_hits o (cs ++ c ∷ []) ≡ row_hits o cs + indicator (is_row (last_row o cs) c.row)
row_hits-append o [] c = omega arith
row_hits-append o (d ∷ cs) c = omega (arith, row_hits-append (some d.row) cs c)

last_row-append :
    (o : Option ℕ) (cs : List Command) (c : Command) → last_row o (cs ++ c ∷ []) ≡ some c.row
last_row-append o [] c = refl
last_row-append o (d ∷ cs) c = last_row-append (some d.row) cs c

-- The counters and the stream in step.
pub record Agree (s : Inorder) (t : Stream) : Type 0 where
  pub cmds : s.n_cmds ≡ length t.out
  pub hits : s.n_hits ≡ row_hits none t.out
  pub opens : s.open_row ≡ last_row none t.out
  pub rows : s.cur_row ≡ t.cur_row
  pub banks : s.cur_banks ≡ t.cur_banks

record Issued (s : Inorder) (out : List Command) : Type 0 where
  cmds : s.n_cmds ≡ length out
  hits : s.n_hits ≡ row_hits none out
  opens : s.open_row ≡ last_row none out

issue-Issued : (s : Inorder) (t : Stream) → Agree s t → Issued (issue s) (emit t)
unfolding issue emit
issue-Issued s t a = elim (Option-cases t.cur_row) [
  | inl e ↦ rw (a.rows, e) (record { cmds = a.cmds; hits = a.hits; opens = a.opens })
  | inr (r, e) ↦
      let c : Command = record { row = r; col = t.cur_col } in
      rw (a.rows, e)
        (record {
          cmds = omega (arith, a.cmds, length-append t.out (c ∷ []));
          hits = omega (
            arith,
            a.hits,
            row_hits-append none t.out c,
            ap (λ (o : Option ℕ). indicator (is_row o r)) a.opens,
          );
          opens = ap some refl ∙ sym (last_row-append none t.out c);
        })
]

burst-Agree :
    (size : ℕ) (b : Burst) (s : Inorder) (t : Stream)
    → Agree s t
    → Agree (inorder_burst size b s) (stream_burst size b t)
unfolding inorder_burst stream_burst
burst-Agree size b s t a =
    let same : breaks size s.cur_row s.cur_banks b ≡ breaks size t.cur_row t.cur_banks b =
      rw (a.rows, a.banks) in
    elim (Bool-cases (breaks size t.cur_row t.cur_banks b)) [
      | inl yes' ↦
          let i = issue-Issued s t a in
          rw (same, yes')
            (record { cmds = i.cmds; hits = i.hits; opens = i.opens; rows = refl; banks = refl })
      | inr no' ↦
          rw (same, no')
            (record {
              cmds = a.cmds;
              hits = a.hits;
              opens = a.opens;
              rows = a.rows;
              banks = ap (◌∷◌ b.bank) a.banks;
            })
    ]

bursts-Agree :
    (size : ℕ) (bs : List Burst) (s : Inorder) (t : Stream)
    → Agree s t
    → Agree (inorder_bursts size bs s) (stream_bursts size bs t)
unfolding inorder_bursts stream_bursts
bursts-Agree size [] s t a = a
bursts-Agree size (b ∷ bs) s t a = bursts-Agree size bs _ _ (burst-Agree size b s t a)

-- In the in-order mode the counting model and the command stream agree: as many commands as the
-- stream has, as many hits as the stream has commands on the row that the one before left open, and
-- as many bursts as came in.
pub stream_inorder-counts :
    (size : ℕ) (bs : List Burst)
    → let counts = coalesce_inorder size bs in
      let stream = stream_inorder size bs in
      (counts.n_cmds ≡ length stream)
      × (counts.n_hits ≡ row_hits none stream)
      × (counts.n_bursts ≡ length bs)
unfolding coalesce_inorder stream_inorder
stream_inorder-counts size bs =
    let start : Agree cold empty_stream = record {
      cmds = refl;
      hits = refl;
      opens = refl;
      rows = refl;
      banks = refl;
    } in
    let i =
      issue-Issued (inorder_bursts size bs cold) (stream_bursts size bs empty_stream)
        (bursts-Agree size bs cold empty_stream start) in
    (i.cmds, i.hits, refl)
