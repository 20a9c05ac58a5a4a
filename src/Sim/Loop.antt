-- ===== src/Sim/Loop.antt =====
-- The serving loop of `simulate` (pimkv/sim.py): admission, decoding, and the release of what is done.
-- The sampling of metrics reads the pool only and is left out; `turns` is the fuel of the loop.
use chip_hackathon_f.Prelude.{
  ℕ, zero, suc, ◌+◌, ◌%◌, max, Bool, true, false, not, ◌&&◌, ◌||◌, Option, none, some, List, [],
  ◌∷◌, ◌++◌, ltb, leb, nat_beq, nat_eq, if◌then◌else◌, length, ceil_div,
}
use chip_hackathon_f.Dict.{Dict, get}
use chip_hackathon_f.Exec.{Exec, ok, err, diverged, pure, ◌>>=◌, ◌>>◌, continue}
use chip_hackathon_f.Alloc.{seq, cache}
use chip_hackathon_f.Sim.{
  Operations, SpecParams, SeqState, Request, Config, Sim, lift, modify, ask, pop_active,
  return_scratch, decode,
}
use chip_hackathon_f.Sim.Admission.{try_admit}
use chip_hackathon_f.Sim.Speculation.{spec_round}

unfoldable pub new_sequence : Request → SeqState
new_sequence r = record {
  rid = r.rid;
  tokens = r.prompt_len;
  total_len = r.prompt_len + r.output_len;
  total_blocks = 0;
  scratch = [];
  prefix_id = r.prefix_id;
  prefix_len = r.prefix_len;
  preempts = 0;
}

abbrev pub any_active : Dict ℕ SeqState → Bool
any_active [] = false
any_active (x ∷ xs) = true

abbrev pub any_arrival : List Request → Bool
any_arrival [] = false
any_arrival (x ∷ xs) = true

abbrev pub any_waiting : List SeqState → Bool
any_waiting [] = false
any_waiting (x ∷ xs) = true

module _ {S : Type 0} (ops : Operations S) (cfg : Config) where
  -- A sequence that was preempted too often, or that the whole pool cannot hold.
  abbrev hopeless : SeqState → Sim S → Bool
  hopeless st s =
      ltb 1000 st.preempts
      || ltb (ops.num_blocks s.alloc) (ceil_div (st.tokens + 1) cfg.block_tokens)

  abbrev drop_waiting : SeqState → List SeqState → Sim S → Sim S
  drop_waiting st rest s = record s { waiting = rest; dropped = s.dropped ++ st.rid ∷ [] }

  -- The preempted sequences, from the front; the answer tells whether the head of the line waits.
  unfoldable pub admit_waiting : List SeqState → Exec (Sim S) Bool
  admit_waiting [] s = (ok false, s)
  admit_waiting (st ∷ rest) s = elim (ltb (length s.active) cfg.max_batch) [
    | false ↦ (ok false, s)
    | true ↦ elim (hopeless st s) [
      | true ↦ admit_waiting rest (drop_waiting st rest s)
      | false ↦
          continue
            (λ admitted s. elim admitted [
              | true ↦ admit_waiting rest (record s { waiting = rest })
              | false ↦ elim (any_active s.active) [
                | false ↦ admit_waiting rest (drop_waiting st rest s)
                | true ↦ (ok true, s)
              ]
            ])
            (try_admit ops cfg st s)
    ]
  ]

  -- After a request was tried: go on without it, or let it wait for the batch.
  abbrev pub next_arrival :
      Request → List Request → Exec (Sim S) (Unit {0}) → Bool → Exec (Sim S) (Unit {0})
  next_arrival r rest others true s = others (record s { arrivals = rest })
  next_arrival r rest others false s = elim (any_active s.active) [
    | false ↦ others (record s { arrivals = rest; dropped = s.dropped ++ r.rid ∷ [] })
    | true ↦ (ok tt, s)
  ]

  -- The requests that have arrived, in order, until one has to wait.
  unfoldable pub admit_arrivals : List Request → Exec (Sim S) (Unit {0})
  unfolding new_sequence
  admit_arrivals [] s = (ok tt, s)
  admit_arrivals (r ∷ rest) s =
      elim (leb r.arrival_step s.t && ltb (length s.active) cfg.max_batch) [
        | false ↦ (ok tt, s)
        | true ↦
            continue (next_arrival r rest (admit_arrivals rest))
              (try_admit ops cfg (new_sequence r) s)
      ]

  -- What the generator draws for a sequence in a step: the acceptance tests and the winning branch.
  abbrev Draws : Type 0
  Draws = ℕ → ℕ → List Bool × ℕ

  abbrev pub step_of : Option SpecParams → Draws → ℕ → SeqState → Exec (Sim S) (Unit {0})
  step_of none draws t st = decode ops cfg st
  step_of (some spec) draws t st = spec_round ops cfg spec (draws t st.rid).0 (draws t st.rid).1 st

  abbrev pub finished_of : ℕ → Option SeqState → List ℕ
  finished_of rid none = []
  finished_of rid (some st) = if leb st.total_len st.tokens then rid ∷ [] else []

  abbrev pub visit_if : Draws → ℕ → Option SeqState → Exec (Sim S) (List ℕ)
  visit_if draws rid none = pure []
  visit_if draws rid (some st) = do
    λ s. step_of cfg.spec draws s.t st s
    ask λ s. finished_of rid (get rid s.active)

  -- One pass over the batch as it was at the start of the step.
  unfoldable pub decode_pass : Draws → Dict ℕ SeqState → Exec (Sim S) (List ℕ)
  decode_pass draws [] = pure []
  decode_pass draws ((rid, _) ∷ d) = do
    done ← λ s. visit_if draws rid (get rid s.active) s
    more ← decode_pass draws d
    pure (done ++ more)

  unfoldable pub finish : List ℕ → Exec (Sim S) (Unit {0})
  finish [] = pure tt
  finish (rid ∷ rids) = do
    st ← pop_active rid
    return_scratch ops cfg st.scratch
    lift (ops.release (seq rid))
    modify λ s. record s { completed = s.completed + 1 }
    finish rids

  abbrev pub audit : Exec (Sim S) (Unit {0})
  audit s =
      if not (nat_beq cfg.check_every 0) && nat_beq (s.t % cfg.check_every) 0
      then lift ops.assert_conservation s
      else (ok tt, s)

  abbrev pub serve : Draws → Exec (Sim S) Bool
  serve draws = do
    done ← λ s. decode_pass draws s.active s
    modify λ s. record s {
      decode_steps = s.decode_steps + 1;
      peak_live = max s.peak_live (ops.num_live s.alloc);
    }
    finish done
    audit
    modify λ s. record s { t = s.t + 1 }
    pure true

  -- With an empty batch the clock jumps to the next arrival; without one the loop ends.
  abbrev pub idle : List Request → Exec (Sim S) Bool
  idle [] = pure false
  idle (r ∷ rest) = do modify λ s. record s { t = max (s.t + 1) r.arrival_step }; pure true

  abbrev pub arrivals_unless : Bool → Exec (Sim S) (Unit {0})
  arrivals_unless true = pure tt
  arrivals_unless false = λ s. admit_arrivals s.arrivals s

  unfoldable pub step : Draws → Exec (Sim S) Bool
  unfolding admit_waiting admit_arrivals decode_pass finish
  step draws = do
    blocked ← λ s. admit_waiting s.waiting s
    arrivals_unless blocked
    λ s. elim (any_active s.active) [ true ↦ serve draws s | false ↦ idle s.arrivals s ]

  abbrev pub more : Sim S → Bool
  more s = any_arrival s.arrivals || any_active s.active || any_waiting s.waiting

  abbrev pub again_if : Exec (Sim S) (Unit {0}) → Bool → Exec (Sim S) (Unit {0})
  again_if others true = others
  again_if others false = pure tt

  unfoldable pub loop : ℕ → Draws → Exec (Sim S) (Unit {0})
  unfolding step
  loop zero draws s = (err diverged, s)
  loop (suc turns) draws s = elim (more s) [
    | false ↦ (ok tt, s)
    | true ↦ continue (again_if (loop turns draws)) (step draws s)
  ]

  -- `for pid in sorted(prefix_cache): alloc.release(-1000 - pid)`, over the ids in that order.
  unfoldable pub release_prefixes : List ℕ → Exec (Sim S) (Unit {0})
  release_prefixes [] = pure tt
  release_prefixes (pid ∷ pids) = do lift (ops.release (cache pid)); release_prefixes pids
