-- ===== src/Sim/Service/Joining.antt =====
-- A request that enters the batch under oracle admission, or is dropped: what stays as it was.
use mathlib.Core.List.{append_assoc}
use chip_hackathon_f.Prelude.{
  ℕ, ◌+◌, ◌≤◌, ◌<◌, ◌≡◌, refl, sym, subst, ap, ◌∙◌, inl, inr, true, false, none, List, [], ◌∷◌,
  ◌++◌, arith, nat_beq, nat_eq, length, ceil_div, Bool-cases, ◌*◌,
}
use chip_hackathon_f.Dict.{Dict, get, put, get-put, weight, weight-put, or_zero}
use chip_hackathon_f.Alloc.{SeqId, seq, cache, scratch}
use chip_hackathon_f.Sim.{Operations, SeqState, Request, Config, Sim}
use chip_hackathon_f.Sim.Batch.{holds, holds-absent, each-put, length-insert}
use chip_hackathon_f.Sim.Contract.{Serves, Entry, Running}
use chip_hackathon_f.Sim.Oracle.{handed_out, promised_to, sum_le, weight_insert, Reserved}
use chip_hackathon_f.Sim.Loop.{new_sequence, any_active}
use chip_hackathon_f.Sim.Service.{
  in_batch, Awaited, Awaited-put, left_to_do, holds_request, Steady, Accounts, ahead,
}
use chip_hackathon_f.Sim.Service.Gate.{
  ceil_covers, ceil_mono, promised, handed, promised_all, joined, Joined,
}

pub ahead-le-one : (t : ℕ) (rs : List Request) → ahead t rs ≤ 1
ahead-le-one t [] = omega arith
ahead-le-one t (r ∷ rs) = ground arith

pub no_active : (d : Dict ℕ SeqState) → any_active d ≡ false → d ≡ []
no_active [] h = refl
no_active (x ∷ d) h = absurd cc

module _ {S : Type 0} {ops : Operations S} (serves : Serves ops) (cfg : Config) where
  pub same-Accounts : (s : Sim S) → Accounts serves cfg 0 s s
  same-Accounts s = record { dropped = refl; completed = refl; done = omega arith }

  handed-le-promised :
      (s : Sim S)
      → Running serves cfg.block_tokens s
      → Reserved serves cfg s
      → handed serves cfg s ≤ promised serves cfg s
  handed-le-promised s v r =
      sum_le (handed_out serves cfg s.alloc) (promised_to serves cfg) s.active v.unique r.within

  -- A sequence that has joined the batch.
  module _ (st : SeqState) (s : Sim S) (u : S) (bt : 0 < cfg.block_tokens)
      (v : Running serves cfg.block_tokens s) (r : Reserved serves cfg s) (bare : st.scratch ≡ [])
      (short : st.tokens < st.total_len) (absent : get st.rid s.active ≡ none)
      (j : Joined serves cfg st s u) where
    joined-Running : Running serves cfg.block_tokens (joined serves cfg st s u)
    joined-Running = record {
      good = j.good;
      unique = λ i. ground (
        arith,
        v.unique i,
        weight-put (holds i) st.rid (promised_all serves cfg st) s.active,
        absent,
        holds-absent i s.active,
      );
      entries =
          each-put (λ i sj. Entry serves cfg.block_tokens u i sj) st.rid
            (promised_all serves cfg st) s.active
            (record {
              same_id = refl;
              no_scratch = bare;
              table = j.table;
              found = j.found;
              enough = rw j.many (ceil_covers st.tokens cfg.block_tokens bt);
            })
            λ i sj d e.
              let old = v.entries i sj e in
              record {
                same_id = old.same_id;
                no_scratch = old.no_scratch;
                table = old.table;
                found = j.others_keep (seq i) d ∙ old.found;
                enough = old.enough;
              };
    }

    handed-joined : handed_out serves cfg u st.rid (promised_all serves cfg st) ≡ length j.table
    handed-joined = rw (j.found, bare) (omega arith)

    joined-Reserved : Reserved serves cfg (joined serves cfg st s u)
    joined-Reserved = record {
      covered = omega (
        arith,
        j.gate,
        j.taken,
        handed-joined,
        weight_insert (handed_out serves cfg s.alloc) (handed_out serves cfg u) st.rid
            (λ i sj d.
              ap (λ o. or_zero length o + length sj.scratch) (sym (j.others_keep (seq i) d)))
            (promised_all serves cfg st) s.active absent,
        weight_insert (promised_to serves cfg) (promised_to serves cfg) st.rid (λ i sj d. refl)
            (promised_all serves cfg st) s.active absent,
      );
      within =
          each-put (λ i sj. handed_out serves cfg u i sj ≤ sj.total_blocks) st.rid
            (promised_all serves cfg st) s.active
            (omega (
              arith,
              handed-joined,
              j.many,
              ceil_mono st.tokens st.total_len cfg.block_tokens bt (omega (arith, short)),
            ))
            λ i sj d e. rw (j.others_keep (seq i) d) (r.within i sj e);
      whole =
          each-put (λ i sj. sj.total_len ≤ sj.total_blocks * cfg.block_tokens) st.rid
            (promised_all serves cfg st) s.active (ceil_covers st.total_len cfg.block_tokens bt)
            λ i sj d e. r.whole i sj e;
    }

  pub admitted-Steady :
      (q : Request) (rest : List Request) (s : Sim S) (u : S)
      → 0 < cfg.block_tokens
      → Steady serves cfg s
      → s.arrivals ≡ q ∷ rest
      → Joined serves cfg (new_sequence q) s u
      → Steady serves cfg (record (joined serves cfg (new_sequence q) s u) { arrivals = rest })
  unfolding new_sequence
  admitted-Steady q rest s u bt v e j =
      let (absent, plain, output, once, others) = subst (Awaited s.active) e v.awaited in
      let st = new_sequence q in
      let running =
        joined-Running st s u bt v.running v.reserved refl (omega (arith, output)) absent j in
      let reserved =
        joined-Reserved st s u bt v.running v.reserved refl (omega (arith, output)) absent j in
      record {
        running = record {
          good = running.good;
          unique = running.unique;
          entries = running.entries;
        };
        reserved = record {
          covered = reserved.covered;
          within = reserved.within;
          whole = reserved.whole;
        };
        no_waiting = v.no_waiting;
        no_prefix = v.no_prefix;
        owned = owned st s u v j;
        unfinished =
            each-put (λ i sj. sj.tokens < sj.total_len) q.rid (promised_all serves cfg st) s.active
              (omega (arith, output)) λ i sj d f. v.unfinished i sj f;
        awaited = Awaited-put q.rid (promised_all serves cfg st) s.active rest once others;
      }
    where
      owned :
          (st : SeqState) (s : Sim S) (u : S)
          → Steady serves cfg s
          → Joined serves cfg st s u
          → (k : SeqId) → in_batch k (put st.rid (promised_all serves cfg st) s.active) ≡ false
          → serves.table k u ≡ none
      owned st s u v j (seq i) out = elim (Bool-cases (nat_beq st.rid i)) [
        | inl t ↦
            absurd (ground (arith, get-put st.rid i (promised_all serves cfg st) s.active, t, out))
        | inr t ↦
            j.others_keep (seq i) t
            ∙ v.owned (seq i)
                (ground (arith, get-put st.rid i (promised_all serves cfg st) s.active, t, out))
      ]
      owned st s u v j (cache i) out = j.others_keep (cache i) refl ∙ v.owned (cache i) refl
      owned st s u v j scratch out = j.others_keep scratch refl ∙ v.owned scratch refl

  pub admitted-Accounts :
      (q : Request) (rest : List Request) (s : Sim S) (u : S)
      → Steady serves cfg s
      → s.arrivals ≡ q ∷ rest
      → Joined serves cfg (new_sequence q) s u
      → Accounts serves cfg 0 s
          (record (joined serves cfg (new_sequence q) s u) { arrivals = rest })
  unfolding new_sequence
  admitted-Accounts q rest s u v e j =
      let (absent, plain, output, once, others) = subst (Awaited s.active) e v.awaited in
      let st = new_sequence q in
      let small : holds_request cfg.block_tokens serves.blocks q ≡ true = ground (
        arith,
        j.gate,
        handed-le-promised s v.running v.reserved,
        serves.within s.alloc v.running.good,
      ) in
      rw e (record {
        dropped = rw small refl;
        completed =
            rw small
              (omega (arith, length-insert q.rid (promised_all serves cfg st) s.active absent));
        done = omega (
          arith,
          ahead-le-one s.t rest,
          weight_insert left_to_do left_to_do q.rid (λ i sj d. refl) (promised_all serves cfg st)
              s.active absent,
        );
      })

  pub dropped-Steady :
      (q : Request) (rest : List Request) (gone : List ℕ) (s : Sim S)
      → Steady serves cfg s
      → s.arrivals ≡ q ∷ rest
      → Steady serves cfg (record s { arrivals = rest; dropped = gone })
  dropped-Steady q rest gone s v e = record {
    running = record {
      good = v.running.good;
      unique = v.running.unique;
      entries = v.running.entries;
    };
    reserved = record {
      covered = v.reserved.covered;
      within = v.reserved.within;
      whole = v.reserved.whole;
    };
    no_waiting = v.no_waiting;
    no_prefix = v.no_prefix;
    owned = v.owned;
    unfinished = v.unfinished;
    awaited =
        let (absent, plain, output, once, others) = subst (Awaited s.active) e v.awaited in others;
  }

  -- A request that is refused while nobody is active is larger than the pool.
  pub dropped-Accounts :
      (q : Request) (rest : List Request) (s : Sim S)
      → Steady serves cfg s
      → s.arrivals ≡ q ∷ rest
      → s.active ≡ []
      → ops.num_free s.alloc + handed serves cfg s
        < ceil_div (q.prompt_len + q.output_len) cfg.block_tokens + promised serves cfg s
      → Accounts serves cfg 0 s (record s { arrivals = rest; dropped = s.dropped ++ q.rid ∷ [] })
  unfolding get
  dropped-Accounts q rest s v e alone tight =
      let empty : ops.num_free s.alloc ≡ serves.blocks =
        serves.emptied s.alloc v.running.good (λ k. v.owned k (none_in k)) in
      let large : holds_request cfg.block_tokens serves.blocks q ≡ false = ground (
        arith,
        tight,
        empty,
        ap (weight (promised_to serves cfg)) alone,
        ap (weight (handed_out serves cfg s.alloc)) alone,
      ) in
      rw e (record {
        dropped = rw large (append_assoc s.dropped (q.rid ∷ []) _);
        completed = rw large (omega arith);
        done = omega (arith, ahead-le-one s.t rest);
      })
    where
      none_in : (k : SeqId) → in_batch k s.active ≡ false
      none_in (seq i) = rw alone refl
      none_in (cache i) = refl
      none_in scratch = refl
