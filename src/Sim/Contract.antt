-- ===== src/Sim/Contract.antt =====
-- What the simulator relies on of an allocator, and the invariant of the batch.
use chip_hackathon_f.Prelude.{
  ℕ, ◌+◌, ◌*◌, ◌≤◌, ◌<◌, ◌≡◌, false, Option, some, List, [], ◌∷◌, ◌++◌, nat_eq, length, none, count,
}
use chip_hackathon_f.Dict.{get, weight}
use chip_hackathon_f.Exec.{Result, ok, Exec, continue, Returns, returns}
use chip_hackathon_f.Alloc.{SeqId, seq, seq_id_beq}
use chip_hackathon_f.Sim.{Operations, SeqState, Sim, lift, attempt}
use chip_hackathon_f.Sim.Batch.{holds}

pub record Serves {S : Type 0} (ops : Operations S) : Type 1 where
  pub Good : S → Type 0
  pub table : SeqId → S → Option (List ℕ)
  pub blocks : ℕ
  pub sized : (s : S) → Good s → ops.num_blocks s ≡ blocks
  pub within : (s : S) → Good s → ops.num_free s ≤ blocks
  pub emptied : (s : S) → Good s → ((k : SeqId) → table k s ≡ none) → ops.num_free s ≡ blocks
  pub ranges :
      (k : SeqId) (t : List ℕ) (s : S) (b : ℕ)
      → Good s
      → table k s ≡ some t
      → 0 < count b t
      → b < blocks
  pub audits : (s : S) → Good s → ops.assert_conservation s ≡ (ok tt, s)
  pub reads : (k : SeqId) (t : List ℕ) (s : S) → table k s ≡ some t → ops.get_table k s ≡ (ok t, s)
  pub releases :
      (k : SeqId) (t : List ℕ) (s : S)
      → Good s
      → table k s ≡ some t
      → Returns
          (λ _ u.
            Good u
            × (ops.num_free s ≤ ops.num_free u)
            × (table k u ≡ none)
            × ((j : SeqId) → seq_id_beq k j ≡ false → table j u ≡ table j s))
          (ops.release k s)
  pub admits :
      (k : SeqId) (n total : ℕ) (s : S)
      → Good s
      → table k s ≡ none
      → n ≤ ops.num_free s
      → Returns
          (λ bs u.
            Good u
            × (ops.num_free u + n ≡ ops.num_free s)
            × (length bs ≡ n)
            × (table k u ≡ some bs)
            × ((j : SeqId) → seq_id_beq k j ≡ false → table j u ≡ table j s))
          (ops.admit k n total s)
  pub appends :
      (k : SeqId) (t : List ℕ) (s : S)
      → Good s
      → table k s ≡ some t
      → 0 < ops.num_free s
      → Returns
          (λ b u.
            Good u
            × (ops.num_free u + 1 ≡ ops.num_free s)
            × (table k u ≡ some (t ++ b ∷ []))
            × ((j : SeqId) → seq_id_beq k j ≡ false → table j u ≡ table j s))
          (ops.append_block k s)

-- The table of an active sequence holds its tokens.
pub record Entry {S : Type 0} {ops : Operations S} (serves : Serves ops) (bt : ℕ) (s : S) (rid : ℕ)
    (st : SeqState) : Type 0 where
  pub same_id : st.rid ≡ rid
  pub no_scratch : st.scratch ≡ []
  pub table : List ℕ
  pub found : serves.table (seq rid) s ≡ some table
  pub enough : st.tokens ≤ length table * bt

pub record Running {S : Type 0} {ops : Operations S} (serves : Serves ops) (bt : ℕ) (s : Sim S)
    : Type 0 where
  pub good : serves.Good s.alloc
  pub unique : (rid : ℕ) → weight (holds rid) s.active ≤ 1
  pub entries :
      (rid : ℕ) (st : SeqState) → get rid s.active ≡ some st → Entry serves bt s.alloc rid st

module _ {S A B : Type 0} {Q : A → S → Type 0} {R : B → Sim S → Type 0} where
  lift-go :
      (f : A → Exec (Sim S) B) (s : Sim S) (r : Result A × S)
      → Returns Q r
      → ((a : A) (u : S) → Q a u → Returns R (f a (record s { alloc = u })))
      → Returns R (continue f (r.0, record s { alloc = r.1 }))
  lift-go f s r (returns {a} {s = u} q) h = h a u q

  -- A step of the allocator, and what the simulator does after it.
  pub Returns-lift :
      (m : Exec S A) (f : A → Exec (Sim S) B) (s : Sim S)
      → Returns Q (m s.alloc)
      → ((a : A) (u : S) → Q a u → Returns R (f a (record s { alloc = u })))
      → Returns R (continue f (lift m s))
  Returns-lift m f s q h = lift-go f s (m s.alloc) q h

module _ {S A B : Type 0} {Q : A → S → Type 0} {R : B → Sim S → Type 0} where
  attempt-go :
      (f : Option A → Exec (Sim S) B) (s : Sim S) (r : Result A × S)
      → Returns Q r
      → ((a : A) (u : S) → Q a u → Returns R (f (some a) (record s { alloc = u })))
      → Returns R (continue f (attempt (λ _. (r.0, record s { alloc = r.1 })) s))
  attempt-go f s r (returns {a} {s = u} q) h = h a u q

  -- A step of the allocator inside a `try` that succeeds.
  pub Returns-attempt :
      (m : Exec S A) (f : Option A → Exec (Sim S) B) (s : Sim S)
      → Returns Q (m s.alloc)
      → ((a : A) (u : S) → Q a u → Returns R (f (some a) (record s { alloc = u })))
      → Returns R (continue f (attempt (lift m) s))
  Returns-attempt m f s q h = attempt-go f s (m s.alloc) q h
