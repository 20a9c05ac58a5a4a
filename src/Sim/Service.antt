-- ===== src/Sim/Service.antt =====
-- Serving under oracle admission: the state between two steps of `simulate`, and its accounts.
pub mod Gate
pub mod Joining
pub mod Admission
pub mod Pass
pub mod Finish
pub mod Step
pub mod Loop
pub mod Whole
use chip_hackathon_f.Prelude.{
  ℕ, ◌+◌, ◌-◌, ◌≤◌, ◌<◌, ◌≡◌, Bool, false, Option, none, some, List, [], ◌∷◌, ◌++◌, arith, leb,
  nat_beq, nat_eq, indicator, length, if◌then◌else◌, ceil_div, ◌∙◌,
}
use chip_hackathon_f.Dict.{Dict, get, put, get-put, weight}
use chip_hackathon_f.Alloc.{SeqId, seq, is_some}
use chip_hackathon_f.Sim.{Operations, SeqState, Request, Config, Sim}
use chip_hackathon_f.Sim.Contract.{Serves, Running}
use chip_hackathon_f.Sim.Oracle.{Reserved}

abbrev pub in_batch : SeqId → Dict ℕ SeqState → Bool
in_batch (seq rid) d = is_some (get rid d)
in_batch _ d = false

abbrev pub named : ℕ → List Request → ℕ
named rid [] = 0
named rid (r ∷ rs) = indicator (nat_beq r.rid rid) + named rid rs

-- Requests that wait for a place: each id once and not in the batch, no shared prefix, some output.
abbrev pub Awaited : Dict ℕ SeqState → List Request → Type 0
Awaited d [] = Unit {0}
Awaited d (r ∷ rs) =
    (get r.rid d ≡ none)
    × (r.prefix_id ≡ none)
    × (0 < r.output_len)
    × (named r.rid rs ≡ 0)
    × Awaited d rs

pub Awaited-mono :
    (d e : Dict ℕ SeqState) (rs : List Request)
    → ((j : ℕ) → get j d ≡ none → get j e ≡ none)
    → Awaited d rs
    → Awaited e rs
Awaited-mono d e [] h a = tt
Awaited-mono d e (r ∷ rs) h (absent, plain, output, once, rest) =
    (h r.rid absent, plain, output, once, Awaited-mono d e rs h rest)

pub Awaited-put :
    (rid : ℕ) (st : SeqState) (d : Dict ℕ SeqState) (rs : List Request)
    → named rid rs ≡ 0
    → Awaited d rs
    → Awaited (put rid st d) rs
Awaited-put rid st d [] h a = tt
Awaited-put rid st d (r ∷ rs) h (absent, plain, output, once, rest) = (
  ground (arith, get-put rid r.rid st d, h, absent),
  plain,
  output,
  once,
  Awaited-put rid st d rs (omega (arith, h)) rest,
)

-- The tokens that a sequence still has to decode.
abbrev pub left_to_do : ℕ → SeqState → ℕ
left_to_do rid st = st.total_len - st.tokens

abbrev pub demand : List Request → ℕ
demand [] = 0
demand (r ∷ rs) = 1 + r.output_len + demand rs

-- 1 where the next request has not arrived yet.
abbrev pub ahead : ℕ → List Request → ℕ
ahead t [] = 0
ahead t (r ∷ rs) = if leb r.arrival_step t then 0 else 1

-- The requests by whether a pool of so many blocks holds their whole length.
abbrev pub holds_request : ℕ → ℕ → Request → Bool
holds_request bt blocks r = leb (ceil_div (r.prompt_len + r.output_len) bt) blocks

abbrev pub too_big : ℕ → ℕ → List Request → List ℕ
too_big bt blocks [] = []
too_big bt blocks (r ∷ rs) =
    if holds_request bt blocks r then too_big bt blocks rs else r.rid ∷ too_big bt blocks rs

abbrev pub fitting : ℕ → ℕ → List Request → ℕ
fitting bt blocks [] = 0
fitting bt blocks (r ∷ rs) = indicator (holds_request bt blocks r) + fitting bt blocks rs

module _ {S : Type 0} {ops : Operations S} (serves : Serves ops) (cfg : Config) where
  abbrev pub work : Sim S → ℕ
  work s = demand s.arrivals + weight left_to_do s.active + ahead s.t s.arrivals

  -- The state between two steps: the batch is in order and what it was promised is there, nobody was
  -- preempted, no prefix is pinned, only the batch has tables, no sequence is finished, and the rest of the requests wait.
  pub record Steady (s : Sim S) : Type 0 where
    pub running : Running serves cfg.block_tokens s
    pub reserved : Reserved serves cfg s
    pub no_waiting : s.waiting ≡ []
    pub no_prefix : s.prefix_cache ≡ []
    pub owned : (k : SeqId) → in_batch k s.active ≡ false → serves.table k s.alloc ≡ none
    pub unfinished :
        (rid : ℕ) (st : SeqState) → get rid s.active ≡ some st → st.tokens < st.total_len
    pub awaited : Awaited s.active s.arrivals

  -- The accounts over a part of the run: who is dropped in the end and how many are completed does not
  -- change, and at least `spent` of the work is done.
  pub record Accounts (spent : ℕ) (s t : Sim S) : Type 0 where
    pub dropped :
        t.dropped ++ too_big cfg.block_tokens serves.blocks t.arrivals
        ≡ s.dropped ++ too_big cfg.block_tokens serves.blocks s.arrivals
    pub completed :
        t.completed + length t.active + fitting cfg.block_tokens serves.blocks t.arrivals
        ≡ s.completed + length s.active + fitting cfg.block_tokens serves.blocks s.arrivals
    pub done : work t + spent ≤ work s

  pub Accounts-trans :
      (m n : ℕ) {s t u : Sim S} → Accounts m s t → Accounts n t u → Accounts (m + n) s u
  Accounts-trans m n a b = record {
    dropped = b.dropped ∙ a.dropped;
    completed = b.completed ∙ a.completed;
    done = omega (arith, a.done, b.done);
  }
