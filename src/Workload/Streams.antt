-- ===== src/Workload/Streams.antt =====
-- What the simulator needs of a request stream: ids of its own, arrivals in order, lengths in bounds.
use chip_hackathon_f.Sim.Setup.{insert_request, sort_requests}
use chip_hackathon_f.Prelude.{
  All, ℕ, zero, suc, ◌≤◌, ◌<◌, ◌≡◌, refl, Bool, true, false, none, List, [], ◌∷◌, map, arith,
  nat_eq, range, range_from, ap, ◌∙◌,
}
use chip_hackathon_f.Dict.{get}
use chip_hackathon_f.Sim.{Request}
use chip_hackathon_f.Sim.Service.{Awaited, named}
use chip_hackathon_f.Workload.{
  lognormal_lengths, poisson_arrivals, steady, longctx, prefix, fixedlen, prefix_request,
}

pub lognormal_lengths_bounds :
    (parts : ℕ) (x : ℕ → ℕ) (lo hi i : ℕ)
    → lo ≤ hi
    → (lo ≤ lognormal_lengths parts x lo hi i) × (lognormal_lengths parts x lo hi i ≤ hi)
unfolding lognormal_lengths
lognormal_lengths_bounds parts x lo hi i h = ground arith

-- Later requests arrive later.
pub poisson_arrivals_next :
    (parts : ℕ) (gaps : ℕ → ℕ) (i : ℕ)
    → 0 < parts
    → poisson_arrivals parts gaps i ≤ poisson_arrivals parts gaps (suc i)
unfolding poisson_arrivals
poisson_arrivals_next parts gaps i h = grind arith

-- A stream of requests that are numbered from `lo`.
module _ (make : ℕ → Request) (numbered : (i : ℕ) → (make i).rid ≡ i) where
  named_before : (rid lo n : ℕ) → rid < lo → named rid (map make (range_from lo n)) ≡ 0
  named_before rid lo zero h = refl
  named_before rid lo (suc n) h = ground (arith, numbered lo, named_before rid (suc lo) n)

  pub Awaited-numbered :
      ((i : ℕ) → (make i).prefix_id ≡ none)
      → ((i : ℕ) → 0 < (make i).output_len)
      → (lo n : ℕ) → Awaited [] (map make (range_from lo n))
  unfolding get
  Awaited-numbered plain output lo zero = tt
  Awaited-numbered plain output lo (suc n) = (
    refl,
    plain lo,
    output lo,
    named_before (make lo).rid (suc lo) n (omega (arith, numbered lo)),
    Awaited-numbered plain output (suc lo) n,
  )

-- The requests of `steady` have each an id of their own, share no prefix and ask for some output.
pub steady-Awaited :
    (parts : ℕ) (gaps prompts outputs : ℕ → ℕ) (n_requests : ℕ)
    → Awaited [] (steady parts gaps prompts outputs n_requests)
unfolding steady
steady-Awaited parts gaps prompts outputs n_requests =
    Awaited-numbered _ (λ i. refl) (λ i. refl)
      (λ i. omega (arith, lognormal_lengths_bounds parts outputs 4 2048 i (omega arith))) 0
      n_requests

pub longctx-Awaited :
    (parts : ℕ) (gaps prompts outputs : ℕ → ℕ) (n_requests : ℕ)
    → ((i : ℕ) → 32 ≤ outputs i)
    → Awaited [] (longctx parts gaps prompts outputs n_requests)
unfolding longctx
longctx-Awaited parts gaps prompts outputs n_requests drawn =
    Awaited-numbered _ (λ i. refl) (λ i. refl) (λ i. omega (arith, drawn i)) 0 n_requests

pub fixedlen-Awaited :
    (parts : ℕ) (gaps : ℕ → ℕ) (prompt_len output_len n_requests : ℕ)
    → 0 < output_len
    → Awaited [] (fixedlen parts gaps prompt_len output_len n_requests)
unfolding fixedlen
fixedlen-Awaited parts gaps prompt_len output_len n_requests h =
    Awaited-numbered _ (λ i. refl) (λ i. refl) (λ i. h) 0 n_requests

-- The lengths of a request: the shared prefix is a proper part of the prompt, and there is some output.
pub record Lengths (r : Request) : Type 0 where
  pub short_prefix : r.prefix_len < r.prompt_len
  pub some_output : 0 < r.output_len

All-map :
    (P : Request → Type 0) (make : ℕ → Request)
    → ((i : ℕ) → P (make i))
    → (is : List ℕ) → All P (map make is)
All-map P make h [] = tt
All-map P make h (i ∷ is) = (h i, All-map P make h is)

-- Every request of `prefix` has a prompt that is longer than the shared prefix, and some output.
pub prefix-Lengths :
    (parts : ℕ) (gaps : ℕ → ℕ) (prefix_len : ℕ) (shared : ℕ → Bool) (uniq plain outputs : ℕ → ℕ)
    (n_requests : ℕ)
    → All Lengths (prefix parts gaps prefix_len shared uniq plain outputs n_requests)
unfolding prefix
prefix-Lengths parts gaps prefix_len shared uniq plain outputs n_requests =
    All-map Lengths _ (λ i. lengths i (shared i)) (range n_requests)
  where
    lengths :
        (i : ℕ) (b : Bool)
        → Lengths (
            prefix_request parts gaps prefix_len b
              (poisson_arrivals parts gaps i)
              (lognormal_lengths parts uniq 8 4096 i)
              (lognormal_lengths parts plain 8 8192 i)
              (lognormal_lengths parts outputs 4 2048 i)
              i)
    lengths i true = record {
      short_prefix = omega (arith, lognormal_lengths_bounds parts uniq 8 4096 i (omega arith));
      some_output = omega (arith, lognormal_lengths_bounds parts outputs 4 2048 i (omega arith));
    }
    lengths i false = record {
      short_prefix = omega (arith, lognormal_lengths_bounds parts plain 8 8192 i (omega arith));
      some_output = omega (arith, lognormal_lengths_bounds parts outputs 4 2048 i (omega arith));
    }

-- Streams come in the order in which `simulate` serves them.
module _ (make : ℕ → Request) (numbered : (i : ℕ) → (make i).rid ≡ i)
    (later : (i : ℕ) → (make i).arrival_step ≤ (make (suc i)).arrival_step) where
  insert-first :
      (lo n : ℕ)
      → insert_request (make lo) (map make (range_from (suc lo) n))
        ≡ make lo ∷ map make (range_from (suc lo) n)
  unfolding insert_request
  insert-first lo zero = refl
  insert-first lo (suc n) = ground (arith, numbered lo, numbered (suc lo), later lo)

  pub sort-numbered :
      (lo n : ℕ) → sort_requests (map make (range_from lo n)) ≡ map make (range_from lo n)
  unfolding sort_requests
  sort-numbered lo zero = refl
  sort-numbered lo (suc n) =
      ap (insert_request (make lo)) (sort-numbered (suc lo) n) ∙ insert-first lo n

-- The requests of `prefix` come sorted: `simulate` serves them in the order of their ids.
pub sort-prefix :
    (parts : ℕ) (gaps : ℕ → ℕ) (prefix_len : ℕ) (shared : ℕ → Bool) (uniq plain outputs : ℕ → ℕ)
    (n_requests : ℕ)
    → 0 < parts
    → sort_requests (prefix parts gaps prefix_len shared uniq plain outputs n_requests)
      ≡ prefix parts gaps prefix_len shared uniq plain outputs n_requests
unfolding prefix
sort-prefix parts gaps prefix_len shared uniq plain outputs n_requests h =
    sort-numbered _ (λ i. numbered (shared i) _ _ _ _ i)
      (λ i.
        in_order (shared i) (shared (suc i)) _ _ _ _ i _ _ _ _ (suc i)
          (poisson_arrivals_next parts gaps i h))
      0 n_requests
  where
    numbered :
        (b : Bool) (a u p o i : ℕ) → (prefix_request parts gaps prefix_len b a u p o i).rid ≡ i
    numbered true a u p o i = refl
    numbered false a u p o i = refl

    in_order :
        (b c : Bool) (a u p o i a' u' p' o' j : ℕ)
        → a ≤ a'
        → (prefix_request parts gaps prefix_len b a u p o i).arrival_step
          ≤ (prefix_request parts gaps prefix_len c a' u' p' o' j).arrival_step
    in_order true true a u p o i a' u' p' o' j le = le
    in_order true false a u p o i a' u' p' o' j le = le
    in_order false true a u p o i a' u' p' o' j le = le
    in_order false false a u p o i a' u' p' o' j le = le

-- So do those of `steady`.
pub sort-steady :
    (parts : ℕ) (gaps prompts outputs : ℕ → ℕ) (n_requests : ℕ)
    → 0 < parts
    → sort_requests (steady parts gaps prompts outputs n_requests)
      ≡ steady parts gaps prompts outputs n_requests
unfolding steady
sort-steady parts gaps prompts outputs n_requests h =
    sort-numbered _ (λ i. refl) (λ i. poisson_arrivals_next parts gaps i h) 0 n_requests
