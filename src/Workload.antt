-- ===== src/Workload.antt =====
-- The request streams (pimkv/workload.py). What the generator draws is a parameter: an array is a
-- function of the index, and a float that is drawn is a whole number of parts of size 1 / `parts`, so
-- that sums are exact. `np.random` itself and the logarithm of the median are not modelled.
pub mod Streams
use chip_hackathon_f.Prelude.{
  ℕ, zero, suc, ◌+◌, ◌*◌, ◌/◌, ◌%◌, min, max, Bool, true, false, Option, none, some, List, map, ltb,
  if◌then◌else◌, range,
}
use chip_hackathon_f.Sim.{Request}

-- `np.round`: to the nearest whole number, and to the even one of two that are as near.
unfoldable pub round_half_even : ℕ → ℕ → ℕ
round_half_even parts x =
    let q = x / parts in
    let r = x % parts in
    if ltb (2 * r) parts then q else if ltb parts (2 * r) then q + 1 else q + q % 2

-- `np.clip`
unfoldable pub clip : ℕ → ℕ → ℕ → ℕ
clip lo hi x = min (max x lo) hi

unfoldable pub lognormal_lengths : ℕ → (ℕ → ℕ) → ℕ → ℕ → ℕ → ℕ
unfolding round_half_even clip
lognormal_lengths parts x lo hi i = clip lo hi (round_half_even parts (x i))

-- `np.cumsum`
unfoldable pub cumsum : (ℕ → ℕ) → ℕ → ℕ
cumsum gaps zero = gaps zero
cumsum gaps (suc i) = cumsum gaps i + gaps (suc i)

unfoldable pub poisson_arrivals : ℕ → (ℕ → ℕ) → ℕ → ℕ
unfolding cumsum
poisson_arrivals parts gaps i = cumsum gaps i / parts

module _ (parts : ℕ) (gaps : ℕ → ℕ) where
  unfoldable pub steady : (ℕ → ℕ) → (ℕ → ℕ) → ℕ → List Request
  unfolding lognormal_lengths poisson_arrivals
  steady prompts outputs n_requests =
      map
        (λ i. record {
          rid = i;
          arrival_step = poisson_arrivals parts gaps i;
          prompt_len = lognormal_lengths parts prompts 8 8192 i;
          output_len = lognormal_lengths parts outputs 4 2048 i;
          prefix_id = none;
          prefix_len = 0;
        })
        (range n_requests)

  -- The lengths are drawn by `rng.integers`.
  unfoldable pub longctx : (ℕ → ℕ) → (ℕ → ℕ) → ℕ → List Request
  unfolding poisson_arrivals
  longctx prompts outputs n_requests =
      map
        (λ i. record {
          rid = i;
          arrival_step = poisson_arrivals parts gaps i;
          prompt_len = prompts i;
          output_len = outputs i;
          prefix_id = none;
          prefix_len = 0;
        })
        (range n_requests)

  -- A request of `prefix`, by whether it shares the common prompt.
  abbrev pub prefix_request : ℕ → Bool → ℕ → ℕ → ℕ → ℕ → ℕ → Request
  prefix_request prefix_len true arrive uniq plain output i = record {
    rid = i;
    arrival_step = arrive;
    prompt_len = prefix_len + uniq;
    output_len = output;
    prefix_id = some 0;
    prefix_len = prefix_len;
  }
  prefix_request prefix_len false arrive uniq plain output i = record {
    rid = i;
    arrival_step = arrive;
    prompt_len = plain;
    output_len = output;
    prefix_id = none;
    prefix_len = 0;
  }

  unfoldable pub prefix : ℕ → (ℕ → Bool) → (ℕ → ℕ) → (ℕ → ℕ) → (ℕ → ℕ) → ℕ → List Request
  unfolding lognormal_lengths poisson_arrivals
  prefix prefix_len shared uniq plain outputs n_requests =
      map
        (λ i.
          prefix_request prefix_len (shared i) (poisson_arrivals parts gaps i)
            (lognormal_lengths parts uniq 8 4096 i) (lognormal_lengths parts plain 8 8192 i)
            (lognormal_lengths parts outputs 4 2048 i) i)
        (range n_requests)

  unfoldable pub spec : (ℕ → ℕ) → (ℕ → ℕ) → ℕ → List Request
  unfolding steady
  spec = steady

  unfoldable pub fixedlen : ℕ → ℕ → ℕ → List Request
  unfolding poisson_arrivals
  fixedlen prompt_len output_len n_requests =
      map
        (λ i. record {
          rid = i;
          arrival_step = poisson_arrivals parts gaps i;
          prompt_len = prompt_len;
          output_len = output_len;
          prefix_id = none;
          prefix_len = 0;
        })
        (range n_requests)
