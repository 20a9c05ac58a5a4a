-- ===== src/Sim/Sampling/Safety.antt =====
-- Sampling a batch in order raises nothing: every burst of every active sequence is in the memory.
use chip_hackathon_f.Prelude.{
  All, ℕ, zero, suc, ◌+◌, ◌*◌, ◌/◌, ◌≤◌, ◌<◌, ◌≡◌, refl, subst, ap, ◌∙◌, inl, inr, true, some, List,
  [], ◌∷◌, map, arith, ltb, leb, nat_beq, nat_eq, length, count, range_from, range, get_elem?,
  get_elem?-lt, Bool-cases,
}
use chip_hackathon_f.Dict.{Dict, get}
use chip_hackathon_f.Exec.{Result, ok, each}
use chip_hackathon_f.Alloc.{seq}
use chip_hackathon_f.Geometry.{
  DramGeometry, ModelShape, banks_per_channel, kv_bytes_per_token, total_bursts,
}
use chip_hackathon_f.AddrMap.{Coords, Layout, map_addr, map_fields, zeros}
use chip_hackathon_f.PimModel.Window.{Tally, IsUnique}
use chip_hackathon_f.PimModel.Sequence.{sequence_metrics-Fractions}
use chip_hackathon_f.Sim.{Operations, SeqState, Sim}
use chip_hackathon_f.Sim.Contract.{Serves, Running}
use chip_hackathon_f.Sim.Measure.{burst_address, burst_address-some}
use chip_hackathon_f.Sim.Setup.{fits_below}
use chip_hackathon_f.Sim.Simulate.{insert_id}
use chip_hackathon_f.Sim.Sampling.{
  Row, Setting, sorted_ids, row_of, measure_seq, measure_id, sample,
}
use chip_hackathon_f.Traces.{or_index_error, enumerate_bursts, to_burst}

module _ {A B : Type 0} (f : A → Result B) (P : A → Type 0) (Q : B → Type 0)
    (one : (a : A) → P a → (b : B) × (f a ≡ ok b) × Q b) where
  -- Where the function returns at every element, `each` returns.
  each-All :
      (xs : List A)
      → All P xs
      → (ys : List B) × (each f xs ≡ ok ys) × All Q ys × (length ys ≡ length xs)
  unfolding each
  each-All [] all = ([], refl, tt, refl)
  each-All (x ∷ xs) (p, all) =
      let (b, e, q) = one x p in
      let (bs, es, qs, same) = each-All xs all in
      (b ∷ bs, rw (e, es) refl, (q, qs), omega (arith, same))

All-range_from : (lo n top : ℕ) → lo + n ≤ top → All (λ i. i < top) (range_from lo n)
All-range_from lo zero top h = tt
All-range_from lo (suc n) top h =
    (omega (arith, h), All-range_from (suc lo) n top (omega (arith, h)))

count-get_elem : (xs : List ℕ) (i b : ℕ) → get_elem? xs i ≡ some b → 0 < count b xs
count-get_elem [] i b e = absurd cc
count-get_elem (x ∷ xs) zero b e = ground (arith, e)
count-get_elem (x ∷ xs) (suc i) b e = ground (arith, count-get_elem xs i b e)

map_addr-ok :
    (g : DramGeometry) (fields : Layout) (lin : ℕ)
    → lin < total_bursts g
    → (c : Coords) × (map_addr g fields lin ≡ ok c) × Unit {0}
unfolding map_addr
map_addr-ok g fields lin h =
    let inside : ltb lin (total_bursts g) ≡ true = ground (arith, h) in
    (map_fields fields lin 0 zeros zeros, rw inside refl, tt)

module _ (g : DramGeometry) (shape : ModelShape) (block_tokens : ℕ) (fields : Layout)
    (table : List ℕ) (tokens blocks : ℕ)
    (pos : 0 < block_tokens * (kv_bytes_per_token shape / g.burst_bytes))
    (enough : tokens ≤ length table * block_tokens)
    (below : (b : ℕ) → 0 < count b table → b < blocks)
    (fits : blocks * (block_tokens * (kv_bytes_per_token shape / g.burst_bytes))
      ≤ total_bursts g) where
  address-ok :
      (lb : ℕ)
      → lb < tokens * (kv_bytes_per_token shape / g.burst_bytes)
      → (lin : ℕ) × (or_index_error
            (burst_address table (block_tokens * (kv_bytes_per_token shape / g.burst_bytes)) lb)
          ≡ ok lin)
        × (lin < total_bursts g)
  address-ok lb h =
      let bpt = kv_bytes_per_token shape / g.burst_bytes in
      let (block, offset, at, small, e) =
        burst_address-some table tokens block_tokens bpt lb pos enough h in
      (
        block * (block_tokens * bpt) + offset,
        rw e refl,
        fits_below block offset (block_tokens * bpt) blocks (total_bursts g)
            (below block (count-get_elem table (lb / (block_tokens * bpt)) block at)) small fits,
      )

  enumerate_bursts-ok :
      (ms : List Coords) × (enumerate_bursts table tokens g shape block_tokens fields ≡ ok ms)
  unfolding enumerate_bursts
  enumerate_bursts-ok =
      let bpt = kv_bytes_per_token shape / g.burst_bytes in
      let (lins, el, inside, _) =
        each-All (λ lb. or_index_error (burst_address table (block_tokens * bpt) lb))
          (λ lb. lb < tokens * bpt) (λ lin. lin < total_bursts g) address-ok (range (tokens * bpt))
          (All-range_from 0 (tokens * bpt) (tokens * bpt) (omega arith)) in
      let (ms, em, _, _) =
        each-All (map_addr g fields) (λ lin. lin < total_bursts g) (λ c. Unit {0})
          (map_addr-ok g fields) lins inside in
      (ms, rw (el, em) refl)

-- Every id of the list is in the batch.
abbrev Listed : Dict ℕ SeqState → List ℕ → Type 0
Listed d ids = All (λ rid. (st : SeqState) × (get rid d ≡ some st)) ids

Listed-insert_id :
    (d : Dict ℕ SeqState) (i : ℕ) (st : SeqState) (ids : List ℕ)
    → get i d ≡ some st
    → Listed d ids
    → Listed d (insert_id i ids)
unfolding insert_id
Listed-insert_id d i st [] e all = ((st, e), tt)
Listed-insert_id d i st (j ∷ ids) e (first, rest) = elim (Bool-cases (leb i j)) [
  | inl t ↦ rw t ((st, e), (first, rest))
  | inr t ↦ rw t (first, Listed-insert_id d i st ids e rest)
]

Listed-later :
    (k : ℕ) (st : SeqState) (d : Dict ℕ SeqState) (ids : List ℕ)
    → Listed d ids
    → Listed ((k, st) ∷ d) ids
unfolding get
Listed-later k st d [] all = tt
Listed-later k st d (i ∷ ids) ((su, e), rest) = (here, Listed-later k st d ids rest)
  where
    here : (sv : SeqState) × (get i ((k, st) ∷ d) ≡ some sv)
    here = elim (Bool-cases (nat_beq k i)) [ inl t ↦ (st, rw t refl) | inr t ↦ (su, rw t e) ]

Listed-sorted_ids : (d : Dict ℕ SeqState) → Listed d (sorted_ids d)
unfolding sorted_ids get
Listed-sorted_ids [] = tt
Listed-sorted_ids ((k, st) ∷ d) =
    Listed-insert_id ((k, st) ∷ d) k st (sorted_ids d) (ground arith)
      (Listed-later k st d (sorted_ids d) (Listed-sorted_ids d))

length-insert_id : (i : ℕ) (ids : List ℕ) → length (insert_id i ids) ≡ length ids + 1
unfolding insert_id
length-insert_id i [] = refl
length-insert_id i (j ∷ ids) = ground (arith, length-insert_id i ids)

length-sorted_ids : (d : Dict ℕ SeqState) → length (sorted_ids d) ≡ length d
unfolding sorted_ids
length-sorted_ids [] = refl
length-sorted_ids ((k, st) ∷ d) =
    omega (arith, length-insert_id k (sorted_ids d), length-sorted_ids d)

All-get_elem :
    {A : Type 0} (P : A → Type 0) (xs : List A) (i : ℕ) {x : A}
    → All P xs
    → get_elem? xs i ≡ some x
    → P x
All-get_elem P [] i all e = absurd cc
All-get_elem P (y ∷ xs) zero (p, _) e = subst P (ground (arith, e)) p
All-get_elem P (y ∷ xs) (suc i) (_, all) e = All-get_elem P xs i all e

-- The counts of a row, of which M1 and M2 are at most 1.
pub record RowFits (size : ℕ) (r : Row) : Type 0 where
  pub hits : r.n_hits ≤ r.n_cmds
  pub busy : r.n_cmds ≤ r.n_bursts
  pub used : r.n_bursts ≤ size * r.n_cmds

module _ (unique : List ℕ → List Tally) (laws : IsUnique unique) (p : Setting)
    (banks : 0 < banks_per_channel p.geom) (wp : 0 < p.window)
    (pos : 0 < p.block_tokens * (kv_bytes_per_token p.shape / p.geom.burst_bytes)) where
  measure_seq-Fits :
      (st : SeqState) (table : List ℕ) (blocks : ℕ)
      → st.tokens ≤ length table * p.block_tokens
      → ((b : ℕ) → 0 < count b table → b < blocks)
      → blocks * (p.block_tokens * (kv_bytes_per_token p.shape / p.geom.burst_bytes))
        ≤ total_bursts p.geom
      → (r : Row) × (measure_seq unique p st table ≡ ok r) × RowFits (banks_per_channel p.geom) r
  unfolding measure_seq
  measure_seq-Fits st table blocks enough below fits =
      let (ms, em) =
        enumerate_bursts-ok p.geom p.shape p.block_tokens p.fields table st.tokens blocks pos enough
          below fits in
      let (s, es, f) =
        sequence_metrics-Fractions unique laws (banks_per_channel p.geom) banks p.mode p.window
          (map (to_burst p.geom) ms) wp in
      (
        row_of unique p st table s,
        rw (em, es) refl,
        record { hits = f.hits; busy = f.busy; used = f.used },
      )

  module _ {S : Type 0} {ops : Operations S} (serves : Serves ops) (s : Sim S)
      (v : Running serves p.block_tokens s)
      (fits : ops.num_blocks s.alloc
          * (p.block_tokens * (kv_bytes_per_token p.shape / p.geom.burst_bytes))
        ≤ total_bursts p.geom) where
    measure_id-Fits :
        (j : ℕ)
        → j < length s.active
        → (r : Row) × (measure_id unique p ops s (get_elem? (sorted_ids s.active) j) ≡ ok r)
          × RowFits (banks_per_channel p.geom) r
    measure_id-Fits j h =
        let (rid, at) =
          get_elem?-lt (sorted_ids s.active) j (omega (arith, h, length-sorted_ids s.active)) in
        let (st, here) = All-get_elem _ (sorted_ids s.active) j (Listed-sorted_ids s.active) at in
        let entry = v.entries rid st here in
        let own : serves.table (seq st.rid) s.alloc ≡ some entry.table =
          ap (λ i. serves.table (seq i) s.alloc) entry.same_id ∙ entry.found in
        let (r, e, f) =
          measure_seq-Fits st entry.table (ops.num_blocks s.alloc) entry.enough
            (λ b inside. omega (
              arith,
              serves.ranges (seq rid) entry.table s.alloc b v.good entry.found inside,
              serves.sized s.alloc v.good,
            ))
            fits in
        (r, rw (at, here, serves.reads (seq st.rid) entry.table s.alloc own) e, f)

    -- With `numpy.unique` as documented, banks, a window of at least one burst and blocks of at least one
    -- burst: where the batch is in order and the pool fits the memory (as the guards of `simulate` test),
    -- sampling at any positions of the batch, up to the quotients, raises nothing, neither for a missing
    -- sequence or table nor for a block or an address out of range; it returns a row for each position, with no more hits
    -- than commands, no more commands than bursts, and no more bursts than banks times commands.
    pub sample-Fits :
        (picks : List ℕ)
        → All (λ j. j < length s.active) picks
        → (rows : List Row) × (sample unique p ops picks s ≡ ok rows)
          × All (RowFits (banks_per_channel p.geom)) rows
          × (length rows ≡ length picks)
    unfolding sample
    sample-Fits picks inside =
        each-All (λ j. measure_id unique p ops s (get_elem? (sorted_ids s.active) j))
          (λ j. j < length s.active) (RowFits (banks_per_channel p.geom)) measure_id-Fits picks
          inside
