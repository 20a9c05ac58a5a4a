-- ===== src/Traces/Stats.antt =====
-- `_collect` (pimkv/ramulator.py): the row statistics of all controllers, out of a tree of dictionaries
-- and lists.
pub mod Totals
use chip_hackathon_f.Alloc.{is_some}
use Prim.Native.String.{String}
use chip_hackathon_f.Prelude.{
  ℕ, ◌+◌, ◌≡◌, refl, ap, ◌∙◌, max, Bool, true, false, ◌||◌, Option, none, some, List, [], ◌∷◌, ◌++◌,
  arith, ◌==◌, if◌then◌else◌, sym, Bool-cases, inl, inr,
}
use chip_hackathon_f.Sweep.{string_eq}

-- What the statistics are made of; `other` is neither a number nor a container.
mutual
  pub data Node : Type 0 where
    number : ℕ → Node
    other : Node
    dict : Entries → Node
    items : Nodes → Node

  pub data Entries : Type 0 where
    empty : Entries
    entry : String → Node → Entries → Entries

  pub data Nodes : Type 0 where
    nil : Nodes
    cons : Node → Nodes → Nodes

-- The keys that are collected.
pub data Stat : Type 0 where
  row_hits row_misses row_conflicts cycles num_read_reqs : Stat

abbrev pub key_of : Stat → String
key_of row_hits = "row_hits"
key_of row_misses = "row_misses"
key_of row_conflicts = "row_conflicts"
key_of cycles = "cycles"
key_of num_read_reqs = "num_read_reqs"

-- The variables `out` and `found`, by key.
pub record Collected : Type 0 where
  pub out : Stat → ℕ
  pub found : Stat → Bool

abbrev pub number_of : Node → Option ℕ
number_of (number n) = some n
number_of _ = none

-- `node[k]` where it is a number. The keys of a dictionary differ.
unfoldable pub number_at : String → Entries → Option ℕ
number_at k empty = none
number_at k (entry j v rest) = if j == k then number_of v else number_at k rest

-- `max` for the cycles, which the controllers count in parallel, and the sum for the rest.
abbrev pub combine : Stat → ℕ → ℕ → ℕ
combine cycles a b = max a b
combine row_hits a b = a + b
combine row_misses a b = a + b
combine row_conflicts a b = a + b
combine num_read_reqs a b = a + b

abbrev pub read_number : Stat → ℕ → Option ℕ → ℕ
read_number k total none = total
read_number k total (some n) = combine k total n

-- The loop over the keys, at one dictionary.
unfoldable pub read_keys : Entries → Collected → Collected
unfolding number_at
read_keys es c = record {
  out = λ k. read_number k (c.out k) (number_at (key_of k) es);
  found = λ k. c.found k || is_some (number_at (key_of k) es);
}

unfoldable mutual
  unfolding read_keys

  pub walk : Node → Collected → Collected
  walk (number n) c = c
  walk other c = c
  walk (dict es) c = walk_values es (read_keys es c)
  walk (items ns) c = walk_items ns c

  pub walk_values : Entries → Collected → Collected
  walk_values empty c = c
  walk_values (entry k v rest) c = walk_values rest (walk v c)

  pub walk_items : Nodes → Collected → Collected
  walk_items nil c = c
  walk_items (cons v rest) c = walk_items rest (walk v c)

unfoldable pub collect : Node → Collected
unfolding walk
collect stats = walk stats (record { out = λ k. 0; found = λ k. false })
