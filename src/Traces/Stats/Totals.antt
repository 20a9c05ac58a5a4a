-- ===== src/Traces/Stats/Totals.antt =====
-- What `_collect` (pimkv/ramulator.py) makes of the numbers in a tree.
use chip_hackathon_f.Alloc.{is_some}
use Prim.Native.String.{String}
use chip_hackathon_f.Prelude.{
  ℕ, ◌+◌, ◌≡◌, refl, ap, ◌∙◌, max, Bool, true, false, ◌||◌, Option, none, some, List, [], ◌∷◌, ◌++◌,
  arith, ◌==◌, if◌then◌else◌, sym, Bool-cases, inl, inr,
}
use chip_hackathon_f.Sweep.{string_eq}
use chip_hackathon_f.Traces.Stats.{
  Node, Entries, Nodes, Stat, key_of, Collected, number_of, number_at, combine, read_number,
  read_keys, walk, walk_values, walk_items, collect, number, other, dict, items, empty, entry, nil,
  cons, row_hits, row_misses, row_conflicts, cycles, num_read_reqs,
}

abbrev listed : Option ℕ → List ℕ
listed none = []
listed (some n) = n ∷ []

-- The number under a key of one dictionary, if there is one.
abbrev single : Node → List ℕ
single (number n) = n ∷ []
single other = []
single (dict es) = []
single (items ns) = []

abbrev under : String → Entries → List ℕ
under k empty = []
under k (entry j v rest) = if j == k then single v else under k rest

-- Every number that stands under a key in a dictionary of the tree.
unfoldable mutual
  pub numbers : String → Node → List ℕ
  numbers k (number n) = []
  numbers k other = []
  numbers k (dict es) = under k es ++ value_numbers k es
  numbers k (items ns) = item_numbers k ns

  pub value_numbers : String → Entries → List ℕ
  value_numbers k empty = []
  value_numbers k (entry j v rest) = numbers k v ++ value_numbers k rest

  pub item_numbers : String → Nodes → List ℕ
  item_numbers k nil = []
  item_numbers k (cons v rest) = numbers k v ++ item_numbers k rest

abbrev pub sum : List ℕ → ℕ
sum [] = 0
sum (n ∷ ns) = n + sum ns

abbrev pub largest : List ℕ → ℕ
largest [] = 0
largest (n ∷ ns) = max n (largest ns)

abbrev combined : Stat → List ℕ → ℕ
combined k [] = 0
combined k (n ∷ ns) = combine k n (combined k ns)

abbrev pub any : List ℕ → Bool
any [] = false
any (n ∷ ns) = true

combine_assoc : (k : Stat) (a b c : ℕ) → combine k (combine k a b) c ≡ combine k a (combine k b c)
combine_assoc cycles a b c = omega arith
combine_assoc _ a b c = omega arith

zero-combine : (k : Stat) (a : ℕ) → combine k 0 a ≡ a
zero-combine cycles a = omega arith
zero-combine _ a = omega arith

combine-zero : (k : Stat) (a : ℕ) → combine k a 0 ≡ a
combine-zero cycles a = omega arith
combine-zero _ a = omega arith

combined-append :
    (k : Stat) (xs ys : List ℕ) → combined k (xs ++ ys) ≡ combine k (combined k xs) (combined k ys)
combined-append k [] ys = sym (zero-combine k (combined k ys))
combined-append k (x ∷ xs) ys =
    ap (combine k x) (combined-append k xs ys)
    ∙ sym (combine_assoc k x (combined k xs) (combined k ys))

any-append : (xs ys : List ℕ) → any (xs ++ ys) ≡ (any xs || any ys)
any-append [] ys = refl
any-append (x ∷ xs) ys = refl

-- `d` is what `c` becomes when the numbers of each key are added.
record Adds (numbers : Stat → List ℕ) (c d : Collected) : Type 0 where
  total : (k : Stat) → d.out k ≡ combine k (c.out k) (combined k (numbers k))
  seen : (k : Stat) → d.found k ≡ (c.found k || any (numbers k))

Adds-trans :
    (xs ys : Stat → List ℕ) (c d e : Collected)
    → Adds xs c d
    → Adds ys d e
    → Adds (λ k. xs k ++ ys k) c e
Adds-trans xs ys c d e a b = record {
  total = λ k.
      b.total k
      ∙ ap (λ n. combine k n (combined k (ys k))) (a.total k)
      ∙ combine_assoc k (c.out k) (combined k (xs k)) (combined k (ys k))
      ∙ ap (combine k (c.out k)) (sym (combined-append k (xs k) (ys k)));
  seen = λ k.
      rw (b.seen k, a.seen k, any-append (xs k) (ys k))
        (or_assoc (c.found k) (any (xs k)) (any (ys k)));
}
  where
    or_assoc : (x y z : Bool) → ((x || y) || z) ≡ (x || (y || z))
    or_assoc true y z = refl
    or_assoc false y z = refl

Adds-nothing : (c : Collected) → Adds (λ k. []) c c
Adds-nothing c = record {
  total = λ k. sym (combine-zero k (c.out k));
  seen = λ k. or_false (c.found k);
}
  where
    or_false : (x : Bool) → x ≡ (x || false)
    or_false true = refl
    or_false false = refl

under-listed : (k : String) (es : Entries) → under k es ≡ listed (number_at k es)
unfolding number_at
under-listed k empty = refl
under-listed k (entry j v rest) = elim (Bool-cases (j == k)) [
  | inl t ↦ rw t (same v)
  | inr t ↦ rw t (under-listed k rest)
]
  where
    same : (v : Node) → single v ≡ listed (number_of v)
    same (number n) = refl
    same other = refl
    same (dict es) = refl
    same (items ns) = refl

read_keys-Adds : (es : Entries) (c : Collected) → Adds (λ k. under (key_of k) es) c (read_keys es c)
unfolding read_keys
read_keys-Adds es c = record {
  total = λ k.
      total k (number_at (key_of k) es)
      ∙ ap (λ ns. combine k (c.out k) (combined k ns)) (sym (under-listed (key_of k) es));
  seen = λ k.
      seen k (number_at (key_of k) es)
      ∙ ap (λ ns. c.found k || any ns) (sym (under-listed (key_of k) es));
}
  where
    total :
        (k : Stat) (o : Option ℕ)
        → read_number k (c.out k) o ≡ combine k (c.out k) (combined k (listed o))
    total k none = sym (combine-zero k (c.out k))
    total k (some n) = ap (combine k (c.out k)) (sym (combine-zero k n))

    seen : (k : Stat) (o : Option ℕ) → (c.found k || is_some o) ≡ (c.found k || any (listed o))
    seen k none = refl
    seen k (some n) = refl

mutual
  unfolding walk numbers

  walk-Adds : (node : Node) (c : Collected) → Adds (λ k. numbers (key_of k) node) c (walk node c)
  walk-Adds (number n) c = Adds-nothing c
  walk-Adds other c = Adds-nothing c
  walk-Adds (dict es) c =
      Adds-trans _ _ c (read_keys es c) (walk_values es (read_keys es c)) (read_keys-Adds es c)
        (walk_values-Adds es (read_keys es c))
  walk-Adds (items ns) c = walk_items-Adds ns c

  walk_values-Adds :
      (es : Entries) (c : Collected) → Adds (λ k. value_numbers (key_of k) es) c (walk_values es c)
  walk_values-Adds empty c = Adds-nothing c
  walk_values-Adds (entry j v rest) c =
      Adds-trans _ _ c (walk v c) (walk_values rest (walk v c)) (walk-Adds v c)
        (walk_values-Adds rest (walk v c))

  walk_items-Adds :
      (ns : Nodes) (c : Collected) → Adds (λ k. item_numbers (key_of k) ns) c (walk_items ns c)
  walk_items-Adds nil c = Adds-nothing c
  walk_items-Adds (cons v rest) c =
      Adds-trans _ _ c (walk v c) (walk_items rest (walk v c)) (walk-Adds v c)
        (walk_items-Adds rest (walk v c))

combined-sum :
    (ns : List ℕ)
    → (combined row_hits ns ≡ sum ns)
      × (combined row_misses ns ≡ sum ns)
      × (combined row_conflicts ns ≡ sum ns)
      × (combined num_read_reqs ns ≡ sum ns)
combined-sum [] = (refl, refl, refl, refl)
combined-sum (n ∷ ns) =
    let (a, b, c, d) = combined-sum ns in
    (ap (λ m. n + m) a, ap (λ m. n + m) b, ap (λ m. n + m) c, ap (λ m. n + m) d)

combined-largest : (ns : List ℕ) → combined cycles ns ≡ largest ns
combined-largest [] = refl
combined-largest (n ∷ ns) = ap (max n) (combined-largest ns)

-- `_collect` adds up the numbers that stand under "row_hits", "row_misses", "row_conflicts" and
-- "num_read_reqs" in the dictionaries of the tree, takes the largest of those under "cycles", and has
-- found a key exactly where there is such a number.
pub collect-combined :
    (stats : Node)
    → ((collect stats).out row_hits ≡ sum (numbers "row_hits" stats))
      × ((collect stats).out row_misses ≡ sum (numbers "row_misses" stats))
      × ((collect stats).out row_conflicts ≡ sum (numbers "row_conflicts" stats))
      × ((collect stats).out num_read_reqs ≡ sum (numbers "num_read_reqs" stats))
      × ((collect stats).out cycles ≡ largest (numbers "cycles" stats))
      × ((collect stats).found row_hits ≡ any (numbers "row_hits" stats))
      × ((collect stats).found row_misses ≡ any (numbers "row_misses" stats))
      × ((collect stats).found row_conflicts ≡ any (numbers "row_conflicts" stats))
      × ((collect stats).found num_read_reqs ≡ any (numbers "num_read_reqs" stats))
      × ((collect stats).found cycles ≡ any (numbers "cycles" stats))
unfolding collect
collect-combined stats =
    let added = walk-Adds stats (record { out = λ k. 0; found = λ k. false }) in
    (
      added.total row_hits ∙ zero-combine row_hits _ ∙ (combined-sum (numbers "row_hits" stats)).0,
      added.total row_misses
          ∙ zero-combine row_misses _
          ∙ (combined-sum (numbers "row_misses" stats)).1,
      added.total row_conflicts
          ∙ zero-combine row_conflicts _
          ∙ (combined-sum (numbers "row_conflicts" stats)).2,
      added.total num_read_reqs
          ∙ zero-combine num_read_reqs _
          ∙ (combined-sum (numbers "num_read_reqs" stats)).3,
      added.total cycles ∙ zero-combine cycles _ ∙ combined-largest (numbers "cycles" stats),
      added.seen row_hits,
      added.seen row_misses,
      added.seen row_conflicts,
      added.seen num_read_reqs,
      added.seen cycles,
    )
