-- ===== src/Dict/Weights.antt =====
-- Sums over a dictionary of reference counts.
use chip_hackathon_f.Prelude.{
  ℕ, ◌≤◌, ◌<◌, ◌≡◌, refl, none, some, [], ◌∷◌, arith, nat_beq, nat_eq, indicator, length,
  if◌then◌else◌,
}
use chip_hackathon_f.Dict.{Dict, get, weight}

-- 1 at the entry of the block, and its reference count.
abbrev pub is_key : ℕ → ℕ → ℕ → ℕ
is_key b k n = indicator (nat_beq k b)

abbrev pub refs_of : ℕ → ℕ → ℕ → ℕ
refs_of b k n = if nat_beq k b then n else 0

abbrev pub is_dead : ℕ → ℕ → ℕ
is_dead k n = indicator (nat_beq n 0)

abbrev pub one : ℕ → ℕ → ℕ
one k n = 1

pub length-weight : (d : Dict ℕ ℕ) → length d ≡ weight one d
length-weight [] = refl
length-weight ((k, n) ∷ d) = omega (arith, length-weight d)

pub get-none : (b : ℕ) (d : Dict ℕ ℕ) → weight (is_key b) d ≡ 0 → get b d ≡ none
unfolding get
get-none b [] h = refl
get-none b ((k, n) ∷ d) h = ground (arith, get-none b d)

pub refs-none : (b : ℕ) (d : Dict ℕ ℕ) → weight (is_key b) d ≡ 0 → weight (refs_of b) d ≡ 0
refs-none b [] h = refl
refs-none b ((k, n) ∷ d) h = ground (arith, refs-none b d)

pub keys-none : (b : ℕ) (d : Dict ℕ ℕ) → get b d ≡ none → weight (is_key b) d ≡ 0
unfolding get
keys-none b [] h = refl
keys-none b ((k, n) ∷ d) h = ground (arith, keys-none b d)

pub keys-some : (b n : ℕ) (d : Dict ℕ ℕ) → get b d ≡ some n → 0 < weight (is_key b) d
unfolding get
keys-some b n [] h = cc
keys-some b n ((k, m) ∷ d) h = ground (arith, keys-some b n d)

-- Where a block has one entry, its total is what a lookup finds.
pub refs-get :
    (b n : ℕ) (d : Dict ℕ ℕ) → get b d ≡ some n → weight (is_key b) d ≤ 1 → weight (refs_of b) d ≡ n
unfolding get
refs-get b n [] h u = cc
refs-get b n ((k, m) ∷ d) h u = ground (arith, refs-get b n d, refs-none b d)

pub dead-get : (b n : ℕ) (d : Dict ℕ ℕ) → get b d ≡ some n → weight is_dead d ≡ 0 → 0 < n
unfolding get
dead-get b n [] h u = cc
dead-get b n ((k, m) ∷ d) h u = ground (arith, dead-get b n d)
