-- ===== src/Prelude/Counting.antt =====
-- How often a number stands in a list: the multiset view of lists of block ids.
use Prim.Native.Nat.{ℕ, zero, suc, ◌+◌, ◌≤◌}
use mathlib.Core.Path.{◌≡◌}
use mathlib.Core.Bool.{Bool, true, false, ◌&&◌}
use mathlib.Core.List.{List, [], ◌∷◌, ◌++◌}
use native.Mathlib.Omega.{arith}
use chip_hackathon_f.Prelude.Tests.{ltb, leb, nat_beq}
use chip_hackathon_f.Prelude.Lists.{length, range_from, take, drop}

-- 1 where the test holds, 0 elsewhere.
abbrev pub indicator : Bool → ℕ
indicator true = 1
indicator false = 0

abbrev pub count : ℕ → List ℕ → ℕ
count a [] = 0
count a (x ∷ xs) = indicator (nat_beq x a) + count a xs

pub count-append :
    (b : ℕ) (left right : List ℕ) → count b (left ++ right) ≡ count b left + count b right
count-append b [] right = omega arith
count-append b (x ∷ left) right = omega (arith, count-append b left right)

pub count-take-drop :
    (a n : ℕ) (xs : List ℕ) → count a (take n xs) + count a (drop n xs) ≡ count a xs
count-take-drop a zero xs = omega arith
count-take-drop a (suc n) [] = omega arith
count-take-drop a (suc n) (x ∷ xs) = omega (arith, count-take-drop a n xs)

pub count-le-length : (a : ℕ) (xs : List ℕ) → count a xs ≤ length xs
count-le-length a [] = omega arith
count-le-length a (x ∷ xs) = ground (arith, count-le-length a xs)

pub count-range_from :
    (a lo n : ℕ) → count a (range_from lo n) ≡ indicator (leb lo a && ltb a (lo + n))
count-range_from a lo zero = ground arith
count-range_from a lo (suc n) = ground (arith, count-range_from a (suc lo) n)
