-- ===== src/Exec.antt =====
-- Methods that change an object and may raise. What was written before a raise stays written, so
-- the state comes back beside the error too.

use mathlib.Core.List.{List, [], ◌∷◌}

-- The exceptions that the modelled code raises; `diverged` is a loop of the model without fuel.
pub data Error : Type 0 where
  admission_failure value_error key_error index_error attribute_error assertion_error
        not_implemented zero_division diverged :
      Error

pub data Result {ℓ} (A : Type ℓ) : Type ℓ where
  ok : A → Result A
  err : Error → Result A

-- A list of fallible values: the first error, or all of them.
abbrev pub cons_result {ℓ} : {A : Type ℓ} → Result A → Result (List A) → Result (List A)
cons_result (ok a) (ok as_left) = ok (a ∷ as_left)
cons_result (ok a) (err e) = err e
cons_result (err e) rest = err e

abbrev pub and_then {ℓ κ} : {A : Type ℓ} {B : Type κ} → Result A → (A → Result B) → Result B
and_then (ok a) f = f a
and_then (err e) f = err e

unfoldable pub each {ℓ κ} : {A : Type ℓ} {B : Type κ} → (A → Result B) → List A → Result (List B)
each f [] = ok []
each f (x ∷ xs) = cons_result (f x) (each f xs)

abbrev pub Exec {ℓ} : Type ℓ → Type ℓ → Type ℓ
Exec S A = S → Result A × S

module _ {ℓ} {S A : Type ℓ} where
  abbrev pub pure : A → Exec S A
  pure a s = (ok a, s)

  abbrev pub raise : Error → Exec S A
  raise c s = (err c, s)

module _ {ℓ} {S A B : Type ℓ} where
  abbrev pub continue : (A → Exec S B) → Result A × S → Result B × S
  continue f (ok a, s) = f a s
  continue f (err c, s) = (err c, s)

  infixl 5 ◌>>=◌ ◌>>◌
  abbrev pub ◌>>=◌ : Exec S A → (A → Exec S B) → Exec S B
  ◌>>=◌ m f s = continue f (m s)

  abbrev pub ◌>>◌ : Exec S A → Exec S B → Exec S B
  m >> n = m >>= λ _. n

-- The call returned, and what it returned satisfies `Q`.
pub data Returns {ℓ} {S A : Type ℓ} (Q : A → S → Type ℓ) : Result A × S → Type ℓ where
  returns : {a : A} {s : S} → Q a s → Returns Q (ok a, s)

module _ {ℓ} {S A B : Type ℓ} {Q : A → S → Type ℓ} {R : B → S → Type ℓ} where
  pub Returns-continue :
      {r : Result A × S} (f : A → Exec S B)
      → Returns Q r
      → ((a : A) (s : S) → Q a s → Returns R (f a s))
      → Returns R (continue f r)
  Returns-continue f (returns {a} {s} q) h = h a s q

module _ {ℓ} {S A : Type ℓ} {Q R : A → S → Type ℓ} where
  pub Returns-mono :
      {r : Result A × S} → Returns Q r → ((a : A) (s : S) → Q a s → R a s) → Returns R r
  Returns-mono (returns {a} {s} q) h = returns (h a s q)
