-- ===== src/Alloc/Invariant.antt =====
-- What a placement policy promises, and the invariant of the reference counts.
use chip_hackathon_f.Prelude.{ℕ, ◌+◌, ◌<◌, ◌≡◌, List, ltb, nat_beq, indicator, count, length}
use chip_hackathon_f.Dict.{weight}
use chip_hackathon_f.Dict.Weights.{is_key, refs_of, is_dead}
use chip_hackathon_f.Exec.{Returns}
use chip_hackathon_f.Alloc.{SeqId, Policy, Pool}

-- What a policy state stands for: when it is well formed, and the free blocks.
pub record View (P : Type 0) : Type 1 where
  pub IsValid : P → Type 0
  pub free : P → List ℕ

-- `b` was free, and is not any more.
pub record Taken {P : Type 0} (policy : Policy P) (view : View P) (p : P) (b : ℕ) (q : P)
    : Type 0 where
  pub valid : view.IsValid q
  pub counts : (x : ℕ) → count x (view.free q) + indicator (nat_beq b x) ≡ count x (view.free p)
  pub fewer : policy.num_free q + 1 ≡ policy.num_free p

-- `b` is free again.
pub record Given {P : Type 0} (policy : Policy P) (view : View P) (p : P) (b : ℕ) (q : P)
    : Type 0 where
  pub valid : view.IsValid q
  pub counts : (x : ℕ) → count x (view.free q) ≡ count x (view.free p) + indicator (nat_beq b x)
  pub more : policy.num_free q ≡ policy.num_free p + 1

-- The contract of a policy over the blocks below `size`.
pub record Lawful {P : Type 0} (policy : Policy P) (size : ℕ) : Type 1 where
  pub view : View P
  pub takes :
      (k : SeqId) (p : P)
      → view.IsValid p
      → 0 < policy.num_free p
      → Returns (λ b q. Taken policy view p b q) (policy.alloc_one k p)
  pub gives :
      (b : ℕ) (p : P)
      → view.IsValid p
      → b < size
      → count b (view.free p) ≡ 0
      → Returns (λ _ q. Given policy view p b q) (policy.free_one b p)

abbrev pub uses : ℕ → SeqId → List ℕ → ℕ
uses b k table = count b table

-- `held` are the blocks that a caller of `alloc_scratch` owns. Each block below `size` is free or
-- live, once; a count is the number of references; the counters match.
pub record Inv {P : Type 0} {policy : Policy P} {size : ℕ} (laws : Lawful policy size)
    (held : List ℕ) (s : Pool P) : Type 0 where
  pub valid : laws.view.IsValid s.placement
  pub counted : (b : ℕ) → weight (refs_of b) s.refcount ≡ weight (uses b) s.tables + count b held
  pub placed :
      (b : ℕ)
      → weight (is_key b) s.refcount + count b (laws.view.free s.placement) ≡ indicator (ltb b size)
  pub alive : weight is_dead s.refcount ≡ 0
  pub ledger : s.allocated_total ≡ s.freed_total + length s.refcount
  pub whole : length s.refcount + policy.num_free s.placement ≡ size
  pub sized : s.num_blocks ≡ size
