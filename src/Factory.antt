-- ===== src/Factory.antt =====
-- `make_allocator` (pimkv/allocator.py): the allocator of a name. An unknown name is a KeyError there
-- and cannot be written here.
use native.Mathlib.Nat.{lt-div-mul-add, div-mul-le_self, mul-mod_left}
use chip_hackathon_f.Prelude.{ℕ, ◌+◌, ◌-◌, ◌*◌, ◌%◌, ◌≤◌, ◌<◌, ◌≡◌, Bool, [], arith, ceil_div}
use chip_hackathon_f.Exec.{Result, ok, err}
use chip_hackathon_f.Alloc.{Pool}
use chip_hackathon_f.Alloc.Invariant.{Inv}
use chip_hackathon_f.Alloc.Paged
use chip_hackathon_f.Alloc.Paged.{FreeBlocks}
use chip_hackathon_f.Alloc.Random
use chip_hackathon_f.Alloc.Random.{RandomBlocks}
use chip_hackathon_f.Contiguous
use chip_hackathon_f.Contiguous.{SpanState}
use chip_hackathon_f.Pim
use chip_hackathon_f.Pim.{PimState, PlanMode}
use chip_hackathon_f.Pim.Contract.{Lawful-pim}
use chip_hackathon_f.Pim.Admission.{init_pim-Inv}

pub data AllocatorName : Type 0 where
  paged random contiguous pim_aware : AllocatorName

pub data Built (G : Type 0) : Type 0 where
  paged_first_fit : Pool FreeBlocks → Built G
  random_alloc : Pool (RandomBlocks G) → Built G
  contiguous_oracle : Pool SpanState → Built G
  pim : Pool PimState → Built G

abbrev pim_built : {G : Type 0} → Result (Pool PimState) → Result (Built G)
pim_built (ok s) = ok (pim s)
pim_built (err e) = err e

-- The pool of `pim-aware` is padded to whole frames.
unfoldable pub padded : ℕ → ℕ → ℕ
padded num_blocks frame_blocks = ceil_div num_blocks frame_blocks * frame_blocks

module _ {G : Type 0} (rng : G) where
  unfoldable pub make_allocator : AllocatorName → ℕ → ℕ → Bool → PlanMode → ℕ → ℕ → Result (Built G)
  unfolding padded
  make_allocator paged n g segregate mode num den = ok (paged_first_fit (Paged.init n))
  make_allocator random n g segregate mode num den = ok (random_alloc (Random.init n rng))
  make_allocator contiguous n g segregate mode num den = ok (contiguous_oracle (Contiguous.init n))
  make_allocator pim_aware n g segregate mode num den =
      pim_built (Pim.init (padded n g) g segregate mode num den)

  -- For a positive frame size, `make_allocator` of the frame-affine policy returns, whatever the number
  -- of blocks that is asked for: the pool has at least that many, less than a frame more, and
  -- satisfies the invariant.
  pub make_allocator-pim :
      (n g : ℕ) (segregate : Bool) (mode : PlanMode) (num den : ℕ)
      → 0 < g
      → (s : Pool PimState) × (make_allocator pim_aware n g segregate mode num den ≡ ok (pim s))
        × (n ≤ padded n g)
        × (padded n g < n + g)
        × Inv (Lawful-pim (padded n g) num) [] s
  unfolding make_allocator padded
  make_allocator-pim n g segregate mode num den pos =
      let whole : ceil_div n g * g % g ≡ 0 = mul-mod_left (ceil_div n g) g in
      let (s, made, inv) = init_pim-Inv (ceil_div n g * g) g segregate mode num den pos whole in
      (
        s,
        rw made,
        omega (arith, lt-div-mul-add {a = n + (g - 1)} {b = g} pos),
        omega (arith, div-mul-le_self (n + (g - 1)) g, pos),
        inv,
      )
