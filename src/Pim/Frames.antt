-- ===== src/Pim/Frames.antt =====
-- The free blocks of the frames, as one multiset.
use chip_hackathon_f.Prelude.{
  ℕ, zero, suc, ◌+◌, ◌*◌, ◌≡◌, refl, some, List, [], ◌∷◌, ◌++◌, arith, leb, nat_beq, indicator,
  count, count-append, length, get_elem?, set,
}
use chip_hackathon_f.Pim.{heap_push}

-- The block ids of the free offsets of frame f.
abbrev pub blocks_at : ℕ → ℕ → List ℕ → List ℕ
blocks_at g f [] = []
blocks_at g f (off ∷ offs) = (f * g + off) ∷ blocks_at g f offs

abbrev pub free_blocks : ℕ → ℕ → List (List ℕ) → List ℕ
free_blocks g f [] = []
free_blocks g f (offs ∷ rest) = blocks_at g f offs ++ free_blocks g (suc f) rest

abbrev pub room : List (List ℕ) → ℕ
room [] = 0
room (offs ∷ rest) = length offs + room rest

pub count-heap_push :
    (g f x y : ℕ) (offs : List ℕ)
    → count x (blocks_at g f (heap_push y offs))
      ≡ count x (blocks_at g f offs) + indicator (nat_beq (f * g + y) x)
unfolding heap_push
count-heap_push g f x y [] = omega arith
count-heap_push g f x y (z ∷ offs) = ground (arith, count-heap_push g f x y offs)

pub length-heap_push : (y : ℕ) (offs : List ℕ) → length (heap_push y offs) ≡ suc (length offs)
unfolding heap_push
length-heap_push y [] = refl
length-heap_push y (z ∷ offs) = ground (arith, length-heap_push y offs)

-- The entries of a list of frame numbers that name no frame.
abbrev pub strays : ℕ → List ℕ → ℕ
strays n [] = 0
strays n (f ∷ fs) = indicator (leb n f) + strays n fs

pub strays-append : (n : ℕ) (fs gs : List ℕ) → strays n (fs ++ gs) ≡ strays n fs + strays n gs
strays-append n [] gs = omega arith
strays-append n (f ∷ fs) gs = omega (arith, strays-append n fs gs)

pub strays-heap_push :
    (n f : ℕ) (fs : List ℕ) → strays n (heap_push f fs) ≡ indicator (leb n f) + strays n fs
unfolding heap_push
strays-heap_push n f [] = omega arith
strays-heap_push n f (h ∷ fs) = ground (arith, strays-heap_push n f fs)

-- What a write to one frame does to the multiset and to the number of free slots.
pub count-set_frame :
    (g x i f j : ℕ) (old new : List ℕ) (frames : List (List ℕ))
    → j ≡ i + f
    → get_elem? frames f ≡ some old
    → count x (free_blocks g i (set frames f new)) + count x (blocks_at g j old)
      ≡ count x (free_blocks g i frames) + count x (blocks_at g j new)
count-set_frame g x i f j old new [] h e = cc
count-set_frame g x i zero j old new (offs ∷ rest) h e =
    let p : j ≡ i = omega arith in
    rw p (
      ground (
        arith,
        count-append x (blocks_at g i offs) (free_blocks g (suc i) rest),
        count-append x (blocks_at g i new) (free_blocks g (suc i) rest),
      ))
count-set_frame g x i (suc f) j old new (offs ∷ rest) h e = omega (
  arith,
  count-append x (blocks_at g i offs) (free_blocks g (suc i) rest),
  count-append x (blocks_at g i offs) (free_blocks g (suc i) (set rest f new)),
  count-set_frame g x (suc i) f j old new rest (omega arith) e,
)

pub room-set :
    (f : ℕ) (old new : List ℕ) (frames : List (List ℕ))
    → get_elem? frames f ≡ some old
    → room (set frames f new) + length old ≡ room frames + length new
room-set f old new [] e = cc
room-set zero old new (offs ∷ rest) e = ground arith
room-set (suc f) old new (offs ∷ rest) e = omega (arith, room-set f old new rest e)
