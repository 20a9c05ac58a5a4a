-- ===== src/Pim.antt =====
-- PimAware: alignment-preserving placement (pimkv/allocator.py). The pool is cut into frames of
-- `frame_size` blocks. A heap of `heapq` is a list kept in ascending order: the code pops the least
-- entry, pushes, and asks for the length.
pub mod Frames
pub mod Valid
pub mod Contract
pub mod Planning
pub mod Compaction
pub mod Methods
pub mod Admission
use chip_hackathon_f.Prelude.{
  ℕ, zero, suc, ◌+◌, ◌-◌, ◌*◌, ◌/◌, ◌%◌, ◌≡◌, Bool, true, false, not, ◌&&◌, ◌||◌, Option, none,
  some, List, [], ◌∷◌, ◌++◌, arith, ltb, leb, nat_beq, if◌then◌else◌, length, get_elem?, set, range,
}
use chip_hackathon_f.Dict.{Dict, get, put, erase}
use chip_hackathon_f.Exec.{
  Error, admission_failure, index_error, value_error, Result, ok, err, Exec, pure, raise, ◌>>=◌,
  ◌>>◌, continue,
}
use chip_hackathon_f.Alloc.{SeqId, scratch, seq_id_eq, Policy, Pool, new_pool}
use chip_hackathon_f.Alloc

pub data PlanMode : Type 0 where
  bestfit greedy : PlanMode

-- `compact_below` is the fraction `compact_num / compact_den`.
pub record PimState : Type 0 where
  pub frame_size : ℕ
  pub segregate_scratch : Bool
  pub plan_mode : PlanMode
  pub plans : Dict SeqId (List ℕ)
  pub compact_num : ℕ
  pub compact_den : ℕ
  pub blocks_copied : ℕ
  pub compactions : ℕ
  pub n_frames : ℕ
  pub frame_free : List (List ℕ)
  pub empty_frames : List ℕ
  pub affinity : Dict SeqId ℕ
  pub nfree : ℕ

-- `heapq.heappush`
unfoldable pub heap_push : ℕ → List ℕ → List ℕ
heap_push x [] = x ∷ []
heap_push x (y ∷ ys) = if leb x y then x ∷ y ∷ ys else y ∷ heap_push x ys

abbrev pub fresh_frames : ℕ → ℕ → List (List ℕ)
fresh_frames g zero = []
fresh_frames g (suc n) = range g ∷ fresh_frames g n

-- One frame of a planning pass: how many slots are free in frame f.
pub record Slot : Type 0 where
  pub room : ℕ
  pub frame : ℕ

-- The frames with all their slots free, and those with some, in index order.
unfoldable pub empties : ℕ → ℕ → List (List ℕ) → List ℕ
empties g f [] = []
empties g f (free ∷ rest) =
    if nat_beq (length free) g then f ∷ empties g (suc f) rest else empties g (suc f) rest

-- `partials.sort(reverse=True)` over `(k, -f, f)`: most room first, the lowest frame on ties.
abbrev pub before : Slot → Slot → Bool
before a b = ltb b.room a.room || (nat_beq a.room b.room && leb a.frame b.frame)

unfoldable pub insert_slot : Slot → List Slot → List Slot
insert_slot a [] = a ∷ []
insert_slot a (b ∷ bs) = if before a b then a ∷ b ∷ bs else b ∷ insert_slot a bs

unfoldable pub partials : ℕ → ℕ → List (List ℕ) → List Slot
unfolding insert_slot
partials g f [] = []
partials g f (free ∷ rest) =
    let others = partials g (suc f) rest in
    if nat_beq (length free) g || nat_beq (length free) 0
    then others
    else insert_slot (record { room = length free; frame = f }) others

abbrev pub whole_slots : ℕ → List ℕ → List Slot
whole_slots g [] = []
whole_slots g (f ∷ fs) = record { room = g; frame = f } ∷ whole_slots g fs

-- Both loops of `_plan_frames`: take frames until the capacity reaches n.
unfoldable pub choose : ℕ → ℕ → List Slot → List ℕ × ℕ
choose n cap [] = ([], cap)
choose n cap (a ∷ rest) =
    let (chosen, total) = choose n (cap + a.room) rest in
    if leb n cap then ([], cap) else (a.frame ∷ chosen, total)

-- Whole frames first, then the partial ones.
unfoldable pub plan : ℕ → ℕ → List (List ℕ) → List ℕ × ℕ
unfolding empties partials choose
plan n g frames =
    let (whole, cap) = choose n 0 (whole_slots g (empties g 0 frames)) in
    let (part, total) = choose n cap (partials g 0 frames) in (whole ++ part, total)

abbrev is_bestfit : PlanMode → Bool
is_bestfit bestfit = true
is_bestfit greedy = false

unfoldable pub plan_frames : SeqId → ℕ → PimState → PimState
plan_frames k n p =
    let (chosen, cap) = plan n p.frame_size p.frame_free in
    if is_bestfit p.plan_mode && ltb 0 n && leb n cap
    then record p { plans = put k chosen p.plans }
    else p

-- `while planned and not self.frame_free[planned[0]]: planned.pop(0)`; `none` is an IndexError.
unfoldable pub skip_full : List (List ℕ) → List ℕ → Option (List ℕ)
skip_full frames [] = some []
skip_full frames (f ∷ fs) = elim (get_elem? frames f) [
  | none ↦ none
  | some [] ↦ skip_full frames fs
  | some (off ∷ offs) ↦ some (f ∷ fs)
]

-- `while self.empty_frames`: the first frame that is still empty, and the rest of the heap.
unfoldable pub first_empty : ℕ → List (List ℕ) → List ℕ → Option (Option ℕ × List ℕ)
first_empty g frames [] = some (none, [])
first_empty g frames (f ∷ fs) = elim (get_elem? frames f) [
  | none ↦ none
  | some free ↦ if nat_beq (length free) g then some (some f, fs) else first_empty g frames fs
]

-- The frame with the most free slots, the lowest on ties; `none` is `best = -1`.
unfoldable pub most_free : ℕ → List (List ℕ) → Option ℕ → ℕ → Option ℕ
most_free f [] best best_free = best
most_free f (free ∷ rest) best best_free =
    let better = ltb best_free (length free) in
    most_free (suc f) rest (if better then some f else best)
      (if better then length free else best_free)

abbrev pub claim : SeqId → ℕ → PimState → Result ℕ × PimState
claim k f p = (ok f, record p { affinity = put k f p.affinity })

abbrev fallback : SeqId → Option ℕ → PimState → Result ℕ × PimState
fallback k none p = (err admission_failure, p)
fallback k (some f) p = claim k f p

abbrev from_empty : SeqId → Option (Option ℕ × List ℕ) → PimState → Result ℕ × PimState
from_empty k none p = (err index_error, p)
from_empty k (some (some f, heap)) p = claim k f (record p { empty_frames = heap })
from_empty k (some (none, heap)) p =
    fallback k (most_free 0 p.frame_free none 0) (record p { empty_frames = heap })

unfoldable pub pick_empty : SeqId → PimState → Result ℕ × PimState
unfolding first_empty most_free
pick_empty k p = from_empty k (first_empty p.frame_size p.frame_free p.empty_frames) p

-- `f is not None and self.frame_free[f]`
abbrev in_affine : SeqId → ℕ → Option (List ℕ) → PimState → Result ℕ × PimState
in_affine k f none p = (err index_error, p)
in_affine k f (some []) p = pick_empty k p
in_affine k f (some (off ∷ offs)) p = (ok f, p)

abbrev by_affinity : SeqId → Option ℕ → PimState → Result ℕ × PimState
by_affinity k none p = pick_empty k p
by_affinity k (some f) p = in_affine k f (get_elem? p.frame_free f) p

unfoldable pub pick_affine : SeqId → PimState → Result ℕ × PimState
pick_affine k p = by_affinity k (get k p.affinity) p

-- What is left of the plan after its full frames are dropped.
abbrev in_plan : SeqId → Option (List ℕ) → PimState → Result ℕ × PimState
in_plan k none p = (err index_error, p)
in_plan k (some []) p = pick_affine k (record p { plans = erase k p.plans })
in_plan k (some (f ∷ fs)) p = (ok f, record p { plans = put k (f ∷ fs) p.plans })

abbrev by_plan : SeqId → Option (List ℕ) → PimState → Result ℕ × PimState
by_plan k none p = pick_affine k p
by_plan k (some []) p = pick_affine k p
by_plan k (some (f ∷ fs)) p = in_plan k (skip_full p.frame_free (f ∷ fs)) p

unfoldable pub pick_frame : SeqId → PimState → Result ℕ × PimState
pick_frame k p = by_plan k (get k p.plans) p

-- `off = heapq.heappop(self.frame_free[f])`
abbrev pop_slot : ℕ → Option (List ℕ) → PimState → Result ℕ × PimState
pop_slot f none p = (err index_error, p)
pop_slot f (some []) p = (err index_error, p)
pop_slot f (some (off ∷ offs)) p = (
  ok (f * p.frame_size + off),
  record p { frame_free = set p.frame_free f offs; nfree = p.nfree - 1 },
)

abbrev pub take_slot : ℕ → PimState → Result ℕ × PimState
take_slot f p = pop_slot f (get_elem? p.frame_free f) p

unfoldable pub alloc_one : SeqId → PimState → Result ℕ × PimState
alloc_one k p = continue take_slot (pick_frame k p)

abbrev push_slot : ℕ → ℕ → Option (List ℕ) → PimState → Result (Unit {0}) × PimState
push_slot f off none p = (err index_error, p)
push_slot f off (some offs) p =
    let grown = heap_push off offs in
    (
      ok tt,
      record p {
        frame_free = set p.frame_free f grown;
        nfree = p.nfree + 1;
        empty_frames =
            if nat_beq (length grown) p.frame_size
            then heap_push f p.empty_frames
            else p.empty_frames;
      },
    )

unfoldable pub free_one : ℕ → PimState → Result (Unit {0}) × PimState
unfolding heap_push
free_one b p =
    push_slot (b / p.frame_size) (b % p.frame_size) (get_elem? p.frame_free (b / p.frame_size)) p

unfoldable pub num_free : PimState → ℕ
num_free p = p.nfree

abbrev pub policy : Policy PimState
policy = record { alloc_one = alloc_one; free_one = free_one; num_free = num_free }

-- `__init__`, which raises ValueError unless the pool is a whole number of frames.
unfoldable pub init_state : ℕ → ℕ → Bool → PlanMode → ℕ → ℕ → PimState
init_state num_blocks g segregate mode num den = record {
  frame_size = g;
  segregate_scratch = segregate;
  plan_mode = mode;
  plans = [];
  compact_num = num;
  compact_den = den;
  blocks_copied = 0;
  compactions = 0;
  n_frames = num_blocks / g;
  frame_free = fresh_frames g (num_blocks / g);
  empty_frames = range (num_blocks / g);
  affinity = [];
  nfree = num_blocks;
}

unfoldable pub init : ℕ → ℕ → Bool → PlanMode → ℕ → ℕ → Result (Pool PimState)
unfolding init_state new_pool
init num_blocks g segregate mode num den =
    if nat_beq (num_blocks % g) 0
    then ok (new_pool num_blocks (init_state num_blocks g segregate mode num den))
    else err value_error
