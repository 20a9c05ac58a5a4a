-- ===== src/Pim/Compaction.antt =====
-- Opportunistic compaction: `_owners` and `compact` (pimkv/allocator.py).
use chip_hackathon_f.Prelude.{
  ℕ, zero, suc, ◌+◌, ◌-◌, ◌*◌, ◌%◌, Bool, true, false, not, ◌&&◌, ◌||◌, Option, none, some, List,
  [], ◌∷◌, ◌++◌, ltb, nat_beq, nat_eq, if◌then◌else◌, length, get_elem?, set, range,
}
use chip_hackathon_f.Dict.{Dict, get, put, erase}
use chip_hackathon_f.Exec.{index_error, ok, Exec, pure, raise, ◌>>=◌, ◌>>◌, continue}
use chip_hackathon_f.Alloc.{SeqId, seq_id_eq, Pool, fetch}
use chip_hackathon_f.Pim.{PimState, heap_push}

abbrev pub mem : ℕ → List ℕ → Bool
mem x [] = false
mem x (y ∷ ys) = nat_beq y x || mem x ys

-- Where a block stands: the key of a table and an index.
abbrev pub Places : Type 0
Places = List (SeqId × ℕ)

abbrev or_empty : Option Places → Places
or_empty none = []
or_empty (some places) = places

-- `own.setdefault(b, []).append((key, i))`
unfoldable pub owners_of_table : SeqId → ℕ → List ℕ → Dict ℕ Places → Dict ℕ Places
owners_of_table k i [] own = own
owners_of_table k i (b ∷ bs) own =
    owners_of_table k (suc i) bs (put b (or_empty (get b own) ++ (k, i) ∷ []) own)

unfoldable pub owners_from : Dict SeqId (List ℕ) → Dict ℕ Places → Dict ℕ Places
unfolding owners_of_table
owners_from [] own = own
owners_from ((k, table) ∷ rest) own = owners_from rest (owners_of_table k 0 table own)

unfoldable pub owners : Dict SeqId (List ℕ) → Dict ℕ Places
unfolding owners_from
owners tables = owners_from tables []

-- The frames with `0 < used < compact_below * frame_size`.
unfoldable pub donors : ℕ → ℕ → ℕ → ℕ → List (List ℕ) → List ℕ
donors num den g f [] = []
donors num den g f (free ∷ rest) =
    let others = donors num den g (suc f) rest in
    let used = g - length free in
    if ltb 0 used && ltb (used * den) (num * g) then f ∷ others else others

-- The blocks of frame f whose offset is not free.
unfoldable pub occupied : ℕ → ℕ → List ℕ → List ℕ → List ℕ
occupied g f free [] = []
occupied g f free (o ∷ os) =
    let rest = occupied g f free os in if mem o free then rest else (f * g + o) ∷ rest

-- `used > best_used`, where `none` stands for -1.
abbrev beats : ℕ → Option (ℕ × ℕ) → Bool
beats used none = true
beats used (some (best, best_used)) = ltb best_used used

abbrev has_room : List ℕ → Bool
has_room [] = false
has_room (off ∷ offs) = true

-- The fullest frame that has room, other than f and the donors, with its use.
unfoldable pub fullest : ℕ → ℕ → List ℕ → ℕ → List (List ℕ) → Option (ℕ × ℕ) → Option (ℕ × ℕ)
fullest size f givers g [] best = best
fullest size f givers g (free ∷ rest) best =
    let used = size - length free in
    let skipped = nat_beq g f || mem g givers || not (has_room free) in
    fullest size f givers (suc g) rest
      (if not skipped && beats used best then some (g, used) else best)

-- `self.tables[key][i] = nb` for every place.
unfoldable pub rewrite_places : ℕ → Places → Exec (Pool PimState) (Unit {0})
rewrite_places nb [] = pure tt
rewrite_places nb ((k, i) ∷ places) = do
  table ← λ s. fetch (get k s.tables) s
  λ s. (ok tt, record s { tables = put k (set table i nb) s.tables })
  rewrite_places nb places

-- What one compaction carries: the owners, and how many blocks moved.
pub record Moving : Type 0 where
  pub own : Dict ℕ Places
  pub moved : ℕ

abbrev set_frame : ℕ → List ℕ → Exec (Pool PimState) (Unit {0})
set_frame f free s = (
  ok tt,
  record s { placement = record s.placement { frame_free = set s.placement.frame_free f free } },
)

-- `off = heapq.heappop(self.frame_free[best])`, as a block id.
abbrev pop_block : ℕ → Option (List ℕ) → Exec (Pool PimState) ℕ
pop_block f (some (off ∷ offs)) = do
  set_frame f offs
  λ s. (ok (f * s.placement.frame_size + off), s)
pop_block f _ = raise index_error

abbrev take_from : ℕ → Exec (Pool PimState) ℕ
take_from f s = pop_block f (get_elem? s.placement.frame_free f) s

-- `self.refcount[nb] = self.refcount.pop(b)`
abbrev move_ref : ℕ → ℕ → Exec (Pool PimState) (Unit {0})
move_ref b nb s =
    continue (λ rc s. (ok tt, record s { refcount = put nb rc (erase b s.refcount) }))
      (fetch (get b s.refcount) s)

-- The freed offset goes back to its frame, which may be empty again.
abbrev give_back : ℕ → ℕ → Option (List ℕ) → Exec (Pool PimState) (Unit {0})
give_back f off none s = raise index_error s
give_back f off (some free) s =
    let grown = heap_push off free in
    (
      ok tt,
      record s {
        placement = record s.placement {
          frame_free = set s.placement.frame_free f grown;
          empty_frames =
              if nat_beq (length grown) s.placement.frame_size
              then heap_push f s.placement.empty_frames
              else s.placement.empty_frames;
        };
      },
    )

abbrev return_slot : ℕ → ℕ → Exec (Pool PimState) (Unit {0})
return_slot f b s = give_back f (b % s.placement.frame_size) (get_elem? s.placement.frame_free f) s

abbrev move_to : ℕ → ℕ → Places → Moving → Option (ℕ × ℕ) → Exec (Pool PimState) Moving
move_to f b places m none = pure m
move_to f b places m (some (best, _)) = do
  nb ← take_from best
  move_ref b nb
  rewrite_places nb places
  return_slot f b
  pure (record { own = put nb places m.own; moved = m.moved + 1 })

-- One occupied block of a donor: only a block that some table reaches can move.
abbrev move_owned : ℕ → ℕ → List ℕ → Moving → Places → Exec (Pool PimState) Moving
move_owned f b givers m [] s = pure m s
move_owned f b givers m (place ∷ places) s =
    move_to f b (place ∷ places) m
      (fullest s.placement.frame_size f givers 0 s.placement.frame_free none) s

unfoldable pub move_block : ℕ → ℕ → List ℕ → Moving → Exec (Pool PimState) Moving
unfolding fullest rewrite_places heap_push
move_block f b givers m = move_owned f b givers m (or_empty (get b m.own))

unfoldable pub move_blocks : ℕ → List ℕ → List ℕ → Moving → Exec (Pool PimState) Moving
move_blocks f givers [] m = pure m
move_blocks f givers (b ∷ bs) m = do m' ← move_block f b givers m; move_blocks f givers bs m'

abbrev occupied_in : ℕ → Option (List ℕ) → Exec (Pool PimState) (List ℕ)
occupied_in f none s = raise index_error s
occupied_in f (some free) s =
    (ok (occupied s.placement.frame_size f free (range s.placement.frame_size)), s)

unfoldable pub move_donors : List ℕ → List ℕ → Moving → Exec (Pool PimState) Moving
move_donors givers [] m = pure m
move_donors givers (f ∷ fs) m = do
  blocks ← λ s. occupied_in f (get_elem? s.placement.frame_free f) s
  m' ← move_blocks f givers blocks m
  move_donors givers fs m'

abbrev count_moves : ℕ → Exec (Pool PimState) ℕ
count_moves zero s = pure 0 s
count_moves (suc n) s = (
  ok (suc n),
  record s {
    placement = record s.placement {
      compactions = s.placement.compactions + 1;
      blocks_copied = s.placement.blocks_copied + suc n;
    };
  },
)

unfoldable pub compact : Exec (Pool PimState) ℕ
unfolding donors occupied move_donors move_blocks move_block owners
compact s =
    let p = s.placement in
    let givers = donors p.compact_num p.compact_den p.frame_size 0 p.frame_free in
    (do
      m ← move_donors givers givers (record { own = owners s.tables; moved = 0 })
      count_moves m.moved)
      s
