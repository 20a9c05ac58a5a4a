-- ===== src/Sweep/Naming.antt =====
-- The name of a job's CSV file, as `_run_cell` puts it together (pimkv/sweep.py). The parts are kept
-- apart: the name is a function of them.
use Prim.Native.String.{String}
use chip_hackathon_f.Prelude.{
  ◌*◌, ◌^◌, ◌≡◌, refl, ap, ◌∙◌, Bool, false, ◌||◌, Option, none, some, List, [], ◌∷◌, arith,
  nat_beq, if◌then◌else◌, ◌==◌,
}
use chip_hackathon_f.Dict.{get, put, get-put}
use chip_hackathon_f.Exec.{Result, ok, err, key_error}
use chip_hackathon_f.Sweep.{Scalar, number, decimal, word, Settings, Job, defaults, string_eq}

-- `==` of Python, under which 1 and 1.0 are equal.
abbrev pub same_value : Scalar → Scalar → Bool
same_value (number a) (number b) = nat_beq a b
same_value (number a) (decimal b j) = nat_beq (a * 10 ^ j) b
same_value (decimal a i) (number b) = nat_beq a (b * 10 ^ i)
same_value (decimal a i) (decimal b j) = nat_beq (a * 10 ^ j) (b * 10 ^ i)
same_value (word a) (word b) = a == b
same_value _ _ = false

-- The settings that the tag mentions, with their letters in it.
abbrev pub tagged : List (String × String)
tagged =
    ("headroom", "hr")
    ∷ ("kv_shards", "sh")
    ∷ ("coalesce", "cm")
    ∷ ("model", "md")
    ∷ ("addrmap", "am")
    ∷ ("spec_adopt", "ad")
    ∷ ("pim_scratch", "ps")
    ∷ ("admission", "adm")
    ∷ ("pim_plan", "pl")
    ∷ ("pim_compact", "cp")
    ∷ ("max_batch", "mb")
    ∷ ("requests", "rq")
    ∷ []

-- `job[k]`
abbrev pub value_of : Option Scalar → Result Scalar
value_of none = err key_error
value_of (some v) = ok v

abbrev pub is_default : Scalar → Option Scalar → Bool
is_default v none = false
is_default v (some w) = same_value v w

abbrev pub tag_if :
    String
    → Result Scalar
    → Option Scalar
    → Result (List (String × Scalar))
    → Result (List (String × Scalar))
tag_if short (err e) default rest = err e
tag_if short (ok v) default (err e) = err e
tag_if short (ok v) default (ok tag) = ok (if is_default v default then tag else (short, v) ∷ tag)

unfoldable pub tag_of : List (String × String) → Settings → Result (List (String × Scalar))
tag_of [] job = ok []
tag_of ((k, short) ∷ rest) job =
    tag_if short (value_of (get k job)) (get k defaults) (tag_of rest job)

pub record CellName : Type 0 where
  pub workload : Result Scalar
  pub allocator : Result Scalar
  pub addrmap : Result Scalar
  pub block_tokens : Result Scalar
  pub kwargs : Settings
  pub tag : Result (List (String × Scalar))
  pub seed : Result Scalar

unfoldable pub cell_name : Job → CellName
unfolding tag_of
cell_name job = record {
  workload = value_of (get "workload" job.settings);
  allocator = value_of (get "allocator" job.settings);
  addrmap = value_of (get "addrmap" job.settings);
  block_tokens = value_of (get "block_tokens" job.settings);
  kwargs = job.kwargs;
  tag = tag_of tagged job.settings;
  seed = value_of (get "seed" job.settings);
}

abbrev among : String → List (String × String) → Bool
among k [] = false
among k ((j, _) ∷ rest) = (k == j) || among k rest

-- Whether the name of the file depends on a setting.
abbrev pub is_named : String → Bool
is_named k =
    (k == "workload")
    || (k == "allocator")
    || (k == "addrmap")
    || (k == "block_tokens")
    || (k == "seed")
    || among k tagged

value-put :
    (k j : String) (v : Scalar) (d : Settings)
    → (k == j) ≡ false
    → value_of (get j (put k v d)) ≡ value_of (get j d)
value-put k j v d h = ap value_of (get-put k j v d ∙ rw h refl)

tag-put :
    (k : String) (v : Scalar) (d : Settings) (names : List (String × String))
    → among k names ≡ false
    → tag_of names (put k v d) ≡ tag_of names d
unfolding tag_of
tag-put k v d [] h = refl
tag-put k v d ((j, short) ∷ rest) h =
    let other : (k == j) ≡ false = ground (arith, h) in
    let others : among k rest ≡ false = ground (arith, h) in
    rw (value-put k j v d other, tag-put k v d rest others) refl

same_parts :
    (kwargs : Settings) {wl wl' al al' am am' bt bt' : Result Scalar}
    {tag tag' : Result (List (String × Scalar))} {sd sd' : Result Scalar}
    → wl ≡ wl'
    → al ≡ al'
    → am ≡ am'
    → bt ≡ bt'
    → tag ≡ tag'
    → sd ≡ sd'
    → ◌≡◌ {A = CellName}
        (record {
          workload = wl;
          allocator = al;
          addrmap = am;
          block_tokens = bt;
          kwargs = kwargs;
          tag = tag;
          seed = sd;
        })
        (record {
          workload = wl';
          allocator = al';
          addrmap = am';
          block_tokens = bt';
          kwargs = kwargs;
          tag = tag';
          seed = sd';
        })
same_parts kwargs a b c d e f = rw (a, b, c, d, e, f) refl

put_unnamed :
    (job : Job) (k : String) (v : Scalar)
    → is_named k ≡ false
    → cell_name (record job { settings = put k v job.settings }) ≡ cell_name job
unfolding cell_name
put_unnamed job k v h =
    let wl : (k == "workload") ≡ false = ground (arith, h) in
    let al : (k == "allocator") ≡ false = ground (arith, h) in
    let am : (k == "addrmap") ≡ false = ground (arith, h) in
    let bt : (k == "block_tokens") ≡ false = ground (arith, h) in
    let sd : (k == "seed") ≡ false = ground (arith, h) in
    let tags : among k tagged ≡ false = ground (arith, h) in
    same_parts job.kwargs (value-put k "workload" v job.settings wl)
      (value-put k "allocator" v job.settings al) (value-put k "addrmap" v job.settings am)
      (value-put k "block_tokens" v job.settings bt) (tag-put k v job.settings tagged tags)
      (value-put k "seed" v job.settings sd)

-- The name of a cell's file does not depend on the memory preset, the number of blocks, the window or
-- the sampling: whatever a job sets for `dram`, `pool_blocks`, `window`, `sample_every` or
-- `sample_seqs`, its file has the name that it has without that, while a job for another workload,
-- allocator, address map, block size or seed names that one.
pub cell_name-unnamed :
    (job : Job) (v : Scalar)
    → (cell_name (record job { settings = put "dram" v job.settings }) ≡ cell_name job)
      × (cell_name (record job { settings = put "pool_blocks" v job.settings }) ≡ cell_name job)
      × (cell_name (record job { settings = put "window" v job.settings }) ≡ cell_name job)
      × (cell_name (record job { settings = put "sample_every" v job.settings }) ≡ cell_name job)
      × (cell_name (record job { settings = put "sample_seqs" v job.settings }) ≡ cell_name job)
      × ((cell_name (record job { settings = put "workload" v job.settings })).workload ≡ ok v)
      × ((cell_name (record job { settings = put "allocator" v job.settings })).allocator ≡ ok v)
      × ((cell_name (record job { settings = put "addrmap" v job.settings })).addrmap ≡ ok v)
      × ((cell_name (record job { settings = put "block_tokens" v job.settings })).block_tokens
          ≡ ok v)
      × ((cell_name (record job { settings = put "seed" v job.settings })).seed ≡ ok v)
unfolding cell_name
cell_name-unnamed job v = (
  put_unnamed job "dram" v refl,
  put_unnamed job "pool_blocks" v refl,
  put_unnamed job "window" v refl,
  put_unnamed job "sample_every" v refl,
  put_unnamed job "sample_seqs" v refl,
  ap value_of (get-put "workload" "workload" v job.settings),
  ap value_of (get-put "allocator" "allocator" v job.settings),
  ap value_of (get-put "addrmap" "addrmap" v job.settings),
  ap value_of (get-put "block_tokens" "block_tokens" v job.settings),
  ap value_of (get-put "seed" "seed" v job.settings),
)
