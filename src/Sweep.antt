-- ===== src/Sweep.antt =====
-- `expand` (pimkv/sweep.py): the cells of a sweep's configuration as a list of jobs, and the file names of
-- the jobs. What a job then runs is Runner.Cells; the process pool and the tables are left out.
pub mod Product
pub mod Jobs
pub mod Naming
use Prim.Native.String.{String}
use text.Mathlib.Text.{◌==◌ as str_eq}
use text.Mathlib.TextEquality.{eq_iff}
use chip_hackathon_f.Prelude.{
  ℕ, Bool, true, false, Option, none, some, List, [], ◌∷◌, ◌++◌, map, DictKey, if◌then◌else◌,
}
use chip_hackathon_f.Dict.{Dict, get, put}

instance abbrev pub string_eq : DictKey String
string_eq = record { agrees = str_eq; agrees_iff = eq_iff }

-- A scalar of the configuration; `decimal 13 1` is 1.3.
pub data Scalar : Type 0 where
  number : ℕ → Scalar
  decimal : ℕ → ℕ → Scalar
  word : String → Scalar

abbrev pub Settings : Type 0
Settings = Dict String Scalar

abbrev pub defaults : Settings
defaults =
    ("dram", word "hbm3-pim")
    ∷ ("addrmap", word "host-cacheline")
    ∷ ("model", word "llama-gqa-8kv")
    ∷ ("requests", number 1000)
    ∷ ("max_batch", number 64)
    ∷ ("sample_every", number 16)
    ∷ ("sample_seqs", number 8)
    ∷ ("window", number 64)
    ∷ ("coalesce", word "window")
    ∷ ("pool_blocks", number 0)
    ∷ ("headroom", decimal 13 1)
    ∷ ("kv_shards", number 1)
    ∷ ("spec_adopt", word "auto")
    ∷ ("pim_scratch", word "separate")
    ∷ ("pim_plan", word "bestfit")
    ∷ ("pim_compact", decimal 0 1)
    ∷ ("admission", word "oracle")
    ∷ []

-- An axis: its name in a cell, the key of the job that it sets, and whether that is an argument of the
-- workload.
pub record Axis : Type 0 where
  pub name : String
  pub key : String
  pub of_workload : Bool

abbrev pub axis : String → String → Bool → Axis
axis name key of_workload = record { name = name; key = key; of_workload = of_workload }

abbrev pub axes : List Axis
axes =
    axis "block_tokens" "block_tokens" false
    ∷ axis "seeds" "seed" false
    ∷ axis "headrooms" "headroom" false
    ∷ axis "kv_shards" "kv_shards" false
    ∷ axis "coalesce_modes" "coalesce" false
    ∷ axis "addrmaps" "addrmap" false
    ∷ axis "models" "model" false
    ∷ axis "spec_adopts" "spec_adopt" false
    ∷ axis "pim_scratch_modes" "pim_scratch" false
    ∷ axis "pim_plans" "pim_plan" false
    ∷ axis "pim_compacts" "pim_compact" false
    ∷ axis "max_batches" "max_batch" false
    ∷ axis "admission_modes" "admission" false
    ∷ axis "prompt_lens" "prompt_len" true
    ∷ axis "arrival_rates" "arrival_rate" true
    ∷ []

-- A cell by its entries: the lists that AXES names, the two lists of names, and the other settings, of
-- which `workload_kwargs` is a dictionary.
pub record Cell : Type 0 where
  pub workloads : List Scalar
  pub allocators : List Scalar
  pub axis_values : Dict String (List Scalar)
  pub settings : Settings
  pub kwargs : Option Settings

pub record SweepConfig : Type 0 where
  pub common : Settings
  pub common_kwargs : Option Settings
  pub cells : List Cell

pub record Job : Type 0 where
  pub settings : Settings
  pub kwargs : Settings

-- `dict(d, **e)`
unfoldable pub dict_with : Settings → Settings → Settings
dict_with d [] = d
dict_with d ((k, v) ∷ e) = dict_with (put k v d) e

abbrev keep_if : Option Scalar → String → Scalar → Settings → Settings
keep_if (some _) k v d = d
keep_if none k v d = put k v d

unfoldable pub set_default : String → Scalar → Settings → Settings
set_default k v d = keep_if (get k d) k v d

-- Every element of the first list with every one of the second; the second runs faster.
unfoldable pub cross {ℓ κ μ} :
    {A : Type ℓ} {B : Type κ} {C : Type μ} → (A → B → C) → List A → List B → List C
cross f [] ys = []
cross f (x ∷ xs) ys = map (f x) ys ++ cross f xs ys

-- `itertools.product`
unfoldable pub product {ℓ} : {A : Type ℓ} → List (List A) → List (List A)
unfolding cross
product [] = [] ∷ []
product (xs ∷ xss) = cross ◌∷◌ xs (product xss)

-- The axes of the cell, in the order of AXES, with their values.
abbrev with_values :
    Axis → Option (List Scalar) → List (Axis × List Scalar) → List (Axis × List Scalar)
with_values a none rest = rest
with_values a (some vs) rest = (a, vs) ∷ rest

unfoldable pub axis_names : List Axis → Dict String (List Scalar) → List (Axis × List Scalar)
axis_names [] cell = []
axis_names (a ∷ as_left) cell = with_values a (get a.name cell) (axis_names as_left cell)

unfoldable pub assign : Axis → Scalar → Job → Job
assign a v job =
    if a.of_workload
    then record job { kwargs = put a.key v job.kwargs }
    else record job { settings = put a.key v job.settings }

-- `for axis, val in zip(axis_names, combo)`
unfoldable pub assign_all : List Axis → List Scalar → Job → Job
unfolding assign
assign_all [] vs job = job
assign_all (a ∷ rest) [] job = job
assign_all (a ∷ rest) (v ∷ vs) job = assign_all rest vs (assign a v job)

unfoldable pub make_job : Job → Scalar → List Axis → Scalar → Scalar → List Scalar → Job
unfolding set_default assign_all
make_job base out_dir names wl al combo = assign_all names combo (record base {
  settings = set_default "seed" (number 0) (
      set_default "block_tokens" (number 16)
        (put "out_dir" out_dir (put "allocator" al (put "workload" wl base.settings))));
})

-- `job.get("workload_kwargs") or {}`, where the cell's entry comes before the common one.
abbrev kwargs_of : Option Settings → Option Settings → Settings
kwargs_of (some d) common = d
kwargs_of none (some d) = d
kwargs_of none none = []

unfoldable pub base_job : SweepConfig → Cell → Job
unfolding dict_with
base_job config cell = record {
  settings = dict_with (dict_with defaults config.common) cell.settings;
  kwargs = kwargs_of cell.kwargs config.common_kwargs;
}

unfoldable pub expand_cell : SweepConfig → Scalar → Cell → List Job
unfolding cross product axis_names make_job base_job
expand_cell config out_dir cell =
    let present = axis_names axes cell.axis_values in
    cross
      (λ wl (pair : Scalar × List Scalar).
        make_job (base_job config cell) out_dir (map (λ (p : Axis × List Scalar). p.0) present) wl
          pair.0 pair.1)
      cell.workloads
      (cross (λ al combo. (al, combo)) cell.allocators
        (product (map (λ (p : Axis × List Scalar). p.1) present)))

unfoldable pub expand_cells : SweepConfig → Scalar → List Cell → List Job
unfolding expand_cell
expand_cells config out_dir [] = []
expand_cells config out_dir (cell ∷ cells) =
    expand_cell config out_dir cell ++ expand_cells config out_dir cells

unfoldable pub expand : SweepConfig → Scalar → List Job
unfolding expand_cells
expand config out_dir = expand_cells config out_dir config.cells
