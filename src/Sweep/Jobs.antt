-- ===== src/Sweep/Jobs.antt =====
-- The jobs of a sweep: how many there are, in which order, and what each one sets.
use Prim.Native.String.{String}
use text.Mathlib.TextEquality.{eq_iff}
use chip_hackathon_f.Prelude.{
  ℕ, zero, suc, ◌+◌, ◌*◌, ◌≡◌, refl, ap, ◌∙◌, Bool, true, false, some, List, [], ◌∷◌, map, arith,
  length, length-append, get_elem?, Bool-cases, inl, inr, ◌&&◌, ◌||◌, not, Option-cases, ◌==◌,
}
use chip_hackathon_f.Dict.{Dict, get, put, get-put}
use chip_hackathon_f.Sweep.{
  Scalar, Settings, Axis, axes, Cell, SweepConfig, Job, cross, product, axis_names, assign,
  assign_all, make_job, expand_cell, expand_cells, expand, string_eq, base_job, set_default,
}
use chip_hackathon_f.Sweep.Product.{length-cross, get-cross, sizes, length-product}

abbrev pub present : Cell → List (Axis × List Scalar)
present cell = axis_names axes cell.axis_values

abbrev pub names_of : Cell → List Axis
names_of cell = map (λ (p : Axis × List Scalar). p.0) (present cell)

abbrev pub values_of : Cell → List (List Scalar)
values_of cell = map (λ (p : Axis × List Scalar). p.1) (present cell)

-- The jobs of a cell: one for each workload, allocator and choice of a value on every axis.
abbrev pub cell_jobs : Cell → ℕ
cell_jobs cell = length cell.workloads * (length cell.allocators * sizes (values_of cell))

abbrev pub all_jobs : List Cell → ℕ
all_jobs [] = 0
all_jobs (cell ∷ cells) = cell_jobs cell + all_jobs cells

length-expand_cell :
    (config : SweepConfig) (out_dir : Scalar) (cell : Cell)
    → length (expand_cell config out_dir cell) ≡ cell_jobs cell
unfolding expand_cell
length-expand_cell config out_dir cell =
    length-cross _ cell.workloads _
    ∙ ap (λ n. length cell.workloads * n)
        (length-cross _ cell.allocators (product (values_of cell))
          ∙ ap (λ n. length cell.allocators * n) (length-product (values_of cell)))

length-expand_cells :
    (config : SweepConfig) (out_dir : Scalar) (cells : List Cell)
    → length (expand_cells config out_dir cells) ≡ all_jobs cells
unfolding expand_cells
length-expand_cells config out_dir [] = refl
length-expand_cells config out_dir (cell ∷ cells) = omega (
  arith,
  length-append (expand_cell config out_dir cell) (expand_cells config out_dir cells),
  length-expand_cell config out_dir cell,
  length-expand_cells config out_dir cells,
)

-- A configuration expands to the sum over its cells of the number of workloads, times the number of
-- allocators, times the product of the numbers of values on the axes of the cell.
pub length-expand :
    (config : SweepConfig) (out_dir : Scalar)
    → length (expand config out_dir) ≡ all_jobs config.cells
unfolding expand
length-expand config out_dir = length-expand_cells config out_dir config.cells

-- No axis of the list sets the key in the settings of a job.
abbrev pub absent : String → List Axis → Bool
absent k [] = true
absent k (a ∷ rest) = (a.of_workload || not (a.key == k)) && absent k rest

abbrev pub Distinct : List Axis → Type 0
Distinct [] = Unit {0}
Distinct (a ∷ rest) = (absent a.key rest ≡ true) × Distinct rest

axes-Distinct : Distinct axes
axes-Distinct = (
  refl,
  (
    refl,
    (
      refl,
      (
        refl,
        (refl, (refl, (refl, (refl, (refl, (refl, (refl, (refl, (refl, (refl, (refl, tt))))))))))),
      ),
    ),
  ),
)

workload_is_no_axis : absent "workload" axes ≡ true
workload_is_no_axis = refl

module _ (cell : Dict String (List Scalar)) where
  absent-present :
      (k : String) (names : List Axis)
      → absent k names ≡ true
      → absent k (map (λ (p : Axis × List Scalar). p.0) (axis_names names cell)) ≡ true
  unfolding axis_names
  absent-present k [] h = refl
  absent-present k (a ∷ rest) h = elim (Option-cases (get a.name cell)) [
    | inl e ↦ rw e (absent-present k rest (ground (arith, h)))
    | inr (vs, e) ↦ rw e (ground (arith, h, absent-present k rest))
  ]

  Distinct-present :
      (names : List Axis)
      → Distinct names
      → Distinct (map (λ (p : Axis × List Scalar). p.0) (axis_names names cell))
  unfolding axis_names
  Distinct-present [] d = tt
  Distinct-present (a ∷ rest) (first, d) = elim (Option-cases (get a.name cell)) [
    | inl e ↦ rw e (Distinct-present rest d)
    | inr (vs, e) ↦ rw e (absent-present a.key rest first, Distinct-present rest d)
  ]

assign-other :
    (k : String) (a : Axis) (rest : List Axis) (v : Scalar) (job : Job)
    → absent k (a ∷ rest) ≡ true
    → get k (assign a v job).settings ≡ get k job.settings
unfolding assign
assign-other k a rest v job h = elim (Bool-cases a.of_workload) [
  | inl t ↦ rw t refl
  | inr t ↦
      let other : (a.key == k) ≡ false = ground (arith, h, t) in
      rw t (get-put a.key k v job.settings ∙ rw other refl)
]

assign-own :
    (a : Axis) (v : Scalar) (job : Job)
    → a.of_workload ≡ false
    → get a.key (assign a v job).settings ≡ some v
unfolding assign
assign-own a v job t =
    let own : (a.key == a.key) ≡ true = (eq_iff a.key a.key).1 refl in
    rw t (get-put a.key a.key v job.settings ∙ rw own refl)

-- A key that no axis sets is left alone.
get-assign_all :
    (k : String) (names : List Axis) (vs : List Scalar) (job : Job)
    → absent k names ≡ true
    → get k (assign_all names vs job).settings ≡ get k job.settings
unfolding assign_all
get-assign_all k [] vs job h = refl
get-assign_all k (a ∷ rest) [] job h = refl
get-assign_all k (a ∷ rest) (v ∷ vs) job h =
    get-assign_all k rest vs (assign a v job) (ground (arith, h)) ∙ assign-other k a rest v job h

-- The key of an axis is set to the value that was chosen for it.
get-chosen :
    (names : List Axis) (vs : List Scalar) (job : Job) (p : ℕ) (a : Axis) (v : Scalar)
    → Distinct names
    → get_elem? names p ≡ some a
    → get_elem? vs p ≡ some v
    → a.of_workload ≡ false
    → get a.key (assign_all names vs job).settings ≡ some v
unfolding assign_all
get-chosen [] vs job p a v d e f t = absurd cc
get-chosen (b ∷ rest) [] job p a v d e f t = absurd cc
get-chosen (b ∷ rest) (w ∷ vs) job zero a v (first, d) e f t =
    let same : b ≡ a = ground (arith, e) in
    let value : w ≡ v = ground (arith, f) in
    rw (← same, ← value)
      (get-assign_all b.key rest vs (assign b w job) first
        ∙ assign-own b w job (ap (λ (x : Axis). x.of_workload) same ∙ t))
get-chosen (b ∷ rest) (w ∷ vs) job (suc p) a v (first, d) e f t =
    get-chosen rest vs (assign b w job) p a v d e f t

get-set_default :
    (k j : String) (v : Scalar) (d : Settings)
    → (k == j) ≡ false
    → get j (set_default k v d) ≡ get j d
unfolding set_default
get-set_default k j v d h = elim (Option-cases (get k d)) [
  | inl e ↦ rw e (get-put k j v d ∙ rw h refl)
  | inr (u, e) ↦ rw e refl
]

get-put_other :
    (k j : String) (v : Scalar) (d : Settings) → (k == j) ≡ false → get j (put k v d) ≡ get j d
get-put_other k j v d h = get-put k j v d ∙ rw h refl

make_job-workload :
    (base : Job) (out_dir : Scalar) (names : List Axis) (wl al : Scalar) (combo : List Scalar)
    → absent "workload" names ≡ true
    → get "workload" (make_job base out_dir names wl al combo).settings ≡ some wl
unfolding make_job
make_job-workload base out_dir names wl al combo h =
    get-assign_all "workload" names combo _ h
    ∙ get-set_default "seed" "workload" _ _ refl
    ∙ get-set_default "block_tokens" "workload" _ _ refl
    ∙ get-put_other "out_dir" "workload" _ _ refl
    ∙ get-put_other "allocator" "workload" _ _ refl
    ∙ get-put "workload" "workload" wl base.settings

make_job-allocator :
    (base : Job) (out_dir : Scalar) (names : List Axis) (wl al : Scalar) (combo : List Scalar)
    → absent "allocator" names ≡ true
    → get "allocator" (make_job base out_dir names wl al combo).settings ≡ some al
unfolding make_job
make_job-allocator base out_dir names wl al combo h =
    get-assign_all "allocator" names combo _ h
    ∙ get-set_default "seed" "allocator" _ _ refl
    ∙ get-set_default "block_tokens" "allocator" _ _ refl
    ∙ get-put_other "out_dir" "allocator" _ _ refl
    ∙ get-put "allocator" "allocator" al (put "workload" wl base.settings)

make_job-chosen :
    (base : Job) (out_dir : Scalar) (names : List Axis) (wl al : Scalar) (combo : List Scalar)
    (p : ℕ) (a : Axis) (v : Scalar)
    → Distinct names
    → get_elem? names p ≡ some a
    → get_elem? combo p ≡ some v
    → a.of_workload ≡ false
    → get a.key (make_job base out_dir names wl al combo).settings ≡ some v
unfolding make_job
make_job-chosen base out_dir names wl al combo p a v d e f t =
    get-chosen names combo _ p a v d e f t

-- In the jobs of a cell the axes run from the slowest, the workloads, over the allocators to the choices
-- in the order of `itertools.product`; a job names its workload and its allocator, and holds under the key of each axis
-- that is not an argument of the workload the value that was chosen for it.
pub get-expand_cell :
    (config : SweepConfig) (out_dir : Scalar) (cell : Cell) (i j m p : ℕ) (wl al : Scalar)
    (combo : List Scalar) (a : Axis) (v : Scalar)
    → get_elem? cell.workloads i ≡ some wl
    → get_elem? cell.allocators j ≡ some al
    → get_elem? (product (values_of cell)) m ≡ some combo
    → get_elem? (names_of cell) p ≡ some a
    → get_elem? combo p ≡ some v
    → a.of_workload ≡ false
    → (job : Job) × (get_elem?
          (expand_cell config out_dir cell)
          (i * (length cell.allocators * sizes (values_of cell)) + (j * sizes (values_of cell) + m))
        ≡ some job)
      × (get a.key job.settings ≡ some v)
      × (get "workload" job.settings ≡ some wl)
      × (get "allocator" job.settings ≡ some al)
unfolding expand_cell
get-expand_cell config out_dir cell i j m p wl al combo a v ei ej em ep ev t = (
  make_job (base_job config cell) out_dir (names_of cell) wl al combo,
  position,
  make_job-chosen (base_job config cell) out_dir (names_of cell) wl al combo p a v
      (Distinct-present cell.axis_values axes axes-Distinct) ep ev t,
  make_job-workload (base_job config cell) out_dir (names_of cell) wl al combo
      (absent-present cell.axis_values "workload" axes workload_is_no_axis),
  make_job-allocator (base_job config cell) out_dir (names_of cell) wl al combo
      (absent-present cell.axis_values "allocator" axes refl),
)
  where
    position :
        get_elem?
          (expand_cell config out_dir cell)
          (i * (length cell.allocators * sizes (values_of cell)) + (j * sizes (values_of cell) + m))
        ≡ some (make_job (base_job config cell) out_dir (names_of cell) wl al combo)
    position =
        let choices = product (values_of cell) in
        let inner : List (Scalar × List Scalar) =
          cross (λ (x : Scalar) (c : List Scalar). (x, c)) cell.allocators choices in
        let many : length inner ≡ length cell.allocators * sizes (values_of cell) =
          length-cross _ cell.allocators choices
          ∙ ap (λ n. length cell.allocators * n) (length-product (values_of cell)) in
        let index : i * (length cell.allocators * sizes (values_of cell))
              + (j * sizes (values_of cell) + m)
            ≡ i * length inner + (j * length choices + m) =
          rw (many, length-product (values_of cell)) refl in
        ap (get_elem? (expand_cell config out_dir cell)) index
        ∙ get-cross _ cell.workloads inner i (j * length choices + m) ei
            (get-cross _ cell.allocators choices j m ej em)
