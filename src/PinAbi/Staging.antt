-- ===== src/PinAbi/Staging.antt =====
-- apps/agent-ebpf-sensor/src/pin_abi.rs: the staging directories. Listing and choosing one, finding
-- the deny pins, and moving the deny pins and the mismatched process pins aside.
use neuromesh.Prelude.{
  ℕ, zero, suc, ◌+◌, Bool, true, false, not, ◌&&◌, ◌||◌, Option, none, some, List, [], ◌∷◌, ◌++◌,
  ltb, leb, ◌==◌, if◌then◌else◌, any, map,
}
use neuromesh.Prelude.Result.{Result, ok, err}
use neuromesh.Bytes.{Bytes, bytes_eq, starts_with}
use neuromesh.PinAbi.Disk.{
  FilePath, top, under, Nodes, Kernel, PinError, missing, exhausted, M, ◌>>=◌, ◌>>◌, pure, read,
  exists, is_dir, create_dir_all, rename, remove_dir_all, map_info,
}
use neuromesh.PinAbi.Names.{
  path_deny_list_map, path_deny_count_map, process_events_map, rate_limit_bucket_map,
  proc_abi_dir_prefix, legacy_abi_numeric_suffix, legacy_dir_name, proc_dir_name, expected_abi,
  matches_expected,
}

-- The order of `str`.
unfoldable pub bytes_le : Bytes → Bytes → Bool
bytes_le [] ys = true
bytes_le (x ∷ xs) [] = false
bytes_le (x ∷ xs) (y ∷ ys) = ltb x y || (x == y && bytes_le xs ys)

module _ {A : Type 0} (le : A → A → Bool) where
  unfoldable pub insert_by : A → List A → List A
  insert_by a [] = a ∷ []
  insert_by a (x ∷ xs) = let rest = insert_by a xs in if le a x then a ∷ x ∷ xs else x ∷ rest

  -- A stable sort.
  unfoldable pub sort_by : List A → List A
  unfolding insert_by
  sort_by [] = []
  sort_by (x ∷ xs) = insert_by x (sort_by xs)

-- The entries of the pin root.
abbrev pub top_names : Nodes → List Bytes
top_names [] = []
top_names ((top name, node) ∷ nodes) = name ∷ top_names nodes
top_names ((under d name, node) ∷ nodes) = top_names nodes

unfoldable pub read_dir_names : Nodes → List Bytes
unfolding bytes_le sort_by
read_dir_names nodes = sort_by bytes_le (top_names nodes)

-- The directories among the names, with their numeric suffixes.
unfoldable pub numbered_dirs : Nodes → List Bytes → List (ℕ × Bytes)
numbered_dirs nodes [] = []
numbered_dirs nodes (name ∷ names) =
    let rest = numbered_dirs nodes names in
    elim (legacy_abi_numeric_suffix name) [
      | none ↦ rest
      | some n ↦ if is_dir (top name) nodes then (n, name) ∷ rest else rest
    ]

unfoldable pub list_legacy_abi_dirs : Nodes → List Bytes
unfolding sort_by
list_legacy_abi_dirs nodes =
    map (λ d. d.1) (sort_by (λ d e. leb d.0 e.0) (numbered_dirs nodes (read_dir_names nodes)))

abbrev proc_dirs : Nodes → List Bytes → List Bytes
proc_dirs nodes [] = []
proc_dirs nodes (name ∷ names) =
    if starts_with name proc_abi_dir_prefix
      && not (any (λ c. c == b'.') name)
      && is_dir (top name) nodes
    then name ∷ proc_dirs nodes names
    else proc_dirs nodes names

unfoldable pub list_proc_abi_dirs : Nodes → List Bytes
unfolding bytes_le sort_by
list_proc_abi_dirs nodes = sort_by bytes_le (proc_dirs nodes (read_dir_names nodes))

abbrev pub bool_le : Bool → Bool → Bool
bool_le a b = not a || b

abbrev pub bool_eq : Bool → Bool → Bool
bool_eq a b = if a then b else not b

-- `score >= bscore`, for triples.
abbrev pub score_ge : (Bool × Bool × ℕ) → (Bool × Bool × ℕ) → Bool
score_ge (list, count, n) (b_list, b_count, bn) =
    if bool_eq list b_list then (if bool_eq count b_count then leb bn n else count) else list

abbrev pub has_list : Nodes → Bytes → Bool
has_list nodes d = exists (under d path_deny_list_map) nodes

abbrev pub has_count : Nodes → Bytes → Bool
has_count nodes d = exists (under d path_deny_count_map) nodes

abbrev pub replaces : Nodes → ℕ → Bytes → Option (ℕ × Bytes) → Bool
replaces nodes n d none = true
replaces nodes n d (some (bn, b)) =
    score_ge (has_list nodes d, has_count nodes d, n) (has_list nodes b, has_count nodes b, bn)

-- One round of the loop of `select_deny_legacy_dir`.
unfoldable pub consider : Nodes → Option (ℕ × Bytes) → Bytes → Option (ℕ × Bytes)
consider nodes best d = elim (legacy_abi_numeric_suffix d) [
  | none ↦ best
  | some n ↦
      if not (has_list nodes d) && not (has_count nodes d)
      then best
      else if replaces nodes n d best
      then some (n, d)
      else best
]

unfoldable pub select_loop : Nodes → Option (ℕ × Bytes) → List Bytes → Option (ℕ × Bytes)
select_loop nodes best [] = best
select_loop nodes best (d ∷ dirs) = select_loop nodes (consider nodes best d) dirs

unfoldable pub select_deny_legacy_dir : Nodes → Option Bytes
select_deny_legacy_dir nodes = elim (select_loop nodes none (list_legacy_abi_dirs nodes)) [
  | none ↦ none
  | some (n, d) ↦ some d
]

pub record DenyPinLocations : Type 0 where
  pub list : FilePath
  pub count : FilePath

-- The staged pin if there is one, else the canonical one.
unfoldable pub locate : Bytes → Bytes → Nodes → Result PinError FilePath
locate d name nodes =
    if exists (under d name) nodes
    then ok (under d name)
    else if exists (top name) nodes
    then ok (top name)
    else err (missing name)

unfoldable pub resolve_deny_pin_locations : Bytes → Nodes → Result PinError DenyPinLocations
unfolding locate
resolve_deny_pin_locations d nodes = elim (locate d path_deny_list_map nodes) [
  | err e ↦ err e
  | ok list ↦ elim (locate d path_deny_count_map nodes) [
    | err e ↦ err e
    | ok count ↦ ok (record { list = list; count = count })
  ]
]

-- The loop of `next_legacy_dir_name`, with the rounds left before the name space is exhausted.
unfoldable pub next_name : ℕ → ℕ → Nodes → Result PinError Bytes
next_name zero n nodes = err exhausted
next_name (suc left) n nodes =
    let name = legacy_dir_name n in
    let rest = next_name left (n + 1) nodes in
    if not (any (λ d. bytes_eq d name) (list_legacy_abi_dirs nodes))
      && not (exists (top name) nodes)
    then ok name
    else rest

unfoldable pub next_legacy_dir_name : Nodes → Result PinError Bytes
unfolding next_name
next_legacy_dir_name nodes = next_name 1025 0 nodes

-- Whether the pin at this name has the expected layout. All names asked for are in the table.
abbrev pub has_expected_layout : Kernel → Bytes → Nodes → Result PinError Bool
has_expected_layout kernel name nodes = elim (map_info kernel (top name) nodes) [
  | err e ↦ err e
  | ok info ↦ elim (expected_abi name) [
    | none ↦ ok false
    | some expected ↦ ok (matches_expected info expected)
  ]
]

abbrev pub require_deny_pins : Nodes → Result PinError (Unit {0})
require_deny_pins nodes =
    if not (exists (top path_deny_list_map) nodes) || not (exists (top path_deny_count_map) nodes)
    then err (missing path_deny_list_map)
    else ok tt

module _ (allows : ℕ → Bool) where
  -- A round of the loop of `complete_interrupted_deny_stage`.
  unfoldable pub complete_one : Bytes → Bytes → M (Unit {0})
  complete_one d name s =
      if exists (top name) s.nodes && not (exists (under d name) s.nodes)
      then rename allows (top name) (under d name) s
      else pure tt s

  unfoldable pub complete_interrupted_deny_stage : Bytes → M (Unit {0})
  unfolding complete_one
  complete_interrupted_deny_stage d =
      create_dir_all allows d
      >> complete_one d path_deny_list_map
      >> complete_one d path_deny_count_map

  unfoldable pub stage_legacy_deny_pins : M Bytes
  stage_legacy_deny_pins = do
    d ← read next_legacy_dir_name
    create_dir_all allows d
    read require_deny_pins
    rename allows (top path_deny_count_map) (under d path_deny_count_map)
    rename allows (top path_deny_list_map) (under d path_deny_list_map)
    pure d

  -- `let _ = io.remove_dir_all(..)`: a failure is ignored.
  abbrev pub try_remove_dir_all : Bytes → M (Unit {0})
  try_remove_dir_all name s = ((remove_dir_all allows name s).0, ok tt)

  module _ (kernel : Kernel) where
    unfoldable pub move_aside : Bytes → M (List Bytes)
    move_aside name =
        try_remove_dir_all (proc_dir_name name)
        >> create_dir_all allows (proc_dir_name name)
        >> rename allows (top name) (under (proc_dir_name name) name)
        >> pure (name ∷ [])

    -- A round of the loop of `recreate_mismatched_process_maps`.
    unfoldable pub recreate_one : Bytes → M (List Bytes)
    unfolding move_aside
    recreate_one name s =
        if exists (top name) s.nodes
        then (elim (has_expected_layout kernel name s.nodes) [
          | err e ↦ (s, err e)
          | ok true ↦ (s, ok [])
          | ok false ↦ move_aside name s
        ])
        else (s, ok [])

    unfoldable pub recreate_mismatched_process_maps : M (List Bytes)
    unfolding recreate_one
    recreate_mismatched_process_maps = do
      removed ← recreate_one process_events_map
      also ← recreate_one rate_limit_bucket_map
      pure (removed ++ also)

  -- The loop of the two functions below.
  unfoldable pub remove_dirs : List Bytes → M (Unit {0})
  remove_dirs [] = pure tt
  remove_dirs (d ∷ dirs) = remove_dir_all allows d >> remove_dirs dirs

  unfoldable pub cleanup_legacy_abi_dirs : M (Unit {0})
  unfolding remove_dirs
  cleanup_legacy_abi_dirs s = remove_dirs (list_legacy_abi_dirs s.nodes) s

  unfoldable pub cleanup_proc_abi_dirs : M (Unit {0})
  unfolding remove_dirs
  cleanup_proc_abi_dirs s = remove_dirs (list_proc_abi_dirs s.nodes) s
