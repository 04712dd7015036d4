-- ===== src/Tests/Pins.antt =====
-- The migration of an old deny list on one node.
use neuromesh.Prelude.{
  ◌≡◌, refl, inl, true, none, some, List, [], ◌∷◌, ◌++◌, ltb, ◌==◌, if◌then◌else◌, ℕ_discrete,
  replicate,
}
use neuromesh.Prelude.Result.{Result, ok}
use neuromesh.Bytes.{Bytes, codes, Bytes-discrete}
use neuromesh.HashTable.{get, insert, remove}
use neuromesh.DenyEntry.{PathDenyEntry, from_prefix, widen}
use neuromesh.PinAbi.Disk.{
  top, under, Nodes, Kernel, PinError, Disk, dir, pin, FilePath-discrete, ◌>>=◌, read, exists,
  is_dir, rename_node, add_dir, remove_pin, without_tree, remove_tree, change, map_info,
  read_deny_count, count_of, widen_slots, legacy_entries, read_legacy_deny_entries_at,
}
use neuromesh.PinAbi.Names.{
  path_deny_list_map, path_deny_count_map, expected_abi, matches_expected, is_legacy_path_deny_list,
  parse_u32, legacy_abi_numeric_suffix, decimal, legacy_dir_name,
}
use neuromesh.PinAbi.Staging.{
  bytes_le, insert_by, sort_by, read_dir_names, numbered_dirs, list_legacy_abi_dirs, consider,
  select_loop, select_deny_legacy_dir, locate, resolve_deny_pin_locations, next_name,
  next_legacy_dir_name, complete_one, complete_interrupted_deny_stage, stage_legacy_deny_pins,
  move_aside, recreate_one, recreate_mismatched_process_maps,
}
use neuromesh.PinAbi.Prepare.{
  Prepared, MigrationResult, migrated_entries, migrated, assess_current, assess_layout,
  assess_pin_abi, free_name, canonical_count, resume_read, resume_fallback, resume, migrate,
  prepare_pin_root_for_load, resumed_migration,
}
use neuromesh.PinAbi.Layouts.{IsCurrent, IsLegacy}
use neuromesh.PinAbi.ProcessMaps.{ProcessMapsFit}
use neuromesh.PinAbi.Phases.{IsFree, Canonical}
use neuromesh.PinAbi.Selection.{IsNumbered, HoldsNone}
use neuromesh.PinAbi.Boots.{Boot, boot, run_boots, run_boots-migrated}
use neuromesh.PinAbi.Safe.{prepare_pin_root_for_load-IsPrepared}

-- Map 1 is an old list with one entry, map 2 its count; 11 and 12 are new maps.
abbrev kernel : Kernel
kernel = record {
  map_info = λ id.
      if id == 1
      then some (record { map_type = 2; key_size = 4; value_size = 20; max_entries = 64 })
      else if id == 11
      then some (record { map_type = 2; key_size = 4; value_size = 36; max_entries = 64 })
      else some (record { map_type = 2; key_size = 4; value_size = 4; max_entries = 1 });
  legacy_list = λ id.
      if id == 3
      then some (λ i. some (record { len = 5; bytes = codes "/old/00000000000" }))
      else some (λ i. some (record { len = 5; bytes = codes "/opt/00000000000" }));
  count_array = λ id. some (λ i. some (if ltb id 5 then 1 else 0));
}

abbrev old_entries : List PathDenyEntry
old_entries = record { len = 5; bytes = codes "/opt/" ++ replicate 27 0 } ∷ []

abbrev old_nodes : Nodes
old_nodes = (top path_deny_list_map, pin 1) ∷ (top path_deny_count_map, pin 2) ∷ []

unstaged : (d : Bytes) → IsNumbered d → HoldsNone old_nodes d
unfolding get FilePath-discrete
unstaged d numbered = (refl, refl)

old_nodes-Canonical : Canonical kernel 1 2 old_nodes
unfolding get FilePath-discrete
old_nodes-Canonical = record { list = refl; count = refl; unstaged = unstaged }

old_layout : IsLegacy kernel 1
unfolding is_legacy_path_deny_list
old_layout = (record { map_type = 2; key_size = 4; value_size = 20; max_entries = 64 }, refl, refl)

count_layout : IsCurrent kernel path_deny_count_map 2
unfolding matches_expected expected_abi
count_layout = refl

new_layouts :
    IsCurrent kernel path_deny_list_map 11
    × IsCurrent kernel path_deny_count_map 12
    × (count_of kernel 12 ≡ ok 0)
unfolding matches_expected expected_abi
new_layouts = (refl, refl, refl)

old_readable : legacy_entries kernel 1 2 ≡ ok old_entries
unfolding legacy_entries widen_slots widen from_prefix
old_readable = refl

-- One run is stopped between the renames, one right after the loader made the new maps.
abbrev two_boots : List Boot
two_boots =
    record { allows = λ n. ltb n 2; made_list = none; made_count = none }
    ∷ record { allows = λ n. true; made_list = some 11; made_count = some 12 }
    ∷ []

abbrev after_boots : Nodes
after_boots = run_boots kernel two_boots old_nodes

name_left : next_legacy_dir_name after_boots ≡ ok (codes "legacy_abi_1")
unfolding run_boots boot prepare_pin_root_for_load assess_pin_abi assess_layout assess_current
    migrate resume resume_read resume_fallback canonical_count free_name
    recreate_mismatched_process_maps recreate_one move_aside stage_legacy_deny_pins
    complete_interrupted_deny_stage complete_one next_legacy_dir_name next_name
    resolve_deny_pin_locations locate select_deny_legacy_dir select_loop consider
    list_legacy_abi_dirs numbered_dirs read_dir_names sort_by insert_by bytes_le legacy_dir_name
    decimal legacy_abi_numeric_suffix parse_u32 is_legacy_path_deny_list matches_expected
    expected_abi read_legacy_deny_entries_at legacy_entries widen_slots read_deny_count map_info
    change remove_tree without_tree remove_pin add_dir rename_node is_dir exists read ◌>>=◌
    FilePath-discrete get insert remove widen from_prefix ℕ_discrete Bytes-discrete
name_left = refl

fit_after : ProcessMapsFit kernel after_boots
unfolding run_boots boot prepare_pin_root_for_load assess_pin_abi assess_layout assess_current
    migrate resume resume_read resume_fallback canonical_count free_name
    recreate_mismatched_process_maps recreate_one move_aside stage_legacy_deny_pins
    complete_interrupted_deny_stage complete_one next_legacy_dir_name next_name
    resolve_deny_pin_locations locate select_deny_legacy_dir select_loop consider
    list_legacy_abi_dirs numbered_dirs read_dir_names sort_by insert_by bytes_le legacy_dir_name
    decimal legacy_abi_numeric_suffix parse_u32 is_legacy_path_deny_list matches_expected
    expected_abi read_legacy_deny_entries_at legacy_entries widen_slots read_deny_count map_info
    change remove_tree without_tree remove_pin add_dir rename_node is_dir exists read ◌>>=◌
    FilePath-discrete get insert remove widen from_prefix ℕ_discrete Bytes-discrete
fit_after = (inl refl, inl refl)

run_boots-migrated_example :
    let r =
      prepare_pin_root_for_load kernel (λ _. true) (record { nodes = after_boots; changes = 0 }) in
    (results : List MigrationResult) × (r.1 ≡ ok (migrated_entries old_entries true, results))
    × IsFree r.0.nodes
run_boots-migrated_example =
    run_boots-migrated kernel 1 2 old_entries old_layout count_layout old_readable two_boots
      old_nodes (codes "legacy_abi_1") ((tt, tt, tt), (new_layouts, tt)) old_nodes-Canonical
      fit_after name_left

-- The same node, with an older staged list beside the one at its name.
abbrev stale_nodes : Nodes
stale_nodes =
    (top path_deny_list_map, pin 1)
    ∷ (top path_deny_count_map, pin 2)
    ∷ (top (codes "legacy_abi_0"), dir)
    ∷ (under (codes "legacy_abi_0") path_deny_list_map, pin 3)
    ∷ (under (codes "legacy_abi_0") path_deny_count_map, pin 4)
    ∷ []

abbrev prepared_at : Nodes → Disk × Result PinError Prepared
prepared_at nodes =
    prepare_pin_root_for_load kernel (λ _. true) (record { nodes = nodes; changes = 0 })

abbrev interrupted : Nodes
interrupted =
    run_boots kernel (record { allows = λ n. ltb n 2; made_list = none; made_count = none } ∷ [])
      stale_nodes

abbrev stale_entries : List PathDenyEntry
stale_entries = record { len = 5; bytes = codes "/old/" ++ replicate 27 0 } ∷ []

-- An interrupted migration beside an older staged list resumes with the older list.
stale_resumed :
    (prepared_at interrupted).1 ≡ ok (migrated_entries stale_entries true, resumed_migration ∷ [])
unfolding run_boots boot prepare_pin_root_for_load assess_pin_abi assess_layout assess_current
    migrate resume resume_read resume_fallback canonical_count free_name
    recreate_mismatched_process_maps recreate_one move_aside stage_legacy_deny_pins
    complete_interrupted_deny_stage complete_one next_legacy_dir_name next_name
    resolve_deny_pin_locations locate select_deny_legacy_dir select_loop consider
    list_legacy_abi_dirs numbered_dirs read_dir_names sort_by insert_by bytes_le legacy_dir_name
    decimal legacy_abi_numeric_suffix parse_u32 is_legacy_path_deny_list matches_expected
    expected_abi read_legacy_deny_entries_at legacy_entries widen_slots read_deny_count map_info
    change remove_tree without_tree remove_pin add_dir rename_node is_dir exists read ◌>>=◌
    FilePath-discrete get insert remove widen from_prefix ℕ_discrete Bytes-discrete
stale_resumed = refl

prepared_old :
    prepared_at old_nodes
    ≡ ((prepared_at old_nodes).0, ok (migrated_entries old_entries true, migrated ∷ []))
unfolding prepare_pin_root_for_load assess_pin_abi assess_layout assess_current migrate resume
    resume_read resume_fallback canonical_count free_name recreate_mismatched_process_maps
    recreate_one move_aside stage_legacy_deny_pins complete_interrupted_deny_stage complete_one
    next_legacy_dir_name next_name resolve_deny_pin_locations locate select_deny_legacy_dir
    select_loop consider list_legacy_abi_dirs numbered_dirs read_dir_names sort_by insert_by
    bytes_le legacy_dir_name decimal legacy_abi_numeric_suffix parse_u32 is_legacy_path_deny_list
    matches_expected expected_abi read_legacy_deny_entries_at legacy_entries widen_slots
    read_deny_count map_info change remove_tree without_tree remove_pin add_dir rename_node is_dir
    exists read ◌>>=◌ FilePath-discrete get insert remove widen from_prefix ℕ_discrete
    Bytes-discrete
prepared_old = refl

prepare_pin_root_for_load-IsPrepared_example : IsFree (prepared_at old_nodes).0.nodes
prepare_pin_root_for_load-IsPrepared_example =
    prepare_pin_root_for_load-IsPrepared kernel (λ _. true)
      (record { nodes = old_nodes; changes = 0 }) (prepared_at old_nodes).0
      (migrated_entries old_entries true) (migrated ∷ []) prepared_old
