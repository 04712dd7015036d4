-- ===== src/PinAbi/Layouts.antt =====
-- apps/agent-ebpf-sensor/src/pin_abi.rs: what is known of a pinned map from the checks of its layout.
use neuromesh.Prelude.{
  ℕ, ◌≡◌, refl, inl, inr, Bool, true, false, Option, none, some, arith, Option-cases,
}
use neuromesh.Prelude.Result.{ok}
use neuromesh.Bytes.{Bytes}
use neuromesh.PinAbi.Disk.{
  top, FilePath, Node, dir, pin, Nodes, at, Kernel, ObservedMapInfo, exists, map_info,
  read_deny_count, count_of,
}
use neuromesh.PinAbi.Names.{
  PinnedMapAbi, expected_abi, matches_expected, is_legacy_path_deny_list, path_deny_list_map,
}
use neuromesh.PinAbi.Staging.{has_expected_layout}

module _ (kernel : Kernel) where
  abbrev pub info_fits : Option ObservedMapInfo → Option PinnedMapAbi → Bool
  info_fits (some info) (some expected) = matches_expected info expected
  info_fits _ _ = false

  -- The map has the layout that is expected under this name.
  abbrev pub IsCurrent : Bytes → ℕ → Type 0
  IsCurrent name id = info_fits (kernel.map_info id) (expected_abi name) ≡ true

  -- The map is a deny list of the old layout.
  abbrev pub IsLegacy : ℕ → Type 0
  IsLegacy id =
      (info : ObservedMapInfo) × (kernel.map_info id ≡ some info)
      × (is_legacy_path_deny_list info ≡ true)

  pub has_expected_layout-true :
      (name : Bytes) (id : ℕ) (n : Nodes)
      → at (top name) n ≡ some (pin id)
      → IsCurrent name id
      → has_expected_layout kernel name n ≡ ok true
  unfolding map_info
  has_expected_layout-true name id n there fits = elim (Option-cases (kernel.map_info id)) [
    | inl unknown ↦ absurd (ground (arith, unknown))
    | inr (info, known) ↦ elim (Option-cases (expected_abi name)) [
      | inl absent ↦ absurd (ground (arith, known, absent))
      | inr (expected, row) ↦ ground (arith, known, row)
    ]
  ]

  pub has_expected_layout-IsCurrent :
      (name : Bytes) (n : Nodes)
      → has_expected_layout kernel name n ≡ ok true
      → (id : ℕ) × (at (top name) n ≡ some (pin id)) × IsCurrent name id
  unfolding map_info
  has_expected_layout-IsCurrent name n h = elim (Option-cases (at (top name) n)) [
    | inl absent ↦ absurd (ground (arith, absent))
    | inr (dir, there) ↦ absurd (ground (arith, there))
    | inr (pin id, there) ↦ elim (Option-cases (kernel.map_info id)) [
      | inl unknown ↦ absurd (ground (arith, there, unknown))
      | inr (info, known) ↦ elim (Option-cases (expected_abi name)) [
        | inl none_expected ↦ absurd (ground (arith, there, known, none_expected))
        | inr (expected, row) ↦ (id, there, ground (arith, there, known, row))
      ]
    ]
  ]

  -- The old layout is not the current one.
  pub IsCurrent-not_legacy :
      (id : ℕ) (info : ObservedMapInfo)
      → IsCurrent path_deny_list_map id
      → kernel.map_info id ≡ some info
      → is_legacy_path_deny_list info ≡ false
  unfolding expected_abi matches_expected is_legacy_path_deny_list
  IsCurrent-not_legacy id info fits known = ground (arith, known)

  pub IsCurrent-known :
      (name : Bytes) (id : ℕ)
      → IsCurrent name id
      → (info : ObservedMapInfo) × (kernel.map_info id ≡ some info)
  IsCurrent-known name id fits = elim (Option-cases (kernel.map_info id)) [
    | inl unknown ↦ absurd (ground (arith, unknown))
    | inr known ↦ known
  ]

  pub map_info-pin :
      (p : FilePath) (id : ℕ) (info : ObservedMapInfo) (n : Nodes)
      → at p n ≡ some (pin id)
      → kernel.map_info id ≡ some info
      → map_info kernel p n ≡ ok info
  unfolding map_info
  map_info-pin p id info n there known = ground arith

  pub read_deny_count-pin :
      (p : FilePath) (id : ℕ) (n : Nodes)
      → at p n ≡ some (pin id)
      → read_deny_count kernel p n ≡ count_of kernel id
  unfolding read_deny_count
  read_deny_count-pin p id n there = ground arith

pub exists-pin : (p : FilePath) (node : Node) (n : Nodes) → at p n ≡ some node → exists p n ≡ true
unfolding exists
exists-pin p node n there = rw there refl

pub exists-none : (p : FilePath) (n : Nodes) → at p n ≡ none → exists p n ≡ false
unfolding exists
exists-none p n absent = rw absent refl
