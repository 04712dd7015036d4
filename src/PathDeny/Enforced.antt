-- ===== src/PathDeny/Enforced.antt =====
-- From user space to the kernel: after a successful write the kernel program denies exactly what the
-- user-space matcher denies for the written entries.
use neuromesh.Prelude.{
  ℕ, ◌-◌, ◌≤◌, ◌≡◌, refl, ap, ◌∙◌, Bool, some, List, [], ◌∷◌, arith, length, replicate, any, All,
  All-imp, All-append, All-replicate, take-append_length,
}
use neuromesh.Prelude.Result.{ok}
use neuromesh.Bytes.{Bytes}
use neuromesh.DenyEntry.{IsValid, PathDenyEntry, matches, empty_entry, path_deny_max_entries}
use neuromesh.Lsm.Maps.{Maps}
use neuromesh.Lsm.Match.{active_count, is_blacklisted_path}
use neuromesh.Lsm.Scan.{IsFull, is_blacklisted_path-any}
use neuromesh.Lsm.Decision.{active}
use neuromesh.PathDeny.{
  PathDenyMaps, Write, map_backed_is_blacklisted, legacy_hardcoded_is_blacklisted,
  apply_deny_entries, bootstrap_deny_maps,
}
use neuromesh.PathDeny.Apply.{HasSize, Applied, apply_deny_entries-Applied}
use neuromesh.PathDeny.Bootstrap.{bootstrap_list, bootstrap_entries_lem, bootstrap_entries-legacy}

-- The maps of the kernel program, with the deny list as user space left it.
abbrev pub with_deny_list : Maps → PathDenyMaps → Maps
with_deny_list m d = record m { path_deny_list = d.list; path_deny_count = d.count }

capped : (n : ℕ) → n ≤ path_deny_max_entries → active_count (n ∷ []) ≡ n
capped n h = ground arith

module _ (m : Maps) (entries : List PathDenyEntry) (d : PathDenyMaps) where
  pub Applied-IsFull : All IsFull entries → Applied entries d → All IsFull d.list
  Applied-IsFull full a =
      let spare = replicate (path_deny_max_entries - length entries) empty_entry in
      rw a.list (All-append IsFull entries spare full (All-replicate IsFull _ empty_entry refl))

  -- The entries that the kernel program consults are the written ones.
  pub Applied-active : Applied entries d → active (with_deny_list m d) ≡ entries
  Applied-active a =
      let spare = replicate (path_deny_max_entries - length entries) empty_entry in
      let covers : active_count d.count ≡ length entries =
        rw a.count (capped (length entries) a.bounded) in
      rw (covers, a.list) (take-append_length entries spare)

  Applied-blacklisted :
      (path : Bytes)
      → All IsFull entries
      → Applied entries d
      → is_blacklisted_path (with_deny_list m d) path
        ≡ some (map_backed_is_blacklisted path entries)
  unfolding map_backed_is_blacklisted
  Applied-blacklisted path full a =
      is_blacklisted_path-any (with_deny_list m d) path (Applied-IsFull full a)
      ∙ ap (λ es. some (any (λ e. matches e path) es)) (Applied-active a)

-- On arrays of the kernel's sizes and for entries of 32 bytes: after `apply_deny_entries`
-- succeeds, the kernel program's scan returns, and denies a path exactly if one of the entries
-- matches it. The earlier contents of the maps do not matter.
pub apply_deny_entries-is_blacklisted_path :
    (accepts : Write → Bool) (entries : List PathDenyEntry) (d d' : PathDenyMaps) (m : Maps)
    (path : Bytes)
    → HasSize d
    → All IsFull entries
    → apply_deny_entries accepts entries d ≡ (d', ok tt)
    → is_blacklisted_path (with_deny_list m d') path ≡ some (map_backed_is_blacklisted path entries)
apply_deny_entries-is_blacklisted_path accepts entries d d' m path size full h =
    Applied-blacklisted m entries d' path full
      (apply_deny_entries-Applied accepts entries d d' size h)

-- On arrays of the kernel's sizes: after the bootstrap succeeds the kernel program denies exactly
-- the paths that the hardcoded check denied.
pub bootstrap_deny_maps-legacy :
    (accepts : Write → Bool) (d d' : PathDenyMaps) (m : Maps) (path : Bytes)
    → HasSize d
    → bootstrap_deny_maps accepts d ≡ (d', ok tt)
    → is_blacklisted_path (with_deny_list m d') path ≡ some (legacy_hardcoded_is_blacklisted path)
unfolding bootstrap_deny_maps
bootstrap_deny_maps-legacy accepts d d' m path size h =
    let runs : apply_deny_entries accepts bootstrap_list d ≡ (d', ok tt) =
      rw (bootstrap_entries_lem, bootstrap_deny_maps) at h in
    let (valid, same) = bootstrap_entries-legacy path bootstrap_list bootstrap_entries_lem in
    apply_deny_entries-is_blacklisted_path accepts bootstrap_list d d' m path size
      (All-imp bootstrap_list (λ e (v : IsValid e). v.full) valid) runs
    ∙ ap some same
