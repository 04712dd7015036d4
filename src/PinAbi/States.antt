-- ===== src/PinAbi/States.antt =====
-- apps/agent-ebpf-sensor/src/pin_abi.rs: what each state that `assess_pin_abi` can find tells of the
-- two canonical deny pins.
use mathlib.Core.Path.{subst}
use neuromesh.Prelude.{
  ℕ, ◌≡◌, ◌⊎◌, inl, inr, true, false, not, ◌&&◌, Option, none, some, List, [], ◌∷◌, arith,
  Bool-cases, Option-cases, ℕ_discrete,
}
use neuromesh.Prelude.Result.{ok, Result-cases}
use neuromesh.Bytes.{Bytes}
use neuromesh.HashTable.{is_some-false}
use neuromesh.PinAbi.Disk.{FilePath, top, pin, Nodes, at, Kernel, exists, map_info, read_deny_count}
use neuromesh.PinAbi.Names.{
  path_deny_list_map, path_deny_count_map, process_events_map, rate_limit_bucket_map,
  legacy_abi_numeric_suffix, is_legacy_path_deny_list,
}
use neuromesh.PinAbi.Staging.{
  select_deny_legacy_dir, select_loop, consider, has_list, has_count, replaces, has_expected_layout,
  list_legacy_abi_dirs,
}
use neuromesh.PinAbi.Prepare.{
  PinAbiState, cold, compatible, legacy_migratable, migration_in_progress, not_compatible,
  assess_pin_abi, assess_layout, assess_current, checked_process_map,
}
use neuromesh.PinAbi.Selection.{IsNumbered}
use neuromesh.PinAbi.Layouts.{IsCurrent, has_expected_layout-IsCurrent}
use neuromesh.PinAbi.Phases.{IsFree}

pub absent : (p : FilePath) (n : Nodes) → exists p n ≡ false → at p n ≡ none
unfolding exists
absent p n h = is_some-false (at p n) h

consider-IsNumbered :
    (nodes : Nodes) (best : Option (ℕ × Bytes)) (d : Bytes) (k : ℕ) (chosen : Bytes)
    → ((j : ℕ) (b : Bytes) → best ≡ some (j, b) → IsNumbered b)
    → consider nodes best d ≡ some (k, chosen)
    → IsNumbered chosen
unfolding consider
consider-IsNumbered nodes best d k chosen before found =
    elim (Option-cases (legacy_abi_numeric_suffix d)) [
      | inl other ↦ before k chosen (ground (arith, other))
      | inr (n, numbered) ↦ elim (Bool-cases (not (has_list nodes d) && not (has_count nodes d))) [
        | inl empty ↦ before k chosen (ground (arith, numbered, empty))
        | inr full ↦ elim (Bool-cases (replaces nodes n d best)) [
          | inl better ↦
              let same : d ≡ chosen = ground (arith, numbered, full, better) in
              subst IsNumbered same (n, numbered)
          | inr worse ↦ before k chosen (ground (arith, numbered, full, worse))
        ]
      ]
    ]

select_loop-IsNumbered :
    (nodes : Nodes) (best : Option (ℕ × Bytes)) (dirs : List Bytes) (k : ℕ) (chosen : Bytes)
    → ((j : ℕ) (b : Bytes) → best ≡ some (j, b) → IsNumbered b)
    → select_loop nodes best dirs ≡ some (k, chosen)
    → IsNumbered chosen
unfolding select_loop
select_loop-IsNumbered nodes best [] k chosen before found = before k chosen found
select_loop-IsNumbered nodes best (d ∷ dirs) k chosen before found =
    select_loop-IsNumbered nodes (consider nodes best d) dirs k chosen
      (λ j b. consider-IsNumbered nodes best d j b before) found

-- The chosen directory has a numbered name.
select-IsNumbered :
    (nodes : Nodes) (d : Bytes) → select_deny_legacy_dir nodes ≡ some d → IsNumbered d
unfolding select_deny_legacy_dir
select-IsNumbered nodes d found =
    elim (Option-cases (select_loop nodes none (list_legacy_abi_dirs nodes))) [
      | inl nothing ↦ absurd (ground (arith, nothing))
      | inr ((k, chosen), some_dir) ↦ subst IsNumbered (ground (arith, some_dir)) (
          select_loop-IsNumbered nodes none (list_legacy_abi_dirs nodes) k chosen
            (λ j b e. absurd (cc e)) some_dir)
    ]

module _ (kernel : Kernel) where
  -- The pin at this name is there and has the expected layout.
  abbrev pub IsPinned : Bytes → Nodes → Type 0
  IsPinned name n = (id : ℕ) × (at (top name) n ≡ some (pin id)) × IsCurrent kernel name id

  -- What each state tells of the two canonical names.
  abbrev pub Says : PinAbiState → Nodes → Type 0
  Says cold n = IsFree n
  Says compatible n = IsPinned path_deny_list_map n × IsPinned path_deny_count_map n
  Says legacy_migratable n = Unit
  Says (not_compatible name) n = Unit
  Says (migration_in_progress d) n =
      IsNumbered d
      × (((exists (top path_deny_list_map) n && exists (top path_deny_count_map) n) ≡ false)
          ⊎ (IsPinned path_deny_list_map n
              × (read_deny_count kernel (top path_deny_count_map) n ≡ ok 0)))

  Says-eq : (n : Nodes) (state other : PinAbiState) → state ≡ other → Says state n → Says other n
  Says-eq n state other same = subst (λ r. Says r n) same

  assess_current-Says :
      (n : Nodes) (state : PinAbiState)
      → IsPinned path_deny_list_map n
      → IsPinned path_deny_count_map n
      → assess_current kernel n ≡ ok state
      → Says state n
  unfolding assess_current
  assess_current-Says n state list count assessed =
      elim (Result-cases (checked_process_map kernel process_events_map n)) [
        | inr (e, failed) ↦ absurd (ground (arith, failed))
        | inl (_, events) ↦
            elim (Result-cases (checked_process_map kernel rate_limit_bucket_map n)) [
              | inr (e, failed) ↦ absurd (ground (arith, events, failed))
              | inl (_, bucket) ↦ elim (Option-cases (select_deny_legacy_dir n)) [
                | inl unstaged ↦
                    Says-eq n compatible state (ground (arith, events, bucket, unstaged))
                      (list, count)
                | inr (d, chosen) ↦
                    elim (Result-cases (read_deny_count kernel (top path_deny_count_map) n)) [
                      | inr (e, failed) ↦ absurd (ground (arith, events, bucket, chosen, failed))
                      | inl (active, counted) ↦ elim (ℕ_discrete active 0) [
                        | yes zero ↦
                            Says-eq n (migration_in_progress d) state
                              (ground (arith, events, bucket, chosen, counted, zero))
                              (select-IsNumbered n d chosen, inr (list, cc (counted, zero)))
                        | no some_active ↦
                            Says-eq n compatible state
                              (ground (arith, events, bucket, chosen, counted, some_active))
                              (list, count)
                      ]
                    ]
              ]
            ]
      ]

  assess_layout-Says :
      (n : Nodes) (state : PinAbiState) → assess_layout kernel n ≡ ok state → Says state n
  unfolding assess_layout
  assess_layout-Says n state assessed =
      elim (Result-cases (map_info kernel (top path_deny_list_map) n)) [
        | inr (e, failed) ↦ absurd (ground (arith, failed))
        | inl (info, known) ↦
            elim (Result-cases (has_expected_layout kernel path_deny_count_map n)) [
              | inr (e, failed) ↦ absurd (ground (arith, known, failed))
              | inl (fits, count) ↦ elim (Bool-cases (is_legacy_path_deny_list info && fits)) [
                | inl legacy ↦
                    Says-eq n legacy_migratable state (ground (arith, known, count, legacy)) tt
                | inr other ↦
                    elim (Result-cases (has_expected_layout kernel path_deny_list_map n)) [
                      | inr (e, failed) ↦ absurd (ground (arith, known, count, other, failed))
                      | inl (false, list) ↦
                          Says-eq n (not_compatible path_deny_list_map) state
                            (ground (arith, known, count, other, list)) tt
                      | inl (true, list) ↦ elim (Bool-cases fits) [
                        | inr unfit ↦
                            Says-eq n (not_compatible path_deny_count_map) state
                              (ground (arith, known, count, other, list, unfit)) tt
                        | inl fit ↦
                            assess_current-Says n state
                              (has_expected_layout-IsCurrent kernel path_deny_list_map n list)
                              (has_expected_layout-IsCurrent kernel path_deny_count_map n
                                (cc (count, fit)))
                              (ground (arith, known, count, other, list, fit))
                      ]
                    ]
              ]
            ]
      ]

  pub assess_pin_abi-Says :
      (n : Nodes) (state : PinAbiState) → assess_pin_abi kernel n ≡ ok state → Says state n
  unfolding assess_pin_abi
  assess_pin_abi-Says n state assessed = elim (Bool-cases (exists (top path_deny_list_map) n)) [
    | inl list ↦ elim (Bool-cases (exists (top path_deny_count_map) n)) [
      | inl count ↦ assess_layout-Says n state (ground (arith, list, count))
      | inr no_count ↦ elim (Option-cases (select_deny_legacy_dir n)) [
        | inl unstaged ↦
            Says-eq n (not_compatible path_deny_list_map) state
              (ground (arith, list, no_count, unstaged)) tt
        | inr (d, chosen) ↦
            Says-eq n (migration_in_progress d) state (ground (arith, list, no_count, chosen))
              (select-IsNumbered n d chosen, inl (ground (arith, list, no_count)))
      ]
    ]
    | inr no_list ↦ elim (Option-cases (select_deny_legacy_dir n)) [
      | inr (d, chosen) ↦
          Says-eq n (migration_in_progress d) state (ground (arith, no_list, chosen))
            (select-IsNumbered n d chosen, inl (ground (arith, no_list)))
      | inl unstaged ↦ elim (Bool-cases (exists (top path_deny_count_map) n)) [
        | inl count ↦
            Says-eq n (not_compatible path_deny_count_map) state
              (ground (arith, no_list, count, unstaged)) tt
        | inr no_count ↦
            Says-eq n cold state (ground (arith, no_list, no_count, unstaged)) (
              absent (top path_deny_list_map) n no_list,
              absent (top path_deny_count_map) n no_count,
            )
      ]
    ]
  ]
