-- ===== src/PinAbi/Assess.antt =====
-- apps/agent-ebpf-sensor/src/pin_abi.rs: what the assessment says of the places in which an
-- interrupted migration leaves the pins.
use neuromesh.Prelude.{ℕ, ◌≡◌, refl, ◌⊎◌, inl, inr, some}
use neuromesh.Prelude.Result.{Result, ok, err, Result-cases}
use neuromesh.Bytes.{Bytes}
use neuromesh.PinAbi.Disk.{top, under, pin, Nodes, at, Kernel, PinError, count_of}
use neuromesh.PinAbi.Names.{
  path_deny_list_map, path_deny_count_map, process_events_map, rate_limit_bucket_map,
}
use neuromesh.PinAbi.Staging.{select_deny_legacy_dir}
use neuromesh.PinAbi.Prepare.{
  assess_pin_abi, assess_layout, assess_current, checked_process_map, PinAbiState,
  legacy_migratable, migration_in_progress,
}
use neuromesh.PinAbi.Selection.{select_deny_legacy_dir-none, select_deny_legacy_dir-some}
use neuromesh.PinAbi.Layouts.{
  IsCurrent, IsLegacy, IsCurrent-not_legacy, IsCurrent-known, has_expected_layout-true,
  map_info-pin, read_deny_count-pin, exists-pin, exists-none,
}
use neuromesh.PinAbi.ProcessMaps.{Fits, ProcessMapsFit}
use neuromesh.PinAbi.Phases.{Canonical, Split, Staged, IsFresh}

module _ (kernel : Kernel) (list_id count_id : ℕ) where
  select-Staged :
      (d : Bytes) (n : Nodes)
      → Staged kernel list_id count_id d n
      → select_deny_legacy_dir n ≡ some d
  select-Staged d n st =
      let (k, numbered) = st.numbered in
      select_deny_legacy_dir-some n k d numbered
        (rw (exists-pin (under d path_deny_list_map) (pin list_id) n st.list) refl) st.others
        st.directory

  pub assess-Split :
      (d : Bytes) (n : Nodes)
      → Split kernel list_id count_id d n
      → assess_pin_abi kernel n ≡ ok (migration_in_progress d)
  unfolding assess_pin_abi
  assess-Split d n sp =
      let (k, numbered) = sp.numbered in
      rw
        (
          assess_pin_abi,
          select_deny_legacy_dir-some n k d numbered
              (rw
                (
                  exists-none (under d path_deny_list_map) n sp.no_list,
                  exists-pin (under d path_deny_count_map) (pin count_id) n sp.count,
                )
                refl)
              sp.others sp.directory,
          exists-pin (top path_deny_list_map) (pin list_id) n sp.list,
          exists-none (top path_deny_count_map) n sp.free,
        )
        refl

  pub assess-Canonical :
      (n : Nodes)
      → Canonical kernel list_id count_id n
      → IsLegacy kernel list_id
      → IsCurrent kernel path_deny_count_map count_id
      → assess_pin_abi kernel n ≡ ok legacy_migratable
  unfolding assess_pin_abi assess_layout
  assess-Canonical n c (info, known, legacy) current =
      rw
        (
          assess_pin_abi,
          select_deny_legacy_dir-none n c.unstaged,
          exists-pin (top path_deny_list_map) (pin list_id) n c.list,
          exists-pin (top path_deny_count_map) (pin count_id) n c.count,
          assess_layout,
          map_info-pin kernel (top path_deny_list_map) list_id info n c.list known,
          has_expected_layout-true kernel path_deny_count_map count_id n c.count current,
          legacy,
        )
        refl

  checked-Fits :
      (name : Bytes) (n : Nodes) → Fits kernel name n → checked_process_map kernel name n ≡ ok tt
  checked-Fits name n (inl absent) = rw (exists-none (top name) n absent) refl
  checked-Fits name n (inr (id, there, current)) =
      let (info, known) = IsCurrent-known kernel name id current in
      rw
        (
          exists-pin (top name) (pin id) n there,
          map_info-pin kernel (top name) id info n there known,
        )
        refl

  -- The state of a staged list, as far as the process maps can be read.
  unfoldable pub Assessed : Bytes → Nodes → Result PinError PinAbiState → Type 0
  Assessed d n r =
      (r ≡ ok (migration_in_progress d))
      ⊎ ((e : PinError) × (r ≡ err e) × ¬ ProcessMapsFit kernel n)

  assess_current-Staged :
      (d : Bytes) (n : Nodes) (id : ℕ)
      → Staged kernel list_id count_id d n
      → at (top path_deny_count_map) n ≡ some (pin id)
      → count_of kernel id ≡ ok 0
      → Assessed d n (assess_current kernel n)
  unfolding assess_current Assessed
  assess_current-Staged d n id st there empty =
      elim (Result-cases (checked_process_map kernel process_events_map n)) [
        | inr (e, failed) ↦ inr (
          e,
          rw (assess_current, failed) refl,
          λ (events, _). absurd (cc (failed, checked-Fits process_events_map n events)),
        )
        | inl (_, events) ↦
            elim (Result-cases (checked_process_map kernel rate_limit_bucket_map n)) [
              | inr (e, failed) ↦ inr (
                e,
                rw (assess_current, events, failed) refl,
                λ (_, bucket). absurd (cc (failed, checked-Fits rate_limit_bucket_map n bucket)),
              )
              | inl (_, bucket) ↦ inl (
                  rw
                    (
                      assess_current,
                      events,
                      bucket,
                      select-Staged d n st,
                      read_deny_count-pin kernel (top path_deny_count_map) id n there,
                      empty,
                    )
                    refl)
            ]
      ]

  pub assess-Staged :
      (d : Bytes) (n : Nodes)
      → Staged kernel list_id count_id d n
      → Assessed d n (assess_pin_abi kernel n)
  unfolding assess_pin_abi assess_layout Assessed
  assess-Staged d n st = go st.new_list st.new_count
    where
      go :
          Fits kernel path_deny_list_map n
          → IsFresh kernel n
          → Assessed d n (assess_pin_abi kernel n)
      go (inl absent) _ = inl (
          rw (assess_pin_abi, select-Staged d n st, exists-none (top path_deny_list_map) n absent)
            refl)
      go (inr (id, there, current)) (inl absent) = inl (
          rw
            (
              assess_pin_abi,
              select-Staged d n st,
              exists-pin (top path_deny_list_map) (pin id) n there,
              exists-none (top path_deny_count_map) n absent,
            )
            refl)
      go (inr (id, there, current)) (inr (new, also, fits, empty)) =
          let (info, known) = IsCurrent-known kernel path_deny_list_map id current in
          rw
            (
              assess_pin_abi,
              select-Staged d n st,
              exists-pin (top path_deny_list_map) (pin id) n there,
              exists-pin (top path_deny_count_map) (pin new) n also,
              assess_layout,
              map_info-pin kernel (top path_deny_list_map) id info n there known,
              has_expected_layout-true kernel path_deny_count_map new n also fits,
              IsCurrent-not_legacy kernel id info current known,
              has_expected_layout-true kernel path_deny_list_map id n there current,
            )
            (assess_current-Staged d n new st also empty)
