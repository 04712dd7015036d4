-- ===== src/PinAbi/Safe.antt =====
-- apps/agent-ebpf-sensor/src/pin_abi.rs: which deny pins the loader can meet at the canonical names
-- after a preparation that succeeded. The loader reuses them without looking at their layout.
use mathlib.Core.Path.{subst}
use neuromesh.Prelude.{
  ℕ, ◌≡◌, ◌∙◌, ap, ◌≢◌, ◌⊎◌, inl, inr, Bool, true, false, ◌&&◌, none, List, [], arith, ◌==◌, ==_iff,
  Bool-cases,
}
use neuromesh.Prelude.Result.{ok, Result-cases}
use neuromesh.Bytes.{Bytes}
use neuromesh.HashTable.{is_some}
use neuromesh.DenyEntry.{PathDenyEntry}
use neuromesh.PinAbi.Disk.{
  FilePath, top, Nodes, at, Kernel, Disk, exists, read_deny_count, read_legacy_deny_entries_at,
}
use neuromesh.PinAbi.Names.{path_deny_list_map, path_deny_count_map}
use neuromesh.PinAbi.Staging.{resolve_deny_pin_locations}
use neuromesh.PinAbi.Prepare.{
  MigrationResult, bootstrap_entries_fallback, DenySeedOverride, migrated_entries, PinAbiState,
  cold, compatible, legacy_migratable, migration_in_progress, not_compatible, assess_pin_abi,
  canonical_count, resume_read, resume_fallback, resume, prepare_state, prepare_pin_root_for_load,
  both_exist,
}
use neuromesh.PinAbi.Changes.{Post, Post-bind, Post-imp, Post-read, Post-pure}
use neuromesh.PinAbi.Reused.{
  Anyhow, read_deny_count-same, IsPrepared, IsFree-IsPrepared, recreate-IsPrepared,
  migrate-IsPrepared,
}
use neuromesh.PinAbi.Freed.{Kept, Covered, Completed, complete-Completed, free_names-IsFree}
use neuromesh.PinAbi.States.{absent, IsPinned, Says, assess_pin_abi-Says}
use neuromesh.PinAbi.Layouts.{exists-none}
use neuromesh.PinAbi.Phases.{IsFree}

exists-same : (p : FilePath) (n m : Nodes) → at p m ≡ at p n → exists p m ≡ exists p n
unfolding exists
exists-same p n m same = ap is_some same

module _ (kernel : Kernel) (allows : ℕ → Bool) where
  -- A count that is not freed is not zero, and then no list is left.
  retained :
      (d : Bytes) (n m : Nodes) (active : ℕ)
      → Says kernel (migration_in_progress d) n
      → Completed kernel allows d n m
      → canonical_count kernel d m ≡ ok active
      → active ≢ 0
      → (at (top path_deny_list_map) m ≡ none)
        × (read_deny_count kernel (top path_deny_count_map) m ≡ ok active)
  unfolding canonical_count
  retained d n m active (_, says) (_, _, list, count) counted some_active =
      elim (Bool-cases (both_exist d path_deny_count_map m)) [
        | inr apart ↦ absurd (some_active (ground (arith, apart)))
        | inl both ↦
            let read_as : read_deny_count kernel (top path_deny_count_map) m ≡ ok active =
              ground (arith, both) in
            let there : exists (top path_deny_count_map) m ≡ true = ground (arith, both) in
            (kept_list list count says read_as there, read_as)
      ]
    where
      kept_list :
          Kept kernel allows path_deny_list_map n m
          → Kept kernel allows path_deny_count_map n m
          → ((exists (top path_deny_list_map) n && exists (top path_deny_count_map) n) ≡ false)
            ⊎ (IsPinned kernel path_deny_list_map n
                × (read_deny_count kernel (top path_deny_count_map) n ≡ ok 0))
          → read_deny_count kernel (top path_deny_count_map) m ≡ ok active
          → exists (top path_deny_count_map) m ≡ true
          → at (top path_deny_list_map) m ≡ none
      kept_list (inl gone) _ _ _ _ = gone
      kept_list (inr same) (inl gone) _ _ there =
          absurd (cc (there, exists-none (top path_deny_count_map) m gone))
      kept_list (inr same) (inr count) (inr (_, zero)) read_as there = absurd (
          some_active
            (ground (arith, read_deny_count-same kernel (top path_deny_count_map) n m count)))
      kept_list (inr same) (inr count) (inl incomplete) read_as there =
          elim (Bool-cases (exists (top path_deny_list_map) n)) [
            | inr no_list ↦ same ∙ absent (top path_deny_list_map) n no_list
            | inl list ↦
                absurd (ground (arith, list, exists-same (top path_deny_count_map) n m count))
          ]

  resume_read-IsPrepared :
      (d : Bytes) (entries : List PathDenyEntry) (s : Disk)
      → Covered kernel allows d path_deny_list_map s.nodes
      → Covered kernel allows d path_deny_count_map s.nodes
      → Post (λ r n. IsPrepared kernel r.0 n) (Anyhow) (resume_read kernel allows d entries s)
  unfolding resume_read
  resume_read-IsPrepared d entries s list count =
      Post-bind
        {Q = λ active n.
          Covered kernel allows d path_deny_list_map n
          × Covered kernel allows d path_deny_count_map n}
        _ _ s (Post-read (canonical_count kernel d) s (λ _ _. (list, count)) (λ _ _. tt))
        (λ active s (list, count).
          Post-bind {Q = λ _ n. IsFree n} _ _ s
            (elim (Bool-cases (active == 0)) [
              | inl zero ↦ rw zero (free_names-IsFree kernel allows d s list count)
              | inr some_active ↦ rw some_active (record { holds = tt })
            ])
            (λ _ s free. Post-pure _ s free))

  resume_fallback-IsPrepared :
      (d : Bytes) (n : Nodes) (s : Disk)
      → Says kernel (migration_in_progress d) n
      → Completed kernel allows d n s.nodes
      → Post (λ r m. IsPrepared kernel r.0 m) Anyhow (resume_fallback kernel allows d s)
  unfolding resume_fallback
  resume_fallback-IsPrepared d n s says completed =
      Post-bind
        {Q = λ active m. Completed kernel allows d n m × (canonical_count kernel d m ≡ ok active)} _
        _ s
        (Post-read (canonical_count kernel d) s (λ active counted. (completed, counted))
          (λ _ _. tt))
        (λ active t (completed, counted).
          Post-bind {Q = λ _ m. IsPrepared kernel (migrated_entries [] false) m} _ _ t
            (elim (Bool-cases (active == 0)) [
              | inl zero ↦ rw zero (
                  Post-imp _ (λ _ m free. IsFree-IsPrepared kernel [] false m free) (λ _ _ _. tt)
                    (free_names-IsFree kernel allows d t completed.0 completed.1))
              | inr some_active ↦
                  let nonzero : active ≢ 0 =
                    λ zero. absurd (cc (some_active, (==_iff active 0).1 zero)) in
                  let (gone, read_as) =
                    retained d n t.nodes active says completed counted nonzero in
                  rw some_active (record { holds = (gone, inr (active, read_as, nonzero)) })
            ])
            (λ _ u prepared.
              Post-bind {Q = λ _ m. IsPrepared kernel (migrated_entries [] false) m} _ _ u
                (Post-read (λ _. bootstrap_entries_fallback) u (λ _ _. prepared) (λ _ _. tt))
                (λ entries v prepared. Post-pure _ v prepared)))

  resume-IsPrepared :
      (d : Bytes) (s : Disk)
      → Says kernel (migration_in_progress d) s.nodes
      → Post (λ r m. IsPrepared kernel r.0 m) Anyhow (resume kernel allows d s)
  unfolding resume
  resume-IsPrepared d s says =
      Post-bind _ _ s (complete-Completed kernel allows d s says.0) (λ _ t completed.
        Post-bind {Q = λ _ m. Completed kernel allows d s.nodes m} _ _ t
          (Post-read (resolve_deny_pin_locations d) t (λ _ _. completed) (λ _ _. tt))
          (λ locations u completed.
            elim (Result-cases
              (read_legacy_deny_entries_at kernel locations.list locations.count u.nodes)) [
                | inl (entries, found) ↦
                    rw found (resume_read-IsPrepared d entries u completed.0 completed.1)
                | inr (e, failed) ↦
                    rw failed (resume_fallback-IsPrepared d s.nodes u says completed)
              ]))

  prepare_state-IsPrepared :
      (state : PinAbiState) (s : Disk)
      → Says kernel state s.nodes
      → Post (λ r m. IsPrepared kernel r.0 m) Anyhow (prepare_state kernel allows state s)
  prepare_state-IsPrepared (not_compatible name) s says = record { holds = tt }
  prepare_state-IsPrepared cold s says = recreate-IsPrepared kernel allows s _ (λ removed. says)
  prepare_state-IsPrepared compatible s says =
      recreate-IsPrepared kernel allows s _ (λ removed. says)
  prepare_state-IsPrepared legacy_migratable s says = migrate-IsPrepared kernel allows s
  prepare_state-IsPrepared (migration_in_progress d) s says =
      Post-bind _ _ s (resume-IsPrepared d s says)
        (λ (seed, results) t prepared. recreate-IsPrepared kernel allows t _ (λ removed. prepared))

  prepare-IsPrepared :
      (s : Disk)
      → Post (λ r m. IsPrepared kernel r.0 m) Anyhow (prepare_pin_root_for_load kernel allows s)
  unfolding prepare_pin_root_for_load
  prepare-IsPrepared s = elim (Result-cases (assess_pin_abi kernel s.nodes)) [
    | inr (e, failed) ↦ rw (prepare_pin_root_for_load, failed) (record { holds = tt })
    | inl (state, assessed) ↦
        rw (prepare_pin_root_for_load, assessed)
          (prepare_state-IsPrepared state s (assess_pin_abi-Says kernel s.nodes state assessed))
  ]

  -- In any pin directory and whichever changes are refused: when a preparation succeeds with a
  -- bootstrap or with the entries of an old list, both names are free; when it resumes, both are
  -- pinned with the expected layout; when it falls back to the bootstrap entries, the name of the
  -- list is free, and the name of the count is free or holds a map that reads as not zero.
  pub prepare_pin_root_for_load-IsPrepared :
      (s t : Disk) (seed : DenySeedOverride) (results : List MigrationResult)
      → prepare_pin_root_for_load kernel allows s ≡ (t, ok (seed, results))
      → IsPrepared kernel seed t.nodes
  prepare_pin_root_for_load-IsPrepared s t seed results done =
      let h =
        subst (λ r. Post (λ r m. IsPrepared kernel r.0 m) Anyhow r) done (prepare-IsPrepared s) in
      h.holds
