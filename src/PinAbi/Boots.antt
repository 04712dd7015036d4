-- ===== src/PinAbi/Boots.antt =====
-- apps/agent-ebpf-sensor/src/pin_abi.rs: agents that are started one after another on one node, each
-- of which may be stopped anywhere before the deny list is filled.
use neuromesh.Prelude.{
  ℕ, ◌≡◌, ◌≢◌, inl, inr, Bool, true, Option, none, some, List, [], ◌∷◌, if◌then◌else◌, Bool-cases,
  All,
}
use neuromesh.Prelude.Result.{Result, ok, err}
use neuromesh.Bytes.{Bytes}
use neuromesh.DenyEntry.{PathDenyEntry}
use neuromesh.HashTable.{insert, get-insert_self, get-insert_ne}
use neuromesh.PinAbi.Disk.{
  FilePath, top, FilePath-discrete, pin, Nodes, Kernel, PinError, Disk, exists, legacy_entries,
  count_of,
}
use neuromesh.PinAbi.Names.{path_deny_list_map, path_deny_count_map}
use neuromesh.PinAbi.Staging.{next_legacy_dir_name}
use neuromesh.PinAbi.Prepare.{
  Prepared, MigrationResult, migrated_entries, legacy_migratable, migration_in_progress,
  assess_pin_abi, prepare_state, prepare_pin_root_for_load, PinAbiState,
}
use neuromesh.PinAbi.Changes.{Post}
use neuromesh.PinAbi.Layouts.{IsCurrent, IsLegacy}
use neuromesh.PinAbi.ProcessMaps.{ProcessMapsFit}
use neuromesh.PinAbi.Apart.{
  top-ne, numbered-ne-list, numbered-ne-count, list-ne-count, count-ne-list,
}
use neuromesh.PinAbi.Phases.{
  IsFree, Fits-same, IsFresh-same, Canonical, Staged, Recoverable, canonical, split, staged,
  Staged-changed,
}
use neuromesh.PinAbi.Resume.{Failed, Fit, one, both}
use neuromesh.PinAbi.Recovery.{Migrated, migrate-Post, in_progress-Post}
use neuromesh.PinAbi.Assess.{Assessed, assess-Split, assess-Canonical, assess-Staged}

module _ (kernel : Kernel) (list_id count_id : ℕ) (entries : List PathDenyEntry)
    (legacy : IsLegacy kernel list_id) (current : IsCurrent kernel path_deny_count_map count_id)
    (readable : legacy_entries kernel list_id count_id ≡ ok entries) where
  module _ (allows : ℕ → Bool) (ready : Type 0) (s : Disk)
      (fit : Fit kernel allows list_id count_id ready s.nodes) where
    prepared :
        (state : PinAbiState)
        → assess_pin_abi kernel s.nodes ≡ ok state
        → Post
            (Migrated kernel list_id count_id entries)
            (Failed kernel allows list_id count_id ready)
            (prepare_state kernel allows state s)
        → Post
            (Migrated kernel list_id count_id entries)
            (Failed kernel allows list_id count_id ready)
            (prepare_pin_root_for_load kernel allows s)
    unfolding prepare_pin_root_for_load
    prepared state assessed h = rw (prepare_pin_root_for_load, assessed) h

    prepare-Post :
        Recoverable kernel list_id count_id s.nodes
        → (ready → (d : Bytes) × (next_legacy_dir_name s.nodes ≡ ok d))
        → Post
            (Migrated kernel list_id count_id entries)
            (Failed kernel allows list_id count_id ready)
            (prepare_pin_root_for_load kernel allows s)
    unfolding prepare_pin_root_for_load Assessed
    prepare-Post (canonical c) name_free =
        prepared legacy_migratable
          (assess-Canonical kernel list_id count_id s.nodes c legacy current)
          (migrate-Post kernel allows list_id count_id entries ready readable s c fit name_free)
    prepare-Post (split d sp) name_free =
        prepared (migration_in_progress d) (assess-Split kernel list_id count_id d s.nodes sp)
          (in_progress-Post kernel allows list_id count_id entries ready readable d s (one sp) fit)
    prepare-Post (staged d st) name_free =
        elim (assess-Staged kernel list_id count_id d s.nodes st) [
          | inl assessed ↦ prepared (migration_in_progress d) assessed (
              in_progress-Post kernel allows list_id count_id entries ready readable d s (both st)
                fit)
          | inr (e, failed, unfit) ↦
              rw (prepare_pin_root_for_load, failed)
                (record { holds = (staged d st, λ is_ready. absurd (unfit (fit is_ready))) })
        ]

-- What a run of the agent meets: which changes go through, and the maps that the loader makes at free
-- names before the run ends.
pub record Boot : Type 0 where
  pub allows : ℕ → Bool
  pub made_list : Option ℕ
  pub made_count : Option ℕ

-- `create_pinned_by_name`: an existing pin is reused.
abbrev pub load_pin : Bytes → Option ℕ → Nodes → Nodes
load_pin name none n = n
load_pin name (some id) n =
    if exists (top name) n then n else insert FilePath-discrete (top name) (pin id) n

abbrev pub load : Boot → Nodes → Nodes
load b n = load_pin path_deny_count_map b.made_count (load_pin path_deny_list_map b.made_list n)

module _ (kernel : Kernel) where
  -- A run that does not get to fill the deny list.
  unfoldable pub boot : Boot → Nodes → Nodes
  boot b n =
      let (s, r) = prepare_pin_root_for_load kernel b.allows (record { nodes = n; changes = 0 }) in
      elim r [ ok _ ↦ load b s.nodes | err _ ↦ s.nodes ]

  unfoldable pub run_boots : List Boot → Nodes → Nodes
  unfolding boot
  run_boots [] n = n
  run_boots (b ∷ bs) n = run_boots bs (boot b n)

  abbrev pub HasLayout : Bytes → Option ℕ → Type 0
  HasLayout name none = Unit
  HasLayout name (some id) = IsCurrent kernel name id

  abbrev pub IsEmpty : Option ℕ → Type 0
  IsEmpty none = Unit
  IsEmpty (some id) = count_of kernel id ≡ ok 0

  -- The maps that a loader makes have the layout of the program, and hold zeros.
  abbrev pub MakesNew : Boot → Type 0
  MakesNew b =
      HasLayout path_deny_list_map b.made_list
      × HasLayout path_deny_count_map b.made_count
      × IsEmpty b.made_count

  module _ (list_id count_id : ℕ) where
    load_list-Staged :
        (d : Bytes) (made : Option ℕ) (n : Nodes)
        → HasLayout path_deny_list_map made
        → Staged kernel list_id count_id d n
        → Staged kernel list_id count_id d (load_pin path_deny_list_map made n)
    load_list-Staged d none n fits st = st
    load_list-Staged d (some id) n fits st = elim (Bool-cases (exists (top path_deny_list_map) n)) [
      | inl there ↦ rw there st
      | inr free ↦
          let same = λ (q : FilePath) (differ : top path_deny_list_map ≢ q).
            get-insert_ne FilePath-discrete (top path_deny_list_map) q (pin id) n differ in
          rw free (
            Staged-changed kernel list_id count_id d path_deny_list_map n _ numbered-ne-list same
              (inr
                (id, get-insert_self FilePath-discrete (top path_deny_list_map) (pin id) n, fits))
              (IsFresh-same kernel n _ (same (top path_deny_count_map) (top-ne list-ne-count))
                st.new_count)
              st)
    ]

    load_count-Staged :
        (d : Bytes) (made : Option ℕ) (n : Nodes)
        → HasLayout path_deny_count_map made
        → IsEmpty made
        → Staged kernel list_id count_id d n
        → Staged kernel list_id count_id d (load_pin path_deny_count_map made n)
    load_count-Staged d none n fits empty st = st
    load_count-Staged d (some id) n fits empty st =
        elim (Bool-cases (exists (top path_deny_count_map) n)) [
          | inl there ↦ rw there st
          | inr free ↦
              let same = λ (q : FilePath) (differ : top path_deny_count_map ≢ q).
                get-insert_ne FilePath-discrete (top path_deny_count_map) q (pin id) n differ in
              rw free (
                Staged-changed kernel list_id count_id d path_deny_count_map n _ numbered-ne-count
                  same
                  (Fits-same kernel path_deny_list_map n _
                    (same (top path_deny_list_map) (top-ne count-ne-list)) st.new_list)
                  (inr (
                    id,
                    get-insert_self FilePath-discrete (top path_deny_count_map) (pin id) n,
                    fits,
                    empty,
                  ))
                  st)
        ]

    module _ (entries : List PathDenyEntry) (legacy : IsLegacy kernel list_id)
        (current : IsCurrent kernel path_deny_count_map count_id)
        (readable : legacy_entries kernel list_id count_id ≡ ok entries) where
      boot-outcome :
          (b : Boot) (r : Disk × Result PinError Prepared)
          → MakesNew b
          → Post
              (Migrated kernel list_id count_id entries)
              (Failed kernel b.allows list_id count_id ⊥)
              r
          → Recoverable kernel list_id count_id
              (elim r.1 as (λ _. Nodes) [ ok _ ↦ load b r.0.nodes | err _ ↦ r.0.nodes ])
      boot-outcome b (s, err e) new h = h.holds.0
      boot-outcome b (s, ok a) (list, count, empty) h =
          let (_, d, st, _) = h.holds in
          staged d (
            load_count-Staged d b.made_count (load_pin path_deny_list_map b.made_list s.nodes) count
              empty (load_list-Staged d b.made_list s.nodes list st))

      pub run_boots-Recoverable :
          (boots : List Boot) (n : Nodes)
          → All MakesNew boots
          → Recoverable kernel list_id count_id n
          → Recoverable kernel list_id count_id (run_boots boots n)
      unfolding run_boots boot
      run_boots-Recoverable [] n new r = r
      run_boots-Recoverable (b ∷ bs) n (new, news) r = run_boots-Recoverable bs (boot b n) news (
          boot-outcome b
            (prepare_pin_root_for_load kernel b.allows (record { nodes = n; changes = 0 })) new
            (prepare-Post kernel list_id count_id entries legacy current readable b.allows ⊥
              (record { nodes = n; changes = 0 }) (λ no. absurd no) r (λ no. absurd no)))

      clean :
          (r : Disk × Result PinError Prepared)
          → Post
              (Migrated kernel list_id count_id entries)
              (Failed kernel (λ _. true) list_id count_id (Unit {0}))
              r
          → (results : List MigrationResult) × (r.1 ≡ ok (migrated_entries entries true, results))
            × IsFree r.0.nodes
      clean (s, err e) h = absurd (cc ((h.holds.1 tt).1))
      clean (s, ok (seed, results)) h =
          let (same, d, st, free) = h.holds in (results, cc same, free)

      -- From a list of the old layout and its count at their names, with no other deny pin staged:
      -- after any sequence of runs that are stopped or refused at any change before the deny list
      -- is filled, also right after the loader made new maps, a run whose changes all go through
      -- succeeds, hands out exactly the entries of the old list, and leaves both names free. The
      -- entries have to be readable, the process maps to fit, and a name for a staging directory
      -- to be left.
      pub run_boots-migrated :
          (boots : List Boot) (n : Nodes) (d : Bytes)
          → All MakesNew boots
          → Canonical kernel list_id count_id n
          → ProcessMapsFit kernel (run_boots boots n)
          → next_legacy_dir_name (run_boots boots n) ≡ ok d
          → let r =
              prepare_pin_root_for_load kernel
                (λ _. true)
                (record { nodes = run_boots boots n; changes = 0 }) in
            (results : List MigrationResult) × (r.1 ≡ ok (migrated_entries entries true, results))
            × IsFree r.0.nodes
      run_boots-migrated boots n d new c fits name_free = clean _ (
          prepare-Post kernel list_id count_id entries legacy current readable (λ _. true)
            (Unit {0}) (record { nodes = run_boots boots n; changes = 0 }) (λ _. fits)
            (run_boots-Recoverable boots n new (canonical c)) (λ _. (d, name_free)))
