-- ===== src/SideTable.antt =====
-- apps/agent-ebpf-sensor/src/identity_correlator/side_table.rs and invalidate.rs: the side table that
-- says which cgroups were allowed for which pod, and what an invalidation takes out of it.
-- A loop over a hash map or set takes the list's order. A path is the bytes of its name.
pub mod Invariant
pub mod Operations
pub mod Removal
use mathlib.Core.Logic.{ite}
use neuromesh.Prelude.{
  ℕ, ◌+◌, ◌≡◌, Bool, true, false, not, ◌&&◌, Option, none, some, List, [], ◌∷◌, leb, if◌then◌else◌,
  length, is_empty, ℕ_discrete, map,
}
use neuromesh.Bytes.{Bytes, Bytes-discrete}
use neuromesh.HashTable.{HashMap, HashSet, get, remove, insert, contains_key}
use neuromesh.DenyEntry.{u32}

abbrev pub identity_allow_cgroups_max_entries : ℕ
identity_allow_cgroups_max_entries = 16384

pub record SideEntry : Type 0 where
  pub pod_uid : Bytes
  pub namespace : Bytes
  pub service_account : Bytes
  pub spiffe_id : Bytes
  pub cgroup_path : Bytes
  pub inode : ℕ

pub data InsertOutcome : Type 0 where
  inserted replaced rejected_full : InsertOutcome

pub record SideTable : Type 0 where
  pub by_cgroup : HashMap ℕ SideEntry
  pub by_pod : HashMap Bytes (HashSet ℕ)
  pub by_path : HashMap Bytes ℕ

abbrev pub new : SideTable
new = record { by_cgroup = []; by_pod = []; by_path = [] }

abbrev pub entry_of : ℕ → SideTable → Option SideEntry
entry_of cgroup_id t = get ℕ_discrete cgroup_id t.by_cgroup

-- The part of `unlink_indexes` on the pod index.
unfoldable pub unlink_pod : ℕ → Bytes → HashMap Bytes (HashSet ℕ) → HashMap Bytes (HashSet ℕ)
unlink_pod cgroup_id pod_uid by_pod =
    if is_empty pod_uid then by_pod else elim (get Bytes-discrete pod_uid by_pod) [
      | none ↦ by_pod
      | some ids ↦
          let ids' = remove ℕ_discrete cgroup_id ids in
          if is_empty ids'
          then remove Bytes-discrete pod_uid by_pod
          else insert Bytes-discrete pod_uid ids' by_pod
    ]

unfoldable pub unlink_indexes : ℕ → SideEntry → SideTable → SideTable
unlink_indexes cgroup_id entry t = record t {
  by_path = remove Bytes-discrete entry.cgroup_path t.by_path;
  by_pod = unlink_pod cgroup_id entry.pod_uid t.by_pod;
}

-- `by_pod.entry(pod_uid).or_default().insert(cgroup_id)`, for a pod that is known.
unfoldable pub link_pod : ℕ → Bytes → HashMap Bytes (HashSet ℕ) → HashMap Bytes (HashSet ℕ)
link_pod cgroup_id pod_uid by_pod =
    if is_empty pod_uid then by_pod else elim (get Bytes-discrete pod_uid by_pod) [
      | none ↦ insert Bytes-discrete pod_uid (insert ℕ_discrete cgroup_id tt []) by_pod
      | some ids ↦ insert Bytes-discrete pod_uid (insert ℕ_discrete cgroup_id tt ids) by_pod
    ]

unfoldable pub remove_by_cgroup : ℕ → SideTable → SideTable × Option SideEntry
remove_by_cgroup cgroup_id t = elim (entry_of cgroup_id t) [
  | none ↦ (t, none)
  | some entry ↦ (
    unlink_indexes cgroup_id entry
        (record t { by_cgroup = remove ℕ_discrete cgroup_id t.by_cgroup }),
    some entry,
  )
]

-- The writes of `insert` behind its unlinking of an old entry.
unfoldable pub link : ℕ → SideEntry → SideTable → SideTable
link cgroup_id entry t = record {
  by_pod = link_pod cgroup_id entry.pod_uid t.by_pod;
  by_path = insert Bytes-discrete entry.cgroup_path cgroup_id t.by_path;
  by_cgroup = insert ℕ_discrete cgroup_id entry t.by_cgroup;
}

unfoldable pub insert_entry : ℕ → SideEntry → SideTable → SideTable × InsertOutcome
insert_entry cgroup_id entry t =
    let known = contains_key ℕ_discrete cgroup_id t.by_cgroup in
    if not known && leb identity_allow_cgroups_max_entries (u32 (length t.by_cgroup))
    then (t, rejected_full)
    else (
      link cgroup_id entry (remove_by_cgroup cgroup_id t).0,
      if known then replaced else inserted,
    )

-- The loop of `remove_by_pod`.
unfoldable pub drop_ids : HashSet ℕ → SideTable → SideTable × List (ℕ × SideEntry)
drop_ids [] t = (t, [])
drop_ids ((id, _) ∷ ids) t = elim (entry_of id t) [
  | none ↦ drop_ids ids t
  | some entry ↦
      let (t', out) = drop_ids ids (record t {
        by_cgroup = remove ℕ_discrete id t.by_cgroup;
        by_path = remove Bytes-discrete entry.cgroup_path t.by_path;
      }) in
      (t', (id, entry) ∷ out)
]

unfoldable pub remove_by_pod : Bytes → SideTable → SideTable × List (ℕ × SideEntry)
remove_by_pod pod_uid t = elim (get Bytes-discrete pod_uid t.by_pod) [
  | none ↦ (t, [])
  | some ids ↦ drop_ids ids (record t { by_pod = remove Bytes-discrete pod_uid t.by_pod })
]

-- The ids of the entries that pass a test, as `iter().filter(..).map(..).collect()` finds them.
unfoldable pub select_ids : (SideEntry → Bool) → HashMap ℕ SideEntry → List ℕ
select_ids keep [] = []
select_ids keep ((id, e) ∷ m) = let rest = select_ids keep m in if keep e then id ∷ rest else rest

unfoldable pub plan_pe_allowlist_revoke : HashSet Bytes → SideTable → List ℕ
plan_pe_allowlist_revoke allowed t =
    select_ids
      (λ e. not (is_empty e.spiffe_id) && not (contains_key Bytes-discrete e.spiffe_id allowed))
      t.by_cgroup

unfoldable pub cgroup_id_for_path : Bytes → SideTable → Option ℕ
cgroup_id_for_path path t = get Bytes-discrete path t.by_path

unfoldable pub clear : SideTable → SideTable × List (ℕ × SideEntry)
clear t = (new, t.by_cgroup)

-- The loop that takes a list of ids out one by one: of `sweep_missing_paths`, and of
-- `apply_revoke_plan`.
unfoldable pub remove_all : List ℕ → SideTable → SideTable × List (ℕ × SideEntry)
remove_all [] t = (t, [])
remove_all (id ∷ ids) t =
    let (t', found) = remove_by_cgroup id t in
    let (t'', out) = remove_all ids t' in
    elim found [ none ↦ (t'', out) | some e ↦ (t'', (id, e) ∷ out) ]

-- Whether a path exists is the file system's answer.
unfoldable pub sweep_missing_paths : (Bytes → Bool) → SideTable → SideTable × List (ℕ × SideEntry)
sweep_missing_paths exists t =
    remove_all (select_ids (λ e. not (exists e.cgroup_path)) t.by_cgroup) t

-- invalidate.rs: the ids to delete from the kernel's map.
unfoldable pub plan_pod_delete : Bytes → SideTable → SideTable × List ℕ
plan_pod_delete pod_uid t = let (t', out) = remove_by_pod pod_uid t in (t', map (λ r. r.0) out)

unfoldable pub plan_teardown : ℕ → SideTable → SideTable × Option ℕ
plan_teardown cgroup_id t =
    let (t', found) = remove_by_cgroup cgroup_id t in
    (t', elim found [ none ↦ none | some _ ↦ some cgroup_id ])

unfoldable pub plan_missing_path_sweep : (Bytes → Bool) → SideTable → SideTable × List ℕ
plan_missing_path_sweep exists t =
    let (t', out) = sweep_missing_paths exists t in (t', map (λ r. r.0) out)
