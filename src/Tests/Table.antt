-- ===== src/Tests/Table.antt =====
-- A side table with one entry.
use mathlib.Core.Logic.{ite}
use mathlib.Core.Bool.{◌||◌}
use neuromesh.Prelude.{ℕ, ◌≡◌, ◌⊎◌, Bool, false, not, none, some, [], is_empty, length, ℕ_discrete}
use neuromesh.Bytes.{Bytes, codes, Bytes-discrete}
use neuromesh.HashTable.{HashSet, get, contains_key}
use neuromesh.SideTable.{
  SideTable, SideEntry, identity_allow_cgroups_max_entries, new, entry_of, insert_entry,
  rejected_full, remove_by_cgroup, remove_by_pod, remove_all, sweep_missing_paths,
  plan_pe_allowlist_revoke,
}
use neuromesh.SideTable.Invariant.{IsConsistent, listed}
use neuromesh.SideTable.Operations.{
  new-IsConsistent, insert_entry-IsConsistent, remove_by_cgroup-IsConsistent,
}
use neuromesh.SideTable.Removal.{
  kept, taken, filtered, remove_by_pod-IsConsistent, sweep_missing_paths-filtered,
  plan_pe_allowlist_revoke-filtered,
}

abbrev pub pod_uid : Bytes
pod_uid = codes "uid-1"

abbrev pub web_entry : SideEntry
web_entry = record {
  pod_uid = pod_uid;
  namespace = codes "default";
  service_account = codes "web";
  spiffe_id = codes "spiffe://t/ns/default/sa/web";
  cgroup_path = codes "/cg/a";
  inode = 7;
}

abbrev pub one_entry : SideTable
one_entry = (insert_entry 7 web_entry new).0

pub one_entry-IsConsistent : IsConsistent one_entry
one_entry-IsConsistent = (insert_entry-IsConsistent 7 web_entry new new-IsConsistent).0

insert_entry-IsConsistent_example :
    IsConsistent (insert_entry 7 web_entry new).0
    × ((insert_entry 7 web_entry new ≡ (new, rejected_full))
          × ((entry_of 7 new ≡ none) × (length new.by_cgroup ≡ identity_allow_cgroups_max_entries))
        ⊎ ((q : ℕ)
            → entry_of q (insert_entry 7 web_entry new).0
              ≡ ite (ℕ_discrete 7 q) (some web_entry) (entry_of q new)))
insert_entry-IsConsistent_example = insert_entry-IsConsistent 7 web_entry new new-IsConsistent

remove_by_cgroup-IsConsistent_example :
    IsConsistent (remove_by_cgroup 7 one_entry).0
    × ((remove_by_cgroup 7 one_entry).1 ≡ entry_of 7 one_entry)
    × ((q : ℕ)
        → entry_of q (remove_by_cgroup 7 one_entry).0
          ≡ ite (ℕ_discrete 7 q) none (entry_of q one_entry))
remove_by_cgroup-IsConsistent_example =
    remove_by_cgroup-IsConsistent 7 one_entry one_entry-IsConsistent

remove_by_pod-IsConsistent_example :
    IsConsistent (remove_by_pod pod_uid one_entry).0
    × ((q : ℕ)
        → entry_of q (remove_by_pod pod_uid one_entry).0
          ≡ kept (listed pod_uid (entry_of q one_entry)) (entry_of q one_entry))
    × ((q : ℕ)
        → get ℕ_discrete q (remove_by_pod pod_uid one_entry).1
          ≡ taken (listed pod_uid (entry_of q one_entry)) (entry_of q one_entry))
remove_by_pod-IsConsistent_example =
    remove_by_pod-IsConsistent pod_uid one_entry one_entry-IsConsistent

abbrev nothing_exists : Bytes → Bool
nothing_exists path = false

sweep_missing_paths-filtered_example :
    IsConsistent (sweep_missing_paths nothing_exists one_entry).0
    × ((q : ℕ)
        → entry_of q (sweep_missing_paths nothing_exists one_entry).0
          ≡ filtered (λ e. nothing_exists e.cgroup_path) (entry_of q one_entry))
    × ((q : ℕ)
        → get ℕ_discrete q (sweep_missing_paths nothing_exists one_entry).1
          ≡ filtered (λ e. not (nothing_exists e.cgroup_path)) (entry_of q one_entry))
sweep_missing_paths-filtered_example =
    sweep_missing_paths-filtered one_entry one_entry-IsConsistent nothing_exists

abbrev nobody : HashSet Bytes
nobody = []

plan_pe_allowlist_revoke-filtered_example :
    IsConsistent (remove_all (plan_pe_allowlist_revoke nobody one_entry) one_entry).0
    × ((q : ℕ)
        → entry_of q (remove_all (plan_pe_allowlist_revoke nobody one_entry) one_entry).0
          ≡ filtered
              (λ e. is_empty e.spiffe_id || contains_key Bytes-discrete e.spiffe_id nobody)
              (entry_of q one_entry))
plan_pe_allowlist_revoke-filtered_example =
    plan_pe_allowlist_revoke-filtered one_entry one_entry-IsConsistent nobody
