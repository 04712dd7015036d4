-- ===== src/Correlator.antt =====
-- apps/agent-ebpf-sensor/src/identity_correlator/mod.rs, reconcile.rs, allowlist.rs, spiffe.rs and
-- container_match.rs: the handlers of the identity correlator, which keep the side table and the
-- kernel's map of allowed cgroups together.
-- A handler is a function of the correlator's state to the new state. Strings are lists of
-- characters. The cgroup file system is a parameter, and so is which updates the kernel accepts.
pub mod Invalidation
pub mod Sound
pub mod Events
pub mod Handlers
pub mod Resync
pub mod Seeds
pub mod Seeded
pub mod Start
use neuromesh.Prelude.{
  ℕ, Bool, true, false, not, ◌&&◌, Option, none, some, List, [], ◌∷◌, ◌++◌, ltb, ◌==◌,
  if◌then◌else◌, length, is_empty, map, drop, ℕ_discrete,
}
use neuromesh.Prelude.Result.{Result, ok, err}
use neuromesh.Bytes.{Bytes, codes, Bytes-discrete, starts_with}
use neuromesh.Text.{Str, trim}
use neuromesh.HashTable.{HashMap, HashSet, insert, contains_key}
use neuromesh.IdentityAllow.{
  IdentitySectionValidity, fresh, invalid, IdentityAllowMaps, Update, remove_allow_cgroup,
  seed_allow_cgroup,
}
use neuromesh.SideTable.{
  SideTable, SideEntry, InsertOutcome, inserted, replaced, rejected_full, entry_of, insert_entry,
  remove_by_cgroup, remove_by_pod, remove_all, plan_pe_allowlist_revoke, plan_teardown,
  plan_pod_delete, plan_missing_path_sweep, cgroup_id_for_path, clear,
}

pub data TeardownCmd : Type 0 where
  watch unwatch : Bytes → TeardownCmd
  rearm : List Bytes → TeardownCmd

pub record ContainerStatusView : Type 0 where
  pub container_id : Option Str
  pub running : Bool

pub record PodView : Type 0 where
  pub uid : Str
  pub namespace : Str
  pub service_account : Str
  pub containers : List ContainerStatusView

-- `sent` is what went to the inotify worker, the latest first.
pub record State : Type 0 where
  pub table : SideTable
  pub maps : IdentityAllowMaps
  pub allowlist : HashSet Bytes
  pub sent : List TeardownCmd

pub record Env : Type 0 where
  pub accepts : Update → Bool
  pub trust_domain : Str
  pub find_existing_pod_dir : Str → Option Bytes
  pub find_container_leaf : Bytes → Str → Option Bytes
  pub inode_of_path : Bytes → Option ℕ
  pub exists : Bytes → Bool

abbrev default_sa : Str → Str
default_sa sa = if is_empty (trim sa) then codes "default" else sa

unfoldable pub construct_spiffe_id : Str → Str → Str → Str
construct_spiffe_id trust_domain namespace service_account =
    codes "spiffe://"
    ++ (trim trust_domain
        ++ (codes "/ns/"
            ++ (trim namespace ++ (codes "/sa/" ++ trim (default_sa service_account)))))

unfoldable pub container_eligible : ContainerStatusView → Bool
container_eligible c = elim c.container_id [
  | none ↦ c.running
  | some id ↦ if not (is_empty (trim id)) then true else c.running
]

-- What follows the first `://`, if there is one.
unfoldable pub split_scheme : Str → Option Str
split_scheme [] = none
split_scheme (c ∷ s) =
    let rest = split_scheme s in if starts_with (c ∷ s) (codes "://") then some (drop 2 s) else rest

unfoldable pub strip_runtime_prefix : Str → Option Str
strip_runtime_prefix container_id =
    let s = trim container_id in
    if is_empty s then none else elim (split_scheme s) [
      | none ↦ some s
      | some rest ↦ if is_empty (trim rest) then none else some (trim rest)
    ]

unfoldable pub resolve_container_cgroup_path : Env → Str → ContainerStatusView → Option Bytes
resolve_container_cgroup_path env pod_uid c =
    if not (container_eligible c) then none else elim c.container_id [
      | none ↦ none
      | some id ↦ elim (strip_runtime_prefix id) [
        | none ↦ none
        | some raw ↦ elim (env.find_existing_pod_dir pod_uid) [
          | none ↦ none
          | some pod_dir ↦ env.find_container_leaf pod_dir raw
        ]
      ]
    ]

unfoldable pub side_entry_for_container : PodView → Str → Bytes → ℕ → SideEntry
side_entry_for_container pod spiffe leaf inode = record {
  pod_uid = pod.uid;
  namespace = pod.namespace;
  service_account = default_sa pod.service_account;
  spiffe_id = spiffe;
  cgroup_path = leaf;
  inode = inode;
}

-- The deletions in the kernel's map; the first that fails ends them.
unfoldable pub apply_invalidations :
    (Update → Bool) → List ℕ → IdentityAllowMaps → IdentityAllowMaps × Result Update (Unit {0})
apply_invalidations accepts [] maps = (maps, ok tt)
apply_invalidations accepts (id ∷ ids) maps =
    let (maps', r) = remove_allow_cgroup accepts id maps in
    let rest = apply_invalidations accepts ids maps' in
    elim r [ ok _ ↦ rest | err e ↦ (maps', err e) ]

abbrev pub ids_of : List (ℕ × SideEntry) → List ℕ
ids_of removed = map (λ r. r.0) removed

abbrev pub unwatch_all : List (ℕ × SideEntry) → List TeardownCmd → List TeardownCmd
unwatch_all [] sent = sent
unwatch_all ((_, e) ∷ removed) sent = unwatch_all removed (unwatch e.cgroup_path ∷ sent)

abbrev pub paths_of : HashMap ℕ SideEntry → List Bytes
paths_of m = map (λ r. r.1.cgroup_path) m

-- What the handlers do with the entries that left the side table: their watches and their keys in
-- the kernel's map go. The result is ignored or logged.
unfoldable pub invalidate : Env → SideTable × List (ℕ × SideEntry) → State → State
invalidate env (table', removed) s = record s {
  table = table';
  sent = unwatch_all removed s.sent;
  maps = (apply_invalidations env.accepts (ids_of removed) s.maps).0;
}

-- What follows `seed_allow_cgroup`: the watch, or the entry goes again.
abbrev pub keep_or_remove : ℕ → Bytes → State → IdentityAllowMaps × Result Update (Unit {0}) → State
keep_or_remove inode leaf s (maps', ok _) = record s { maps = maps'; sent = watch leaf ∷ s.sent }
keep_or_remove inode leaf s (maps', err _) = record s {
  table = (remove_by_cgroup inode s.table).0;
  maps = maps';
}

unfoldable pub seed_or_remove : Env → ℕ → Bytes → State → State
seed_or_remove env inode leaf s =
    keep_or_remove inode leaf s (seed_allow_cgroup env.accepts inode s.maps)

abbrev pub after_insert : Env → ℕ → Bytes → InsertOutcome → State → State
after_insert env inode leaf rejected_full s = s
after_insert env inode leaf replaced s = seed_or_remove env inode leaf s
after_insert env inode leaf inserted s = seed_or_remove env inode leaf s

-- One round of the loop of `reconcile_pod`.
unfoldable pub reconcile_container : Env → PodView → Str → ContainerStatusView → State → State
reconcile_container env pod spiffe c s = elim (resolve_container_cgroup_path env pod.uid c) [
  | none ↦ s
  | some leaf ↦ elim (env.inode_of_path leaf) [
    | none ↦ s
    | some inode ↦
        let entry = side_entry_for_container pod spiffe leaf inode in
        let (table', outcome) = insert_entry inode entry s.table in
        after_insert env inode leaf outcome (record s { table = table' })
  ]
]

unfoldable pub reconcile_containers : Env → PodView → Str → List ContainerStatusView → State → State
reconcile_containers env pod spiffe [] s = s
reconcile_containers env pod spiffe (c ∷ cs) s =
    reconcile_containers env pod spiffe cs (reconcile_container env pod spiffe c s)

-- With `take_pod_if_not_allowed`.
unfoldable pub reconcile_pod : Env → PodView → State → State
reconcile_pod env pod s =
    let spiffe = construct_spiffe_id env.trust_domain pod.namespace pod.service_account in
    if not (contains_key Bytes-discrete spiffe s.allowlist)
    then invalidate env (remove_by_pod pod.uid s.table) s
    else reconcile_containers env pod spiffe pod.containers s

-- `PodWatchEvent::Deleted`.
unfoldable pub pod_deleted : Env → Str → State → State
pod_deleted env uid s = invalidate env (remove_by_pod uid s.table) s

-- With `apply_revoke_plan`.
unfoldable pub revoke_not_in_allowlist : Env → State → State
revoke_not_in_allowlist env s =
    invalidate env (remove_all (plan_pe_allowlist_revoke s.allowlist s.table) s.table) s

unfoldable pub clear_side_table_hygiene : Env → State → State
clear_side_table_hygiene env s = invalidate env (clear s.table) s

-- A path of an inotify batch.
unfoldable pub torn_down : Env → Bytes → State → State
torn_down env path s =
    let s' = record s { sent = unwatch path ∷ s.sent } in
    elim (cgroup_id_for_path path s.table) [
      | none ↦ s'
      | some cid ↦
          let (table', planned) = plan_teardown cid s.table in
          elim planned [
            | none ↦ record s' { table = table' }
            | some id ↦ record s' {
              table = table';
              maps = (apply_invalidations env.accepts (id ∷ []) s.maps).0;
            }
          ]
    ]

-- The sweep at startup and after an overflow, without the Kubernetes client.
unfoldable pub missing_path_sweep : Env → State → State
missing_path_sweep env s =
    let (table', to_delete) = plan_missing_path_sweep env.exists s.table in
    record s {
      table = table';
      sent = rearm (paths_of table'.by_cgroup) ∷ s.sent;
      maps = (apply_invalidations env.accepts to_delete s.maps).0;
    }

-- `PeAllowlistCache::replace`: the ids without repetition.
unfoldable pub allowlist_set : List Bytes → HashSet Bytes
allowlist_set [] = []
allowlist_set (id ∷ ids) = insert Bytes-discrete id tt (allowlist_set ids)

abbrev pub replace_allowlist : List Bytes → State → State
replace_allowlist ids s = record s { allowlist = allowlist_set ids }

-- After a round of the policy sync, which replaced the allowlist.
unfoldable pub run_allowlist_followup : Env → IdentitySectionValidity → State → State
run_allowlist_followup env (fresh section) s = revoke_not_in_allowlist env s
run_allowlist_followup env (invalid reason) s = clear_side_table_hygiene env s
