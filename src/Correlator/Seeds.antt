-- ===== src/Correlator/Seeds.antt =====
-- apps/agent-ebpf-sensor/src/identity_allow.rs and identity_correlator/mod.rs: the cgroups that a
-- laboratory setup allows by hand, from the environment variable to the side table.
use neuromesh.Prelude.{
  ℕ, Bool, true, false, not, Option, none, some, List, [], ◌∷◌, ltb, ◌==◌, if◌then◌else◌, length,
  is_empty,
}
use neuromesh.Prelude.Result.{Result, ok, err}
use neuromesh.Bytes.{Bytes}
use neuromesh.DenyEntry.{u32}
use neuromesh.Text.{Str, trim, parse_u64}
use neuromesh.CgroupPath.{parse_cgroup_path}
use neuromesh.IdentityAllow.{IdentityAllowMaps, Update, seed_allow_cgroup}
use neuromesh.SideTable.{
  SideEntry, InsertOutcome, inserted, replaced, rejected_full, insert_entry,
  identity_allow_cgroups_max_entries,
}
use neuromesh.Correlator.{Env, State, watch}

-- `raw.split(',')`.
abbrev with_first : ℕ → List Str → List Str
with_first c [] = (c ∷ []) ∷ []
with_first c (p ∷ ps) = (c ∷ p) ∷ ps

unfoldable pub split_comma : Str → List Str
split_comma [] = [] ∷ []
split_comma (c ∷ cs) =
    let rest = split_comma cs in if c == b',' then [] ∷ rest else with_first c rest

pub data SeedError : Type 0 where
  invalid_id : SeedError
  too_many_ids : SeedError
  map_update : Update → SeedError
  no_cgroup : ℕ → SeedError
  other_inode : ℕ → SeedError
  table_full : ℕ → SeedError
  worker_closed : SeedError

abbrev pub parse_parts : List Str → Result SeedError (List ℕ)
parse_parts [] = ok []
parse_parts (part ∷ parts) =
    let rest = parse_parts parts in
    if is_empty (trim part) then rest else (elim (parse_u64 (trim part)) [
      | none ↦ err invalid_id
      | some id ↦ elim rest [ err e ↦ err e | ok ids ↦ ok (id ∷ ids) ]
    ])

unfoldable pub parse_manual_cgroup_ids : Str → Result SeedError (List ℕ)
unfolding split_comma trim parse_u64
parse_manual_cgroup_ids raw = elim (parse_parts (split_comma raw)) [
  | err e ↦ err e
  | ok ids ↦
      if ltb identity_allow_cgroups_max_entries (u32 (length ids)) then err too_many_ids else ok ids
]

module _ (accepts : Update → Bool) where
  unfoldable pub seed_each :
      List ℕ → IdentityAllowMaps → IdentityAllowMaps × Result SeedError (Unit {0})
  unfolding seed_allow_cgroup
  seed_each [] maps = (maps, ok tt)
  seed_each (id ∷ ids) maps =
      let (maps', r) = seed_allow_cgroup accepts id maps in
      let rest = seed_each ids maps' in elim r [ err e ↦ (maps', err (map_update e)) | ok _ ↦ rest ]

  unfoldable pub seed_parsed :
      Result SeedError (List ℕ) → IdentityAllowMaps → IdentityAllowMaps × Result SeedError (List ℕ)
  unfolding seed_each
  seed_parsed (err e) maps = (maps, err e)
  seed_parsed (ok ids) maps =
      let (maps', r) = seed_each ids maps in
      elim r [ err e ↦ (maps', err e) | ok _ ↦ (maps', ok ids) ]

  -- The variable's value, if it is set.
  unfoldable pub apply_manual_cgroup_seeds_from_env :
      Option Str → IdentityAllowMaps → IdentityAllowMaps × Result SeedError (List ℕ)
  unfolding seed_parsed parse_manual_cgroup_ids trim
  apply_manual_cgroup_seeds_from_env none maps = (maps, ok [])
  apply_manual_cgroup_seeds_from_env (some raw) maps =
      if is_empty (trim raw)
      then (maps, ok [])
      else seed_parsed (parse_manual_cgroup_ids (trim raw)) maps

abbrev pub pod_uid_of : Bytes → Bytes
pod_uid_of path = elim (parse_cgroup_path path) [ none ↦ [] | some p ↦ p.pod_uid ]

abbrev pub seeded_entry : Bytes → ℕ → SideEntry
seeded_entry path inode = record {
  pod_uid = pod_uid_of path;
  namespace = [];
  service_account = [];
  spiffe_id = [];
  cgroup_path = path;
  inode = inode;
}

-- The watch, if the worker still listens.
abbrev pub send_watch : Bool → Bytes → SideEntry → State → State × Result SeedError SideEntry
send_watch true path entry s = (record s { sent = watch path ∷ s.sent }, ok entry)
send_watch false path entry s = (s, err worker_closed)

abbrev pub after_seed_insert :
    Bool → ℕ → Bytes → SideEntry → InsertOutcome → State → State × Result SeedError SideEntry
after_seed_insert open_worker id path entry rejected_full s = (s, err (table_full id))
after_seed_insert open_worker id path entry inserted s = send_watch open_worker path entry s
after_seed_insert open_worker id path entry replaced s = send_watch open_worker path entry s

module _ (path_for_cgroup_id : ℕ → Option Bytes) (open_worker : Bool) (env : Env) where
  unfoldable pub register_seeded_cgroup : ℕ → State → State × Result SeedError SideEntry
  unfolding insert_entry
  register_seeded_cgroup id s = elim (path_for_cgroup_id id) [
    | none ↦ (s, err (no_cgroup id))
    | some path ↦ elim (env.inode_of_path path) [
      | none ↦ (s, err (no_cgroup id))
      | some inode ↦
          if not (inode == id)
          then (s, err (other_inode id))
          else let (table', outcome) = insert_entry id (seeded_entry path inode) s.table in
            after_seed_insert open_worker id path (seeded_entry path inode) outcome
              (record s { table = table' })
    ]
  ]

  unfoldable pub register_manual_seed_ids :
      List ℕ → State → State × Result SeedError (List SideEntry)
  unfolding register_seeded_cgroup
  register_manual_seed_ids [] s = (s, ok [])
  register_manual_seed_ids (id ∷ ids) s =
      let (s', r) = register_seeded_cgroup id s in
      let (s'', rest) = register_manual_seed_ids ids s' in
      elim r [
        | err e ↦ (s', err e)
        | ok entry ↦ (s'', elim rest [ err e ↦ err e | ok entries ↦ ok (entry ∷ entries) ])
      ]

  -- The seeds at a start: the kernel's map first, then the side table.
  unfoldable pub arm_manual_seeds : Option Str → State → State × Result SeedError (List SideEntry)
  unfolding apply_manual_cgroup_seeds_from_env register_manual_seed_ids
  arm_manual_seeds raw s =
      let (maps', r) = apply_manual_cgroup_seeds_from_env env.accepts raw s.maps in
      elim r [
        | err e ↦ (record s { maps = maps' }, err e)
        | ok ids ↦ register_manual_seed_ids ids (record s { maps = maps' })
      ]
