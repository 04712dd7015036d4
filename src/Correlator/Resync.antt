-- ===== src/Correlator/Resync.antt =====
-- apps/agent-ebpf-sensor/src/identity_correlator/mod.rs: the forced resync, after an overflow of the
-- watches or at startup. Whether the listing of the node's pods succeeded is a parameter.
pub mod Plans
pub mod Live
use mathlib.Core.Logic.{ite}
use mathlib.Core.Path.{subst}
use mathlib.Core.Bool.{◌||◌}
use neuromesh.Prelude.{
  ℕ, ◌≡◌, ◌∙◌, refl, sym, ap, ◌⊎◌, inl, inr, Bool, true, false, not, ◌&&◌, Option, none, some, List,
  [], ◌∷◌, ◌++◌, arith, ltb, ◌==◌, if◌then◌else◌, is_empty, map, ℕ_discrete, Bool-cases,
  Option-cases, ite-cong, ite-join,
}
use neuromesh.Bytes.{Bytes, Bytes-discrete}
use neuromesh.HashTable.{HashMap, HashSet, get, get-insert, insert, contains_key}
use neuromesh.SideTable.{
  SideTable, SideEntry, entry_of, sweep_missing_paths, remove_by_pod, plan_missing_path_sweep,
  plan_pod_delete,
}
use neuromesh.SideTable.Invariant.{IsConsistent, listed}
use neuromesh.SideTable.Operations.{listed-own}
use neuromesh.SideTable.Removal.{
  kept, kept-none, taken, among, filtered, remove_by_pod-IsConsistent, sweep_missing_paths-filtered,
}
use neuromesh.Correlator.{Env, State, TeardownCmd, rearm, paths_of, apply_invalidations, ids_of}
use neuromesh.Correlator.Invalidation.{
  AcceptsRemovals, value_of, apply_invalidations-kept, mark, among-ids_of,
}
use neuromesh.Correlator.Sound.{IsSound}

-- A known pod that the node no longer runs.
abbrev pub is_stale : HashSet Bytes → SideEntry → Bool
is_stale live e = not (is_empty e.pod_uid) && not (contains_key Bytes-discrete e.pod_uid live)

unfoldable pub stale_uids : HashSet Bytes → HashMap ℕ SideEntry → HashSet Bytes
stale_uids live [] = []
stale_uids live ((_, e) ∷ m) =
    let rest = stale_uids live m in
    if is_stale live e then insert Bytes-discrete e.pod_uid tt rest else rest

unfoldable pub plan_pod_deletes : HashSet Bytes → SideTable → SideTable × List ℕ
plan_pod_deletes [] t = (t, [])
plan_pod_deletes ((uid, _) ∷ uids) t =
    let (t', ids) = plan_pod_delete uid t in
    let (t'', more) = plan_pod_deletes uids t' in (t'', ids ++ more)

-- `sort_unstable` and `dedup`: the ids in increasing order, once each.
unfoldable pub insert_sorted : ℕ → List ℕ → List ℕ
insert_sorted id [] = id ∷ []
insert_sorted id (x ∷ xs) =
    let rest = insert_sorted id xs in
    if ltb id x then id ∷ x ∷ xs else if id == x then x ∷ xs else x ∷ rest

unfoldable pub sort_dedup : List ℕ → List ℕ
sort_dedup [] = []
sort_dedup (id ∷ ids) = insert_sorted id (sort_dedup ids)

unfoldable pub forced_resync : Env → Option (HashSet Bytes) → State → State
forced_resync env none s = s
forced_resync env (some live) s =
    let (t₁, swept) = plan_missing_path_sweep env.exists s.table in
    let (t₂, deleted) = plan_pod_deletes (stale_uids live t₁.by_cgroup) t₁ in
    record s {
      table = t₂;
      sent = rearm (paths_of t₂.by_cgroup) ∷ s.sent;
      maps = (apply_invalidations env.accepts (sort_dedup (swept ++ deleted)) s.maps).0;
    }
