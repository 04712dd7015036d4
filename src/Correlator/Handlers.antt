-- ===== src/Correlator/Handlers.antt =====
-- apps/agent-ebpf-sensor/src/identity_correlator/mod.rs and reconcile.rs: every handler of the
-- correlator keeps the side table and the kernel's map together.
use mathlib.Core.Path.{subst}
use mathlib.Core.Option
use neuromesh.Prelude.{
  ℕ, ◌≡◌, ◌∙◌, refl, sym, ap, inl, inr, Option, none, some, List, [], ◌∷◌, ℕ_discrete, Bool-cases,
  Option-cases,
}
use neuromesh.Bytes.{Bytes, Bytes-discrete}
use neuromesh.Text.{Str}
use neuromesh.HashTable.{HashSet, get, contains_key}
use neuromesh.IdentityAllow.{IdentitySectionValidity, fresh, invalid}
use neuromesh.SideTable.{
  SideTable, entry_of, remove_by_cgroup, remove_by_pod, remove_all, clear, sweep_missing_paths,
  plan_missing_path_sweep, plan_teardown, cgroup_id_for_path, plan_pe_allowlist_revoke,
}
use neuromesh.SideTable.Invariant.{IsConsistent, listed, path_of}
use neuromesh.SideTable.Operations.{new-IsConsistent, remove_by_cgroup-IsConsistent}
use neuromesh.SideTable.Removal.{
  kept-hit, taken-hit, among, remove_by_pod-IsConsistent, remove_all-IsConsistent,
}
use neuromesh.Correlator.{
  Env, State, PodView, construct_spiffe_id, reconcile_pod, pod_deleted, revoke_not_in_allowlist,
  clear_side_table_hygiene, torn_down, missing_path_sweep, replace_allowlist,
  run_allowlist_followup, invalidate, unwatch,
}
use neuromesh.Correlator.Invalidation.{AcceptsRemovals, value_of}
use neuromesh.Correlator.Resync.{forced_resync}
use neuromesh.Correlator.Resync.Live.{forced_resync-IsSound}
use neuromesh.Correlator.Sound.{IsSoundFor, Purge, invalidate-IsSound, reconcile_containers-IsSound}

remove_by_pod-Purge : (uid : Str) (t : SideTable) → IsConsistent t → Purge t (remove_by_pod uid t)
remove_by_pod-Purge uid t ok =
    let (ok', entries, handed) = remove_by_pod-IsConsistent uid t ok in
    record {
      consistent = ok';
      goes = λ q. listed uid (entry_of q t);
      entries = entries;
      handed = handed;
    }

pub remove_all-Purge : (ids : List ℕ) (t : SideTable) → IsConsistent t → Purge t (remove_all ids t)
remove_all-Purge ids t ok =
    let (ok', entries, handed) = remove_all-IsConsistent ids t ok in
    record { consistent = ok'; goes = λ q. among q ids; entries = entries; handed = handed }

clear-Purge : (t : SideTable) → Purge t (clear t)
unfolding clear get
clear-Purge t = record {
  consistent = new-IsConsistent;
  goes = λ q. some tt;
  entries = λ q. refl;
  handed = λ q. refl;
}

-- What the correlator reacts to.
pub data Event : Type 0 where
  upsert : PodView → Event
  deleted : Str → Event
  path_gone : Bytes → Event
  swept : Event
  resynced : Option (HashSet Bytes) → Event
  allowlist_replaced : List Bytes → Event
  synced : IdentitySectionValidity → Event

abbrev pub handle : Env → Event → State → State
handle env (upsert pod) s = reconcile_pod env pod s
handle env (deleted uid) s = pod_deleted env uid s
handle env (path_gone path) s = torn_down env path s
handle env swept s = missing_path_sweep env s
handle env (resynced live) s = forced_resync env live s
handle env (allowlist_replaced ids) s = replace_allowlist ids s
handle env (synced identity) s = run_allowlist_followup env identity s

module _ (Q : ℕ → Type 0) (env : Env) (removes : AcceptsRemovals env.accepts) where
  reconcile_pod-IsSound :
      (pod : PodView) (s : State) → IsSoundFor Q env s → IsSoundFor Q env (reconcile_pod env pod s)
  unfolding reconcile_pod
  reconcile_pod-IsSound pod s sound =
      let spiffe = construct_spiffe_id env.trust_domain pod.namespace pod.service_account in
      elim (Bool-cases (contains_key Bytes-discrete spiffe s.allowlist)) [
        | inl allowed ↦
            rw (allowed, reconcile_pod)
              (reconcile_containers-IsSound Q env pod spiffe pod.containers s sound)
        | inr outside ↦
            rw (outside, reconcile_pod)
              (invalidate-IsSound Q env removes _ s
                (remove_by_pod-Purge pod.uid s.table sound.consistent) sound)
      ]

  -- The state without its log of commands.
  unlogged :
      (s s' : State)
      → s'.table ≡ s.table
      → s'.maps ≡ s.maps
      → IsSoundFor Q env s
      → IsSoundFor Q env s'
  unlogged s s' table maps sound = record {
    consistent = subst IsConsistent (sym table) sound.consistent;
    tracked = λ q in_q gone.
        ap (value_of q) maps ∙ sound.tracked q in_q (ap (entry_of q) (sym table) ∙ gone);
    insertable = λ q in_q refused. ap (value_of q) maps ∙ sound.insertable q in_q refused;
  }

  torn_down-IsSound :
      (path : Bytes) (s : State) → IsSoundFor Q env s → IsSoundFor Q env (torn_down env path s)
  unfolding torn_down plan_teardown cgroup_id_for_path invalidate get
  torn_down-IsSound path s sound = elim (Option-cases (cgroup_id_for_path path s.table)) [
    | inl unknown ↦ rw (unknown, torn_down) (unlogged s _ refl refl sound)
    | inr (cid, known) ↦
        let (ok', answer, entries) = remove_by_cgroup-IsConsistent cid s.table sound.consistent in
        let at_path : path_of cid s.table ≡ some path =
          sound.consistent.indexed.paths path cid known in
        elim (Option-cases (entry_of cid s.table)) [
          | inl missing ↦
              let clash : path_of cid s.table ≡ none =
                ap (Option.map (λ e. e.cgroup_path)) missing in
              absurd (cc (sym clash ∙ at_path))
          | inr (e, found) ↦
              let here : (q : ℕ) → cid ≡ q → entry_of q s.table ≡ some e =
                λ q i. ap (λ x. entry_of x s.table) (sym i) ∙ found in
              let purge : Purge s.table ((remove_by_cgroup cid s.table).0, (cid, e) ∷ []) = record {
                consistent = ok';
                goes = λ q. among q (cid ∷ []);
                entries = λ q. entries q ∙ kept-hit (ℕ_discrete cid q) none (entry_of q s.table);
                handed = λ q. taken-hit (ℕ_discrete cid q) none (entry_of q s.table) e (here q);
              } in
              let out = invalidate env ((remove_by_cgroup cid s.table).0, (cid, e) ∷ []) s in
              let step : torn_down env path s ≡ record out { sent = unwatch path ∷ s.sent } =
                rw (known, answer, found, torn_down, plan_teardown) refl in
              subst (IsSoundFor Q env) (sym step)
                (unlogged out _ refl refl (invalidate-IsSound Q env removes _ s purge sound))
        ]
  ]

  missing_path_sweep-IsSound :
      (s : State) → IsSoundFor Q env s → IsSoundFor Q env (missing_path_sweep env s)
  unfolding missing_path_sweep plan_missing_path_sweep sweep_missing_paths invalidate
  missing_path_sweep-IsSound s sound =
      let r = sweep_missing_paths env.exists s.table in
      unlogged (invalidate env r s) (missing_path_sweep env s) refl refl
        (invalidate-IsSound Q env removes r s (remove_all-Purge _ s.table sound.consistent) sound)

  revoke-IsSound :
      (s : State) → IsSoundFor Q env s → IsSoundFor Q env (revoke_not_in_allowlist env s)
  unfolding revoke_not_in_allowlist
  revoke-IsSound s sound =
      invalidate-IsSound Q env removes _ s
        (remove_all-Purge (plan_pe_allowlist_revoke s.allowlist s.table) s.table sound.consistent)
        sound

  pub handle-IsSound :
      (e : Event) (s : State) → IsSoundFor Q env s → IsSoundFor Q env (handle env e s)
  unfolding pod_deleted run_allowlist_followup clear_side_table_hygiene
  handle-IsSound (upsert pod) s sound = reconcile_pod-IsSound pod s sound
  handle-IsSound (deleted uid) s sound =
      invalidate-IsSound Q env removes _ s (remove_by_pod-Purge uid s.table sound.consistent) sound
  handle-IsSound (path_gone path) s sound = torn_down-IsSound path s sound
  handle-IsSound swept s sound = missing_path_sweep-IsSound s sound
  handle-IsSound (resynced live) s sound = forced_resync-IsSound Q env removes s sound live
  handle-IsSound (allowlist_replaced ids) s sound = record {
    consistent = sound.consistent;
    tracked = sound.tracked;
    insertable = sound.insertable;
  }
  handle-IsSound (synced (fresh section)) s sound = revoke-IsSound s sound
  handle-IsSound (synced (invalid reason)) s sound =
      invalidate-IsSound Q env removes _ s (clear-Purge s.table) sound
