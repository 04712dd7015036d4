-- ===== src/Correlator/Resync/Live.antt =====
-- After a forced resync only live cgroups are allowed.
use mathlib.Core.Path.{subst}
use neuromesh.Prelude.{
  ℕ, ◌≡◌, ◌∙◌, refl, sym, ap, inl, inr, true, false, Option, none, some, List, ◌++◌, arith,
  is_empty, Bool-cases, Option-cases, ite-join,
}
use neuromesh.Bytes.{Bytes, Bytes-discrete}
use neuromesh.HashTable.{HashSet}
use neuromesh.SideTable.{SideTable, SideEntry, entry_of, plan_missing_path_sweep}
use neuromesh.SideTable.Invariant.{IsConsistent}
use neuromesh.SideTable.Operations.{listed-own}
use neuromesh.SideTable.Removal.{kept, kept-none, among, sweep_missing_paths-filtered}
use neuromesh.Correlator.{Env, State}
use neuromesh.Correlator.Invalidation.{AcceptsRemovals, value_of, apply_invalidations-kept}
use neuromesh.Correlator.Sound.{IsSoundFor, IsTracked, IsTracked-without}
use neuromesh.Correlator.Resync.{is_stale, stale_uids, plan_pod_deletes, sort_dedup, forced_resync}
use neuromesh.Correlator.Resync.Plans.{
  Planned, plan_missing_path_sweep-Planned, plan_pod_deletes-Planned, kept-append, among-sort_dedup,
  kept-some, filtered-some, plan_pod_deletes-listed, stale_uids-member,
}

untracked :
    (g : Option (Unit {0})) (o : Option SideEntry) (v : Option ℕ)
    → (o ≡ none → v ≡ none)
    → kept g o ≡ none
    → kept g v ≡ none
untracked none o v tracked gone = tracked gone
untracked (some _) o v tracked gone = refl

-- The state is sound after a plan was applied, if the kernel's map loses the keys of its ids.
Planned-IsSound :
    (Q : ℕ → Type 0) (env : Env) (r : SideTable × List ℕ) (s s' : State)
    → Planned s.table r
    → s'.table ≡ r.0
    → ((q : ℕ) → value_of q s'.maps ≡ kept (among q r.1) (value_of q s.maps))
    → IsSoundFor Q env s
    → IsSoundFor Q env s'
Planned-IsSound Q env r s s' planned table values sound = record {
  consistent = subst IsConsistent (sym table) planned.consistent;
  tracked = λ q in_q gone.
      values q
      ∙ untracked (among q r.1) (entry_of q s.table) (value_of q s.maps) (sound.tracked q in_q)
          (sym (planned.entries q) ∙ ap (entry_of q) (sym table) ∙ gone);
  insertable = λ q in_q refused.
      values q
      ∙ ap (kept (among q r.1)) (sound.insertable q in_q refused)
      ∙ kept-none (among q r.1);
}

module _ (env : Env) (removes : AcceptsRemovals env.accepts) (s : State)
    (consistent : IsConsistent s.table) where
  abbrev swept : SideTable × List ℕ
  swept = plan_missing_path_sweep env.exists s.table

  abbrev deleted : HashSet Bytes → SideTable × List ℕ
  deleted live = plan_pod_deletes (stale_uids live swept.0.by_cgroup) swept.0

  abbrev invalidated : HashSet Bytes → List ℕ
  invalidated live = swept.1 ++ (deleted live).1

  both-Planned : (live : HashSet Bytes) → Planned s.table ((deleted live).0, invalidated live)
  both-Planned live =
      let first = plan_missing_path_sweep-Planned env.exists s.table consistent in
      let second =
        plan_pod_deletes-Planned (stale_uids live swept.0.by_cgroup) swept.0 first.consistent in
      record {
        consistent = second.consistent;
        entries = λ q.
            second.entries q
            ∙ ap (kept (among q (deleted live).1)) (first.entries q)
            ∙ kept-append q swept.1 (deleted live).1 (entry_of q s.table);
      }

  resynced-value_of :
      (live : HashSet Bytes) (q : ℕ)
      → value_of q (forced_resync env (some live) s).maps
        ≡ kept (among q (invalidated live)) (value_of q s.maps)
  unfolding forced_resync
  resynced-value_of live q =
      let (_, _, values) =
        apply_invalidations-kept env.accepts removes (sort_dedup (invalidated live)) s.maps in
      values q ∙ ap (λ g. kept g (value_of q s.maps)) (among-sort_dedup q (invalidated live))

  -- If the kernel takes every deletion, the side table is consistent and the cgroup is tracked: a
  -- cgroup that the kernel's map allows after a forced resync that could list the node's pods has
  -- an entry in the side table whose cgroup path exists and whose pod, if known, is among those
  -- listed.
  pub forced_resync-is_stale :
      (live : HashSet Bytes) (q v : ℕ)
      → IsTracked q s
      → value_of q (forced_resync env (some live) s).maps ≡ some v
      → (e : SideEntry) × (entry_of q (forced_resync env (some live) s).table ≡ some e)
        × (env.exists e.cgroup_path ≡ true)
        × (is_stale live e ≡ false)
  unfolding forced_resync plan_missing_path_sweep
  forced_resync-is_stale live q v tracked there =
      let planned = both-Planned live in
      let (ok₁, entries₁, _) = sweep_missing_paths-filtered s.table consistent env.exists in
      let uids = stale_uids live swept.0.by_cgroup in
      elim (Option-cases (entry_of q (deleted live).0)) [
        | inl missing ↦
            let freed : value_of q (forced_resync env (some live) s).maps ≡ none =
              resynced-value_of live q
              ∙ untracked (among q (invalidated live)) (entry_of q s.table) (value_of q s.maps)
                  (IsTracked-without q s tracked) (sym (planned.entries q) ∙ missing) in
            absurd (cc (sym freed ∙ there))
        | inr (e, found) ↦
            let was : entry_of q swept.0 ≡ some e =
              kept-some _ _ e
                (sym ((plan_pod_deletes-Planned uids swept.0 ok₁).entries q) ∙ found) in
            let present : env.exists e.cgroup_path ≡ true =
              filtered-some (λ e. env.exists e.cgroup_path) (entry_of q s.table) e
                (sym (entries₁ q) ∙ was) in
            elim (Bool-cases (is_stale live e)) [
              | inr fine ↦ (e, found, present, fine)
              | inl stale ↦
                  let member = stale_uids-member live swept.0.by_cgroup q e was stale in
                  let unlisted =
                    plan_pod_deletes-listed uids swept.0 q e e.pod_uid ok₁ found member in
                  let known : is_empty e.pod_uid ≡ false = ground (arith, stale) in
                  let own =
                    listed-own e.pod_uid e known
                    ∙ ite-join (Bytes-discrete e.pod_uid e.pod_uid) (λ _. refl)
                        (λ n. absurd (n refl)) in
                  absurd (cc (sym own ∙ unlisted))
            ]
      ]

module _ (Q : ℕ → Type 0) (env : Env) (removes : AcceptsRemovals env.accepts) (s : State)
    (sound : IsSoundFor Q env s) where
  pub forced_resync-IsSound :
      (live : Option (HashSet Bytes)) → IsSoundFor Q env (forced_resync env live s)
  unfolding forced_resync
  forced_resync-IsSound none = sound
  forced_resync-IsSound (some live) =
      Planned-IsSound Q env
        (
          (deleted env removes s sound.consistent live).0,
          invalidated env removes s sound.consistent live,
        )
        s (forced_resync env (some live) s) (both-Planned env removes s sound.consistent live) refl
        (resynced-value_of env removes s sound.consistent live) sound
