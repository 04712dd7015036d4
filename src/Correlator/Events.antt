-- ===== src/Correlator/Events.antt =====
-- apps/agent-ebpf-sensor/src/identity_correlator/mod.rs: sequences of events, and what each
-- invalidation promises of the kernel's map.
use mathlib.Core.Path.{subst}
use mathlib.Core.Bool.{◌||◌, ◌&&◌}
use neuromesh.Prelude.{
  ℕ, ◌≡◌, ◌∙◌, sym, ap, inl, inr, Bool, true, Option, none, some, List, [], ◌∷◌, is_empty,
  Bool-cases, Option-cases,
}
use neuromesh.Bytes.{Bytes, Bytes-discrete}
use neuromesh.Text.{Str}
use neuromesh.HashTable.{HashSet, contains_key}
use neuromesh.IdentityAllow.{insert_cgroup}
use neuromesh.SideTable.{SideEntry, entry_of, remove_by_pod, remove_all, plan_pe_allowlist_revoke}
use neuromesh.SideTable.Invariant.{IsConsistent, listed}
use neuromesh.SideTable.Removal.{
  kept, taken, filtered, remove_by_pod-IsConsistent, plan_pe_allowlist_revoke-filtered,
}
use neuromesh.Correlator.{Env, State, pod_deleted, revoke_not_in_allowlist, invalidate}
use neuromesh.Correlator.Invalidation.{AcceptsRemovals, value_of, mark}
use neuromesh.Correlator.Sound.{
  AnyId, IsTracked, IsTracked-without, Purge, kept-taken-none, invalidate-value_of,
}
use neuromesh.Correlator.Handlers.{Event, handle, remove_all-Purge}

-- The events with what each one meets: the kernel may answer differently each time.
abbrev pub run : List (Env × Event) → State → State
run [] s = s
run ((env, e) ∷ es) s = run es (handle env e s)

-- The kernel takes every deletion.
abbrev pub TakesRemovals : List (Env × Event) → Type 0
TakesRemovals [] = Unit
TakesRemovals ((env, _) ∷ es) = AcceptsRemovals env.accepts × TakesRemovals es

-- The kernel takes an insertion of the id in every event.
abbrev pub takes_seed : ℕ → List (Env × Event) → Bool
takes_seed q [] = true
takes_seed q ((env, _) ∷ es) = env.accepts (insert_cgroup q) && takes_seed q es

module _ (env : Env) (removes : AcceptsRemovals env.accepts) where
  -- If the kernel takes every deletion and the side table is consistent: after a pod is deleted,
  -- no cgroup with an entry of that pod is allowed in the kernel's map.
  pub pod_deleted-value_of :
      (uid : Str) (s : State) (q : ℕ)
      → IsConsistent s.table
      → listed uid (entry_of q s.table) ≡ some tt
      → value_of q (pod_deleted env uid s).maps ≡ none
  unfolding pod_deleted
  pod_deleted-value_of uid s q consistent there =
      let (ok', entries, handed) = remove_by_pod-IsConsistent uid s.table consistent in
      let purge : Purge s.table (remove_by_pod uid s.table) = record {
        consistent = ok';
        goes = λ q. listed uid (entry_of q s.table);
        entries = entries;
        handed = handed;
      } in
      invalidate-value_of AnyId env removes (remove_by_pod uid s.table) s purge q
      ∙ gone (entry_of q s.table) there
    where
      gone :
          (o : Option SideEntry)
          → listed uid o ≡ some tt
          → kept (mark (taken (listed uid o) o)) (value_of q s.maps) ≡ none
      gone none h = absurd (cc h)
      gone (some e) h = ap (λ g. kept (mark (taken g (some e))) (value_of q s.maps)) h

  -- The entry's identity is unknown (a manual seed), or still on the allowlist.
  abbrev pub IsPermitted : HashSet Bytes → SideEntry → Type 0
  IsPermitted allowed e =
      (is_empty e.spiffe_id || contains_key Bytes-discrete e.spiffe_id allowed) ≡ true

  -- If the kernel takes every deletion, the side table is consistent and the cgroup is tracked: a
  -- cgroup that the kernel's map allows after the allowlist is enforced has an entry in the side
  -- table whose identity is empty (a manual seed) or on the allowlist.
  pub revoke_not_in_allowlist-IsPermitted :
      (s : State) (q v : ℕ)
      → IsConsistent s.table
      → IsTracked q s
      → value_of q (revoke_not_in_allowlist env s).maps ≡ some v
      → (e : SideEntry) × (entry_of q (revoke_not_in_allowlist env s).table ≡ some e)
        × IsPermitted s.allowlist e
  unfolding revoke_not_in_allowlist invalidate
  revoke_not_in_allowlist-IsPermitted s q v consistent tracked there =
      let ids = plan_pe_allowlist_revoke s.allowlist s.table in
      let purge = remove_all-Purge ids s.table consistent in
      let (_, entries) = plan_pe_allowlist_revoke-filtered s.table consistent s.allowlist in
      let t' = (revoke_not_in_allowlist env s).table in
      elim (Option-cases (entry_of q t')) [
        | inl missing ↦
            let freed : value_of q (revoke_not_in_allowlist env s).maps ≡ none =
              invalidate-value_of AnyId env removes (remove_all ids s.table) s purge q
              ∙ kept-taken-none (purge.goes q) (entry_of q s.table) (value_of q s.maps)
                  (IsTracked-without q s tracked) (sym (purge.entries q) ∙ missing) in
            absurd (cc (sym freed ∙ there))
        | inr (e, found) ↦ (e, found, passed (entry_of q s.table) e (sym (entries q) ∙ found))
      ]
    where
      passed :
          (o : Option SideEntry) (e : SideEntry)
          → filtered
              (λ e. is_empty e.spiffe_id || contains_key Bytes-discrete e.spiffe_id s.allowlist)
              o
            ≡ some e
          → IsPermitted s.allowlist e
      passed none e h = absurd (cc h)
      passed (some e₀) e h =
          elim (Bool-cases
            (is_empty e₀.spiffe_id || contains_key Bytes-discrete e₀.spiffe_id s.allowlist)) [
              | inl good ↦
                  let h' : some e₀ ≡ some e = rw good at h in
                  let same : e₀ ≡ e = cc h' in subst (IsPermitted s.allowlist) same good
              | inr bad ↦ let h' : none ≡ some e = rw bad at h in absurd (cc h')
            ]
