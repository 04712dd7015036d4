-- ===== src/SideTable/Invariant.antt =====
-- The indexes of the side table agree with its entries, and every operation keeps them so.
use mathlib.Core.Logic.{ite}
use mathlib.Core.Option
use neuromesh.Prelude.{
  ℕ, ◌≤◌, ◌≡◌, ◌∙◌, refl, sym, ap, inl, inr, false, Option, none, some, [], if◌then◌else◌, length,
  is_empty, ℕ_discrete, Bool-cases, Option-cases, is_empty-nil, ite-cong, ite-join, ite-ap,
}
use neuromesh.Bytes.{Bytes, Bytes-discrete}
use neuromesh.HashTable.{HashMap, HashSet, get, remove, insert, Distinct, get-remove, get-insert}
use neuromesh.SideTable.{
  SideEntry, SideTable, entry_of, unlink_pod, link_pod, identity_allow_cgroups_max_entries,
}

abbrev pub ids_member : ℕ → Option (HashSet ℕ) → Option (Unit {0})
ids_member id none = none
ids_member id (some ids) = get ℕ_discrete id ids

-- Whether the pod index lists an id under a pod.
abbrev pub pod_member : Bytes → ℕ → HashMap Bytes (HashSet ℕ) → Option (Unit {0})
pod_member uid id by_pod = ids_member id (get Bytes-discrete uid by_pod)

-- Whether it should: the entry is of that pod, and the pod is known.
abbrev pub listed : Bytes → Option SideEntry → Option (Unit {0})
listed uid none = none
listed uid (some e) =
    ite (Bytes-discrete e.pod_uid uid) (if is_empty e.pod_uid then none else some tt) none

abbrev pub path_of : ℕ → SideTable → Option Bytes
path_of id t = Option.map (λ e. e.cgroup_path) (entry_of id t)

-- The entries stand once each, no more than the table may hold, and the path index points only at
-- entries with that path.
pub record HasPaths (t : SideTable) : Type 0 where
  pub distinct : Distinct ℕ_discrete t.by_cgroup
  pub bounded : length t.by_cgroup ≤ identity_allow_cgroups_max_entries
  pub paths :
      (path : Bytes) (id : ℕ)
      → get Bytes-discrete path t.by_path ≡ some id
      → path_of id t ≡ some path

-- And the pod index lists exactly the entries with a known pod.
pub record IsConsistent (t : SideTable) : Type 0 where
  pub indexed : HasPaths t
  pub pods : (uid : Bytes) (id : ℕ) → pod_member uid id t.by_pod ≡ listed uid (entry_of id t)

module _ (uid : Bytes) (q : ℕ) (by_pod : HashMap Bytes (HashSet ℕ)) where
  pod_member-insert :
      (pod : Bytes) (ids : HashSet ℕ)
      → pod_member uid q (insert Bytes-discrete pod ids by_pod)
        ≡ ite (Bytes-discrete pod uid) (get ℕ_discrete q ids) (pod_member uid q by_pod)
  pod_member-insert pod ids =
      ap (ids_member q) (get-insert Bytes-discrete pod uid ids by_pod)
      ∙ ite-ap (ids_member q) (Bytes-discrete pod uid) _ _

  pub pod_member-remove :
      (pod : Bytes)
      → pod_member uid q (remove Bytes-discrete pod by_pod)
        ≡ ite (Bytes-discrete pod uid) none (pod_member uid q by_pod)
  pod_member-remove pod =
      ap (ids_member q) (get-remove Bytes-discrete pod uid by_pod)
      ∙ ite-ap (ids_member q) (Bytes-discrete pod uid) _ _

  -- A pod's set, changed at one id, seen from any pod.
  member_at :
      (id : ℕ) (pod : Bytes) (o : Option (HashSet ℕ)) (v got : Option (Unit {0}))
      → get Bytes-discrete pod by_pod ≡ o
      → got ≡ ite (ℕ_discrete id q) v (ids_member q o)
      → ite (Bytes-discrete pod uid) got (pod_member uid q by_pod)
        ≡ ite
            (Bytes-discrete pod uid)
            (ite (ℕ_discrete id q) v (pod_member uid q by_pod))
            (pod_member uid q by_pod)
  member_at id pod o v got found same =
      ite-cong (Bytes-discrete pod uid)
        (λ p.
          same
          ∙ ite-cong (ℕ_discrete id q) (λ _. refl)
              (λ _. ap (ids_member q) (sym found ∙ ap (λ x. get Bytes-discrete x by_pod) p)))
        (λ _. refl)

  pub pod_member-unlink_pod :
      (id : ℕ) (pod : Bytes)
      → is_empty pod ≡ false
      → pod_member uid q (unlink_pod id pod by_pod)
        ≡ ite
            (Bytes-discrete pod uid)
            (ite (ℕ_discrete id q) none (pod_member uid q by_pod))
            (pod_member uid q by_pod)
  unfolding unlink_pod get
  pod_member-unlink_pod id pod known = elim (Option-cases (get Bytes-discrete pod by_pod)) [
    | inl missing ↦
        let same : unlink_pod id pod by_pod ≡ by_pod = rw (unlink_pod, known, missing) refl in
        ap (pod_member uid q) same
        ∙ sym (ite-join (Bytes-discrete pod uid) (λ _. refl) (λ _. refl))
        ∙ ite-cong (Bytes-discrete pod uid)
            (λ p. ap (ids_member q) (sym (ap (λ x. get Bytes-discrete x by_pod) p) ∙ missing))
            (λ _. refl)
        ∙ member_at id pod none none none missing
            (sym (ite-join (ℕ_discrete id q) (λ _. refl) (λ _. refl)))
    | inr (ids, found) ↦ elim (Bool-cases (is_empty (remove ℕ_discrete id ids))) [
      | inl gone ↦
          let same : unlink_pod id pod by_pod ≡ remove Bytes-discrete pod by_pod =
            rw (unlink_pod, known, found, gone) refl in
          let nothing : none ≡ get ℕ_discrete q (remove ℕ_discrete id ids) =
            sym (ap (get ℕ_discrete q) (is_empty-nil _ gone)) in
          ap (pod_member uid q) same
          ∙ pod_member-remove pod
          ∙ member_at id pod (some ids) none none found (nothing ∙ get-remove ℕ_discrete id q ids)
      | inr left ↦
          let same : unlink_pod id pod by_pod
              ≡ insert Bytes-discrete pod (remove ℕ_discrete id ids) by_pod =
            rw (unlink_pod, known, found, left) refl in
          ap (pod_member uid q) same
          ∙ pod_member-insert pod (remove ℕ_discrete id ids)
          ∙ member_at id pod (some ids) none _ found (get-remove ℕ_discrete id q ids)
    ]
  ]

  pub pod_member-link_pod :
      (id : ℕ) (pod : Bytes)
      → is_empty pod ≡ false
      → pod_member uid q (link_pod id pod by_pod)
        ≡ ite
            (Bytes-discrete pod uid)
            (ite (ℕ_discrete id q) (some tt) (pod_member uid q by_pod))
            (pod_member uid q by_pod)
  unfolding link_pod insert get
  pod_member-link_pod id pod known = elim (Option-cases (get Bytes-discrete pod by_pod)) [
    | inl missing ↦
        let same : link_pod id pod by_pod
            ≡ insert Bytes-discrete pod (insert ℕ_discrete id tt []) by_pod =
          rw (link_pod, known, missing) refl in
        ap (pod_member uid q) same
        ∙ pod_member-insert pod (insert ℕ_discrete id tt [])
        ∙ member_at id pod none (some tt) _ missing (get-insert ℕ_discrete id q tt [])
    | inr (ids, found) ↦
        let same : link_pod id pod by_pod
            ≡ insert Bytes-discrete pod (insert ℕ_discrete id tt ids) by_pod =
          rw (link_pod, known, found) refl in
        ap (pod_member uid q) same
        ∙ pod_member-insert pod (insert ℕ_discrete id tt ids)
        ∙ member_at id pod (some ids) (some tt) _ found (get-insert ℕ_discrete id q tt ids)
  ]
