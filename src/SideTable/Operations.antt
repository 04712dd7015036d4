-- ===== src/SideTable/Operations.antt =====
-- Every operation on the side table keeps its indexes consistent.
use mathlib.Core.Logic.{ite}
use mathlib.Core.Option
use neuromesh.Prelude.{
  ℕ, ◌<◌, ◌≡◌, ◌≢◌, ◌∙◌, refl, sym, ap, ◌⊎◌, inl, inr, true, false, none, some, arith, leb,
  leb-false→lt, length, is_empty, ℕ_discrete, Bool-cases, Option-cases, ite-cong, ite-join, ite-ap,
}
use neuromesh.Bytes.{Bytes, Bytes-discrete}
use neuromesh.DenyEntry.{u32}
use neuromesh.HashTable.{
  HashMap, HashSet, get, remove, insert, contains_key, is_some, get-remove, get-insert,
  get-insert_self, remove-Distinct, insert-Distinct, length-remove-le, length-remove_hit,
  length-insert-le, is_some-false,
}
use neuromesh.SideTable.{
  SideEntry, SideTable, entry_of, unlink_pod, unlink_indexes, link_pod, link, remove_by_cgroup,
  insert_entry, identity_allow_cgroups_max_entries, rejected_full, replaced, inserted, new,
}
use neuromesh.SideTable.Invariant.{
  pod_member, listed, HasPaths, IsConsistent, pod_member-unlink_pod, pod_member-link_pod,
}

pub listed-other : (uid : Bytes) (e : SideEntry) → e.pod_uid ≢ uid → listed uid (some e) ≡ none
listed-other uid e h = ite-join (Bytes-discrete e.pod_uid uid) (λ p. absurd (h p)) (λ _. refl)

pub listed-unknown :
    (uid : Bytes) (e : SideEntry) → is_empty e.pod_uid ≡ true → listed uid (some e) ≡ none
listed-unknown uid e h = ite-join (Bytes-discrete e.pod_uid uid) (λ _. rw h refl) (λ _. refl)

pub listed-own :
    (uid : Bytes) (e : SideEntry)
    → is_empty e.pod_uid ≡ false
    → listed uid (some e) ≡ ite (Bytes-discrete e.pod_uid uid) (some tt) none
listed-own uid e h = ite-cong (Bytes-discrete e.pod_uid uid) (λ _. rw h refl) (λ _. refl)

-- An entry and its path are taken out, whatever becomes of the pod index.
pub HasPaths-remove :
    (id : ℕ) (e : SideEntry) (by_pod : HashMap Bytes (HashSet ℕ)) (t : SideTable)
    → entry_of id t ≡ some e
    → HasPaths t
    → HasPaths (record {
      by_cgroup = remove ℕ_discrete id t.by_cgroup;
      by_pod = by_pod;
      by_path = remove Bytes-discrete e.cgroup_path t.by_path;
    })
HasPaths-remove id e by_pod t found ok = record {
  distinct = remove-Distinct ℕ_discrete id t.by_cgroup ok.distinct;
  bounded =
      let h = length-remove-le ℕ_discrete id t.by_cgroup in let h' = ok.bounded in omega arith;
  paths = λ path q h.
      let now : ite (Bytes-discrete e.cgroup_path path) none (get Bytes-discrete path t.by_path)
          ≡ some q =
        sym (get-remove Bytes-discrete e.cgroup_path path t.by_path) ∙ h in
      path-remove id e t ok found path q (Bytes-discrete e.cgroup_path path) now;
}
  where
    path-remove :
        (id : ℕ) (e : SideEntry) (t : SideTable)
        → HasPaths t
        → entry_of id t ≡ some e
        → (path : Bytes) (q : ℕ) (d : Dec (e.cgroup_path ≡ path))
        → ite d none (get Bytes-discrete path t.by_path) ≡ some q
        → Option.map (λ e. e.cgroup_path) (get ℕ_discrete q (remove ℕ_discrete id t.by_cgroup))
          ≡ some path
    path-remove id e t ok found path q (yes p) now = absurd (cc now)
    path-remove id e t ok found path q (no p) now =
        let there = ok.paths path q now in
        ap (Option.map (λ e. e.cgroup_path)) (get-remove ℕ_discrete id q t.by_cgroup)
        ∙ ap (Option.map (λ e. e.cgroup_path)) (
            ite-join (ℕ_discrete id q)
              (λ i.
                let same : some e.cgroup_path ≡ some path =
                  sym
                    (ap (Option.map (λ e. e.cgroup_path)) (ap (λ x. entry_of x t) (sym i) ∙ found))
                  ∙ there in
                absurd (p (cc same)))
              (λ _. refl))
        ∙ there

path-link :
    (id : ℕ) (e : SideEntry) (t : SideTable)
    → HasPaths t
    → entry_of id t ≡ none
    → (path : Bytes) (q : ℕ) (d : Dec (e.cgroup_path ≡ path))
    → ite d (some id) (get Bytes-discrete path t.by_path) ≡ some q
    → Option.map (λ e. e.cgroup_path) (get ℕ_discrete q (insert ℕ_discrete id e t.by_cgroup))
      ≡ some path
path-link id e t ok fresh path q (yes p) now =
    let same : id ≡ q = cc now in
    ap (Option.map (λ e. e.cgroup_path)) (
      ap (λ x. get ℕ_discrete x (insert ℕ_discrete id e t.by_cgroup)) (sym same)
      ∙ get-insert_self ℕ_discrete id e t.by_cgroup)
    ∙ ap some p
path-link id e t ok fresh path q (no p) now =
    let there = ok.paths path q now in
    ap (Option.map (λ e. e.cgroup_path)) (
      get-insert ℕ_discrete id q e t.by_cgroup
      ∙ ite-join (ℕ_discrete id q)
          (λ i.
            let clash : none ≡ some path =
              sym (ap (Option.map (λ e. e.cgroup_path)) (ap (λ x. entry_of x t) (sym i) ∙ fresh))
              ∙ there in
            absurd (cc clash))
          (λ _. refl))
    ∙ there

module _ (id : ℕ) (e : SideEntry) (t : SideTable) (ok : IsConsistent t) where
  -- The pod index after it lost an id, against the entries after they lost it.
  pub pods-remove :
      (uid : Bytes) (q : ℕ)
      → entry_of id t ≡ some e
      → pod_member uid q (unlink_pod id e.pod_uid t.by_pod)
        ≡ listed uid (get ℕ_discrete q (remove ℕ_discrete id t.by_cgroup))
  unfolding unlink_pod
  pods-remove uid q found =
      let was : id ≡ q → entry_of q t ≡ some e = λ i. ap (λ x. entry_of x t) (sym i) ∙ found in
      let entries = sym (
        ap (listed uid) (get-remove ℕ_discrete id q t.by_cgroup)
        ∙ ite-ap (listed uid) (ℕ_discrete id q) none (entry_of q t)) in
      elim (Bool-cases (is_empty e.pod_uid)) [
        | inl unknown ↦
            let same : unlink_pod id e.pod_uid t.by_pod ≡ t.by_pod = rw unknown refl in
            ap (pod_member uid q) same
            ∙ sym (
                ite-join (ℕ_discrete id q)
                  (λ i.
                    sym (ok.pods uid q ∙ ap (listed uid) (was i) ∙ listed-unknown uid e unknown))
                  (λ _. sym (ok.pods uid q)))
            ∙ entries
        | inr known ↦
            pod_member-unlink_pod uid q t.by_pod id e.pod_uid known
            ∙ ite-join (Bytes-discrete e.pod_uid uid)
                (λ _. ite-cong (ℕ_discrete id q) (λ _. refl) (λ _. ok.pods uid q))
                (λ p. sym (
                  ite-join (ℕ_discrete id q)
                    (λ i. sym (ok.pods uid q ∙ ap (listed uid) (was i) ∙ listed-other uid e p))
                    (λ _. sym (ok.pods uid q))))
            ∙ entries
      ]

  -- And after it gained an id.
  pub pods-link :
      (uid : Bytes) (q : ℕ)
      → entry_of id t ≡ none
      → pod_member uid q (link_pod id e.pod_uid t.by_pod)
        ≡ listed uid (get ℕ_discrete q (insert ℕ_discrete id e t.by_cgroup))
  unfolding link_pod
  pods-link uid q fresh =
      let was : id ≡ q → pod_member uid q t.by_pod ≡ none =
        λ i. ok.pods uid q ∙ ap (listed uid) (ap (λ x. entry_of x t) (sym i) ∙ fresh) in
      let entries = sym (
        ap (listed uid) (get-insert ℕ_discrete id q e t.by_cgroup)
        ∙ ite-ap (listed uid) (ℕ_discrete id q) (some e) (entry_of q t)) in
      elim (Bool-cases (is_empty e.pod_uid)) [
        | inl unknown ↦
            let same : link_pod id e.pod_uid t.by_pod ≡ t.by_pod = rw unknown refl in
            ap (pod_member uid q) same
            ∙ sym (
                ite-join (ℕ_discrete id q) (λ i. listed-unknown uid e unknown ∙ sym (was i))
                  (λ _. sym (ok.pods uid q)))
            ∙ entries
        | inr known ↦
            pod_member-link_pod uid q t.by_pod id e.pod_uid known
            ∙ ite-join (Bytes-discrete e.pod_uid uid)
                (λ p.
                  ite-cong (ℕ_discrete id q)
                    (λ _. sym (
                      listed-own uid e known
                      ∙ ite-join (Bytes-discrete e.pod_uid uid) (λ _. refl) (λ n. absurd (n p))))
                    (λ _. ok.pods uid q))
                (λ p. sym (
                  ite-join (ℕ_discrete id q) (λ i. listed-other uid e p ∙ sym (was i))
                    (λ _. sym (ok.pods uid q))))
            ∙ entries
      ]

-- On a consistent table, taking out an id gives back its entry, leaves every other entry, and
-- keeps the table consistent.
pub remove_by_cgroup-IsConsistent :
    (id : ℕ) (t : SideTable)
    → IsConsistent t
    → IsConsistent (remove_by_cgroup id t).0
      × ((remove_by_cgroup id t).1 ≡ entry_of id t)
      × ((q : ℕ) → entry_of q (remove_by_cgroup id t).0 ≡ ite (ℕ_discrete id q) none (entry_of q t))
unfolding remove_by_cgroup unlink_indexes
remove_by_cgroup-IsConsistent id t ok = elim (Option-cases (entry_of id t)) [
  | inl missing ↦
      let same : remove_by_cgroup id t ≡ (t, none) = rw (missing, remove_by_cgroup) refl in
      rw same (
        ok,
        sym missing,
        λ q.
            sym (
              ite-join (ℕ_discrete id q) (λ i. sym missing ∙ ap (λ x. entry_of x t) i) (λ _. refl)),
      )
  | inr (e, found) ↦
      let same : remove_by_cgroup id t ≡ (
        unlink_indexes id e (record t { by_cgroup = remove ℕ_discrete id t.by_cgroup }),
        some e,
      ) =
        rw (found, remove_by_cgroup) refl in
      rw same (
        record {
          indexed = HasPaths-remove id e (unlink_pod id e.pod_uid t.by_pod) t found ok.indexed;
          pods = λ uid q. pods-remove id e t ok uid q found;
        },
        sym found,
        λ q. get-remove ℕ_discrete id q t.by_cgroup,
      )
]

-- Linking a new entry in: the id has none yet, and there is room.
pub link-IsConsistent :
    (id : ℕ) (e : SideEntry) (t : SideTable)
    → IsConsistent t
    → entry_of id t ≡ none
    → length t.by_cgroup < identity_allow_cgroups_max_entries
    → IsConsistent (link id e t)
unfolding link
link-IsConsistent id e t ok fresh room = record {
  indexed = record {
    distinct = insert-Distinct ℕ_discrete id e t.by_cgroup ok.indexed.distinct;
    bounded = let h = length-insert-le ℕ_discrete id e t.by_cgroup in omega arith;
    paths = λ path q h.
        let now : ite (Bytes-discrete e.cgroup_path path) (some id)
              (get Bytes-discrete path t.by_path)
            ≡ some q =
          sym (get-insert Bytes-discrete e.cgroup_path path id t.by_path) ∙ h in
        path-link id e t ok.indexed fresh path q (Bytes-discrete e.cgroup_path path) now;
  };
  pods = λ uid q. pods-link id e t ok uid q fresh;
}

u32-length : (t : SideTable) → HasPaths t → u32 (length t.by_cgroup) ≡ length t.by_cgroup
u32-length t ok = let h = ok.bounded in omega arith

remove_by_cgroup_room :
    (id : ℕ) (t : SideTable)
    → HasPaths t
    → (contains_key ℕ_discrete id t.by_cgroup ≡ true)
      ⊎ (leb identity_allow_cgroups_max_entries (u32 (length t.by_cgroup)) ≡ false)
    → length (remove_by_cgroup id t).0.by_cgroup < identity_allow_cgroups_max_entries
unfolding remove_by_cgroup unlink_indexes
remove_by_cgroup_room id t ok room = elim (Option-cases (entry_of id t)) [
  | inl missing ↦
      let same : remove_by_cgroup id t ≡ (t, none) = rw (missing, remove_by_cgroup) refl in
      rw same (elim room [
        | inl known ↦
            let clash : is_some (entry_of id t) ≡ false = ap is_some missing in
            absurd (cc (clash, known))
        | inr low ↦ omega (arith, leb-false→lt _ _ low, u32-length t ok)
      ])
  | inr (e, found) ↦
      let same : remove_by_cgroup id t ≡ (
        unlink_indexes id e (record t { by_cgroup = remove ℕ_discrete id t.by_cgroup }),
        some e,
      ) =
        rw (found, remove_by_cgroup) refl in
      let less = length-remove_hit ℕ_discrete id e t.by_cgroup found in
      let most = ok.bounded in rw same (omega arith)
]

-- The table after the old entry of an id, if any, gave way to a new one.
linked :
    (id : ℕ) (e : SideEntry) (t : SideTable)
    → IsConsistent t
    → (contains_key ℕ_discrete id t.by_cgroup ≡ true)
      ⊎ (leb identity_allow_cgroups_max_entries (u32 (length t.by_cgroup)) ≡ false)
    → IsConsistent (link id e (remove_by_cgroup id t).0)
      × ((q : ℕ)
          → entry_of q (link id e (remove_by_cgroup id t).0)
            ≡ ite (ℕ_discrete id q) (some e) (entry_of q t))
unfolding link
linked id e t ok room =
    let (ok', _, others) = remove_by_cgroup-IsConsistent id t ok in
    let fresh = others id ∙ ite-join (ℕ_discrete id id) (λ _. refl) (λ n. absurd (n refl)) in
    (
      link-IsConsistent id e (remove_by_cgroup id t).0 ok' fresh
          (remove_by_cgroup_room id t ok.indexed room),
      λ q.
          get-insert ℕ_discrete id q e (remove_by_cgroup id t).0.by_cgroup
          ∙ ite-cong (ℕ_discrete id q) (λ _. refl)
              (λ n. others q ∙ ite-join (ℕ_discrete id q) (λ i. absurd (n i)) (λ _. refl)),
    )

-- A consistent table that is not below the bound is at the bound.
at_most :
    (t : SideTable)
    → IsConsistent t
    → leb identity_allow_cgroups_max_entries (u32 (length t.by_cgroup)) ≡ true
    → length t.by_cgroup ≡ identity_allow_cgroups_max_entries
at_most t ok full = let most = ok.indexed.bounded in ground (arith, u32-length t ok.indexed)

-- `insert` keeps a consistent table consistent whatever it answers: it changes nothing and refuses
-- an id that has no entry, and then the table is at its bound, or the entry is found under its id
-- from then on and every other id keeps its entry.
pub insert_entry-IsConsistent :
    (id : ℕ) (e : SideEntry) (t : SideTable)
    → IsConsistent t
    → IsConsistent (insert_entry id e t).0
      × ((insert_entry id e t ≡ (t, rejected_full))
            × ((entry_of id t ≡ none) × (length t.by_cgroup ≡ identity_allow_cgroups_max_entries))
          ⊎ ((q : ℕ)
              → entry_of q (insert_entry id e t).0 ≡ ite (ℕ_discrete id q) (some e) (entry_of q t)))
unfolding insert_entry
insert_entry-IsConsistent id e t ok = elim (Bool-cases (contains_key ℕ_discrete id t.by_cgroup)) [
  | inl known ↦
      let same : insert_entry id e t ≡ (link id e (remove_by_cgroup id t).0, replaced) =
        rw (known, insert_entry) refl in
      let (ok', entries) = linked id e t ok (inl known) in rw same (ok', inr entries)
  | inr unknown ↦
      elim (Bool-cases (leb identity_allow_cgroups_max_entries (u32 (length t.by_cgroup)))) [
        | inl full ↦
            let same : insert_entry id e t ≡ (t, rejected_full) =
              rw (unknown, full, insert_entry) refl in
            rw same (ok, inl (refl, (is_some-false _ unknown, at_most t ok full)))
        | inr room ↦
            let same : insert_entry id e t ≡ (link id e (remove_by_cgroup id t).0, inserted) =
              rw (unknown, room, insert_entry) refl in
            let (ok', entries) = linked id e t ok (inr room) in rw same (ok', inr entries)
      ]
]

-- The empty table is consistent.
pub new-IsConsistent : IsConsistent new
unfolding get
new-IsConsistent = record {
  indexed = record { distinct = tt; bounded = omega arith; paths = λ path id h. absurd (cc h) };
  pods = λ uid id. refl;
}
