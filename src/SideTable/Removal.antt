-- ===== src/SideTable/Removal.antt =====
-- What the invalidations take out of the side table: the entries of a pod, of vanished paths, of
-- revoked identities, and nothing else.
use mathlib.Core.Logic.{ite}
use mathlib.Core.Path.{subst}
use mathlib.Core.Bool.{◌||◌}
use neuromesh.Prelude.{
  ℕ, ◌≡◌, ◌∙◌, refl, sym, ap, inl, inr, Bool, not, ◌&&◌, Option, none, some, List, [], ◌∷◌,
  if◌then◌else◌, is_empty, ℕ_discrete, Bool-cases, Option-cases, ite-cong, ite-join, ite-ap,
}
use neuromesh.Bytes.{Bytes, Bytes-discrete}
use neuromesh.HashTable.{HashMap, HashSet, get, get-nil, get-remove, remove, contains_key, Distinct}
use neuromesh.SideTable.{
  SideEntry, SideTable, entry_of, drop_ids, remove_by_cgroup, remove_by_pod, remove_all, select_ids,
  sweep_missing_paths, plan_pe_allowlist_revoke,
}
use neuromesh.SideTable.Invariant.{
  pod_member, ids_member, listed, HasPaths, IsConsistent, pod_member-remove,
}
use neuromesh.SideTable.Operations.{
  listed-other, listed-unknown, listed-own, HasPaths-remove, remove_by_cgroup-IsConsistent,
}

-- What is left of an entry, and what is handed out, if a mark says that it goes.
abbrev pub kept : {A : Type 0} → Option (Unit {0}) → Option A → Option A
kept none o = o
kept (some _) o = none

abbrev pub taken : Option (Unit {0}) → Option SideEntry → Option SideEntry
taken none o = none
taken (some _) o = o

pub kept-none : {A : Type 0} (g : Option (Unit {0})) → kept {A = A} g none ≡ none
kept-none none = refl
kept-none (some _) = refl

taken-none : (g : Option (Unit {0})) → taken g none ≡ none
taken-none none = refl
taken-none (some _) = refl

module _ {P : Type 0} where
  pub kept-hit :
      {A : Type 0} (d : Dec P) (g : Option (Unit {0})) (o : Option A)
      → kept g (ite d none o) ≡ kept (ite d (some tt) g) o
  kept-hit (yes p) g o = kept-none g
  kept-hit (no p) g o = refl

  pub kept-miss :
      {A : Type 0} (d : Dec P) (g : Option (Unit {0})) (o : Option A)
      → (P → o ≡ none)
      → kept g o ≡ kept (ite d (some tt) g) o
  kept-miss (yes p) g o gone = ap (kept g) (gone p) ∙ kept-none g
  kept-miss (no p) g o gone = refl

  pub taken-hit :
      (d : Dec P) (g : Option (Unit {0})) (o : Option SideEntry) (e : SideEntry)
      → (P → o ≡ some e)
      → ite d (some e) (taken g (ite d none o)) ≡ taken (ite d (some tt) g) o
  taken-hit (yes p) g o e here = sym (here p)
  taken-hit (no p) g o e here = refl

  taken-miss :
      (d : Dec P) (g : Option (Unit {0})) (o : Option SideEntry)
      → (P → o ≡ none)
      → taken g (ite d none o) ≡ taken (ite d (some tt) g) o
  taken-miss (yes p) g o gone = taken-none g ∙ sym (gone p)
  taken-miss (no p) g o gone = refl

  taken-miss_same :
      (d : Dec P) (g : Option (Unit {0})) (o : Option SideEntry)
      → (P → o ≡ none)
      → taken g o ≡ taken (ite d (some tt) g) o
  taken-miss_same (yes p) g o gone = ap (taken g) (gone p) ∙ taken-none g ∙ sym (gone p)
  taken-miss_same (no p) g o gone = refl

record Dropped (ids : HashSet ℕ) (t : SideTable) (r : SideTable × List (ℕ × SideEntry))
    : Type 0 where
  indexed : HasPaths r.0
  same_pods : r.0.by_pod ≡ t.by_pod
  entries : (q : ℕ) → entry_of q r.0 ≡ kept (get ℕ_discrete q ids) (entry_of q t)
  handed : (q : ℕ) → get ℕ_discrete q r.1 ≡ taken (get ℕ_discrete q ids) (entry_of q t)

abbrev pub dropped_one : ℕ → SideEntry → SideTable → SideTable
dropped_one id e t = record t {
  by_cgroup = remove ℕ_discrete id t.by_cgroup;
  by_path = remove Bytes-discrete e.cgroup_path t.by_path;
}

drop_ids-Dropped : (ids : HashSet ℕ) (t : SideTable) → HasPaths t → Dropped ids t (drop_ids ids t)
unfolding drop_ids get
drop_ids-Dropped [] t ok = record {
  indexed = ok;
  same_pods = refl;
  entries = λ q. refl;
  handed = λ q. refl;
}
drop_ids-Dropped ((id, u) ∷ ids) t ok = elim (Option-cases (entry_of id t)) [
  | inl missing ↦
      let gone : (q : ℕ) → id ≡ q → entry_of q t ≡ none =
        λ q i. ap (λ x. entry_of x t) (sym i) ∙ missing in
      let step : drop_ids ((id, u) ∷ ids) t ≡ drop_ids ids t = rw (missing, drop_ids) refl in
      let rest = drop_ids-Dropped ids t ok in
      subst (Dropped ((id, u) ∷ ids) t) (sym step) (record {
        indexed = rest.indexed;
        same_pods = rest.same_pods;
        entries = λ q. rest.entries q ∙ kept-miss (ℕ_discrete id q) _ _ (gone q);
        handed = λ q. rest.handed q ∙ taken-miss_same (ℕ_discrete id q) _ _ (gone q);
      })
  | inr (e, found) ↦
      let t₁ = dropped_one id e t in
      let here : (q : ℕ) → id ≡ q → entry_of q t ≡ some e =
        λ q i. ap (λ x. entry_of x t) (sym i) ∙ found in
      let step : drop_ids ((id, u) ∷ ids) t ≡ ((drop_ids ids t₁).0, (id, e) ∷ (drop_ids ids t₁).1) =
        rw (found, drop_ids) refl in
      let rest = drop_ids-Dropped ids t₁ (HasPaths-remove id e t.by_pod t found ok) in
      let left : (q : ℕ) → entry_of q t₁ ≡ ite (ℕ_discrete id q) none (entry_of q t) =
        λ q. get-remove ℕ_discrete id q t.by_cgroup in
      subst (Dropped ((id, u) ∷ ids) t) (sym step) (record {
        indexed = rest.indexed;
        same_pods = rest.same_pods;
        entries = λ q.
            rest.entries q
            ∙ ap (kept (get ℕ_discrete q ids)) (left q)
            ∙ kept-hit (ℕ_discrete id q) _ _;
        handed = λ q.
            ite-cong (ℕ_discrete id q) (λ _. refl)
              (λ _. rest.handed q ∙ ap (taken (get ℕ_discrete q ids)) (left q))
            ∙ taken-hit (ℕ_discrete id q) _ _ e (here q);
      })
]

-- Whoever is listed under a pod goes; seen from another pod, nothing changes.
listed-kept :
    (uid u : Bytes) (o : Option SideEntry)
    → ite (Bytes-discrete uid u) none (listed u o) ≡ listed u (kept (listed uid o) o)
listed-kept uid u none = ite-join (Bytes-discrete uid u) (λ _. refl) (λ _. refl)
listed-kept uid u (some e) = elim (Bytes-discrete e.pod_uid uid) [
  | yes p ↦ elim (Bool-cases (is_empty e.pod_uid)) [
    | inl unknown ↦
        ite-join (Bytes-discrete uid u) (λ _. sym (listed-unknown u e unknown)) (λ _. refl)
        ∙ sym (ap (λ g. listed u (kept g (some e))) (listed-unknown uid e unknown))
    | inr known ↦
        let marked : listed uid (some e) ≡ some tt =
          listed-own uid e known
          ∙ ite-join (Bytes-discrete e.pod_uid uid) (λ _. refl) (λ n. absurd (n p)) in
        ite-join (Bytes-discrete uid u) (λ _. refl) (λ n. listed-other u e (λ q. n (sym p ∙ q)))
        ∙ sym (ap (λ g. listed u (kept g (some e))) marked)
  ]
  | no n ↦
      ite-join (Bytes-discrete uid u) (λ q. sym (listed-other u e (λ p. n (p ∙ sym q)))) (λ _. refl)
      ∙ sym (ap (λ g. listed u (kept g (some e))) (listed-other uid e n))
]

-- On a consistent table `remove_by_pod` takes out exactly the entries of a known pod, hands out
-- exactly these, and keeps the table consistent.
pub remove_by_pod-IsConsistent :
    (uid : Bytes) (t : SideTable)
    → IsConsistent t
    → IsConsistent (remove_by_pod uid t).0
      × ((q : ℕ)
          → entry_of q (remove_by_pod uid t).0 ≡ kept (listed uid (entry_of q t)) (entry_of q t))
      × ((q : ℕ)
          → get ℕ_discrete q (remove_by_pod uid t).1
            ≡ taken (listed uid (entry_of q t)) (entry_of q t))
unfolding remove_by_pod
remove_by_pod-IsConsistent uid t ok = elim (Option-cases (get Bytes-discrete uid t.by_pod)) [
  | inl missing ↦
      let step : remove_by_pod uid t ≡ (t, []) = rw (missing, remove_by_pod) refl in
      let unmarked : (q : ℕ) → listed uid (entry_of q t) ≡ none =
        λ q. sym (ok.pods uid q) ∙ ap (ids_member q) missing in
      rw step (
        ok,
        λ q. sym (ap (λ g. kept g (entry_of q t)) (unmarked q)),
        λ q. get-nil ℕ_discrete q ∙ sym (ap (λ g. taken g (entry_of q t)) (unmarked q)),
      )
  | inr (ids, found) ↦
      let t₀ : SideTable = record t { by_pod = remove Bytes-discrete uid t.by_pod } in
      let step : remove_by_pod uid t ≡ drop_ids ids t₀ = rw (found, remove_by_pod) refl in
      let ok₀ : HasPaths t₀ = record {
        distinct = ok.indexed.distinct;
        bounded = ok.indexed.bounded;
        paths = ok.indexed.paths;
      } in
      let dropped = drop_ids-Dropped ids t₀ ok₀ in
      let marked : (q : ℕ) → get ℕ_discrete q ids ≡ listed uid (entry_of q t) =
        λ q. sym (ap (ids_member q) found) ∙ ok.pods uid q in
      let entries : (q : ℕ)
          → entry_of q (drop_ids ids t₀).0 ≡ kept (listed uid (entry_of q t)) (entry_of q t) =
        λ q. dropped.entries q ∙ ap (λ g. kept g (entry_of q t)) (marked q) in
      rw step (
        record {
          indexed = dropped.indexed;
          pods = λ u q.
              ap (pod_member u q) dropped.same_pods
              ∙ pod_member-remove u q t.by_pod uid
              ∙ ite-cong (Bytes-discrete uid u) (λ _. refl) (λ _. ok.pods u q)
              ∙ listed-kept uid u (entry_of q t)
              ∙ sym (ap (listed u) (entries q));
        },
        entries,
        λ q. dropped.handed q ∙ ap (λ g. taken g (entry_of q t)) (marked q),
      )
]

-- Whether a list has an id.
abbrev pub among : ℕ → List ℕ → Option (Unit {0})
among q [] = none
among q (id ∷ ids) = ite (ℕ_discrete id q) (some tt) (among q ids)

pub remove_all-IsConsistent :
    (ids : List ℕ) (t : SideTable)
    → IsConsistent t
    → IsConsistent (remove_all ids t).0
      × ((q : ℕ) → entry_of q (remove_all ids t).0 ≡ kept (among q ids) (entry_of q t))
      × ((q : ℕ) → get ℕ_discrete q (remove_all ids t).1 ≡ taken (among q ids) (entry_of q t))
unfolding remove_all get
remove_all-IsConsistent [] t ok = (ok, λ q. refl, λ q. refl)
remove_all-IsConsistent (id ∷ ids) t ok =
    let (ok₁, answer, left) = remove_by_cgroup-IsConsistent id t ok in
    let t₁ = (remove_by_cgroup id t).0 in
    let (ok', entries, handed) = remove_all-IsConsistent ids t₁ ok₁ in
    let here : (o : Option SideEntry) → entry_of id t ≡ o → (q : ℕ) → id ≡ q → entry_of q t ≡ o =
      λ o found q i. ap (λ x. entry_of x t) (sym i) ∙ found in
    let entries' : (q : ℕ)
        → entry_of q (remove_all ids t₁).0 ≡ kept (among q (id ∷ ids)) (entry_of q t) =
      λ q. entries q ∙ ap (kept (among q ids)) (left q) ∙ kept-hit (ℕ_discrete id q) _ _ in
    let handed₁ : (q : ℕ)
        → get ℕ_discrete q (remove_all ids t₁).1
          ≡ taken (among q ids) (ite (ℕ_discrete id q) none (entry_of q t)) =
      λ q. handed q ∙ ap (taken (among q ids)) (left q) in
    elim (Option-cases (entry_of id t)) [
      | inl missing ↦
          let step : remove_all (id ∷ ids) t ≡ remove_all ids t₁ =
            rw (answer, missing, remove_all) refl in
          rw step
            (ok', entries', λ q. handed₁ q ∙ taken-miss (ℕ_discrete id q) _ _ (here none missing q))
      | inr (e, found) ↦
          let step : remove_all (id ∷ ids) t
              ≡ ((remove_all ids t₁).0, (id, e) ∷ (remove_all ids t₁).1) =
            rw (answer, found, remove_all) refl in
          rw step (
            ok',
            entries',
            λ q.
                ite-cong (ℕ_discrete id q) (λ _. refl) (λ _. handed₁ q)
                ∙ taken-hit (ℕ_discrete id q) _ _ e (here (some e) found q),
          )
    ]

-- Which entries a test picks.
abbrev pub selected : (SideEntry → Bool) → Option SideEntry → Option (Unit {0})
selected keep none = none
selected keep (some e) = if keep e then some tt else none

pub among-select_ids :
    (keep : SideEntry → Bool) (m : HashMap ℕ SideEntry)
    → Distinct ℕ_discrete m
    → (q : ℕ) → among q (select_ids keep m) ≡ selected keep (get ℕ_discrete q m)
unfolding select_ids get
among-select_ids keep [] d q = refl
among-select_ids keep ((id, e) ∷ m) (fresh, d) q =
    let rest = among-select_ids keep m d q in
    elim (Bool-cases (keep e)) [
      | inl picked ↦
          let step : select_ids keep ((id, e) ∷ m) ≡ id ∷ select_ids keep m =
            rw (picked, select_ids) refl in
          let mark : some tt ≡ selected keep (some e) = rw picked refl in
          ap (among q) step
          ∙ ite-cong (ℕ_discrete id q) (λ _. mark) (λ _. rest)
          ∙ sym (ite-ap (selected keep) (ℕ_discrete id q) (some e) (get ℕ_discrete q m))
      | inr passed ↦
          let step : select_ids keep ((id, e) ∷ m) ≡ select_ids keep m =
            rw (passed, select_ids) refl in
          let mark : selected keep (some e) ≡ none = rw passed refl in
          ap (among q) step
          ∙ rest
          ∙ sym (
              ite-ap (selected keep) (ℕ_discrete id q) (some e) (get ℕ_discrete q m)
              ∙ ite-join (ℕ_discrete id q)
                  (λ i.
                    mark ∙ sym (ap (selected keep) (ap (λ x. get ℕ_discrete x m) (sym i) ∙ fresh)))
                  (λ _. refl))
    ]

-- An entry that is kept if it passes a test.
abbrev pub filtered : (SideEntry → Bool) → Option SideEntry → Option SideEntry
filtered keep none = none
filtered keep (some e) = if keep e then some e else none

kept-selected :
    (drop : SideEntry → Bool) (o : Option SideEntry)
    → kept (selected drop o) o ≡ filtered (λ e. not (drop e)) o
kept-selected drop none = refl
kept-selected drop (some e) = elim (Bool-cases (drop e)) [ inl h ↦ rw h refl | inr h ↦ rw h refl ]

taken-selected :
    (drop : SideEntry → Bool) (o : Option SideEntry) → taken (selected drop o) o ≡ filtered drop o
taken-selected drop none = refl
taken-selected drop (some e) = elim (Bool-cases (drop e)) [ inl h ↦ rw h refl | inr h ↦ rw h refl ]

filtered-not-not :
    (keep : SideEntry → Bool) (o : Option SideEntry)
    → filtered (λ e. not (not (keep e))) o ≡ filtered keep o
filtered-not-not keep none = refl
filtered-not-not keep (some e) = elim (Bool-cases (keep e)) [
  | inl h ↦ rw h refl
  | inr h ↦ rw h refl
]

module _ (t : SideTable) (ok : IsConsistent t) where
  -- Taking out the entries that a test picks.
  remove_selected :
      (drop : SideEntry → Bool)
      → IsConsistent (remove_all (select_ids drop t.by_cgroup) t).0
        × ((q : ℕ)
            → entry_of q (remove_all (select_ids drop t.by_cgroup) t).0
              ≡ filtered (λ e. not (drop e)) (entry_of q t))
        × ((q : ℕ)
            → get ℕ_discrete q (remove_all (select_ids drop t.by_cgroup) t).1
              ≡ filtered drop (entry_of q t))
  remove_selected drop =
      let (ok', entries, handed) = remove_all-IsConsistent (select_ids drop t.by_cgroup) t ok in
      let marks = among-select_ids drop t.by_cgroup ok.indexed.distinct in
      (
        ok',
        λ q.
            entries q
            ∙ ap (λ g. kept g (entry_of q t)) (marks q)
            ∙ kept-selected drop (entry_of q t),
        λ q.
            handed q
            ∙ ap (λ g. taken g (entry_of q t)) (marks q)
            ∙ taken-selected drop (entry_of q t),
      )

  -- On a consistent table a sweep leaves exactly the entries whose path still exists, hands out
  -- the others, and keeps the table consistent.
  pub sweep_missing_paths-filtered :
      (exists : Bytes → Bool)
      → IsConsistent (sweep_missing_paths exists t).0
        × ((q : ℕ)
            → entry_of q (sweep_missing_paths exists t).0
              ≡ filtered (λ e. exists e.cgroup_path) (entry_of q t))
        × ((q : ℕ)
            → get ℕ_discrete q (sweep_missing_paths exists t).1
              ≡ filtered (λ e. not (exists e.cgroup_path)) (entry_of q t))
  unfolding sweep_missing_paths
  sweep_missing_paths-filtered exists =
      let (ok', entries, handed) = remove_selected (λ e. not (exists e.cgroup_path)) in
      (ok', λ q. entries q ∙ filtered-not-not (λ e. exists e.cgroup_path) (entry_of q t), handed)

  -- On a consistent table, taking out the planned ids leaves exactly the entries whose identity is
  -- empty or on the allowlist, and keeps the table consistent.
  pub plan_pe_allowlist_revoke-filtered :
      (allowed : HashSet Bytes)
      → IsConsistent (remove_all (plan_pe_allowlist_revoke allowed t) t).0
        × ((q : ℕ)
            → entry_of q (remove_all (plan_pe_allowlist_revoke allowed t) t).0
              ≡ filtered
                  (λ e. is_empty e.spiffe_id || contains_key Bytes-discrete e.spiffe_id allowed)
                  (entry_of q t))
  unfolding plan_pe_allowlist_revoke
  plan_pe_allowlist_revoke-filtered allowed =
      let revoked : SideEntry → Bool =
        λ e. not (is_empty e.spiffe_id) && not (contains_key Bytes-discrete e.spiffe_id allowed) in
      let (ok', entries, _) = remove_selected revoked in (ok', λ q. entries q ∙ same (entry_of q t))
    where
      same :
          (o : Option SideEntry)
          → filtered
              (λ e. not (
                not (is_empty e.spiffe_id)
                && not (contains_key Bytes-discrete e.spiffe_id allowed)))
              o
            ≡ filtered
                (λ e. is_empty e.spiffe_id || contains_key Bytes-discrete e.spiffe_id allowed)
                o
      same none = refl
      same (some e) = elim (Bool-cases (is_empty e.spiffe_id)) [
        | inl h ↦ rw h refl
        | inr h ↦ elim (Bool-cases (contains_key Bytes-discrete e.spiffe_id allowed)) [
          | inl k ↦ rw (h, k) refl
          | inr k ↦ rw (h, k) refl
        ]
      ]
