-- ===== src/Correlator/Resync/Plans.antt =====
-- What the plans of the forced resync take out of the side table.
use mathlib.Core.Logic.{ite}
use mathlib.Core.Path.{subst}
use neuromesh.Prelude.{
  ℕ, ◌≡◌, ◌∙◌, refl, sym, ap, inl, inr, Bool, true, not, Option, none, some, List, [], ◌∷◌, ◌++◌,
  arith, ℕ_discrete, Bool-cases, Option-cases, ite-cong, ite-join,
}
use neuromesh.Bytes.{Bytes, Bytes-discrete}
use neuromesh.HashTable.{HashMap, HashSet, get, get-insert, insert}
use neuromesh.SideTable.{
  SideTable, SideEntry, entry_of, sweep_missing_paths, remove_by_pod, plan_missing_path_sweep,
  plan_pod_delete,
}
use neuromesh.SideTable.Invariant.{IsConsistent, listed}
use neuromesh.SideTable.Removal.{
  kept, kept-none, taken, among, filtered, remove_by_pod-IsConsistent, sweep_missing_paths-filtered,
}
use neuromesh.Correlator.Invalidation.{mark, among-ids_of}
use neuromesh.Correlator.Resync.{is_stale, stale_uids, plan_pod_deletes, insert_sorted, sort_dedup}

-- A plan takes the entries of the listed ids out of the table, and no other.
pub record Planned (t : SideTable) (r : SideTable × List ℕ) : Type 0 where
  pub consistent : IsConsistent r.0
  pub entries : (q : ℕ) → entry_of q r.0 ≡ kept (among q r.1) (entry_of q t)

kept-mark : (g : Option (Unit {0})) (o : Option SideEntry) → kept (mark (taken g o)) o ≡ kept g o
kept-mark none o = refl
kept-mark (some _) none = refl
kept-mark (some _) (some e) = refl

kept-cons :
    {P A : Type 0} (d : Dec P) (g h k : Option (Unit {0})) (o : Option A)
    → kept g (kept h o) ≡ kept k o
    → kept g (kept (ite d (some tt) h) o) ≡ kept (ite d (some tt) k) o
kept-cons (yes p) g h k o same = kept-none g
kept-cons (no p) g h k o same = same

pub kept-append :
    {A : Type 0} (q : ℕ) (a b : List ℕ) (o : Option A)
    → kept (among q b) (kept (among q a) o) ≡ kept (among q (a ++ b)) o
kept-append q [] b o = refl
kept-append q (x ∷ a) b o =
    kept-cons (ℕ_discrete x q) (among q b) (among q a) (among q (a ++ b)) o (kept-append q a b o)

among-insert_sorted :
    (q id : ℕ) (ids : List ℕ)
    → among q (insert_sorted id ids) ≡ ite (ℕ_discrete id q) (some tt) (among q ids)
unfolding insert_sorted
among-insert_sorted q id [] = refl
among-insert_sorted q id (x ∷ xs) = ground (arith, among-insert_sorted q id xs)

pub among-sort_dedup : (q : ℕ) (ids : List ℕ) → among q (sort_dedup ids) ≡ among q ids
unfolding sort_dedup
among-sort_dedup q [] = refl
among-sort_dedup q (id ∷ ids) =
    among-insert_sorted q id (sort_dedup ids)
    ∙ ite-cong (ℕ_discrete id q) (λ _. refl) (λ _. among-sort_dedup q ids)

plan_pod_delete-Planned :
    (uid : Bytes) (t : SideTable) → IsConsistent t → Planned t (plan_pod_delete uid t)
unfolding plan_pod_delete
plan_pod_delete-Planned uid t ok =
    let (ok', entries, handed) = remove_by_pod-IsConsistent uid t ok in
    record {
      consistent = ok';
      entries = λ q.
          entries q
          ∙ sym (
              ap (λ g. kept g (entry_of q t))
                (among-ids_of q (remove_by_pod uid t).1 ∙ ap mark (handed q))
              ∙ kept-mark (listed uid (entry_of q t)) (entry_of q t));
    }

pub plan_pod_deletes-Planned :
    (uids : HashSet Bytes) (t : SideTable) → IsConsistent t → Planned t (plan_pod_deletes uids t)
unfolding plan_pod_deletes
plan_pod_deletes-Planned [] t ok = record { consistent = ok; entries = λ q. refl }
plan_pod_deletes-Planned ((uid, _) ∷ uids) t ok =
    let first = plan_pod_delete-Planned uid t ok in
    let rest = plan_pod_deletes-Planned uids (plan_pod_delete uid t).0 first.consistent in
    record {
      consistent = rest.consistent;
      entries = λ q.
          rest.entries q
          ∙ ap (kept (among q (plan_pod_deletes uids (plan_pod_delete uid t).0).1))
              (first.entries q)
          ∙ kept-append q (plan_pod_delete uid t).1 _ (entry_of q t);
    }

kept-filtered :
    (keep : SideEntry → Bool) (o : Option SideEntry)
    → kept (mark (filtered (λ e. not (keep e)) o)) o ≡ filtered keep o
kept-filtered keep none = refl
kept-filtered keep (some e) = elim (Bool-cases (keep e)) [ inl h ↦ rw h refl | inr h ↦ rw h refl ]

pub plan_missing_path_sweep-Planned :
    (exists : Bytes → Bool) (t : SideTable)
    → IsConsistent t
    → Planned t (plan_missing_path_sweep exists t)
unfolding plan_missing_path_sweep
plan_missing_path_sweep-Planned exists t ok =
    let (ok', entries, handed) = sweep_missing_paths-filtered t ok exists in
    record {
      consistent = ok';
      entries = λ q.
          entries q
          ∙ sym (
              ap (λ g. kept g (entry_of q t))
                (among-ids_of q (sweep_missing_paths exists t).1 ∙ ap mark (handed q))
              ∙ kept-filtered (λ e. exists e.cgroup_path) (entry_of q t));
    }

-- An entry that is kept was there, and passed the test.
pub kept-some :
    (g : Option (Unit {0})) (o : Option SideEntry) (e : SideEntry) → kept g o ≡ some e → o ≡ some e
kept-some none o e h = h
kept-some (some _) o e h = absurd (cc h)

pub filtered-some :
    (keep : SideEntry → Bool) (o : Option SideEntry) (e : SideEntry)
    → filtered keep o ≡ some e
    → keep e ≡ true
filtered-some keep none e h = absurd (cc h)
filtered-some keep (some e₀) e h = elim (Bool-cases (keep e₀)) [
  | inl good ↦
      let h' : some e₀ ≡ some e = rw good at h in
      let same : e₀ ≡ e = cc h' in subst (λ x. keep x ≡ true) same good
  | inr bad ↦ let h' : none ≡ some e = rw bad at h in absurd (cc h')
]

listed-kept-some :
    (uid : Bytes) (o : Option SideEntry) (e : SideEntry)
    → kept (listed uid o) o ≡ some e
    → listed uid (some e) ≡ none
listed-kept-some uid none e h = absurd (cc h)
listed-kept-some uid (some e₀) e h = elim (Option-cases (listed uid (some e₀))) [
  | inl unlisted ↦
      let h' : some e₀ ≡ some e = sym (ap (λ g. kept g (some e₀)) unlisted) ∙ h in
      sym (ap (listed uid) h') ∙ unlisted
  | inr (_, marked) ↦
      let h' : none ≡ some e = sym (ap (λ g. kept g (some e₀)) marked) ∙ h in absurd (cc h')
]

-- An entry that the deletions leave belongs to none of the pods.
pub plan_pod_deletes-listed :
    (uids : HashSet Bytes) (t : SideTable) (q : ℕ) (e : SideEntry) (u : Bytes)
    → IsConsistent t
    → entry_of q (plan_pod_deletes uids t).0 ≡ some e
    → get Bytes-discrete u uids ≡ some tt
    → listed u (some e) ≡ none
unfolding plan_pod_deletes plan_pod_delete get
plan_pod_deletes-listed [] t q e u ok left member = absurd (cc member)
plan_pod_deletes-listed ((uid, _) ∷ uids) t q e u ok left member =
    let (ok', entries, _) = remove_by_pod-IsConsistent uid t ok in
    let rest = plan_pod_deletes-Planned uids (plan_pod_delete uid t).0 ok' in
    elim (Bytes-discrete uid u) [
      | yes p ↦
          let was = kept-some _ _ e (sym (rest.entries q) ∙ left) in
          ap (λ x. listed x (some e)) (sym p)
          ∙ listed-kept-some uid (entry_of q t) e (sym (entries q) ∙ was)
      | no n ↦
          plan_pod_deletes-listed uids (plan_pod_delete uid t).0 q e u ok' left
            (sym (ite-join (Bytes-discrete uid u) (λ p. absurd (n p)) (λ _. refl)) ∙ member)
    ]

pub stale_uids-member :
    (live : HashSet Bytes) (m : HashMap ℕ SideEntry) (q : ℕ) (e : SideEntry)
    → get ℕ_discrete q m ≡ some e
    → is_stale live e ≡ true
    → get Bytes-discrete e.pod_uid (stale_uids live m) ≡ some tt
unfolding stale_uids get
stale_uids-member live [] q e there stale = absurd (cc there)
stale_uids-member live ((id, e₀) ∷ m) q e there stale = elim (ℕ_discrete id q) [
  | yes i ↦
      let h : some e₀ ≡ some e =
        sym (ite-join (ℕ_discrete id q) (λ _. refl) (λ n. absurd (n i))) ∙ there in
      let same : e₀ ≡ e = cc h in
      let stale₀ : is_stale live e₀ ≡ true = subst (λ x. is_stale live x ≡ true) (sym same) stale in
      let step : stale_uids live ((id, e₀) ∷ m)
          ≡ insert Bytes-discrete e₀.pod_uid tt (stale_uids live m) =
        rw (stale₀, stale_uids) refl in
      ap (get Bytes-discrete e.pod_uid) step
      ∙ get-insert Bytes-discrete e₀.pod_uid e.pod_uid tt (stale_uids live m)
      ∙ ite-join (Bytes-discrete e₀.pod_uid e.pod_uid) (λ _. refl)
          (λ n. absurd (n (ap (λ (x : SideEntry). x.pod_uid) same)))
  | no n ↦
      let there' : get ℕ_discrete q m ≡ some e =
        sym (ite-join (ℕ_discrete id q) (λ i. absurd (n i)) (λ _. refl)) ∙ there in
      let rest = stale_uids-member live m q e there' stale in
      elim (Bool-cases (is_stale live e₀)) [
        | inl stale₀ ↦
            let step : stale_uids live ((id, e₀) ∷ m)
                ≡ insert Bytes-discrete e₀.pod_uid tt (stale_uids live m) =
              rw (stale₀, stale_uids) refl in
            ap (get Bytes-discrete e.pod_uid) step
            ∙ get-insert Bytes-discrete e₀.pod_uid e.pod_uid tt (stale_uids live m)
            ∙ ite-join (Bytes-discrete e₀.pod_uid e.pod_uid) (λ _. refl) (λ _. rest)
        | inr fresh₀ ↦
            let step : stale_uids live ((id, e₀) ∷ m) ≡ stale_uids live m =
              rw (fresh₀, stale_uids) refl in
            ap (get Bytes-discrete e.pod_uid) step ∙ rest
      ]
]
