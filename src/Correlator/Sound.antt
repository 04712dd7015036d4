-- ===== src/Correlator/Sound.antt =====
-- The side table and the kernel's map stay together through every handler.
use mathlib.Core.Logic.{ite}
use mathlib.Core.Path.{subst}
use neuromesh.Prelude.{
  ℕ, ◌≡◌, ◌⊎◌, ◌∙◌, refl, sym, ap, inl, inr, true, false, Option, none, some, List, [], ◌∷◌,
  ℕ_discrete, Bool-cases, Option-cases, ite-join,
}
use neuromesh.Prelude.Result.{Result, ok, err}
use neuromesh.Bytes.{Bytes}
use neuromesh.HashTable.{get, get-insert, insert}
use neuromesh.IdentityAllow.{IdentityAllowMaps, Update, insert_cgroup, seed_allow_cgroup}
use neuromesh.Lsm.Maps.{identity_allow_value}
use neuromesh.SideTable.{
  SideTable, SideEntry, InsertOutcome, inserted, replaced, rejected_full, entry_of, insert_entry,
  remove_by_cgroup,
}
use neuromesh.SideTable.Invariant.{IsConsistent}
use neuromesh.SideTable.Operations.{remove_by_cgroup-IsConsistent, insert_entry-IsConsistent}
use neuromesh.SideTable.Removal.{kept, kept-none, taken}
use neuromesh.Correlator.{
  watch, Env, State, PodView, ContainerStatusView, invalidate, ids_of, seed_or_remove,
  keep_or_remove, after_insert, reconcile_container, reconcile_containers,
  resolve_container_cgroup_path, side_entry_for_container,
}
use neuromesh.Correlator.Invalidation.{
  AcceptsRemovals, value_of, apply_invalidations-kept, mark, among-ids_of,
}

-- For the ids of `Q`: the indexes are consistent; every such cgroup with a key in the kernel's map
-- has an entry in the side table, so that an invalidation finds it; and a key whose insertion the
-- kernel refuses is not in the map.
pub record IsSoundFor (Q : ℕ → Type 0) (env : Env) (s : State) : Type 0 where
  pub consistent : IsConsistent s.table
  pub tracked : (q : ℕ) → Q q → entry_of q s.table ≡ none → value_of q s.maps ≡ none
  pub insertable : (q : ℕ) → Q q → env.accepts (insert_cgroup q) ≡ false → value_of q s.maps ≡ none

abbrev pub AnyId : ℕ → Type 0
AnyId q = Unit

abbrev pub IsSound : Env → State → Type 0
IsSound env s = IsSoundFor AnyId env s

-- The cgroup is not allowed in the kernel's map, or it has an entry in the side table.
abbrev pub IsTracked : ℕ → State → Type 0
IsTracked q s = (value_of q s.maps ≡ none) ⊎ ((e : SideEntry) × (entry_of q s.table ≡ some e))

pub IsTracked-without :
    (q : ℕ) (s : State) → IsTracked q s → entry_of q s.table ≡ none → value_of q s.maps ≡ none
IsTracked-without q s (inl free) gone = free
IsTracked-without q s (inr (e, there)) gone = absurd (cc (sym there ∙ gone))

-- What an operation that takes entries out answers: which go, what is left, and what is handed out.
pub record Purge (t : SideTable) (r : SideTable × List (ℕ × SideEntry)) : Type 0 where
  pub consistent : IsConsistent r.0
  pub goes : ℕ → Option (Unit {0})
  pub entries : (q : ℕ) → entry_of q r.0 ≡ kept (goes q) (entry_of q t)
  pub handed : (q : ℕ) → get ℕ_discrete q r.1 ≡ taken (goes q) (entry_of q t)

abbrev seeded_maps : ℕ → IdentityAllowMaps → IdentityAllowMaps
seeded_maps inode maps = record maps {
  allow_cgroups = insert ℕ_discrete inode identity_allow_value maps.allow_cgroups;
}

abbrev seeded_pair : ℕ → IdentityAllowMaps → IdentityAllowMaps × Result Update (Unit {0})
seeded_pair inode maps = (seeded_maps inode maps, ok tt)

abbrev unseeded_pair : ℕ → IdentityAllowMaps → IdentityAllowMaps × Result Update (Unit {0})
unseeded_pair inode maps = (maps, err (insert_cgroup inode))

pub kept-taken-none :
    (g : Option (Unit {0})) (o : Option SideEntry) (v : Option ℕ)
    → (o ≡ none → v ≡ none)
    → kept g o ≡ none
    → kept (mark (taken g o)) v ≡ none
kept-taken-none none o v tracked gone = tracked gone
kept-taken-none (some _) none v tracked gone = tracked refl
kept-taken-none (some _) (some e) v tracked gone = refl

module _ (Q : ℕ → Type 0) (env : Env) (removes : AcceptsRemovals env.accepts) where
  -- The kernel loses exactly the keys of the entries that were handed out.
  pub invalidate-value_of :
      (r : SideTable × List (ℕ × SideEntry)) (s : State) (purge : Purge s.table r) (q : ℕ)
      → value_of q (invalidate env r s).maps
        ≡ kept (mark (taken (purge.goes q) (entry_of q s.table))) (value_of q s.maps)
  unfolding invalidate
  invalidate-value_of r s purge q =
      let (_, _, values) = apply_invalidations-kept env.accepts removes (ids_of r.1) s.maps in
      values q
      ∙ ap (λ g. kept g (value_of q s.maps)) (among-ids_of q r.1 ∙ ap mark (purge.handed q))

  pub invalidate-IsSound :
      (r : SideTable × List (ℕ × SideEntry)) (s : State)
      → Purge s.table r
      → IsSoundFor Q env s
      → IsSoundFor Q env (invalidate env r s)
  unfolding invalidate
  invalidate-IsSound r s purge sound = record {
    consistent = purge.consistent;
    tracked = λ q in_q gone.
        invalidate-value_of r s purge q
        ∙ kept-taken-none (purge.goes q) (entry_of q s.table) (value_of q s.maps)
            (sound.tracked q in_q) (sym (purge.entries q) ∙ gone);
    insertable = λ q in_q refused.
        invalidate-value_of r s purge q
        ∙ ap (kept (mark (taken (purge.goes q) (entry_of q s.table))))
            (sound.insertable q in_q refused)
        ∙ kept-none _;
  }

module _ (Q : ℕ → Type 0) (env : Env) where
  seeded :
      (inode : ℕ) (maps : IdentityAllowMaps)
      → env.accepts (insert_cgroup inode) ≡ true
      → seed_allow_cgroup env.accepts inode maps ≡ seeded_pair inode maps
  unfolding seed_allow_cgroup
  seeded inode maps accepted = rw (accepted, seed_allow_cgroup) refl

  unseeded :
      (inode : ℕ) (maps : IdentityAllowMaps)
      → env.accepts (insert_cgroup inode) ≡ false
      → seed_allow_cgroup env.accepts inode maps ≡ unseeded_pair inode maps
  unfolding seed_allow_cgroup
  unseeded inode maps refused = rw (refused, seed_allow_cgroup) refl

  seed_or_remove-IsSound :
      (inode : ℕ) (leaf : Bytes) (e : SideEntry) (s : State)
      → entry_of inode s.table ≡ some e
      → IsSoundFor Q env s
      → IsSoundFor Q env (seed_or_remove env inode leaf s)
  unfolding seed_or_remove seed_allow_cgroup
  seed_or_remove-IsSound inode leaf e s there sound =
      elim (Bool-cases (env.accepts (insert_cgroup inode))) [
        | inl accepted ↦
            let absent : (q : ℕ) → inode ≡ q → ¬ (entry_of q s.table ≡ none) =
              λ q i gone. absurd (cc (sym there ∙ ap (λ x. entry_of x s.table) i ∙ gone)) in
            let step : seed_or_remove env inode leaf s
                ≡ record s { maps = seeded_maps inode s.maps; sent = watch leaf ∷ s.sent } =
              ap (keep_or_remove inode leaf s) (seeded inode s.maps accepted) in
            subst (IsSoundFor Q env) (sym step) (record {
              consistent = sound.consistent;
              tracked = λ q in_q gone.
                  get-insert ℕ_discrete inode q identity_allow_value s.maps.allow_cgroups
                  ∙ ite-join (ℕ_discrete inode q) (λ i. absurd (absent q i gone))
                      (λ _. sound.tracked q in_q gone);
              insertable = λ q in_q refused.
                  get-insert ℕ_discrete inode q identity_allow_value s.maps.allow_cgroups
                  ∙ ite-join (ℕ_discrete inode q)
                      (λ i.
                        absurd
                          (cc (sym accepted ∙ ap (λ x. env.accepts (insert_cgroup x)) i ∙ refused)))
                      (λ _. sound.insertable q in_q refused);
            })
        | inr refused ↦
            let (ok', _, entries) = remove_by_cgroup-IsConsistent inode s.table sound.consistent in
            let step : seed_or_remove env inode leaf s
                ≡ record s { table = (remove_by_cgroup inode s.table).0 } =
              ap (keep_or_remove inode leaf s) (unseeded inode s.maps refused) in
            subst (IsSoundFor Q env) (sym step) (record {
              consistent = ok';
              tracked = λ q in_q gone. elim (ℕ_discrete inode q) [
                | yes i ↦
                    sound.insertable q in_q
                      (ap (λ x. env.accepts (insert_cgroup x)) (sym i) ∙ refused)
                | no n ↦ sound.tracked q in_q (
                    sym (entries q ∙ ite-join (ℕ_discrete inode q) (λ i. absurd (n i)) (λ _. refl))
                    ∙ gone)
              ];
              insertable = sound.insertable;
            })
      ]

  after_insert-IsSound :
      (inode : ℕ) (leaf : Bytes) (e : SideEntry) (outcome : InsertOutcome) (s : State)
      → entry_of inode s.table ≡ some e
      → IsSoundFor Q env s
      → IsSoundFor Q env (after_insert env inode leaf outcome s)
  after_insert-IsSound inode leaf e rejected_full s there sound = sound
  after_insert-IsSound inode leaf e replaced s there sound =
      seed_or_remove-IsSound inode leaf e s there sound
  after_insert-IsSound inode leaf e inserted s there sound =
      seed_or_remove-IsSound inode leaf e s there sound

  inserted-IsSound :
      (inode : ℕ) (leaf : Bytes) (e : SideEntry) (s : State)
      → IsSoundFor Q env s
      → IsSoundFor Q env (
          after_insert env inode leaf
            (insert_entry inode e s.table).1
            (record s { table = (insert_entry inode e s.table).0 }))
  inserted-IsSound inode leaf e s sound =
      let (ok', either) = insert_entry-IsConsistent inode e s.table sound.consistent in
      elim either [
        | inl (same, _) ↦
            subst
              (λ (r : SideTable × InsertOutcome).
                IsSoundFor Q env (after_insert env inode leaf r.1 (record s { table = r.0 })))
              (sym same) sound
        | inr entries ↦
            after_insert-IsSound inode leaf e (insert_entry inode e s.table).1 _
              (entries inode ∙ ite-join (ℕ_discrete inode inode) (λ _. refl) (λ n. absurd (n refl)))
              (record {
                consistent = ok';
                tracked = λ q in_q gone. sound.tracked q in_q (untouched q (entries q) gone);
                insertable = sound.insertable;
              })
      ]
    where
      untouched :
          (q : ℕ) {o o' : Option SideEntry}
          → o' ≡ ite (ℕ_discrete inode q) (some e) o
          → o' ≡ none
          → o ≡ none
      untouched q is gone = elim (ℕ_discrete inode q) [
        | yes i ↦
            absurd
              (cc (sym (is ∙ ite-join (ℕ_discrete inode q) (λ _. refl) (λ n. absurd (n i))) ∙ gone))
        | no n ↦ sym (is ∙ ite-join (ℕ_discrete inode q) (λ i. absurd (n i)) (λ _. refl)) ∙ gone
      ]

  -- A container's round keeps the state sound, whether the table is full or the kernel refuses.
  reconcile_container-IsSound :
      (pod : PodView) (spiffe : Bytes) (c : ContainerStatusView) (s : State)
      → IsSoundFor Q env s
      → IsSoundFor Q env (reconcile_container env pod spiffe c s)
  unfolding reconcile_container
  reconcile_container-IsSound pod spiffe c s sound =
      elim (Option-cases (resolve_container_cgroup_path env pod.uid c)) [
        | inl nowhere ↦ rw (nowhere, reconcile_container) sound
        | inr (leaf, found) ↦ elim (Option-cases (env.inode_of_path leaf)) [
          | inl unknown ↦ rw (found, unknown, reconcile_container) sound
          | inr (inode, known) ↦
              rw (found, known, reconcile_container)
                (inserted-IsSound inode leaf (side_entry_for_container pod spiffe leaf inode) s
                  sound)
        ]
      ]

  pub reconcile_containers-IsSound :
      (pod : PodView) (spiffe : Bytes) (cs : List ContainerStatusView) (s : State)
      → IsSoundFor Q env s
      → IsSoundFor Q env (reconcile_containers env pod spiffe cs s)
  unfolding reconcile_containers
  reconcile_containers-IsSound pod spiffe [] s sound = sound
  reconcile_containers-IsSound pod spiffe (c ∷ cs) s sound =
      reconcile_containers-IsSound pod spiffe cs (reconcile_container env pod spiffe c s)
        (reconcile_container-IsSound pod spiffe c s sound)
