-- ===== src/Correlator/Seeded.antt =====
-- apps/agent-ebpf-sensor/src/identity_correlator/mod.rs and identity_allow.rs: a start with cgroups
-- that are allowed by hand ends with an entry for each of them in the side table.
use mathlib.Core.Logic.{ite}
use neuromesh.Prelude.{
  ℕ, ◌≡◌, ◌≢◌, refl, sym, ◌∙◌, ap, inl, inr, Bool, true, false, Option, none, List, [], ◌∷◌, ◌==◌,
  ℕ_discrete, Bool-cases, Option-cases, ite-yes, ite-no,
}
use neuromesh.Prelude.Result.{Result, ok, err}
use neuromesh.Bytes.{Bytes}
use neuromesh.HashTable.{insert, get-insert}
use neuromesh.IdentityAllow.{IdentityAllowMaps, Update, insert_cgroup, seed_allow_cgroup}
use neuromesh.Lsm.Maps.{identity_allow_value}
use neuromesh.SideTable.{
  SideEntry, InsertOutcome, inserted, replaced, rejected_full, entry_of, insert_entry,
}
use neuromesh.SideTable.Invariant.{IsConsistent}
use neuromesh.SideTable.Operations.{insert_entry-IsConsistent}
use neuromesh.Correlator.{Env, State}
use neuromesh.Correlator.Invalidation.{value_of}
use neuromesh.Correlator.Seeds.{
  SeedError, map_update, table_full, no_cgroup, other_inode, worker_closed, seed_each, send_watch,
  after_seed_insert, seeded_entry, register_seeded_cgroup,
}

abbrev pub id_in : ℕ → List ℕ → Bool
id_in q [] = false
id_in q (id ∷ ids) = ite (ℕ_discrete id q) true (id_in q ids)

-- What seeding leaves in the kernel's map.
module _ (accepts : Update → Bool) where
  abbrev pub Seeded : List ℕ → IdentityAllowMaps → IdentityAllowMaps → Type 0
  Seeded ids maps m =
      (q : ℕ)
      → (id_in q ids ≡ false → value_of q m ≡ value_of q maps)
        × (id_in q ids ≡ true → accepts (insert_cgroup q) ≡ true)

  abbrev with_id : ℕ → IdentityAllowMaps → IdentityAllowMaps
  with_id id maps = record maps {
    allow_cgroups = insert ℕ_discrete id identity_allow_value maps.allow_cgroups;
  }

  seeded :
      (id : ℕ) (maps : IdentityAllowMaps)
      → accepts (insert_cgroup id) ≡ true
      → seed_allow_cgroup accepts id maps ≡ (with_id id maps, ok tt)
  unfolding seed_allow_cgroup
  seeded id maps h = rw (h, seed_allow_cgroup) refl

  unseeded :
      (id : ℕ) (maps : IdentityAllowMaps)
      → accepts (insert_cgroup id) ≡ false
      → seed_allow_cgroup accepts id maps ≡ (maps, err (insert_cgroup id))
  unfolding seed_allow_cgroup
  unseeded id maps h = rw (h, seed_allow_cgroup) refl

  seed_each-accepted :
      (id : ℕ) (ids : List ℕ) (maps : IdentityAllowMaps)
      → accepts (insert_cgroup id) ≡ true
      → seed_each accepts (id ∷ ids) maps ≡ seed_each accepts ids (with_id id maps)
  unfolding seed_each
  seed_each-accepted id ids maps h =
      rw (seed_each, seeded id maps h)
        (ap (λ (r : IdentityAllowMaps × Result Update (Unit {0})). seed_each accepts ids r.0)
          (seeded id maps h))

  seed_each-refused :
      (id : ℕ) (ids : List ℕ) (maps : IdentityAllowMaps)
      → accepts (insert_cgroup id) ≡ false
      → seed_each accepts (id ∷ ids) maps ≡ (maps, err (map_update (insert_cgroup id)))
  unfolding seed_each
  seed_each-refused id ids maps h =
      rw (seed_each, unseeded id maps h)
        (ap
          (λ (r : IdentityAllowMaps × Result Update (Unit {0})).
            (r.0, err (map_update (insert_cgroup id))))
          (unseeded id maps h))

  pub seed_each-Seeded :
      (ids : List ℕ) (maps : IdentityAllowMaps)
      → (seed_each accepts ids maps).1 ≡ ok tt
      → Seeded ids maps (seed_each accepts ids maps).0
  unfolding seed_each
  seed_each-Seeded [] maps h = λ q. (λ _. refl, λ e. absurd (cc e))
  seed_each-Seeded (id ∷ ids) maps h = elim (Bool-cases (accepts (insert_cgroup id))) [
    | inr refused ↦ absurd (cc (sym (ap (λ r. r.1) (seed_each-refused id ids maps refused)) ∙ h))
    | inl accepted ↦
        let step = seed_each-accepted id ids maps accepted in
        let rest = seed_each-Seeded ids (with_id id maps) (ap (λ r. r.1) (sym step) ∙ h) in
        λ q. elim (ℕ_discrete id q) [
          | yes e ↦ (
            λ out. absurd (cc (sym (ite-yes (ℕ_discrete id q) true (id_in q ids) e) ∙ out)),
            λ _. ap (λ x. accepts (insert_cgroup x)) (sym e) ∙ accepted,
          )
          | no n ↦
              let same = ite-no (ℕ_discrete id q) true (id_in q ids) n in
              (
                λ out.
                    ap (λ r. value_of q r.0) step
                    ∙ (rest q).0 (sym same ∙ out)
                    ∙ get-insert ℕ_discrete id q identity_allow_value maps.allow_cgroups
                    ∙ ite-no (ℕ_discrete id q) _ _ n,
                λ inside. (rest q).1 (sym same ∙ inside),
              )
        ]
  ]

-- What a registration that succeeds leaves.
pub record Registered (ids : List ℕ) (s m : State) : Type 0 where
  pub consistent : IsConsistent m.table
  pub maps : m.maps ≡ s.maps
  pub missing :
      (q : ℕ) → entry_of q m.table ≡ none → (entry_of q s.table ≡ none) × (id_in q ids ≡ false)

abbrev pub Succeeds : ℕ → State → State × Result SeedError SideEntry → Type 0
Succeeds id s r = (entry : SideEntry) → r.1 ≡ ok entry → Registered (id ∷ []) s r.0

fails : (id : ℕ) (s m : State) (e : SeedError) → Succeeds id s (m, err e)
fails id s m e entry h = absurd (cc h)

send_watch-Succeeds :
    (open_worker : Bool) (id : ℕ) (s m : State) (path : Bytes) (e : SideEntry)
    → Registered (id ∷ []) s m
    → Succeeds id s (send_watch open_worker path e m)
send_watch-Succeeds false id s m path e done = fails id s m worker_closed
send_watch-Succeeds true id s m path e done =
    λ entry h. record { consistent = done.consistent; maps = done.maps; missing = done.missing }

-- Once the entry is in the table, a success has only to queue the watch.
after_seed_insert-Succeeds :
    (open_worker : Bool) (id : ℕ) (s m : State) (path : Bytes) (e : SideEntry)
    (outcome : InsertOutcome)
    → (outcome ≢ rejected_full → Registered (id ∷ []) s m)
    → Succeeds id s (after_seed_insert open_worker id path e outcome m)
after_seed_insert-Succeeds w id s m path e rejected_full done = fails id s m (table_full id)
after_seed_insert-Succeeds w id s m path e inserted done =
    send_watch-Succeeds w id s m path e (done (λ h. absurd (cc h)))
after_seed_insert-Succeeds w id s m path e replaced done =
    send_watch-Succeeds w id s m path e (done (λ h. absurd (cc h)))

-- The entry of an id that was not refused.
inserted-Registered :
    (id : ℕ) (e : SideEntry) (s : State)
    → IsConsistent s.table
    → (insert_entry id e s.table).1 ≢ rejected_full
    → Registered (id ∷ []) s (record s { table = (insert_entry id e s.table).0 })
inserted-Registered id e s good went =
    let (good', either) = insert_entry-IsConsistent id e s.table good in
    elim either [
      | inl (same, _) ↦ absurd (went (ap (λ r. r.1) same))
      | inr entries ↦ record {
        consistent = good';
        maps = refl;
        missing = λ q gone. elim (ℕ_discrete id q) [
          | yes i ↦ absurd (cc (sym (ite-yes (ℕ_discrete id q) _ _ i) ∙ sym (entries q) ∙ gone))
          | no n ↦ (
            sym (entries q ∙ ite-no (ℕ_discrete id q) _ _ n) ∙ gone,
            ite-no (ℕ_discrete id q) _ _ n,
          )
        ];
      }
    ]

module _ (path_for_cgroup_id : ℕ → Option Bytes) (open_worker : Bool) (env : Env) where
  pub register_seeded_cgroup-Succeeds :
      (id : ℕ) (s : State)
      → IsConsistent s.table
      → Succeeds id s (register_seeded_cgroup path_for_cgroup_id open_worker env id s)
  unfolding register_seeded_cgroup
  register_seeded_cgroup-Succeeds id s good = elim (Option-cases (path_for_cgroup_id id)) [
    | inl no_path ↦ rw (register_seeded_cgroup, no_path) (fails id s s (no_cgroup id))
    | inr (path, is) ↦ elim (Option-cases (env.inode_of_path path)) [
      | inl no_inode ↦ rw (register_seeded_cgroup, is) (rw no_inode (fails id s s (no_cgroup id)))
      | inr (inode, its) ↦ elim (Bool-cases (inode == id)) [
        | inr other ↦
            rw (register_seeded_cgroup, is) (rw its (rw other (fails id s s (other_inode id))))
        | inl same ↦
            rw (register_seeded_cgroup, is)
              (rw its (
                rw same (
                  after_seed_insert-Succeeds open_worker id s _ path (seeded_entry path inode) _
                    (inserted-Registered id (seeded_entry path inode) s good))))
      ]
    ]
  ]
