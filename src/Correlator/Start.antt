-- ===== src/Correlator/Start.antt =====
-- apps/agent-ebpf-sensor/src/startup.rs: the manual seeds at a start, first in the kernel's map, then
-- in the side table. What the other tasks do in between is left out.
use mathlib.Core.Path.{subst}
use neuromesh.Text.{Str, trim}
use neuromesh.Prelude.{
  ℕ, ◌≡◌, refl, sym, ◌∙◌, ap, inl, inr, Bool, true, false, Option, none, some, List, [], ◌∷◌,
  is_empty, ℕ_discrete, Bool-cases, Option-cases, ite-yes, ite-no,
}
use neuromesh.Prelude.Result.{Result, ok, err, Result-cases}
use neuromesh.Bytes.{Bytes}
use neuromesh.HashTable.{is_some}
use neuromesh.IdentityAllow.{IdentityAllowMaps, Update}
use neuromesh.SideTable.{SideEntry, entry_of}
use neuromesh.SideTable.Invariant.{IsConsistent}
use neuromesh.Correlator.{Env, State}
use neuromesh.Correlator.Invalidation.{value_of}
use neuromesh.Correlator.Sound.{IsSound}
use neuromesh.Correlator.Seeds.{
  SeedError, seed_each, register_seeded_cgroup, register_manual_seed_ids, seed_parsed,
  parse_manual_cgroup_ids, apply_manual_cgroup_seeds_from_env, arm_manual_seeds,
}
use neuromesh.Correlator.Seeded.{
  id_in, Seeded, seed_each-Seeded, Registered, register_seeded_cgroup-Succeeds,
}

ok-injective : {E A : Type 0} (a b : A) → ◌≡◌ {A = Result E A} (ok a) (ok b) → a ≡ b
ok-injective a b h = cc h

-- Seeding that succeeds.
module _ (accepts : Update → Bool) where
  abbrev Seeds : IdentityAllowMaps → IdentityAllowMaps × Result SeedError (List ℕ) → Type 0
  Seeds maps r = (ids : List ℕ) → r.1 ≡ ok ids → Seeded accepts ids maps r.0

  Seeds-nothing : (maps : IdentityAllowMaps) → Seeds maps (maps, ok [])
  Seeds-nothing maps ids h = λ q.
      let empty : ids ≡ [] = ok-injective ids [] (sym h) in
      (λ _. refl, λ inside. absurd (cc (sym inside ∙ ap (id_in q) empty)))

  seed_parsed-Seeds :
      (parsed : Result SeedError (List ℕ)) (maps : IdentityAllowMaps)
      → Seeds maps (seed_parsed accepts parsed maps)
  unfolding seed_parsed
  seed_parsed-Seeds (err e) maps = λ ids h. absurd (cc h)
  seed_parsed-Seeds (ok ids) maps = elim (Result-cases (seed_each accepts ids maps).1) [
    | inr (e, h) ↦ rw (seed_parsed, h) (λ ids' h'. absurd (cc h'))
    | inl (u, h) ↦
        rw (seed_parsed, h)
          (λ ids' h'.
            subst (λ l. Seeded accepts l maps (seed_each accepts ids maps).0)
              (ok-injective ids ids' h') (seed_each-Seeded accepts ids maps h))
  ]

  apply_manual_cgroup_seeds_from_env-Seeds :
      (raw : Option Str) (maps : IdentityAllowMaps)
      → Seeds maps (apply_manual_cgroup_seeds_from_env accepts raw maps)
  unfolding apply_manual_cgroup_seeds_from_env
  apply_manual_cgroup_seeds_from_env-Seeds none maps = Seeds-nothing maps
  apply_manual_cgroup_seeds_from_env-Seeds (some raw) maps =
      elim (Bool-cases (is_empty (trim raw))) [
        | inl blank ↦ rw (apply_manual_cgroup_seeds_from_env, blank) (Seeds-nothing maps)
        | inr given ↦
            rw (apply_manual_cgroup_seeds_from_env, given)
              (seed_parsed-Seeds (parse_manual_cgroup_ids (trim raw)) maps)
      ]

module _ (path_for_cgroup_id : ℕ → Option Bytes) (open_worker : Bool) (env : Env) where
  Registered-cons :
      (id : ℕ) (ids : List ℕ) (s m n : State)
      → Registered (id ∷ []) s m
      → Registered ids m n
      → Registered (id ∷ ids) s n
  Registered-cons id ids s m n first rest = record {
    consistent = rest.consistent;
    maps = rest.maps ∙ first.maps;
    missing = λ q gone.
        let (before, out) = rest.missing q gone in
        let (early, differs) = first.missing q before in
        (
          early,
          elim (ℕ_discrete id q) [
            | yes e ↦ absurd (cc (sym (ite-yes (ℕ_discrete id q) true false e) ∙ differs))
            | no n' ↦ ite-no (ℕ_discrete id q) _ _ n' ∙ out
          ],
        );
  }

  abbrev AllSucceed : List ℕ → State → State × Result SeedError (List SideEntry) → Type 0
  AllSucceed ids s r = (entries : List SideEntry) → r.1 ≡ ok entries → Registered ids s r.0

  abbrev register_one : ℕ → State → State × Result SeedError SideEntry
  register_one id s = register_seeded_cgroup path_for_cgroup_id open_worker env id s

  abbrev register_ids : List ℕ → State → State × Result SeedError (List SideEntry)
  register_ids ids s = register_manual_seed_ids path_for_cgroup_id open_worker env ids s

  register_manual_seed_ids-AllSucceed :
      (ids : List ℕ) (s : State) → IsConsistent s.table → AllSucceed ids s (register_ids ids s)
  unfolding register_manual_seed_ids
  register_manual_seed_ids-AllSucceed [] s good =
      λ _ _. record { consistent = good; maps = refl; missing = λ q gone. (gone, refl) }
  register_manual_seed_ids-AllSucceed (id ∷ ids) s good =
      elim (Result-cases (register_one id s).1) [
        | inr (e, h) ↦ rw (register_manual_seed_ids, h) (λ entries h'. absurd (cc h'))
        | inl (entry, h) ↦
            let first =
              register_seeded_cgroup-Succeeds path_for_cgroup_id open_worker env id s good entry
                h in
            let rest =
              register_manual_seed_ids-AllSucceed ids (register_one id s).0 first.consistent in
            elim (Result-cases (register_ids ids (register_one id s).0).1) [
              | inr (e, h') ↦
                  rw (register_manual_seed_ids, h) (rw h' (λ entries h''. absurd (cc h'')))
              | inl (es, h') ↦
                  rw (register_manual_seed_ids, h)
                    (rw h'
                      (λ _ _. Registered-cons id ids s (register_one id s).0 _ first (rest es h')))
            ]
      ]

  -- The kernel's map after the variable was applied.
  abbrev start_seeds : Option Str → State → IdentityAllowMaps × Result SeedError (List ℕ)
  start_seeds raw s = apply_manual_cgroup_seeds_from_env env.accepts raw s.maps

  registered-IsSound :
      (raw : Option Str) (s : State) (ids : List ℕ) (entries : List SideEntry)
      → IsSound env s
      → (start_seeds raw s).1 ≡ ok ids
      → (register_ids ids (record s { maps = (start_seeds raw s).0 })).1 ≡ ok entries
      → IsSound env (register_ids ids (record s { maps = (start_seeds raw s).0 })).0
        × ((q : ℕ)
            → id_in q ids ≡ true
            → is_some
                (entry_of q (register_ids ids (record s { maps = (start_seeds raw s).0 })).0.table)
              ≡ true)
  registered-IsSound raw s ids entries sound applied done =
      let m : State = record s { maps = (start_seeds raw s).0 } in
      let n : State = (register_ids ids m).0 in
      let seeded = apply_manual_cgroup_seeds_from_env-Seeds env.accepts raw s.maps ids applied in
      let registered = register_manual_seed_ids-AllSucceed ids m sound.consistent entries done in
      (
        record {
          consistent = registered.consistent;
          tracked = λ q in_q gone.
              let (before, out) = registered.missing q gone in
              ap (value_of q) registered.maps ∙ (seeded q).0 out ∙ sound.tracked q in_q before;
          insertable = λ q in_q refused.
              ap (value_of q) registered.maps ∙ elim (Bool-cases (id_in q ids)) [
                | inl inside ↦ absurd (cc (sym ((seeded q).1 inside) ∙ refused))
                | inr out ↦ (seeded q).0 out ∙ sound.insertable q in_q refused
              ];
        },
        λ q inside. elim (Option-cases (entry_of q n.table)) [
          | inl gone ↦ absurd (cc (sym inside ∙ (registered.missing q gone).1))
          | inr (e, there) ↦ rw there refl
        ],
      )

  armed_err :
      (raw : Option Str) (s : State) (e : SeedError)
      → (start_seeds raw s).1 ≡ err e
      → arm_manual_seeds path_for_cgroup_id open_worker env raw s
        ≡ (record s { maps = (start_seeds raw s).0 }, err e)
  unfolding arm_manual_seeds
  armed_err raw s e h = rw (arm_manual_seeds, h) refl

  armed_ok :
      (raw : Option Str) (s : State) (ids : List ℕ)
      → (start_seeds raw s).1 ≡ ok ids
      → arm_manual_seeds path_for_cgroup_id open_worker env raw s
        ≡ register_ids ids (record s { maps = (start_seeds raw s).0 })
  unfolding arm_manual_seeds
  armed_ok raw s ids h = rw (arm_manual_seeds, h) refl

  -- From a sound state, a start with manual seeds that succeeds ends in a sound state: the side
  -- table is consistent and every cgroup in the kernel's map has an entry in it; and each id that
  -- was read from the variable has an entry.
  pub arm_manual_seeds-IsSound :
      (raw : Option Str) (s : State) (entries : List SideEntry)
      → IsSound env s
      → (arm_manual_seeds path_for_cgroup_id open_worker env raw s).1 ≡ ok entries
      → IsSound env (arm_manual_seeds path_for_cgroup_id open_worker env raw s).0
        × ((ids : List ℕ) (q : ℕ)
            → (apply_manual_cgroup_seeds_from_env env.accepts raw s.maps).1 ≡ ok ids
            → id_in q ids ≡ true
            → is_some
                (entry_of q (arm_manual_seeds path_for_cgroup_id open_worker env raw s).0.table)
              ≡ true)
  unfolding arm_manual_seeds
  arm_manual_seeds-IsSound raw s entries sound done = elim (Result-cases (start_seeds raw s).1) [
    | inr (e, h) ↦ absurd (cc (sym (ap (λ r. r.1) (armed_err raw s e h)) ∙ done))
    | inl (ids, h) ↦
        let step = armed_ok raw s ids h in
        subst
          (λ r.
            IsSound env r.0
            × ((ids' : List ℕ) (q : ℕ)
                → (start_seeds raw s).1 ≡ ok ids'
                → id_in q ids' ≡ true
                → is_some (entry_of q r.0.table) ≡ true))
          (sym step)
          (let (good, present) =
              registered-IsSound raw s ids entries sound h (ap (λ r. r.1) (sym step) ∙ done) in
            (
              good,
              λ ids' q h' inside.
                  present q (ap (id_in q) (ok-injective ids ids' (sym h ∙ h')) ∙ inside),
            ))
  ]
