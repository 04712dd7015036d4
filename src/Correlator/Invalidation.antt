-- ===== src/Correlator/Invalidation.antt =====
-- The kernel's map under a list of deletions.
use mathlib.Core.Logic.{ite}
use neuromesh.Prelude.{
  ℕ, ◌≡◌, ◌∙◌, refl, sym, ap, inl, inr, Bool, true, Option, none, some, List, [], ◌∷◌, ℕ_discrete,
  Bool-cases, ite-ap, ite-cong, ite-join,
}
use neuromesh.Prelude.Result.{ok}
use neuromesh.HashTable.{HashMap, get, get-remove, remove, contains_key, is_some-false}
use neuromesh.IdentityAllow.{IdentityAllowMaps, Update, remove_cgroup, remove_allow_cgroup}
use neuromesh.SideTable.{SideEntry}
use neuromesh.SideTable.Removal.{kept, kept-hit, among}
use neuromesh.Correlator.{apply_invalidations, ids_of}

-- The kernel takes every deletion.
abbrev pub AcceptsRemovals : (Update → Bool) → Type 0
AcceptsRemovals accepts = (id : ℕ) → accepts (remove_cgroup id) ≡ true

abbrev pub value_of : ℕ → IdentityAllowMaps → Option ℕ
value_of q maps = get ℕ_discrete q maps.allow_cgroups

module _ (accepts : Update → Bool) (removes : AcceptsRemovals accepts) where
  remove_allow_cgroup-ok :
      (id : ℕ) (maps : IdentityAllowMaps)
      → ((remove_allow_cgroup accepts id maps).1 ≡ ok tt)
        × ((remove_allow_cgroup accepts id maps).0.exceptions_valid ≡ maps.exceptions_valid)
        × ((q : ℕ)
            → value_of q (remove_allow_cgroup accepts id maps).0
              ≡ ite (ℕ_discrete id q) none (value_of q maps))
  unfolding remove_allow_cgroup
  remove_allow_cgroup-ok id maps =
      elim (Bool-cases (contains_key ℕ_discrete id maps.allow_cgroups)) [
        | inr missing ↦
            let step : remove_allow_cgroup accepts id maps ≡ (maps, ok tt) =
              rw (missing, remove_allow_cgroup) refl in
            let none_there = is_some-false (value_of id maps) missing in
            rw step (
              refl,
              refl,
              λ q. sym (
                  ite-join (ℕ_discrete id q) (λ i. sym none_there ∙ ap (λ x. value_of x maps) i)
                    (λ _. refl)),
            )
        | inl there ↦
            let step : remove_allow_cgroup accepts id maps
                ≡ (record maps { allow_cgroups = remove ℕ_discrete id maps.allow_cgroups }, ok tt) =
              rw (there, removes id, remove_allow_cgroup) refl in
            rw step (refl, refl, λ q. get-remove ℕ_discrete id q maps.allow_cgroups)
      ]

  -- Every listed cgroup loses its key, every other keeps its value, and the flag is untouched.
  pub apply_invalidations-kept :
      (ids : List ℕ) (maps : IdentityAllowMaps)
      → ((apply_invalidations accepts ids maps).1 ≡ ok tt)
        × ((apply_invalidations accepts ids maps).0.exceptions_valid ≡ maps.exceptions_valid)
        × ((q : ℕ)
            → value_of q (apply_invalidations accepts ids maps).0
              ≡ kept (among q ids) (value_of q maps))
  unfolding apply_invalidations
  apply_invalidations-kept [] maps = (refl, refl, λ q. refl)
  apply_invalidations-kept (id ∷ ids) maps =
      let (good, flag, one) = remove_allow_cgroup-ok id maps in
      let maps₁ = (remove_allow_cgroup accepts id maps).0 in
      let (fine, flag', rest) = apply_invalidations-kept ids maps₁ in
      let step : apply_invalidations accepts (id ∷ ids) maps
          ≡ apply_invalidations accepts ids maps₁ =
        rw (good, apply_invalidations) refl in
      rw step (
        fine,
        flag' ∙ flag,
        λ q. rest q ∙ ap (kept (among q ids)) (one q) ∙ kept-hit (ℕ_discrete id q) _ _,
      )

-- Whether there is an entry, as a mark.
abbrev pub mark : {A : Type 0} → Option A → Option (Unit {0})
mark none = none
mark (some a) = some tt

pub among-ids_of :
    (q : ℕ) (removed : HashMap ℕ SideEntry)
    → among q (ids_of removed) ≡ mark (get ℕ_discrete q removed)
unfolding get
among-ids_of q [] = refl
among-ids_of q ((id, e) ∷ removed) =
    ite-cong (ℕ_discrete id q) (λ _. refl) (λ _. among-ids_of q removed)
    ∙ sym (ite-ap mark (ℕ_discrete id q) (some e) (get ℕ_discrete q removed))
