-- ===== src/PolicySync/Loop.antt =====
-- What a tick of the sync loop keeps, whatever the engine answers and the kernel refuses: the deny
-- list is not empty, and identity exceptions do not outlive their bundle.
use mathlib.Core.Path.{subst}
use neuromesh.Prelude.{
  ℕ, ◌<◌, ◌≡◌, ◌∙◌, refl, sym, ap, ◌⊎◌, inl, inr, true, false, Option, none, some, List, length,
  Bool-cases,
}
use neuromesh.Prelude.Result.{ok, err, Result-cases, pair-first, pair-second}
use neuromesh.Bytes.{bytes_eq}
use neuromesh.DenyEntry.{PathDenyEntry, path_deny_max_entries}
use neuromesh.PathDeny.{build_entries, apply_deny_entries}
use neuromesh.PathDeny.Refresh.{IsArmed, apply_deny_entries-IsArmed}
use neuromesh.PathDeny.Armed.{DeniesSome, IsArmed-DeniesSome}
use neuromesh.IdentityAllow.{
  ParsedPolicyBundle, IdentitySectionValidity, IdentityAllowMaps, fresh, invalid, write_valid,
  identity_exceptions_valid_stale, apply_identity_validity, IdentityAllowSection,
}
use neuromesh.IdentityAllow.Validity.{
  HasFlag, IsEnabled, invalidate_if_expired-IsEnabled, set_exceptions_valid-cases, with_flag,
  with_flag-IsEnabled,
}
use neuromesh.IdentityAllow.Bundle.{parse_policy_bundle_json_at-IsUsable}
use neuromesh.PolicySync.{
  Env, Round, World, SyncError, sync_once, apply_bundle, apply_deny, fetch_and_verify, tick, expire,
  refresh_stale_flag, identity_write, expiry_of, refresh_allowlist,
}
use neuromesh.PolicySync.Verified.{Verified, fetch_and_verify-Verified}

-- What `apply_deny` may do: it leaves the identity side alone, and touches the deny maps only through
-- `apply_deny_entries`.
record Touches (env : Env) (w w' : World) : Type 0 where
  same_identity : w'.identity_maps ≡ w.identity_maps
  same_expiry : w'.identity_expires_at ≡ w.identity_expires_at
  deny :
      (w'.deny_maps ≡ w.deny_maps)
      ⊎ ((es : List PathDenyEntry) × (w'.deny_maps
            ≡ (apply_deny_entries env.accepts_deny es w.deny_maps).0))

apply_deny-Touches :
    (env : Env) (round : Round) (p : ParsedPolicyBundle) (w : World)
    → Touches env w (apply_deny env round p w).0
unfolding apply_deny
apply_deny-Touches env round p w = elim (Bool-cases (bytes_eq p.version w.state.last_version)) [
  | inl known ↦
      rw (known, apply_deny) (record { same_identity = refl; same_expiry = refl; deny = inl refl })
  | inr other ↦ elim (Result-cases (build_entries p.deny_path_prefixes)) [
    | inr (x, bad) ↦
        rw (other, bad, apply_deny)
          (record { same_identity = refl; same_expiry = refl; deny = inl refl })
    | inl (es, built) ↦ elim (Result-cases (apply_deny_entries env.accepts_deny es w.deny_maps).1) [
      | inr (x, bad) ↦
          rw (other, built, bad, apply_deny)
            (record { same_identity = refl; same_expiry = refl; deny = inr (es, refl) })
      | inl (_, good) ↦
          rw (other, built, good, apply_deny)
            (record { same_identity = refl; same_expiry = refl; deny = inr (es, refl) })
    ]
  ]
]

-- The three ways through `sync_once`.
record Applied (env : Env) (round : Round) (w : World) : Type 0 where
  bundle : ParsedPolicyBundle
  verified : Verified env round bundle
  wrote : (apply_identity_validity env.accepts_identity bundle.identity w.identity_maps).1 ≡ ok tt
  before : World
  is_before : before ≡ record w {
    identity_maps =
        (apply_identity_validity env.accepts_identity bundle.identity w.identity_maps).0;
    identity_expires_at = expiry_of bundle.identity;
    allowlist = refresh_allowlist bundle.identity w.allowlist;
  }
  is : sync_once env round w ≡ apply_deny env round bundle before

record Refused (env : Env) (round : Round) (w : World) : Type 0 where
  identity : IdentitySectionValidity
  error : SyncError
  is : sync_once env round w ≡ (
    record w {
      identity_maps = (apply_identity_validity env.accepts_identity identity w.identity_maps).0;
    },
    err error,
  )

sync_once-cases :
    (env : Env) (round : Round) (w : World)
    → ((e : SyncError) × (sync_once env round w ≡ (w, err e)))
      ⊎ (Refused env round w ⊎ Applied env round w)
unfolding sync_once apply_bundle
sync_once-cases env round w = elim (Result-cases (fetch_and_verify env round)) [
  | inr (e, bad) ↦ inl (e, rw (bad, sync_once) refl)
  | inl (p, good) ↦
      elim (Result-cases
        (apply_identity_validity env.accepts_identity p.identity w.identity_maps).1) [
          | inr (u, failed) ↦ inr (
              inl (record {
                identity = p.identity;
                error = identity_write u;
                is = rw (good, failed, sync_once, apply_bundle) refl;
              }))
          | inl (_, wrote) ↦ inr (
              inr (record {
                bundle = p;
                verified = fetch_and_verify-Verified env round p good;
                wrote = wrote;
                before = _;
                is_before = refl;
                is = rw (good, wrote, sync_once, apply_bundle) refl;
              }))
        ]
]

-- The deny maps after a round: as they were, or as `apply_deny_entries` leaves them.
sync_once-deny_maps :
    (env : Env) (round : Round) (w : World)
    → ((sync_once env round w).0.deny_maps ≡ w.deny_maps)
      ⊎ ((es : List PathDenyEntry) × ((sync_once env round w).0.deny_maps
            ≡ (apply_deny_entries env.accepts_deny es w.deny_maps).0))
sync_once-deny_maps env round w = elim (sync_once-cases env round w) [
  | inl (e, same) ↦ inl (ap (λ r. r.deny_maps) (pair-first same))
  | inr (inl refused) ↦ inl (ap (λ r. r.deny_maps) (pair-first refused.is))
  | inr (inr applied) ↦
      let first = ap (λ r. r.deny_maps) (pair-first applied.is) in
      let was = ap (λ (r : World). r.deny_maps) applied.is_before in
      elim (apply_deny-Touches env round applied.bundle applied.before).deny [
        | inl same ↦ inl (first ∙ same ∙ was)
        | inr (es, same) ↦
            inr (es, first ∙ same ∙ ap (λ d. (apply_deny_entries env.accepts_deny es d).0) was)
      ]
]

expire-deny_maps : (env : Env) (now : ℕ) (w : World) → (expire env now w).deny_maps ≡ w.deny_maps
unfolding expire
expire-deny_maps env now w = refl

tick-deny_maps :
    (env : Env) (round : Round) (w : World)
    → ((tick env round w).0.deny_maps ≡ w.deny_maps)
      ⊎ ((es : List PathDenyEntry) × ((tick env round w).0.deny_maps
            ≡ (apply_deny_entries env.accepts_deny es w.deny_maps).0))
unfolding tick expire
tick-deny_maps env round w =
    let w₁ = expire env round.started_at w in
    let synced = sync_once-deny_maps env round w₁ in
    elim (Result-cases (sync_once env round w₁).1) [
      | inl (v, good) ↦
          let step : (tick env round w).0.deny_maps ≡ (sync_once env round w₁).0.deny_maps =
            rw (good, tick) refl in
          rw step synced
      | inr (e, bad) ↦
          let step : (tick env round w).0.deny_maps ≡ (sync_once env round w₁).0.deny_maps =
            rw (bad, tick) refl in
          rw step synced
    ]

tick-keeps_IsArmed :
    (env : Env) (round : Round) (w : World)
    → length w.deny_maps.list ≡ path_deny_max_entries
    → IsArmed w.deny_maps
    → IsArmed (tick env round w).0.deny_maps
tick-keeps_IsArmed env round w size armed = elim (tick-deny_maps env round w) [
  | inl same ↦ subst IsArmed (sym same) armed
  | inr (es, same) ↦
      subst IsArmed (sym same)
        (apply_deny_entries-IsArmed env.accepts_deny es w.deny_maps size armed)
]

-- If the deny list has its 64 slots, the count covers the first one, and this one holds an entry
-- of a usable length: after a tick that is so again and the active entries deny some path,
-- whatever the engine answers and wherever the kernel refuses an update.
pub tick-IsArmed :
    (env : Env) (round : Round) (w : World)
    → length w.deny_maps.list ≡ path_deny_max_entries
    → IsArmed w.deny_maps
    → IsArmed (tick env round w).0.deny_maps × DeniesSome (tick env round w).0.deny_maps
tick-IsArmed env round w size armed =
    let still = tick-keeps_IsArmed env round w size armed in
    (still, IsArmed-DeniesSome (tick env round w).0.deny_maps still)

-- Enabled exceptions have an expiry that lies behind a time.
abbrev pub IsCovered : ℕ → World → Type 0
IsCovered now w =
    IsEnabled w.identity_maps → (exp : ℕ) × (w.identity_expires_at ≡ some exp) × (now < exp)

expire-IsCovered :
    (env : Env) (now : ℕ) (w : World)
    → HasFlag w.identity_maps
    → env.accepts_identity (write_valid identity_exceptions_valid_stale) ≡ true
    → HasFlag (expire env now w).identity_maps × IsCovered now (expire env now w)
unfolding expire
expire-IsCovered env now w size taken =
    let (size', _, covered) =
      invalidate_if_expired-IsEnabled env.accepts_identity w.identity_expires_at now w.identity_maps
        size taken in
    (size', covered)

validity-HasFlag :
    (env : Env) (v : IdentitySectionValidity) (maps : IdentityAllowMaps)
    → HasFlag maps
    → HasFlag (apply_identity_validity env.accepts_identity v maps).0
unfolding apply_identity_validity
validity-HasFlag env (fresh s) maps size =
    elim (set_exceptions_valid-cases env.accepts_identity true maps size) [
      | inl wrote ↦ rw wrote refl
      | inr (failed, _) ↦ rw failed size
    ]
validity-HasFlag env (invalid x) maps size =
    elim (set_exceptions_valid-cases env.accepts_identity false maps size) [
      | inl wrote ↦ rw wrote refl
      | inr (failed, _) ↦ rw failed size
    ]

-- A validity that was written and left exceptions enabled is fresh.
validity-fresh :
    (env : Env) (v : IdentitySectionValidity) (maps : IdentityAllowMaps)
    → HasFlag maps
    → (apply_identity_validity env.accepts_identity v maps).1 ≡ ok tt
    → IsEnabled (apply_identity_validity env.accepts_identity v maps).0
    → (s : IdentityAllowSection) × (v ≡ fresh s)
unfolding apply_identity_validity
validity-fresh env (fresh s) maps size wrote enabled = (s, refl)
validity-fresh env (invalid x) maps size wrote enabled =
    elim (set_exceptions_valid-cases env.accepts_identity false maps size) [
      | inl done ↦
          let off : IsEnabled (with_flag false maps) = subst IsEnabled (pair-first done) enabled in
          absurd (cc (with_flag-IsEnabled false maps off))
      | inr (failed, _) ↦ absurd (cc (sym wrote ∙ pair-second failed))
    ]

sync_once-HasFlag :
    (env : Env) (round : Round) (w : World)
    → HasFlag w.identity_maps
    → HasFlag (sync_once env round w).0.identity_maps
sync_once-HasFlag env round w size = elim (sync_once-cases env round w) [
  | inl (e, same) ↦ subst HasFlag (sym (ap (λ r. r.identity_maps) (pair-first same))) size
  | inr (inl refused) ↦
      subst HasFlag (sym (ap (λ r. r.identity_maps) (pair-first refused.is)))
        (validity-HasFlag env refused.identity w.identity_maps size)
  | inr (inr applied) ↦
      subst HasFlag
        (sym (
          ap (λ r. r.identity_maps) (pair-first applied.is)
          ∙ (apply_deny-Touches env round applied.bundle applied.before).same_identity
          ∙ ap (λ (r : World). r.identity_maps) applied.is_before))
        (validity-HasFlag env applied.bundle.identity w.identity_maps size)
]

sync_once-IsCovered :
    (env : Env) (round : Round) (w : World) (v : IdentitySectionValidity)
    → HasFlag w.identity_maps
    → (sync_once env round w).1 ≡ ok v
    → IsCovered round.parsed_at (sync_once env round w).0
sync_once-IsCovered env round w v size good enabled = elim (sync_once-cases env round w) [
  | inl (e, same) ↦ absurd (cc (sym (pair-second same) ∙ good))
  | inr (inl refused) ↦ absurd (cc (sym (pair-second refused.is) ∙ good))
  | inr (inr applied) ↦
      let touched = apply_deny-Touches env round applied.bundle applied.before in
      let maps_are =
        ap (λ r. r.identity_maps) (pair-first applied.is)
        ∙ touched.same_identity
        ∙ ap (λ (r : World). r.identity_maps) applied.is_before in
      let expiry_is =
        ap (λ r. r.identity_expires_at) (pair-first applied.is)
        ∙ touched.same_expiry
        ∙ ap (λ (r : World). r.identity_expires_at) applied.is_before in
      let (s, is_fresh) =
        validity-fresh env applied.bundle.identity w.identity_maps size applied.wrote
          (subst IsEnabled maps_are enabled) in
      let usable =
        parse_policy_bundle_json_at-IsUsable env.from_str env.parse_from_rfc3339 _ _ _
          applied.verified.parses in
      let (_, _, alive) = usable.identity s is_fresh in
      (s.expires_at, expiry_is ∙ ap expiry_of is_fresh, alive)
]

-- When the time to live was last checked in a tick: while parsing, or after the failure.
abbrev pub checked_at : Round → Option IdentitySectionValidity → ℕ
checked_at round none = round.failed_at
checked_at round (some _) = round.parsed_at

-- If the flag's array has its slot and the kernel takes the write of the stale flag: after a tick,
-- identity exceptions are enabled only if an expiry is known that had not passed when the tick
-- checked it last.
pub tick-IsCovered :
    (env : Env) (round : Round) (w : World)
    → HasFlag w.identity_maps
    → env.accepts_identity (write_valid identity_exceptions_valid_stale) ≡ true
    → HasFlag (tick env round w).0.identity_maps
      × IsCovered (checked_at round (tick env round w).1) (tick env round w).0
unfolding tick
tick-IsCovered env round w size taken =
    let w₁ = expire env round.started_at w in
    let (size₁, _) = expire-IsCovered env round.started_at w size taken in
    let size₂ = sync_once-HasFlag env round w₁ size₁ in
    elim (Result-cases (sync_once env round w₁).1) [
      | inl (v, good) ↦
          let step : tick env round w ≡ ((sync_once env round w₁).0, some v) =
            rw (good, tick) refl in
          rw step (size₂, sync_once-IsCovered env round w₁ v size₁ good)
      | inr (e, bad) ↦
          let w₂ : World = record (sync_once env round w₁).0 {
            state = refresh_stale_flag round.instant (sync_once env round w₁).0.state;
          } in
          let step : tick env round w ≡ (expire env round.failed_at w₂, none) =
            rw (bad, tick) refl in
          rw step (expire-IsCovered env round.failed_at w₂ size₂ taken)
    ]
