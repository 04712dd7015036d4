-- ===== src/IdentityAllow/Validity.antt =====
-- When the identity section counts as fresh, and how the flag that the kernel program reads follows
-- it.
use neuromesh.Prelude.{
  ℕ, ◌<◌, ◌≡◌, ◌∙◌, refl, sym, ap, ◌↔◌, ◌⊎◌, inl, inr, Bool, true, false, Option, none, some, List,
  [], ◌∷◌, arith, ltb, leb, leb-false→lt, if◌then◌else◌, length, get_elem?, Bool-cases,
}
use neuromesh.Prelude.Result.{ok, err}
use neuromesh.Bytes.{Bytes, codes, bytes_eq, bytes_eq_iff}
use neuromesh.PathDeny.Apply.{count-set}
use neuromesh.Lsm.Maps.{identity_exceptions_valid_fresh}
use neuromesh.IdentityAllow.{
  IdentityAllowMaps, IdentityAllowSection, fresh, evaluate_identity_section,
  required_scope_path_prefix, identity_exceptions_valid_stale, Update, write_valid,
  set_exceptions_valid, invalidate_if_expired,
}

-- What a fresh section says.
abbrev pub section_of : Bytes → List Bytes → ℕ → ℕ → IdentityAllowSection
section_of scope ids issued expires = record {
  scope_path_prefix = scope;
  spiffe_ids = ids;
  issued_at = issued;
  expires_at = expires;
}

-- A section is fresh exactly if its scope is `/tmp/`, it expires after it was issued, and it has
-- not expired yet; then it is passed on unchanged.
pub evaluate_identity_section_iff :
    (scope : Bytes) (ids : List Bytes) (issued expires now : ℕ) (s : IdentityAllowSection)
    → (evaluate_identity_section scope ids issued expires now ≡ fresh s) ↔ (
        (scope ≡ codes "/tmp/")
        × (issued < expires)
        × (now < expires)
        × (s ≡ section_of scope ids issued expires))
unfolding evaluate_identity_section
evaluate_identity_section_iff scope ids issued expires now s = (
  λ h. elim (Bool-cases (bytes_eq scope required_scope_path_prefix)) [
    | inr other ↦ absurd (ground arith)
    | inl scoped ↦ elim (Bool-cases (leb expires issued)) [
      | inl early ↦ absurd (ground arith)
      | inr late ↦ elim (Bool-cases (leb expires now)) [
        | inl gone ↦ absurd (ground arith)
        | inr alive ↦ (
          (bytes_eq_iff scope required_scope_path_prefix).0 scoped,
          leb-false→lt _ _ late,
          leb-false→lt _ _ alive,
          unwrap (sym h ∙ rw (scoped, late, alive, evaluate_identity_section) refl),
        )
      ]
    ]
  ],
  λ x.
      let (same, long, alive, is) = x in
      let scoped : bytes_eq scope required_scope_path_prefix ≡ true =
        (bytes_eq_iff scope required_scope_path_prefix).1 same in
      let late : leb expires issued ≡ false = ground arith in
      let early : leb expires now ≡ false = ground arith in
      let made : evaluate_identity_section scope ids issued expires now
          ≡ fresh (section_of scope ids issued expires) =
        rw (scoped, late, early, evaluate_identity_section) refl in
      made ∙ ap fresh (sym is),
)
  where
    unwrap : {s s' : IdentityAllowSection} → fresh s ≡ fresh s' → s ≡ s'
    unwrap h = cc h

-- The flag array has its slot.
abbrev pub HasFlag : IdentityAllowMaps → Type 0
HasFlag maps = length maps.exceptions_valid ≡ 1

abbrev pub flag_of : Bool → ℕ
flag_of is_fresh =
    if is_fresh then identity_exceptions_valid_fresh else identity_exceptions_valid_stale

abbrev pub with_flag : Bool → IdentityAllowMaps → IdentityAllowMaps
with_flag b maps = record maps { exceptions_valid = flag_of b ∷ [] }

-- The write succeeds, or leaves the maps as they were.
pub set_exceptions_valid-cases :
    (accepts : Update → Bool) (b : Bool) (maps : IdentityAllowMaps)
    → HasFlag maps
    → (set_exceptions_valid accepts b maps ≡ (with_flag b maps, ok tt))
      ⊎ (set_exceptions_valid accepts b maps ≡ (maps, err (write_valid (flag_of b))))
        × (accepts (write_valid (flag_of b)) ≡ false)
unfolding set_exceptions_valid
set_exceptions_valid-cases accepts b maps size =
    let inside : ltb 0 (length maps.exceptions_valid) ≡ true = rw size refl in
    elim (Bool-cases (accepts (write_valid (flag_of b)))) [
      | inl taken ↦ inl (
          rw (inside, taken, count-set maps.exceptions_valid (flag_of b) size, set_exceptions_valid)
            refl)
      | inr refused ↦ inr (rw (inside, refused, set_exceptions_valid) refl, refused)
    ]

-- The flag says fresh.
abbrev pub IsEnabled : IdentityAllowMaps → Type 0
IsEnabled maps = get_elem? maps.exceptions_valid 0 ≡ some identity_exceptions_valid_fresh

pub with_flag-IsEnabled :
    (b : Bool) (maps : IdentityAllowMaps) → IsEnabled (with_flag b maps) → b ≡ true
with_flag-IsEnabled true maps h = refl
with_flag-IsEnabled false maps h = absurd (ground arith)

-- If the flag's array has its slot and the kernel takes the write of the stale flag: after the
-- time-to-live check exceptions are on only while an expiry is known and lies ahead; the set of
-- cgroups is untouched.
pub invalidate_if_expired-IsEnabled :
    (accepts : Update → Bool) (expires_at : Option ℕ) (now : ℕ) (maps : IdentityAllowMaps)
    → HasFlag maps
    → accepts (write_valid identity_exceptions_valid_stale) ≡ true
    → let after = (invalidate_if_expired accepts expires_at now maps).0 in
      HasFlag after
      × (after.allow_cgroups ≡ maps.allow_cgroups)
      × (IsEnabled after → (exp : ℕ) × (expires_at ≡ some exp) × (now < exp))
unfolding invalidate_if_expired
invalidate_if_expired-IsEnabled accepts none now maps size taken =
    elim (set_exceptions_valid-cases accepts false maps size) [
      | inl wrote ↦ rw wrote (refl, refl, λ h. absurd (ground arith))
      | inr (_, refused) ↦ absurd (cc (taken, refused))
    ]
invalidate_if_expired-IsEnabled accepts (some exp) now maps size taken =
    elim (Bool-cases (leb exp now)) [
      | inr alive ↦ rw alive (size, refl, λ h. (exp, refl, leb-false→lt _ _ alive))
      | inl gone ↦ elim (set_exceptions_valid-cases accepts false maps size) [
        | inl wrote ↦ rw (gone, wrote) (refl, refl, λ h. absurd (ground arith))
        | inr (_, refused) ↦ absurd (cc (taken, refused))
      ]
    ]
