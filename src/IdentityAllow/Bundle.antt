-- ===== src/IdentityAllow/Bundle.antt =====
-- What a parsed bundle guarantees.
use neuromesh.Prelude.{
  ℕ, ◌≤◌, ◌<◌, ◌≡◌, ◌∙◌, refl, ap, inl, inr, Bool, true, false, not, ◌&&◌, ◌||◌, Option, none, some,
  arith, ◌==◌, is_empty, Bool-cases, Option-cases,
}
use mathlib.Core.Path.{subst}
use neuromesh.Prelude.Result.{Result, ok, ◌>>=◌, ◌>>◌, bail_if, >>=-eq-ok}
use neuromesh.Bytes.{Bytes, codes}
use neuromesh.Text.{Str}
use neuromesh.IdentityAllow.{
  IdentityAllowSection, IdentitySectionValidity, fresh, invalid, evaluate_identity_section,
  BundleDoc, IdentityDoc, ParsedPolicyBundle, parse_policy_bundle_json_at, parse_identity,
  parse_bound, parse_rfc3339, bundle_of, no_section_in_schema_1, unreachable_schema,
}
use neuromesh.IdentityAllow.Validity.{evaluate_identity_section_iff}

-- A supported schema, a version, at least one prefix, and a fresh identity section only if it is of
-- schema 2 or 3, for `/tmp/`, and not expired at the time of parsing.
pub record IsUsable (now : ℕ) (p : ParsedPolicyBundle) : Type 0 where
  pub schema : (1 ≤ p.schema_version) × (p.schema_version ≤ 3)
  pub versioned : is_empty p.version ≡ false
  pub denies : is_empty p.deny_path_prefixes ≡ false
  pub identity :
      (s : IdentityAllowSection)
      → p.identity ≡ fresh s
      → (2 ≤ p.schema_version) × (s.scope_path_prefix ≡ codes "/tmp/") × (now < s.expires_at)

pub >>-eq-ok :
    {E B : Type 0} (b : Bool) (e : E) (k : Result E B) {x : B}
    → (bail_if b e >> k) ≡ ok x
    → (b ≡ false) × (k ≡ ok x)
>>-eq-ok true e k h = absurd (cc h)
>>-eq-ok false e k h = (refl, h)

module _ (from_str : Bytes → Option BundleDoc) (rfc3339 : Str → Option ℕ) where
  parse_identity-fresh :
      (schema : ℕ) (section : Option IdentityDoc) (now : ℕ) (s : IdentityAllowSection)
      → parse_identity from_str rfc3339 schema section now ≡ ok (fresh s)
      → (2 ≤ schema) × (s.scope_path_prefix ≡ codes "/tmp/") × (now < s.expires_at)
  unfolding parse_identity
  parse_identity-fresh schema none now s h = absurd (ground arith)
  parse_identity-fresh schema (some ie) now s h = elim (Bool-cases (schema == 2 || schema == 3)) [
    | inr other ↦ elim (Bool-cases (schema == 1)) [
      | inl one ↦
          let h' : ok (invalid no_section_in_schema_1) ≡ ok (fresh s) =
            rw (other, one, parse_identity) at h in
          absurd (cc h')
      | inr odd ↦
          let h' : ok (invalid unreachable_schema) ≡ ok (fresh s) =
            rw (other, odd, parse_identity) at h in
          absurd (cc h')
    ]
    | inl known ↦
        let h' : (parse_rfc3339 from_str rfc3339 ie.issued_at >>= λ issued.
        parse_rfc3339 from_str rfc3339 ie.expires_at >>= λ expires.
        ok (evaluate_identity_section ie.scope_path_prefix ie.spiffe_ids issued expires now))
            ≡ ok (fresh s) =
          rw (known, parse_identity) at h in
        let (issued, _, rest) = >>=-eq-ok (parse_rfc3339 from_str rfc3339 ie.issued_at) _ h' in
        let (expires, _, last) = >>=-eq-ok (parse_rfc3339 from_str rfc3339 ie.expires_at) _ rest in
        let made : evaluate_identity_section ie.scope_path_prefix ie.spiffe_ids issued expires now
            ≡ fresh s =
          cc last in
        let (scoped, _, alive, is) =
          (evaluate_identity_section_iff ie.scope_path_prefix ie.spiffe_ids issued expires now s).0
            made in
        (ground arith, rw is scoped, rw is alive)
  ]

  checked :
      (doc : BundleDoc) (now : ℕ) (p : ParsedPolicyBundle) (not_before not_after : Option ℕ)
      (identity : IdentitySectionValidity)
      → (not (doc.schema_version == 1)
          && not (doc.schema_version == 2)
          && not (doc.schema_version == 3))
        ≡ false
      → is_empty doc.version ≡ false
      → is_empty doc.deny_path_prefixes ≡ false
      → parse_identity from_str rfc3339 doc.schema_version doc.identity_allow_exceptions now
        ≡ ok identity
      → bundle_of doc identity not_before not_after ≡ p
      → IsUsable now p
  checked doc now p not_before not_after identity supported versioned denies section same =
      subst (IsUsable now) same (record {
        schema = ground arith;
        versioned = versioned;
        denies = denies;
        identity = λ s is.
            parse_identity-fresh doc.schema_version doc.identity_allow_exceptions now s
              (section ∙ ap ok is);
      })

  -- A bundle that parses has a schema from 1 to 3, a version and at least one prefix, and a fresh
  -- identity section only with schema 2 or 3, for `/tmp/`, and before its expiry.
  pub parse_policy_bundle_json_at-IsUsable :
      (body : Bytes) (now : ℕ) (p : ParsedPolicyBundle)
      → parse_policy_bundle_json_at from_str rfc3339 body now ≡ ok p
      → IsUsable now p
  unfolding parse_policy_bundle_json_at
  parse_policy_bundle_json_at-IsUsable body now p h = elim (Option-cases (from_str body)) [
    | inl malformed ↦ absurd (cc (malformed, h))
    | inr (doc, decoded) ↦
        let (supported, h₁) = >>-eq-ok _ _ _ (rw (decoded, parse_policy_bundle_json_at) at h) in
        let (versioned, h₂) = >>-eq-ok _ _ _ h₁ in
        let (denies, h₃) = >>-eq-ok _ _ _ h₂ in
        let (not_before, _, h₄) = >>=-eq-ok (parse_bound from_str rfc3339 doc.not_before) _ h₃ in
        let (not_after, _, h₅) = >>=-eq-ok (parse_bound from_str rfc3339 doc.not_after) _ h₄ in
        let (identity, section, made) =
          >>=-eq-ok
            (parse_identity from_str rfc3339 doc.schema_version doc.identity_allow_exceptions now) _
            h₅ in
        checked doc now p not_before not_after identity supported versioned denies section (cc made)
  ]
