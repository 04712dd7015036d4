-- ===== src/IdentityAllow.antt =====
-- apps/agent-ebpf-sensor/src/identity_allow.rs: the identity section of a policy bundle, and the
-- maps that hold the identity exceptions.
-- A `SystemTime` is the nanoseconds since the earliest one that its 64-bit seconds can hold. JSON
-- and RFC 3339 are read by libraries: what they return is a parameter.
pub mod Validity
pub mod Bundle
use neuromesh.Prelude.{
  ℕ, ◌≡◌, Bool, true, false, not, ◌&&◌, ◌||◌, Option, none, some, List, [], ◌∷◌, ltb, leb, ◌==◌,
  if◌then◌else◌, length, is_empty, set, ℕ_discrete,
}
use neuromesh.Prelude.Result.{Result, ok, err, ◌>>=◌, ◌>>◌, bail_if}
use neuromesh.Bytes.{Bytes, codes, bytes_eq}
use neuromesh.Text.{Str, trim}
use neuromesh.HashTable.{HashMap, get, insert, remove, contains_key}
use neuromesh.Lsm.Maps.{
  identity_exception_scope_prefix, identity_allow_value, identity_exceptions_valid_fresh,
}

abbrev pub identity_exceptions_valid_stale : ℕ
identity_exceptions_valid_stale = 0

abbrev pub required_scope_path_prefix : Bytes
required_scope_path_prefix = codes "/tmp/"

pub record IdentityAllowMaps : Type 0 where
  pub allow_cgroups : HashMap ℕ ℕ
  pub exceptions_valid : List ℕ

pub record IdentityAllowSection : Type 0 where
  pub scope_path_prefix : Bytes
  pub spiffe_ids : List Bytes
  pub issued_at : ℕ
  pub expires_at : ℕ

-- The texts of `reason`.
pub data InvalidReason : Type 0 where
  not_required_scope scope_constant_mismatch expires_not_after_issued expired : InvalidReason
  missing_section : ℕ → InvalidReason
  no_section_in_schema_1 unreachable_schema sync_unavailable : InvalidReason

pub data IdentitySectionValidity : Type 0 where
  fresh : IdentityAllowSection → IdentitySectionValidity
  invalid : InvalidReason → IdentitySectionValidity

pub record ParsedPolicyBundle : Type 0 where
  pub schema_version : ℕ
  pub version : Bytes
  pub deny_path_prefixes : List Bytes
  pub identity : IdentitySectionValidity
  pub not_before : Option ℕ
  pub not_after : Option ℕ

unfoldable pub evaluate_identity_section : Bytes → List Bytes → ℕ → ℕ → ℕ → IdentitySectionValidity
evaluate_identity_section scope spiffe_ids issued_at expires_at now =
    if not (bytes_eq scope required_scope_path_prefix)
    then invalid not_required_scope
    else if not (bytes_eq required_scope_path_prefix identity_exception_scope_prefix)
    then invalid scope_constant_mismatch
    else if leb expires_at issued_at
    then invalid expires_not_after_issued
    else if leb expires_at now
    then invalid expired
    else fresh (record {
      scope_path_prefix = scope;
      spiffe_ids = spiffe_ids;
      issued_at = issued_at;
      expires_at = expires_at;
    })

-- The documents that `serde_json` fills.
pub record IdentityDoc : Type 0 where
  pub scope_path_prefix : Bytes
  pub spiffe_ids : List Bytes
  pub issued_at : Str
  pub expires_at : Str

pub record BundleDoc : Type 0 where
  pub schema_version : ℕ
  pub version : Bytes
  pub deny_path_prefixes : List Bytes
  pub identity_allow_exceptions : Option IdentityDoc
  pub not_before : Option Str
  pub not_after : Option Str

abbrev pub bundle_of :
    BundleDoc → IdentitySectionValidity → Option ℕ → Option ℕ → ParsedPolicyBundle
bundle_of doc identity not_before not_after = record {
  schema_version = doc.schema_version;
  version = doc.version;
  deny_path_prefixes = doc.deny_path_prefixes;
  identity = identity;
  not_before = not_before;
  not_after = not_after;
}

pub data BundleError : Type 0 where
  malformed_json missing_version empty_deny_path_prefixes : BundleError
  unsupported_schema : ℕ → BundleError
  invalid_timestamp : Str → BundleError

module _ (from_str : Bytes → Option BundleDoc) (parse_from_rfc3339 : Str → Option ℕ) where
  unfoldable pub parse_rfc3339 : Str → Result BundleError ℕ
  parse_rfc3339 s = elim (parse_from_rfc3339 s) [ none ↦ err (invalid_timestamp s) | some t ↦ ok t ]

  -- `doc.not_before` and `doc.not_after`: trimmed, and absent if nothing is left.
  unfoldable pub parse_bound : Option Str → Result BundleError (Option ℕ)
  parse_bound none = ok none
  parse_bound (some s) =
      if is_empty (trim s) then ok none else (parse_rfc3339 (trim s) >>= λ t. ok (some t))

  unfoldable pub parse_identity :
      ℕ → Option IdentityDoc → ℕ → Result BundleError IdentitySectionValidity
  parse_identity schema section now =
      if schema == 2 || schema == 3
      then elim section [
        | some ie ↦ parse_rfc3339 ie.issued_at >>= λ issued.
            parse_rfc3339 ie.expires_at >>= λ expires.
            ok (evaluate_identity_section ie.scope_path_prefix ie.spiffe_ids issued expires now)
        | none ↦ ok (invalid (missing_section schema))
      ]
      else if schema == 1
      then ok (invalid no_section_in_schema_1)
      else ok (invalid unreachable_schema)

  unfoldable pub parse_policy_bundle_json_at : Bytes → ℕ → Result BundleError ParsedPolicyBundle
  parse_policy_bundle_json_at body now = elim (from_str body) [
    | none ↦ err malformed_json
    | some doc ↦
        bail_if
          (not (doc.schema_version == 1)
            && not (doc.schema_version == 2)
            && not (doc.schema_version == 3))
          (unsupported_schema doc.schema_version)
        >> bail_if (is_empty doc.version) missing_version
        >> bail_if (is_empty doc.deny_path_prefixes) empty_deny_path_prefixes
        >> (parse_bound doc.not_before >>= λ not_before. parse_bound doc.not_after >>= λ not_after.
            parse_identity doc.schema_version doc.identity_allow_exceptions now >>= λ identity.
            ok (bundle_of doc identity not_before not_after))
  ]

-- The updates that the kernel may refuse.
pub data Update : Type 0 where
  write_valid : ℕ → Update
  insert_cgroup : ℕ → Update
  remove_cgroup : ℕ → Update

module _ (accepts : Update → Bool) where
  unfoldable pub set_exceptions_valid :
      Bool → IdentityAllowMaps → IdentityAllowMaps × Result Update (Unit {0})
  set_exceptions_valid is_fresh maps =
      let v =
        if is_fresh then identity_exceptions_valid_fresh else identity_exceptions_valid_stale in
      if ltb 0 (length maps.exceptions_valid) && accepts (write_valid v)
      then (record maps { exceptions_valid = set maps.exceptions_valid 0 v }, ok tt)
      else (maps, err (write_valid v))

  unfoldable pub seed_allow_cgroup :
      ℕ → IdentityAllowMaps → IdentityAllowMaps × Result Update (Unit {0})
  seed_allow_cgroup cgroup_id maps =
      if accepts (insert_cgroup cgroup_id)
      then (
        record maps {
          allow_cgroups = insert ℕ_discrete cgroup_id identity_allow_value maps.allow_cgroups;
        },
        ok tt,
      )
      else (maps, err (insert_cgroup cgroup_id))

  -- A missing key is no error.
  unfoldable pub remove_allow_cgroup :
      ℕ → IdentityAllowMaps → IdentityAllowMaps × Result Update (Unit {0})
  remove_allow_cgroup cgroup_id maps =
      if not (contains_key ℕ_discrete cgroup_id maps.allow_cgroups)
      then (maps, ok tt)
      else if accepts (remove_cgroup cgroup_id)
      then (record maps { allow_cgroups = remove ℕ_discrete cgroup_id maps.allow_cgroups }, ok tt)
      else (maps, err (remove_cgroup cgroup_id))

  unfoldable pub apply_identity_validity :
      IdentitySectionValidity → IdentityAllowMaps → IdentityAllowMaps × Result Update (Unit {0})
  apply_identity_validity (fresh s) maps = set_exceptions_valid true maps
  apply_identity_validity (invalid reason) maps = set_exceptions_valid false maps

  -- The answer `true` says that the exceptions were invalidated.
  unfoldable pub invalidate_if_expired :
      Option ℕ → ℕ → IdentityAllowMaps → IdentityAllowMaps × Result Update Bool
  invalidate_if_expired expires_at now maps =
      let (maps', r) = set_exceptions_valid false maps in
      let invalidated : IdentityAllowMaps × Result Update Bool = (maps', r >>= λ _. ok true) in
      elim expires_at [
        | none ↦ invalidated
        | some exp ↦ if leb exp now then invalidated else (maps, ok false)
      ]
