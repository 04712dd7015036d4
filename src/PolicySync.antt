-- ===== src/PolicySync.antt =====
-- apps/agent-ebpf-sensor/src/policy_sync.rs: one round of the policy sync, from the reply of the
-- policy engine to the maps of the kernel program.
-- What lies outside is a parameter: the HTTP reply, the JSON and RFC 3339 readers, the signature
-- check of bytecode_attestation.rs, and which map updates the kernel accepts. A failure keeps what was written
-- before it.
pub mod Temporal
pub mod Verified
pub mod Rounds
pub mod Loop
use neuromesh.Prelude.{
  ℕ, ◌+◌, ◌-◌, ◌*◌, ◌≡◌, Bool, true, false, not, ◌&&◌, ◌||◌, Option, none, some, List, [], ◌∷◌, ltb,
  leb, ◌==◌, min, if◌then◌else◌, is_empty, map,
}
use neuromesh.Prelude.Result.{Result, ok, err, ◌>>=◌, ◌>>◌, bail_if}
use neuromesh.Bytes.{Bytes, bytes_eq}
use neuromesh.Text.{Str, trim, parse_u64}
use neuromesh.DenyEntry.{PathDenyEntry}
use neuromesh.PathDeny.{PathDenyMaps, Write, ApplyError, build_entries, apply_deny_entries}
use neuromesh.IdentityAllow.{
  IdentityAllowMaps, IdentitySectionValidity, fresh, invalid, ParsedPolicyBundle, BundleDoc,
  BundleError, Update, parse_policy_bundle_json_at, apply_identity_validity, invalidate_if_expired,
}

-- The end of the range of `SystemTime`.
abbrev pub time_end : ℕ
time_end = 18446744073709551616000000000

abbrev pub policy_stale_after : ℕ
policy_stale_after = 300000000000

-- `PolicySyncState`, of path_deny.rs. An `Instant` is in nanoseconds.
pub record PolicySyncState : Type 0 where
  pub last_success : ℕ
  pub last_version : Bytes
  pub stale : Bool

unfoldable pub mark_success : Bytes → ℕ → PolicySyncState → PolicySyncState
mark_success version at s = record { last_success = at; last_version = version; stale = false }

unfoldable pub refresh_stale_flag : ℕ → PolicySyncState → PolicySyncState
refresh_stale_flag at s = record s { stale = ltb policy_stale_after (at - s.last_success) }

pub data SyncError : Type 0 where
  empty_bearer_token get_failed authentication_rejected body_unreadable : SyncError
  rate_limited : Option ℕ → SyncError
  http_status : ℕ → SyncError
  signature_missing signature_invalid : SyncError
  bundle_temporal_missing bundle_not_yet_valid bundle_expired : SyncError
  bad_bundle : BundleError → SyncError
  identity_write : Update → SyncError
  deny_list : ApplyError → SyncError

abbrev pub map_err : {E F A : Type 0} → (E → F) → Result E A → Result F A
map_err f (ok a) = ok a
map_err f (err e) = err (f e)

-- `SystemTime::checked_add`.
abbrev pub checked_add : ℕ → ℕ → Option ℕ
checked_add t d = if ltb (t + d) time_end then some (t + d) else none

-- In seconds, at most 300.
unfoldable pub parse_retry_after_secs : Option Str → Option ℕ
parse_retry_after_secs none = none
parse_retry_after_secs (some raw) = elim (parse_u64 (trim raw)) [
  | none ↦ none
  | some secs ↦ some (min secs 300)
]

-- The reply that reqwest hands out: a header that is absent or not visible ASCII is `none`.
pub record Response : Type 0 where
  pub status : ℕ
  pub retry_after : Option Str
  pub signature : Option Str
  pub text : Option Bytes

pub record FetchedBundle : Type 0 where
  pub body : Bytes
  pub signature_b64 : Option Str

abbrev pub non_empty_trim : Option Str → Option Str
non_empty_trim none = none
non_empty_trim (some s) = if is_empty (trim s) then none else some (trim s)

abbrev pub read_body : Response → Result SyncError FetchedBundle
read_body r = elim r.text [
  | none ↦ err body_unreadable
  | some body ↦ ok (record { body = body; signature_b64 = non_empty_trim r.signature })
]

-- `fetch_policy_bundle`, from what `send` returned.
unfoldable pub fetch_policy_bundle : Str → Option Response → Result SyncError FetchedBundle
fetch_policy_bundle bearer_token reply =
    bail_if (is_empty (trim bearer_token)) empty_bearer_token >> elim reply [
      | none ↦ err get_failed
      | some r ↦
          bail_if (r.status == 429) (rate_limited (parse_retry_after_secs r.retry_after))
          >> bail_if (r.status == 401 || r.status == 403) authentication_rejected
          >> bail_if (not (leb 200 r.status && ltb r.status 300)) (http_status r.status)
          >> read_body r
    ]

unfoldable pub verify_bundle_temporal_with_skew :
    ParsedPolicyBundle → ℕ → ℕ → Result SyncError (Unit {0})
verify_bundle_temporal_with_skew parsed now skew =
    bail_if (not (parsed.schema_version == 3)) bundle_temporal_missing >> elim parsed.not_before [
      | none ↦ err bundle_temporal_missing
      | some not_before ↦ elim parsed.not_after [
        | none ↦ err bundle_temporal_missing
        | some not_after ↦ elim (checked_add now skew) [
          | none ↦ err bundle_not_yet_valid
          | some earliest_ok ↦
              bail_if (ltb earliest_ok not_before) bundle_not_yet_valid
              >> elim (checked_add not_after skew) [
                | none ↦ err bundle_expired
                | some latest_ok ↦ bail_if (ltb latest_ok now) bundle_expired
              ]
        ]
      ]
    ]

-- What one round reads and writes. `allowlist` is the cache of the hooks, if there are any.
pub record World : Type 0 where
  pub deny_maps : PathDenyMaps
  pub identity_maps : IdentityAllowMaps
  pub state : PolicySyncState
  pub identity_expires_at : Option ℕ
  pub allowlist : Option (List Bytes)

pub record Env : Type 0 where
  pub accepts_deny : Write → Bool
  pub accepts_identity : Update → Bool
  pub from_str : Bytes → Option BundleDoc
  pub parse_from_rfc3339 : Str → Option ℕ
  -- The key, the message and the signature in base64.
  pub verify_cosign_blob_signature : Bytes → Bytes → Str → Bool
  pub bearer_token : Str
  pub public_key_pem : Bytes
  pub skew : ℕ

-- What one round meets: the reply, and the clocks when they are read.
pub record Round : Type 0 where
  pub reply : Option Response
  pub started_at : ℕ
  pub parsed_at : ℕ
  pub verified_at : ℕ
  pub failed_at : ℕ
  pub instant : ℕ

unfoldable pub verify_bundle_signature : Env → FetchedBundle → Result SyncError (Unit {0})
verify_bundle_signature env f = elim (non_empty_trim f.signature_b64) [
  | none ↦ err signature_missing
  | some sig ↦
      bail_if (not (env.verify_cosign_blob_signature env.public_key_pem f.body sig))
        signature_invalid
]

-- The part of `sync_once` before the first write.
unfoldable pub fetch_and_verify : Env → Round → Result SyncError ParsedPolicyBundle
fetch_and_verify env round = fetch_policy_bundle env.bearer_token round.reply >>= λ fetched.
    verify_bundle_signature env fetched
    >> (map_err bad_bundle (
          parse_policy_bundle_json_at env.from_str env.parse_from_rfc3339 fetched.body
            round.parsed_at)
        >>= λ parsed.
            verify_bundle_temporal_with_skew parsed round.verified_at env.skew >> ok parsed)

abbrev pub expiry_of : IdentitySectionValidity → Option ℕ
expiry_of (fresh s) = some s.expires_at
expiry_of (invalid _) = none

abbrev pub allowlist_of : IdentitySectionValidity → List Bytes
allowlist_of (fresh s) = s.spiffe_ids
allowlist_of (invalid _) = []

-- `hooks.allowlist` is replaced, or cleared.
abbrev pub refresh_allowlist : IdentitySectionValidity → Option (List Bytes) → Option (List Bytes)
refresh_allowlist identity none = none
refresh_allowlist identity (some _) = some (allowlist_of identity)

-- The part of `sync_once` that writes the deny list.
unfoldable pub apply_deny :
    Env → Round → ParsedPolicyBundle → World → World × Result SyncError IdentitySectionValidity
apply_deny env round parsed w =
    if bytes_eq parsed.version w.state.last_version
    then (
      record w { state = mark_success parsed.version round.instant w.state },
      ok parsed.identity,
    )
    else elim (build_entries parsed.deny_path_prefixes) [
      | err x ↦ (w, err (deny_list x))
      | ok entries ↦
          let (deny', r) = apply_deny_entries env.accepts_deny entries w.deny_maps in
          elim r [
            | err x ↦ (record w { deny_maps = deny' }, err (deny_list x))
            | ok _ ↦ (
              record w {
                deny_maps = deny';
                state = mark_success parsed.version round.instant w.state;
              },
              ok parsed.identity,
            )
          ]
    ]

-- The part of `sync_once` behind the checks.
unfoldable pub apply_bundle :
    Env → Round → ParsedPolicyBundle → World → World × Result SyncError IdentitySectionValidity
apply_bundle env round parsed w =
    let (maps', r) = apply_identity_validity env.accepts_identity parsed.identity w.identity_maps in
    elim r [
      | err u ↦ (record w { identity_maps = maps' }, err (identity_write u))
      | ok _ ↦ apply_deny env round parsed (record w {
        identity_maps = maps';
        identity_expires_at = expiry_of parsed.identity;
        allowlist = refresh_allowlist parsed.identity w.allowlist;
      })
    ]

unfoldable pub sync_once : Env → Round → World → World × Result SyncError IdentitySectionValidity
sync_once env round w = elim (fetch_and_verify env round) [
  | err e ↦ (w, err e)
  | ok parsed ↦ apply_bundle env round parsed w
]

-- The time-to-live check, whose own failure is ignored.
unfoldable pub expire : Env → ℕ → World → World
expire env now w = record w {
  identity_maps =
      (invalidate_if_expired env.accepts_identity w.identity_expires_at now w.identity_maps).0;
}

-- One tick of the loop of `spawn_policy_sync`.
unfoldable pub tick : Env → Round → World → World × Option IdentitySectionValidity
tick env round w =
    let (w', r) = sync_once env round (expire env round.started_at w) in
    elim r [
      | ok identity ↦ (w', some identity)
      | err _ ↦ (
        expire env round.failed_at
            (record w' { state = refresh_stale_flag round.instant w'.state }),
        none,
      )
    ]
