-- ===== src/Tests/Sync.antt =====
-- One round of the policy sync.
use neuromesh.Prelude.{◌≡◌, refl, ◌↔◌, ◌⊎◌, Bool, false, none, some, [], ◌∷◌, replicate, arith}
use neuromesh.Prelude.Result.{ok, err}
use neuromesh.Bytes.{Bytes, codes, bytes_eq}
use neuromesh.Text.{Str, trim}
use neuromesh.DenyEntry.{from_prefix, empty_entry}
use neuromesh.PathDeny.{
  build_entries, apply_deny_entries, write_slots, set_slot, set_count, clear_slots,
}
use neuromesh.PathDeny.Refresh.{IsArmed}
use neuromesh.PathDeny.Armed.{DeniesSome}
use neuromesh.IdentityAllow.{
  parse_policy_bundle_json_at, parse_bound, parse_identity, parse_rfc3339,
  evaluate_identity_section, apply_identity_validity, set_exceptions_valid, ParsedPolicyBundle,
}
use neuromesh.IdentityAllow.Validity.{HasFlag}
use neuromesh.PolicySync.{
  Env, Round, World, SyncError, sync_once, fetch_and_verify, fetch_policy_bundle,
  verify_bundle_signature, verify_bundle_temporal_with_skew, apply_bundle, apply_deny, tick,
}
use neuromesh.PolicySync.Temporal.{IsTimely, verify_bundle_temporal_with_skew_iff}
use neuromesh.PolicySync.Verified.{Verified, sync_once-Verified}
use neuromesh.PolicySync.Rounds.{Denies, sync_once-Denies}
use neuromesh.PolicySync.Loop.{IsCovered, checked_at, tick-IsArmed, tick-IsCovered}
use neuromesh.Tests.{fresh_maps, accept_all, tmp_entry}
use neuromesh.Tests.Identity.{read_doc, read_time, one_bundle, one_key}

-- A stand-in for the signature check: it takes one signature.
abbrev takes_sig : Bytes → Bytes → Str → Bool
takes_sig key body sig = bytes_eq sig (codes "sig")

abbrev some_env : Env
some_env = record {
  accepts_deny = accept_all;
  accepts_identity = accept_all;
  from_str = read_doc;
  parse_from_rfc3339 = read_time;
  verify_cosign_blob_signature = takes_sig;
  bearer_token = codes "token";
  public_key_pem = codes "pem";
  skew = 5;
}

abbrev signed_round : Round
signed_round = record {
  reply = some (record {
    status = 200;
    retry_after = none;
    signature = some (codes "sig");
    text = some (codes "body");
  });
  started_at = 69;
  parsed_at = 70;
  verified_at = 71;
  failed_at = 72;
  instant = 1000;
}

-- The same, not signed.
abbrev unsigned_round : Round
unsigned_round = record {
  reply =
      some
        (record { status = 200; retry_after = none; signature = none; text = some (codes "body") });
  started_at = 69;
  parsed_at = 70;
  verified_at = 71;
  failed_at = 99;
  instant = 1000;
}

abbrev booted_world : World
booted_world = record {
  deny_maps = record fresh_maps { count = 3 ∷ [] };
  identity_maps = one_key;
  state = record { last_success = 0; last_version = codes "bootstrap"; stale = false };
  identity_expires_at = some 90;
  allowlist = some [];
}

verify_bundle_temporal_with_skew_iff_example :
    (verify_bundle_temporal_with_skew one_bundle 71 5 ≡ ok tt) ↔ IsTimely one_bundle 71 5
verify_bundle_temporal_with_skew_iff_example = verify_bundle_temporal_with_skew_iff one_bundle 71 5

sync_once-Verified_example :
    (((sync_once some_env unsigned_round booted_world).0 ≡ booted_world)
      × (e : SyncError) × ((sync_once some_env unsigned_round booted_world).1 ≡ err e))
    ⊎ ((parsed : ParsedPolicyBundle) × Verified some_env unsigned_round parsed)
sync_once-Verified_example = sync_once-Verified some_env unsigned_round booted_world

abbrev synced : World
synced = (sync_once some_env signed_round booted_world).0

synced_runs : sync_once some_env signed_round booted_world ≡ (synced, ok one_bundle.identity)
unfolding sync_once fetch_and_verify fetch_policy_bundle verify_bundle_signature trim
    verify_bundle_temporal_with_skew parse_policy_bundle_json_at parse_bound parse_identity
    parse_rfc3339 evaluate_identity_section apply_bundle apply_identity_validity
    set_exceptions_valid apply_deny build_entries from_prefix apply_deny_entries write_slots
    set_slot set_count clear_slots
synced_runs = refl

sync_once-Denies_example :
    (p : ParsedPolicyBundle) × Verified some_env signed_round p
    × (synced.state.last_version ≡ p.version)
    × (((p.version ≡ booted_world.state.last_version) × (synced.deny_maps ≡ booted_world.deny_maps))
        ⊎ Denies synced.deny_maps p.deny_path_prefixes)
sync_once-Denies_example =
    sync_once-Denies some_env signed_round booted_world synced one_bundle.identity
      (record { list = refl; count = refl }) synced_runs

abbrev filled_world : World
filled_world = record booted_world {
  deny_maps = record { list = tmp_entry ∷ replicate 63 empty_entry; count = 1 ∷ [] };
}

filled_world-IsArmed : IsArmed filled_world.deny_maps
filled_world-IsArmed = (
  tmp_entry,
  record { held = refl; total = 1; counted = refl; covered = omega arith },
  (omega arith, omega arith),
)

tick-IsArmed_example :
    IsArmed (tick some_env signed_round filled_world).0.deny_maps
    × DeniesSome (tick some_env signed_round filled_world).0.deny_maps
tick-IsArmed_example = tick-IsArmed some_env signed_round filled_world refl filled_world-IsArmed

tick-IsCovered_example :
    HasFlag (tick some_env unsigned_round booted_world).0.identity_maps
    × IsCovered
        (checked_at unsigned_round (tick some_env unsigned_round booted_world).1)
        (tick some_env unsigned_round booted_world).0
tick-IsCovered_example = tick-IsCovered some_env unsigned_round booted_world refl refl
