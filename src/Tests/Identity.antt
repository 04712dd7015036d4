-- ===== src/Tests/Identity.antt =====
-- The correlator with one allowed pod, and the identity section.
use mathlib.Core.Logic.{ite}
use neuromesh.Prelude.{
  ℕ, ◌≡◌, inr, ◌∙◌, refl, sym, ite-join, ◌↔◌, ◌<◌, Bool, true, false, Option, none, some, List, [],
  ◌∷◌, ℕ_discrete,
}
use neuromesh.Prelude.Result.{ok}
use neuromesh.Bytes.{Bytes, codes, Bytes-discrete}
use neuromesh.Text.{Str, trim}
use neuromesh.HashTable.{HashSet, get, insert, remove}
use neuromesh.IdentityAllow.{
  IdentityAllowMaps, BundleDoc, ParsedPolicyBundle, Update, insert_cgroup, seed_allow_cgroup,
  evaluate_identity_section, fresh, invalidate_if_expired, parse_policy_bundle_json_at, parse_bound,
  parse_identity, parse_rfc3339, bundle_of,
}
use neuromesh.IdentityAllow.Validity.{
  HasFlag, IsEnabled, section_of, evaluate_identity_section_iff, invalidate_if_expired-IsEnabled,
}
use neuromesh.IdentityAllow.Bundle.{IsUsable, parse_policy_bundle_json_at-IsUsable}
use neuromesh.SideTable.{
  SideEntry, entry_of, insert_entry, remove_by_cgroup, link, unlink_indexes, remove_all,
  plan_pe_allowlist_revoke, select_ids, plan_missing_path_sweep, sweep_missing_paths,
}
use neuromesh.SideTable.Invariant.{listed}
use neuromesh.Correlator.{
  Env, State, PodView, revoke_not_in_allowlist, pod_deleted, invalidate, apply_invalidations,
  reconcile_pod, reconcile_containers, reconcile_container, seed_or_remove, construct_spiffe_id,
  resolve_container_cgroup_path, container_eligible, strip_runtime_prefix, split_scheme,
}
use neuromesh.Correlator.Invalidation.{value_of, AcceptsRemovals}
use neuromesh.Correlator.Sound.{IsSound}
use neuromesh.Correlator.Handlers.{Event, upsert, deleted, path_gone, resynced}
use neuromesh.Correlator.Events.{
  run, IsPermitted, pod_deleted-value_of, revoke_not_in_allowlist-IsPermitted,
}
use neuromesh.Correlator.Resync.{forced_resync, is_stale, stale_uids, plan_pod_deletes, sort_dedup}
use neuromesh.Correlator.Resync.Live.{forced_resync-is_stale}
use neuromesh.Tests.{accept_all}
use neuromesh.Tests.Table.{pod_uid, web_entry, one_entry, one_entry-IsConsistent}

abbrev pub one_key : IdentityAllowMaps
one_key = record { allow_cgroups = (7, 1) ∷ []; exceptions_valid = 1 ∷ [] }

abbrev pub env : Env
env = record {
  accepts = accept_all;
  trust_domain = codes "t";
  find_existing_pod_dir = λ uid. some (codes "/cg");
  find_container_leaf = λ dir raw. some (codes "/cg/a");
  inode_of_path = λ path. some 7;
  exists = accept_all;
}

abbrev pub web_state : State
web_state = record {
  table = one_entry;
  maps = one_key;
  allowlist = (codes "spiffe://t/ns/default/sa/web", tt) ∷ [];
  sent = [];
}

one_entry_at : (q : ℕ) → entry_of q one_entry ≡ ite (ℕ_discrete 7 q) (some web_entry) none
unfolding insert_entry remove_by_cgroup link get insert remove
one_entry_at q = refl

tracked_at :
    (q : ℕ)
    → ite (ℕ_discrete 7 q) (some web_entry) none ≡ none
    → Dec (7 ≡ q)
    → value_of q one_key ≡ none
unfolding get
tracked_at q gone (yes i) =
    absurd (cc (sym (ite-join (ℕ_discrete 7 q) (λ _. refl) (λ n. absurd (n i))) ∙ gone))
tracked_at q gone (no n) = ite-join (ℕ_discrete 7 q) (λ i. absurd (n i)) (λ _. refl)

pub web_state-IsSound : IsSound env web_state
web_state-IsSound = record {
  consistent = one_entry-IsConsistent;
  tracked = λ q _ gone. tracked_at q (sym (one_entry_at q) ∙ gone) (ℕ_discrete 7 q);
  insertable = λ q _ refused. absurd (cc refused);
}

accepts_removals : AcceptsRemovals (accept_all {A = Update})
accepts_removals id = refl

abbrev web_pod : PodView
web_pod = record {
  uid = pod_uid;
  namespace = codes "default";
  service_account = codes "web";
  containers = record { container_id = some (codes "containerd://abc"); running = true } ∷ [];
}

abbrev refuses_insertions : Update → Bool
refuses_insertions (insert_cgroup id) = false
refuses_insertions _ = true

one_entry_found : entry_of 7 one_entry ≡ some web_entry
unfolding insert_entry remove_by_cgroup link get insert remove ℕ_discrete Bytes-discrete
one_entry_found = refl

abbrev no_seeds : Env
no_seeds = record env { accepts = refuses_insertions }

abbrev some_events : List (Env × Event)
some_events =
    (env, upsert web_pod)
    ∷ (no_seeds, deleted (codes "uid-2"))
    ∷ (env, path_gone (codes "/cg/a"))
    ∷ (env, resynced (some []))
    ∷ []

-- A pod that is seen again while the kernel refuses its cgroup loses the entry, not the key.
reseed_lost :
    (entry_of 7 (run ((no_seeds, upsert web_pod) ∷ []) web_state).table ≡ none)
    × (value_of 7 (run ((no_seeds, upsert web_pod) ∷ []) web_state).maps ≡ some 1)
unfolding reconcile_pod reconcile_containers reconcile_container insert_entry remove_by_cgroup link
    get insert remove seed_or_remove seed_allow_cgroup ℕ_discrete Bytes-discrete construct_spiffe_id
    trim resolve_container_cgroup_path container_eligible strip_runtime_prefix split_scheme
    unlink_indexes
reseed_lost = (refl, refl)

web_listed : listed pod_uid (entry_of 7 one_entry) ≡ some tt
unfolding insert_entry remove_by_cgroup link get insert remove ℕ_discrete Bytes-discrete
web_listed = refl

pod_deleted-value_of_example : value_of 7 (pod_deleted env pod_uid web_state).maps ≡ none
pod_deleted-value_of_example =
    pod_deleted-value_of env accepts_removals pod_uid web_state 7 one_entry-IsConsistent web_listed

abbrev after_revoke : State
after_revoke = revoke_not_in_allowlist env web_state

still_there : value_of 7 after_revoke.maps ≡ some 1
unfolding insert_entry remove_by_cgroup link get insert remove ℕ_discrete Bytes-discrete
    revoke_not_in_allowlist invalidate remove_all plan_pe_allowlist_revoke select_ids
    apply_invalidations
still_there = refl

revoke_not_in_allowlist-IsPermitted_example :
    (e : SideEntry) × (entry_of 7 after_revoke.table ≡ some e)
    × IsPermitted env accepts_removals web_state.allowlist e
revoke_not_in_allowlist-IsPermitted_example =
    revoke_not_in_allowlist-IsPermitted env accepts_removals web_state 7 1 one_entry-IsConsistent
      (inr (web_entry, one_entry_found)) still_there

abbrev live_pods : HashSet Bytes
live_pods = (pod_uid, tt) ∷ []

abbrev after_resync : State
after_resync = forced_resync env (some live_pods) web_state

survives : value_of 7 after_resync.maps ≡ some 1
unfolding forced_resync plan_missing_path_sweep sweep_missing_paths plan_pod_deletes stale_uids
    sort_dedup insert_entry remove_by_cgroup link get insert remove ℕ_discrete Bytes-discrete
    remove_all select_ids apply_invalidations
survives = refl

forced_resync-is_stale_example :
    (e : SideEntry) × (entry_of 7 after_resync.table ≡ some e)
    × (env.exists e.cgroup_path ≡ true)
    × (is_stale live_pods e ≡ false)
forced_resync-is_stale_example =
    forced_resync-is_stale env accepts_removals web_state one_entry-IsConsistent live_pods 7 1
      (inr (web_entry, one_entry_found)) survives

abbrev web_ids : List Bytes
web_ids = codes "spiffe://t/ns/default/sa/web" ∷ []

evaluate_identity_section_iff_example :
    (evaluate_identity_section (codes "/tmp/") web_ids 1000 1090 1005
      ≡ fresh (section_of (codes "/tmp/") web_ids 1000 1090))
    ↔ ((codes "/tmp/" ≡ codes "/tmp/")
        × (1000 < 1090)
        × (1005 < 1090)
        × (section_of (codes "/tmp/") web_ids 1000 1090
            ≡ section_of (codes "/tmp/") web_ids 1000 1090))
evaluate_identity_section_iff_example =
    evaluate_identity_section_iff (codes "/tmp/") web_ids 1000 1090 1005
      (section_of (codes "/tmp/") web_ids 1000 1090)

invalidate_if_expired-IsEnabled_example :
    let after = (invalidate_if_expired accept_all (some 1090) 1091 one_key).0 in
    HasFlag after
    × (after.allow_cgroups ≡ one_key.allow_cgroups)
    × (IsEnabled after → (exp : ℕ) × (some 1090 ≡ some exp) × (1091 < exp))
invalidate_if_expired-IsEnabled_example =
    invalidate_if_expired-IsEnabled accept_all (some 1090) 1091 one_key refl refl

-- Times are written as characters that a stand-in for the RFC 3339 reader takes as numbers.
abbrev one_doc : BundleDoc
one_doc = record {
  schema_version = 3;
  version = codes "v1";
  deny_path_prefixes = codes "/tmp/" ∷ [];
  identity_allow_exceptions = some (record {
    scope_path_prefix = codes "/tmp/";
    spiffe_ids = web_ids;
    issued_at = 65 ∷ [];
    expires_at = 90 ∷ [];
  });
  not_before = some (66 ∷ []);
  not_after = some (89 ∷ []);
}

abbrev pub read_doc : Bytes → Option BundleDoc
read_doc body = some one_doc

abbrev pub read_time : Str → Option ℕ
read_time [] = none
read_time (c ∷ s) = some c

abbrev pub one_bundle : ParsedPolicyBundle
one_bundle =
    bundle_of one_doc (fresh (section_of (codes "/tmp/") web_ids 65 90)) (some 66) (some 89)

one_bundle_parses : parse_policy_bundle_json_at read_doc read_time [] 70 ≡ ok one_bundle
unfolding parse_policy_bundle_json_at parse_bound parse_identity parse_rfc3339
    evaluate_identity_section trim
one_bundle_parses = refl

parse_policy_bundle_json_at-IsUsable_example : IsUsable 70 one_bundle
parse_policy_bundle_json_at-IsUsable_example =
    parse_policy_bundle_json_at-IsUsable read_doc read_time [] 70 one_bundle one_bundle_parses
