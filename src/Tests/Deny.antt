-- ===== src/Tests/Deny.antt =====
-- Deny entries and their application to the maps.
use neuromesh.Prelude.{
  ◌≡◌, refl, ◌↔◌, ◌⊎◌, Bool, true, false, none, some, List, [], ◌∷◌, arith, ◌<◌, any, All, take,
  not, ◌==◌,
}
use neuromesh.Prelude.Result.{ok}
use neuromesh.Bytes.{Bytes, codes, starts_with, StartsWith}
use neuromesh.DenyEntry.{
  PathDenyEntry, LegacyPathDenyEntry, from_prefix, matches, widen, IsValid,
  path_deny_key_bytes_legacy,
}
use neuromesh.DenyEntry.Matching.{from_prefix-matches_iff, widen-matches}
use neuromesh.Lsm.Maps.{Maps}
use neuromesh.Lsm.Match.{is_blacklisted_path}
use neuromesh.PathDeny.{
  PathDenyMaps, Write, slot, total, map_backed_is_blacklisted, legacy_hardcoded_is_blacklisted,
  apply_deny_entries, bootstrap_deny_maps, build_entries, set_slot, set_count, write_slots,
  clear_slots, bootstrap_entries,
}
use neuromesh.PathDeny.Refresh.{Enforces, apply_deny_entries-Enforces, apply_deny_entries_gap}
use neuromesh.PathDeny.Bootstrap.{build_entries-any}
use neuromesh.PathDeny.Enforced.{
  with_deny_list, apply_deny_entries-is_blacklisted_path, bootstrap_deny_maps-legacy,
}
use neuromesh.Tests.{tmp_path, bin_path, tmp_entry, shm_entry, two_entries, fresh_maps, accept_all}

abbrev kernel_maps : Maps
kernel_maps = record {
  path_deny_list = [];
  path_deny_count = [];
  id_allow_cgroup = [];
  id_except_valid = [];
  telemetry_stats = [];
  telem_ringbuf = [];
}

from_prefix_tmp : from_prefix (codes "/tmp/") ≡ some tmp_entry
unfolding from_prefix
from_prefix_tmp = refl

from_prefix-matches_iff_example :
    (matches tmp_entry tmp_path ≡ true) ↔ StartsWith tmp_path (codes "/tmp/")
from_prefix-matches_iff_example =
    from_prefix-matches_iff (codes "/tmp/") tmp_path tmp_entry from_prefix_tmp

abbrev legacy_tmp : LegacyPathDenyEntry
legacy_tmp = record { len = 5; bytes = codes "/tmp/\0\0\0\0\0\0\0\0\0\0\0" }

abbrev applied : PathDenyMaps
applied = (apply_deny_entries accept_all two_entries fresh_maps).0

applied_runs : apply_deny_entries accept_all two_entries fresh_maps ≡ (applied, ok tt)
unfolding apply_deny_entries write_slots set_slot set_count clear_slots
applied_runs = refl

apply_deny_entries-is_blacklisted_path_example :
    is_blacklisted_path (with_deny_list kernel_maps applied) tmp_path
    ≡ some (map_backed_is_blacklisted tmp_path two_entries)
apply_deny_entries-is_blacklisted_path_example =
    apply_deny_entries-is_blacklisted_path accept_all two_entries fresh_maps applied kernel_maps
      tmp_path (record { list = refl; count = refl }) (refl, (refl, tt)) applied_runs

abbrev booted : PathDenyMaps
booted = (bootstrap_deny_maps accept_all fresh_maps).0

booted_runs : bootstrap_deny_maps accept_all fresh_maps ≡ (booted, ok tt)
unfolding bootstrap_deny_maps bootstrap_entries build_entries from_prefix apply_deny_entries
    write_slots set_slot set_count clear_slots
booted_runs = refl

bootstrap_deny_maps-legacy_example :
    is_blacklisted_path (with_deny_list kernel_maps booted) bin_path
    ≡ some (legacy_hardcoded_is_blacklisted bin_path)
bootstrap_deny_maps-legacy_example =
    bootstrap_deny_maps-legacy accept_all fresh_maps booted kernel_maps bin_path
      (record { list = refl; count = refl }) booted_runs

widen-matches_example :
    ((widen legacy_tmp ≡ none)
      ↔ ((legacy_tmp.len ≡ 0) ⊎ (path_deny_key_bytes_legacy < legacy_tmp.len)))
    × ((w : PathDenyEntry) (path : Bytes)
        → widen legacy_tmp ≡ some w
        → IsValid w
          × ((matches w path ≡ true) ↔ StartsWith path (take legacy_tmp.len legacy_tmp.bytes)))
widen-matches_example = widen-matches legacy_tmp refl

abbrev two_prefixes : List Bytes
two_prefixes = codes "/tmp/" ∷ codes "/dev/shm/" ∷ []

two_built : build_entries two_prefixes ≡ ok two_entries
unfolding build_entries from_prefix
two_built = refl

build_entries-any_example :
    All IsValid two_entries
    × ((path : Bytes)
        → map_backed_is_blacklisted path two_entries ≡ any (starts_with path) two_prefixes)
build_entries-any_example = build_entries-any two_prefixes two_entries two_built

-- The kernel refuses the second slot: the refresh stops there.
abbrev refuse_slot_1 : Write → Bool
refuse_slot_1 (slot i e) = not (i == 1)
refuse_slot_1 (total n) = true

apply_deny_entries-Enforces_example :
    Enforces (apply_deny_entries refuse_slot_1 two_entries applied).0 0 tmp_entry
unfolding apply_deny_entries write_slots set_slot set_count clear_slots
apply_deny_entries-Enforces_example =
    apply_deny_entries-Enforces refuse_slot_1 two_entries applied 0 tmp_entry refl refl
      (record { held = refl; total = 2; counted = refl; covered = omega arith })

apply_deny_entries_gap_example :
    let d : PathDenyMaps = record { list = tmp_entry ∷ shm_entry ∷ []; count = 2 ∷ [] } in
    let d' = (apply_deny_entries refuse_slot_1 (shm_entry ∷ tmp_entry ∷ []) d).0 in
    (map_backed_is_blacklisted tmp_path (take 2 d.list) ≡ true)
    × (map_backed_is_blacklisted tmp_path (shm_entry ∷ tmp_entry ∷ []) ≡ true)
    × (d'.count ≡ 2 ∷ [])
    × (map_backed_is_blacklisted tmp_path (take 2 d'.list) ≡ false)
unfolding matches
apply_deny_entries_gap_example =
    apply_deny_entries_gap refuse_slot_1 tmp_entry shm_entry [] tmp_path (omega arith, omega arith)
      (omega arith, omega arith) refl refl refl refl
