-- ===== src/PinAbi/Names.antt =====
-- apps/agent-ebpf-sensor/src/pin_abi.rs and packages/neuromesh-common/src/lib.rs: the names of the
-- pins and of the staging directories, and the layouts that the pinned maps must have.
use neuromesh.Prelude.{
  ℕ, zero, suc, ◌+◌, ◌-◌, ◌*◌, ◌/◌, ◌%◌, Bool, not, ◌&&◌, ◌||◌, Option, none, some, List, [], ◌∷◌,
  ◌++◌, ltb, leb, ◌==◌, if◌then◌else◌, length, is_empty, drop, any,
}
use neuromesh.Bytes.{Bytes, codes, bytes_eq, starts_with}
use neuromesh.DenyEntry.{path_deny_key_bytes, path_deny_key_bytes_legacy, path_deny_max_entries}
use neuromesh.PinAbi.Disk.{ObservedMapInfo}

abbrev pub path_deny_list_map : Bytes
path_deny_list_map = codes "PATH_DENY_LIST"

abbrev pub path_deny_count_map : Bytes
path_deny_count_map = codes "PATH_DENY_COUNT"

abbrev pub process_events_map : Bytes
process_events_map = codes "PROCESS_EVENTS"

abbrev pub rate_limit_bucket_map : Bytes
rate_limit_bucket_map = codes "RLIMIT_BUCKET"

abbrev pub legacy_abi_dir_prefix : Bytes
legacy_abi_dir_prefix = codes "legacy_abi_"

abbrev pub proc_abi_dir_prefix : Bytes
proc_abi_dir_prefix = codes "proc_abi_"

abbrev pub path_deny_entry_size : ℕ
path_deny_entry_size = 4 + path_deny_key_bytes

abbrev pub path_deny_entry_size_legacy : ℕ
path_deny_entry_size_legacy = 4 + path_deny_key_bytes_legacy

abbrev pub bpf_map_type_array : ℕ
bpf_map_type_array = 2

abbrev pub bpf_map_type_percpu_array : ℕ
bpf_map_type_percpu_array = 6

abbrev pub bpf_map_type_ringbuf : ℕ
bpf_map_type_ringbuf = 27

pub record PinnedMapAbi : Type 0 where
  pub name : Bytes
  pub map_type : ℕ
  pub key_size : ℕ
  pub value_size : ℕ
  pub max_entries : ℕ

-- The rows of the table for the maps that are looked up.
abbrev pub pinned_map_abi : List PinnedMapAbi
pinned_map_abi =
    record {
      name = path_deny_list_map;
      map_type = bpf_map_type_array;
      key_size = 4;
      value_size = path_deny_entry_size;
      max_entries = path_deny_max_entries;
    }
    ∷ record {
      name = path_deny_count_map;
      map_type = bpf_map_type_array;
      key_size = 4;
      value_size = 4;
      max_entries = 1;
    }
    ∷ record {
      name = process_events_map;
      map_type = bpf_map_type_ringbuf;
      key_size = 0;
      value_size = 0;
      max_entries = 1048576;
    }
    ∷ record {
      name = rate_limit_bucket_map;
      map_type = bpf_map_type_percpu_array;
      key_size = 4;
      value_size = 16;
      max_entries = 1;
    }
    ∷ []

abbrev find_name : Bytes → List PinnedMapAbi → Option PinnedMapAbi
find_name name [] = none
find_name name (m ∷ ms) = if bytes_eq m.name name then some m else find_name name ms

unfoldable pub expected_abi : Bytes → Option PinnedMapAbi
expected_abi name = find_name name pinned_map_abi

unfoldable pub matches_expected : ObservedMapInfo → PinnedMapAbi → Bool
matches_expected info expected =
    info.map_type == expected.map_type
    && info.key_size == expected.key_size
    && info.value_size == expected.value_size
    && info.max_entries == expected.max_entries

unfoldable pub is_legacy_path_deny_list : ObservedMapInfo → Bool
is_legacy_path_deny_list info =
    info.map_type == bpf_map_type_array
    && info.key_size == 4
    && info.value_size == path_deny_entry_size_legacy
    && info.max_entries == path_deny_max_entries

abbrev pub is_ascii_digit : ℕ → Bool
is_ascii_digit c = leb b'0' c && leb c b'9'

abbrev u32_end : ℕ
u32_end = 4294967296

-- `rest.parse::<u32>()` of digits, after those that were read.
unfoldable pub parse_u32 : ℕ → Bytes → Option ℕ
parse_u32 n [] = some n
parse_u32 n (c ∷ s) =
    let n' = n * 10 + (c - b'0') in
    let rest = parse_u32 n' s in if ltb n' u32_end then rest else none

unfoldable pub legacy_abi_numeric_suffix : Bytes → Option ℕ
legacy_abi_numeric_suffix name =
    let rest = drop (length legacy_abi_dir_prefix) name in
    if not (starts_with name legacy_abi_dir_prefix)
      || is_empty rest
      || any (λ c. not (is_ascii_digit c)) rest
    then none
    else parse_u32 0 rest

-- `format!("{n}")`: at most as many digits as there is fuel, and a `u32` has ten.
unfoldable pub decimal : ℕ → ℕ → Bytes
decimal zero n = []
decimal (suc fuel) n =
    let rest = decimal fuel (n / 10) in
    let digit = (b'0' + n % 10) ∷ [] in if ltb n 10 then digit else rest ++ digit

unfoldable pub legacy_dir_name : ℕ → Bytes
unfolding decimal
legacy_dir_name n = legacy_abi_dir_prefix ++ decimal 10 n

abbrev pub proc_dir_name : Bytes → Bytes
proc_dir_name name = proc_abi_dir_prefix ++ name
