-- ===== src/Lsm/Match.antt =====
-- apps/agent-ebpf-sensor/ebpf/src/main.rs: deny-list matching and the identity exception.
-- A function that indexes an array is in `Option`: `none` is the panic, whose handler is
-- `unreachable_unchecked`.
use neuromesh.Prelude.{
  ℕ, zero, suc, ◌+◌, Bool, true, false, not, ◌&&◌, ◌||◌, Option, none, some, List, [], ◌∷◌, ltb,
  leb, ◌==◌, if◌then◌else◌, length, get_elem?,
}
use neuromesh.Bytes.{Bytes}
use neuromesh.DenyEntry.{PathDenyEntry, path_deny_key_bytes, path_deny_max_entries}
use neuromesh.Lsm.Maps.{Maps, Call, identity_allow_value, identity_exceptions_valid_fresh}

-- The compare loop of `path_starts_with`, with `rounds` rounds left before its bound.
unfoldable pub compare_loop : ℕ → ℕ → Bytes → Bytes → ℕ → Option Bool
compare_loop zero j path prefix len = some true
compare_loop (suc rounds) j path prefix len =
    let rest = compare_loop rounds (j + 1) path prefix len in
    if leb len j then some true else elim (get_elem? path j) [
      | none ↦ none
      | some a ↦ elim (get_elem? prefix j) [
        | none ↦ none
        | some b ↦ if a == b then rest else some false
      ]
    ]

unfoldable pub path_starts_with : Bytes → Bytes → ℕ → Option Bool
path_starts_with path prefix len =
    if ltb (length path) len || len == 0 || ltb path_deny_key_bytes len
    then some false
    else compare_loop path_deny_key_bytes 0 path prefix len

-- The test of one slot in `is_blacklisted_path`.
unfoldable pub entry_hits : Bytes → PathDenyEntry → Option Bool
entry_hits path e =
    if ltb 0 e.len && leb e.len path_deny_key_bytes
    then path_starts_with path e.bytes e.len
    else some false

-- The scan loop of `is_blacklisted_path`.
unfoldable pub scan_loop : ℕ → ℕ → ℕ → List PathDenyEntry → Bytes → Option Bool
scan_loop zero i count list path = some false
scan_loop (suc rounds) i count list path =
    let rest = scan_loop rounds (i + 1) count list path in
    if leb count i then some false else elim (get_elem? list i) [
      | none ↦ rest
      | some e ↦ elim (entry_hits path e) [
        | none ↦ none
        | some hit ↦ if hit then some true else rest
      ]
    ]

-- The active entry count, capped.
abbrev pub active_count : List ℕ → ℕ
active_count counts = elim (get_elem? counts 0) [
  | none ↦ 0
  | some c ↦ if ltb path_deny_max_entries c then path_deny_max_entries else c
]

unfoldable pub is_blacklisted_path : Maps → Bytes → Option Bool
is_blacklisted_path m path =
    scan_loop path_deny_max_entries 0 (active_count m.path_deny_count) m.path_deny_list path

-- A lookup in a BPF hash map.
abbrev pub map_get : ℕ → List (ℕ × ℕ) → Option ℕ
map_get k [] = none
map_get k ((j, v) ∷ rest) = if j == k then some v else map_get k rest

unfoldable pub identity_exception_allows : Maps → Call → Bool
identity_exception_allows m call = elim (get_elem? m.id_except_valid 0) [
  | none ↦ false
  | some valid ↦
      if not (valid == identity_exceptions_valid_fresh)
      then false
      else elim (map_get call.cgroup_id m.id_allow_cgroup) [
        | none ↦ false
        | some v ↦ v == identity_allow_value
      ]
]
