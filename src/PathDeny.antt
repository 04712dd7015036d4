-- ===== src/PathDeny.antt =====
-- apps/agent-ebpf-sensor/src/path_deny.rs: the user-space side of the deny list.
-- A method on the maps is a function of their contents to the new contents and a result, so a
-- failure keeps what was written before it. The kernel may refuse any update: which ones it
-- accepts is the parameter `accepts`. An update out of the array's range fails.
pub mod Apply
pub mod Refresh
pub mod Armed
pub mod Bootstrap
pub mod Enforced
use neuromesh.Prelude.{
  ℕ, zero, suc, ◌+◌, ◌-◌, Bool, true, false, ◌&&◌, ◌||◌, Option, none, some, List, [], ◌∷◌, ltb,
  ◌==◌, if◌then◌else◌, length, is_empty, set, any,
}
use neuromesh.Prelude.Result.{Result, ok, err}
use neuromesh.Bytes.{Bytes, codes, zip_eq}
use neuromesh.DenyEntry.{
  PathDenyEntry, from_prefix, matches, empty_entry, u32, path_deny_key_bytes, path_deny_max_entries,
  bootstrap_path_deny_prefixes,
}

-- `PathDenyMaps`: the two arrays.
pub record PathDenyMaps : Type 0 where
  pub list : List PathDenyEntry
  pub count : List ℕ

pub data ApplyError : Type 0 where
  empty_list : ApplyError
  too_many : ℕ → ApplyError
  invalid_len : ℕ → ℕ → ApplyError
  write_failed : ApplyError
  bad_prefix : Bytes → ApplyError

-- An update of one array slot.
pub data Write : Type 0 where
  slot : ℕ → PathDenyEntry → Write
  total : ℕ → Write

abbrev pub M : Type 0
M = PathDenyMaps → PathDenyMaps × Result ApplyError (Unit {0})

-- `a?; b`.
infixl 5 ◌>>◌
abbrev pub ◌>>◌ : M → M → M
◌>>◌ a b d = let (d', r) = a d in elim r [ ok _ ↦ b d' | err e ↦ (d', err e) ]

abbrev pub done : M
done d = (d, ok tt)

abbrev pub fail : ApplyError → M
fail e d = (d, err e)

unfoldable pub map_backed_is_blacklisted : Bytes → List PathDenyEntry → Bool
map_backed_is_blacklisted path entries = any (λ e. matches e path) entries

-- The local `path_starts_with`.
abbrev pub slice_starts_with : Bytes → Bytes → Bool
slice_starts_with path prefix =
    if ltb (length path) (length prefix) then false else zip_eq path prefix

unfoldable pub legacy_hardcoded_is_blacklisted : Bytes → Bool
legacy_hardcoded_is_blacklisted path =
    slice_starts_with path (codes "/tmp/")
    || slice_starts_with path (codes "/dev/shm/")
    || slice_starts_with path (codes "/var/tmp/")

-- The loop of `bootstrap_entries`, and of `entries_from_bundle_json` and `sync_once`.
unfoldable pub build_entries : List Bytes → Result ApplyError (List PathDenyEntry)
build_entries [] = ok []
build_entries (prefix ∷ prefixes) = elim (from_prefix prefix) [
  | none ↦ err (bad_prefix prefix)
  | some e ↦ elim (build_entries prefixes) [ ok es ↦ ok (e ∷ es) | err x ↦ err x ]
]

unfoldable pub bootstrap_entries : Result ApplyError (List PathDenyEntry)
bootstrap_entries = elim (build_entries bootstrap_path_deny_prefixes) [
  | err x ↦ err x
  | ok out ↦
      if is_empty out
      then err empty_list
      else if ltb path_deny_max_entries (u32 (length out))
      then err (too_many (length out))
      else ok out
]

module _ (accepts : Write → Bool) where
  unfoldable pub set_slot : ℕ → PathDenyEntry → M
  set_slot i e d =
      if ltb i (length d.list) && accepts (slot i e)
      then (record d { list = set d.list i e }, ok tt)
      else (d, err write_failed)

  unfoldable pub set_count : ℕ → M
  set_count n d =
      if ltb 0 (length d.count) && accepts (total n)
      then (record d { count = set d.count 0 n }, ok tt)
      else (d, err write_failed)

  -- The first loop of `apply_deny_entries`, from index `i`.
  unfoldable pub write_slots : ℕ → List PathDenyEntry → M
  write_slots i [] = done
  write_slots i (e ∷ es) =
      let rest = write_slots (i + 1) es in
      if e.len == 0 || ltb path_deny_key_bytes e.len
      then fail (invalid_len i e.len)
      else set_slot (u32 i) e >> rest

  -- The second loop: `for i in count..PATH_DENY_MAX_ENTRIES`, with the rounds left.
  unfoldable pub clear_slots : ℕ → ℕ → M
  clear_slots zero i = done
  clear_slots (suc rounds) i = set_slot i empty_entry >> clear_slots rounds (i + 1)

  unfoldable pub apply_deny_entries : List PathDenyEntry → M
  apply_deny_entries entries =
      let count = u32 (length entries) in
      if is_empty entries
      then fail empty_list
      else if ltb path_deny_max_entries count
      then fail (too_many (length entries))
      else (write_slots 0 entries
          >> set_count count
          >> clear_slots (path_deny_max_entries - count) count)

  unfoldable pub bootstrap_deny_maps : M
  bootstrap_deny_maps d = elim bootstrap_entries [
    | err x ↦ (d, err x)
    | ok entries ↦ apply_deny_entries entries d
  ]
