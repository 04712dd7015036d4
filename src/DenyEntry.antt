-- ===== src/DenyEntry.antt =====
-- packages/neuromesh-common/src/lib.rs: `PathDenyEntry`, `LegacyPathDenyEntry` and the sizes that
-- they share with the kernel program. Matching is proved in the child module.
pub mod Matching
use neuromesh.Prelude.{
  ℕ, ◌%◌, ◌^◌, ◌≤◌, ◌≡◌, Bool, false, ◌||◌, Option, none, some, List, [], ◌∷◌, ltb, ◌==◌,
  if◌then◌else◌, length, is_empty, take, replicate, copy_prefix,
}
use neuromesh.Bytes.{Bytes, codes, zip_eq}

abbrev pub path_deny_max_entries : ℕ
path_deny_max_entries = 64

abbrev pub path_deny_key_bytes : ℕ
path_deny_key_bytes = 32

abbrev pub path_deny_key_bytes_legacy : ℕ
path_deny_key_bytes_legacy = 16

-- A cast to `u32`.
abbrev pub u32 : ℕ → ℕ
u32 n = n % 2 ^ 32

pub record PathDenyEntry : Type 0 where
  pub len : ℕ
  pub bytes : Bytes

pub record LegacyPathDenyEntry : Type 0 where
  pub len : ℕ
  pub bytes : Bytes

-- `PathDenyEntry::default()`.
abbrev pub empty_entry : PathDenyEntry
empty_entry = record { len = 0; bytes = replicate path_deny_key_bytes 0 }

unfoldable pub from_prefix : Bytes → Option PathDenyEntry
from_prefix prefix =
    if is_empty prefix || ltb path_deny_key_bytes (length prefix)
    then none
    else some (record {
      len = u32 (length prefix);
      bytes = copy_prefix (replicate path_deny_key_bytes 0) prefix;
    })

unfoldable pub matches : PathDenyEntry → Bytes → Bool
matches e path =
    if e.len == 0 || ltb path_deny_key_bytes e.len || ltb (length path) e.len
    then false
    else zip_eq (take e.len path) (take e.len e.bytes)

unfoldable pub widen : LegacyPathDenyEntry → Option PathDenyEntry
unfolding from_prefix
widen e =
    if e.len == 0 || ltb path_deny_key_bytes_legacy e.len
    then none
    else from_prefix (take e.len e.bytes)

abbrev pub bootstrap_path_deny_prefixes : List Bytes
bootstrap_path_deny_prefixes = codes "/tmp/" ∷ codes "/dev/shm/" ∷ codes "/var/tmp/" ∷ []

-- What the type of a stored entry and the writer of the deny list guarantee.
pub record IsValid (e : PathDenyEntry) : Type 0 where
  pub positive : 1 ≤ e.len
  pub bounded : e.len ≤ path_deny_key_bytes
  pub full : length e.bytes ≡ path_deny_key_bytes

-- The significant bytes.
abbrev pub key : PathDenyEntry → Bytes
key e = take e.len e.bytes
