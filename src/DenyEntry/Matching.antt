-- ===== src/DenyEntry/Matching.antt =====
-- What a deny entry matches: exactly the paths that start with the prefix it was built from.
use neuromesh.Prelude.{
  ℕ, ◌≤◌, ◌<◌, ◌≡◌, ap, ◌∙◌, ◌↔◌, ◌⊎◌, inl, inr, true, false, none, some, [], ◌∷◌, arith, length,
  take, drop, replicate, length-take, length-append, length-drop, take-append_length, Bool-cases,
  leb, ◌&&◌, ltb, ltb→lt, ltb-false→le, ◌==◌, ◌||◌, copy_prefix,
}
use neuromesh.Bytes.{
  Bytes, StartsWith, starts_with, starts_with_iff, starts_with-length, zip_eq-take, zip_eq,
}
use neuromesh.DenyEntry.{
  PathDenyEntry, LegacyPathDenyEntry, from_prefix, matches, widen, IsValid, key,
  path_deny_key_bytes, path_deny_key_bytes_legacy, u32,
}

pub length-key : (e : PathDenyEntry) → IsValid e → length (key e) ≡ e.len
length-key e v = omega (arith, length-take e.len e.bytes)

pub starts_with_short :
    (path prefix : Bytes) → length path < length prefix → starts_with path prefix ≡ false
starts_with_short path prefix h = elim (Bool-cases (starts_with path prefix)) [
  | inl hit ↦ absurd (omega (arith, starts_with-length path prefix hit))
  | inr miss ↦ miss
]

pub zip_eq-key :
    (path prefix : Bytes) (n : ℕ)
    → length prefix ≡ n
    → n ≤ length path
    → zip_eq (take n path) prefix ≡ starts_with path prefix
zip_eq-key path prefix n e h = rw (← e) (zip_eq-take path prefix (rw e h))

-- On a valid entry `matches` is `starts_with` on the significant bytes.
pub matches-starts_with :
    (e : PathDenyEntry) (path : Bytes) → IsValid e → matches e path ≡ starts_with path (key e)
unfolding matches
matches-starts_with e path v = elim (Bool-cases (ltb (length path) e.len)) [
  | inl short ↦
      ground
        (arith, starts_with_short path (key e) (omega (arith, length-key e v, ltb→lt _ _ short)))
  | inr long ↦
      ground (arith, zip_eq-key path (key e) e.len (length-key e v) (ltb-false→le _ _ long))
]

-- The bytes that `from_prefix` stores.
abbrev padded : Bytes → Bytes
padded prefix = copy_prefix (replicate path_deny_key_bytes 0) prefix

length-padded :
    (prefix : Bytes)
    → length prefix ≤ path_deny_key_bytes
    → length (padded prefix) ≡ path_deny_key_bytes
length-padded prefix h = omega (
  arith,
  length-append prefix (drop (length prefix) (replicate path_deny_key_bytes 0)),
  length-drop {A = ℕ} (length prefix) (replicate path_deny_key_bytes 0),
)

u32-length :
    (prefix : Bytes) → length prefix ≤ path_deny_key_bytes → u32 (length prefix) ≡ length prefix
u32-length prefix h = omega arith

key-padded :
    (prefix : Bytes)
    → length prefix ≤ path_deny_key_bytes
    → take (u32 (length prefix)) (padded prefix) ≡ prefix
key-padded prefix h = rw (u32-length prefix h) (take-append_length prefix _)

from_prefix-cases :
    (prefix : Bytes)
    → 1 ≤ length prefix
    → length prefix ≤ path_deny_key_bytes
    → from_prefix prefix ≡ some (record { len = u32 (length prefix); bytes = padded prefix })
unfolding from_prefix
from_prefix-cases [] low high = absurd (omega arith)
from_prefix-cases (b ∷ bs) low high = ground arith

from_prefix_bounds :
    (prefix : Bytes) (e : PathDenyEntry)
    → from_prefix prefix ≡ some e
    → (1 ≤ length prefix) × (length prefix ≤ path_deny_key_bytes)
unfolding from_prefix
from_prefix_bounds [] e h = absurd (cc h)
from_prefix_bounds (b ∷ bs) e h = ground arith

pub matches_out_of_range :
    (e : PathDenyEntry) (path : Bytes)
    → (ltb 0 e.len && leb e.len path_deny_key_bytes) ≡ false
    → matches e path ≡ false
unfolding matches
matches_out_of_range e path bad = ground arith

-- The entry built from a prefix is valid, and holds exactly that prefix.
pub from_prefix-IsValid :
    (prefix : Bytes) (e : PathDenyEntry)
    → from_prefix prefix ≡ some e
    → IsValid e × (key e ≡ prefix)
from_prefix-IsValid prefix e h =
    let (low, high) = from_prefix_bounds prefix e h in
    let same : e ≡ record { len = u32 (length prefix); bytes = padded prefix } =
      cc (from_prefix-cases prefix low high) in
    (
      record {
        positive = rw same (rw (u32-length prefix high) low);
        bounded = rw same (rw (u32-length prefix high) high);
        full = rw same (length-padded prefix high);
      },
      rw same (key-padded prefix high),
    )

-- An entry built from a prefix matches exactly the paths that start with the prefix.
pub from_prefix-matches_iff :
    (prefix path : Bytes) (e : PathDenyEntry)
    → from_prefix prefix ≡ some e
    → (matches e path ≡ true) ↔ StartsWith path prefix
from_prefix-matches_iff prefix path e h =
    let (valid, same) = from_prefix-IsValid prefix e h in
    let hit : matches e path ≡ starts_with path prefix =
      matches-starts_with e path valid ∙ ap (starts_with path) same in
    rw hit (starts_with_iff path prefix)

widen-from_prefix :
    (e : LegacyPathDenyEntry)
    → 1 ≤ e.len
    → e.len ≤ path_deny_key_bytes_legacy
    → widen e ≡ from_prefix (take e.len e.bytes)
unfolding widen
widen-from_prefix e low high = ground arith

widen-none :
    (e : LegacyPathDenyEntry) → (e.len ≡ 0) ⊎ (path_deny_key_bytes_legacy < e.len) → widen e ≡ none
unfolding widen
widen-none e bad = ground arith

widen_bounds :
    (e : LegacyPathDenyEntry) (w : PathDenyEntry)
    → widen e ≡ some w
    → (1 ≤ e.len) × (e.len ≤ path_deny_key_bytes_legacy)
unfolding widen
widen_bounds e w h = ground arith

-- For a legacy entry of 16 bytes, migration keeps the meaning: its widened form is valid, and
-- matches exactly the paths that start with its significant bytes. It is refused exactly when its
-- length is 0 or over 16.
pub widen-matches :
    (e : LegacyPathDenyEntry)
    → length e.bytes ≡ path_deny_key_bytes_legacy
    → ((widen e ≡ none) ↔ ((e.len ≡ 0) ⊎ (path_deny_key_bytes_legacy < e.len)))
      × ((w : PathDenyEntry) (path : Bytes)
          → widen e ≡ some w
          → IsValid w × ((matches w path ≡ true) ↔ StartsWith path (take e.len e.bytes)))
widen-matches e full = (
  (
    λ missing. elim (Bool-cases (e.len == 0 || ltb path_deny_key_bytes_legacy e.len)) [
      | inl bad ↦ ground arith
      | inr good ↦
          let low : 1 ≤ e.len = ground arith in
          let high : e.len ≤ path_deny_key_bytes_legacy = ground arith in
          absurd (
            cc (
              widen-from_prefix e low high,
              from_prefix-cases (take e.len e.bytes) (omega (arith, length-take e.len e.bytes))
                  (omega (arith, length-take e.len e.bytes)),
            ))
    ],
    widen-none e,
  ),
  λ w path h.
      let (low, high) = widen_bounds e w h in
      let built : from_prefix (take e.len e.bytes) ≡ some w = cc (widen-from_prefix e low high) in
      ((from_prefix-IsValid _ w built).0, from_prefix-matches_iff _ path w built),
)
