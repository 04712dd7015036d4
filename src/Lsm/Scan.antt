-- ===== src/Lsm/Scan.antt =====
-- The bounded loops of the kernel program never panic, and compute what the user-space matcher does.
use neuromesh.Prelude.{
  ℕ, zero, suc, ◌+◌, ◌-◌, ◌≤◌, ◌<◌, ◌≡◌, refl, sym, ap, ltb→lt, ltb-false→le, get_elem?-none, ◌&&◌,
  inl, inr, some, List, [], ◌∷◌, arith, leb, ltb, leb→le, leb-false→lt, Bool-cases, length, take,
  drop, get_elem?-drop, drop_of_length-le, take-nil, any, All, All-drop, length-take,
}
use neuromesh.Bytes.{Bytes, zip_eq, starts_with}
use neuromesh.DenyEntry.{
  PathDenyEntry, IsValid, matches, path_deny_key_bytes, path_deny_max_entries,
}
use neuromesh.DenyEntry.Matching.{
  matches-starts_with, zip_eq-key, starts_with_short, matches_out_of_range,
}
use neuromesh.Lsm.Maps.{Maps}
use neuromesh.Lsm.Match.{
  compare_loop, path_starts_with, entry_hits, scan_loop, active_count, is_blacklisted_path,
}

-- The array type of an entry's bytes.
abbrev pub IsFull : PathDenyEntry → Type 0
IsFull e = length e.bytes ≡ path_deny_key_bytes

compare_loop-eq :
    (rounds j : ℕ) (path prefix : Bytes) (len : ℕ)
    → len ≤ j + rounds
    → len ≤ length path
    → len ≤ length prefix
    → compare_loop rounds j path prefix len
      ≡ some (zip_eq (take (len - j) (drop j path)) (take (len - j) (drop j prefix)))
unfolding compare_loop
compare_loop-eq zero j path prefix len h p q = let done : len - j ≡ 0 = omega arith in rw done refl
compare_loop-eq (suc rounds) j path prefix len h p q = elim (Bool-cases (leb len j)) [
  | inl over ↦ let done : len - j ≡ 0 = ground (arith, leb→le len j over) in rw (over, done) refl
  | inr more ↦
      let inside : j < len = leb-false→lt len j more in
      let (a, found_a, rest_a) = get_elem?-drop j path (omega arith) in
      let (b, found_b, rest_b) = get_elem?-drop j prefix (omega arith) in
      let next : len - j ≡ suc (len - suc j) = omega arith in
      let succ : j + 1 ≡ suc j = omega arith in
      let ih = compare_loop-eq rounds (suc j) path prefix len (omega arith) p q in
      rw (more, found_a, found_b, next, rest_a, rest_b, succ, ih) (ground arith)
]

-- For a length from 1 to 32 that the prefix has, the kernel's `path_starts_with` does not panic,
-- and is `starts_with` on the first `len` bytes.
pub path_starts_with-starts_with :
    (path prefix : Bytes) (len : ℕ)
    → 1 ≤ len
    → len ≤ path_deny_key_bytes
    → len ≤ length prefix
    → path_starts_with path prefix len ≡ some (starts_with path (take len prefix))
unfolding path_starts_with
path_starts_with-starts_with path prefix len low high fits =
    elim (Bool-cases (ltb (length path) len)) [
      | inl short ↦ ground (
        arith,
        starts_with_short path (take len prefix)
            (omega (arith, length-take len prefix, ltb→lt _ _ short)),
      )
      | inr long ↦
          let reach : len ≤ length path = ltb-false→le _ _ long in
          let size : length (take len prefix) ≡ len = omega (arith, length-take len prefix) in
          ground (
            arith,
            compare_loop-eq path_deny_key_bytes 0 path prefix len (omega arith) reach fits,
            zip_eq-key path (take len prefix) len size reach,
          )
    ]

entry_hits-matches :
    (path : Bytes) (e : PathDenyEntry) → IsFull e → entry_hits path e ≡ some (matches e path)
unfolding entry_hits
entry_hits-matches path e full = elim (Bool-cases (ltb 0 e.len && leb e.len path_deny_key_bytes)) [
  | inl good ↦
      let v : IsValid e = record { positive = ground arith; bounded = ground arith; full = full } in
      rw
        (
          good,
          matches-starts_with e path v,
          path_starts_with-starts_with path e.bytes e.len v.positive v.bounded (omega arith),
        )
        refl
  | inr bad ↦ rw (bad) (ap some (sym (matches_out_of_range e path (ground arith))))
]

-- The scan sees the active entries that are left, in order.
scan_loop-any :
    (rounds i count : ℕ) (list : List PathDenyEntry) (path : Bytes)
    → All IsFull list
    → count ≤ i + rounds
    → scan_loop rounds i count list path
      ≡ some (any (λ e. matches e path) (take (count - i) (drop i list)))
unfolding scan_loop
scan_loop-any zero i count list path full h = let done : count - i ≡ 0 = omega arith in rw done refl
scan_loop-any (suc rounds) i count list path full h = elim (Bool-cases (leb count i)) [
  | inl over ↦
      let done : count - i ≡ 0 = ground (arith, leb→le count i over) in rw (over, done) refl
  | inr more ↦
      let inside : i < count = leb-false→lt count i more in
      let succ : i + 1 ≡ suc i = omega arith in
      let ih = scan_loop-any rounds (suc i) count list path full (omega arith) in
      elim (Bool-cases (ltb i (length list))) [
        | inl there ↦
            let (e, found, rest) = get_elem?-drop i list (ltb→lt _ _ there) in
            let next : count - i ≡ suc (count - suc i) = omega arith in
            let fits : IsFull e = (rw rest at (All-drop IsFull i list full)).0 in
            rw (more, found, entry_hits-matches path e fits, next, rest, succ, ih) (ground arith)
        | inr missing ↦
            let past : length list ≤ i = ltb-false→le _ _ missing in
            rw
              (
                more,
                get_elem?-none i list past,
                succ,
                ih,
                drop_of_length-le i list past,
                drop_of_length-le (suc i) list (omega arith),
                take-nil,
                take-nil,
              )
              refl
      ]
]

active_count-le : (counts : List ℕ) → active_count counts ≤ 0 + path_deny_max_entries
active_count-le [] = omega arith
active_count-le (c ∷ cs) = ground arith

-- If every stored entry has its 32 bytes, the kernel's `is_blacklisted_path` does not panic, and
-- is the user-space matcher on the active entries.
pub is_blacklisted_path-any :
    (m : Maps) (path : Bytes)
    → All IsFull m.path_deny_list
    → is_blacklisted_path m path
      ≡ some (any (λ e. matches e path) (take (active_count m.path_deny_count) m.path_deny_list))
unfolding is_blacklisted_path
is_blacklisted_path-any m path full =
    let n = active_count m.path_deny_count in
    let whole : n - 0 ≡ n = omega arith in
    rw whole at (
      scan_loop-any path_deny_max_entries 0 n m.path_deny_list path full
        (active_count-le m.path_deny_count))
