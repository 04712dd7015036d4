-- ===== src/PathDeny/Bootstrap.antt =====
-- Entries built from prefixes deny what the prefixes say; the bootstrap list is the historical set.
use neuromesh.Prelude.{
  ◌≡◌, refl, sym, ap, ◌∙◌, inl, inr, Bool, ◌||◌, List, [], ◌∷◌, arith, Bool-cases, Option-cases,
  ltb, ltb→lt, ltb-false→le, length, replicate, copy_prefix, any, All,
}
use neuromesh.Prelude.Result.{ok, Result-cases}
use neuromesh.Bytes.{Bytes, codes, starts_with, zip_eq-starts_with}
use neuromesh.DenyEntry.{
  PathDenyEntry, IsValid, from_prefix, matches, path_deny_key_bytes, bootstrap_path_deny_prefixes,
}
use neuromesh.DenyEntry.Matching.{from_prefix-IsValid, matches-starts_with, starts_with_short}
use neuromesh.PathDeny.{
  map_backed_is_blacklisted, slice_starts_with, legacy_hardcoded_is_blacklisted, build_entries,
  bootstrap_entries,
}

slice_starts_with-starts_with :
    (path prefix : Bytes) → slice_starts_with path prefix ≡ starts_with path prefix
slice_starts_with-starts_with path prefix = elim (Bool-cases (ltb (length path) (length prefix))) [
  | inl short ↦ rw short (sym (starts_with_short path prefix (ltb→lt _ _ short)))
  | inr long ↦ rw long (zip_eq-starts_with path prefix (ltb-false→le _ _ long))
]

-- If every prefix is accepted, every built entry is valid, and the list denies exactly the paths
-- that start with one of the prefixes.
pub build_entries-any :
    (prefixes : List Bytes) (es : List PathDenyEntry)
    → build_entries prefixes ≡ ok es
    → All IsValid es
      × ((path : Bytes) → map_backed_is_blacklisted path es ≡ any (starts_with path) prefixes)
unfolding build_entries map_backed_is_blacklisted
build_entries-any [] es h = let same : es ≡ [] = cc in rw same (tt, λ path. refl)
build_entries-any (p ∷ ps) es h = elim (Option-cases (from_prefix p)) [
  | inl missing ↦ absurd (ground arith)
  | inr (e, built) ↦ elim (Result-cases (build_entries ps)) [
    | inr (x, failed) ↦ absurd (ground arith)
    | inl (tail, rest) ↦
        let same : es ≡ e ∷ tail = ground arith in
        let (valid, holds) = from_prefix-IsValid p e built in
        let (valids, denies) = build_entries-any ps tail rest in
        rw same (
          (valid, valids),
          λ path.
              let here : matches e path ≡ starts_with path p =
                matches-starts_with e path valid ∙ ap (starts_with path) holds in
              rw (here, denies path) refl,
        )
  ]
]

-- The entries that the bootstrap list has.
abbrev stored : Bytes → PathDenyEntry
stored prefix = record {
  len = length prefix;
  bytes = copy_prefix (replicate path_deny_key_bytes 0) prefix;
}

abbrev pub bootstrap_list : List PathDenyEntry
bootstrap_list =
    stored (codes "/tmp/") ∷ stored (codes "/dev/shm/") ∷ stored (codes "/var/tmp/") ∷ []

bootstrap_built : build_entries bootstrap_path_deny_prefixes ≡ ok bootstrap_list
unfolding build_entries from_prefix
bootstrap_built = refl

pub bootstrap_entries_lem : bootstrap_entries ≡ ok bootstrap_list
unfolding bootstrap_entries
bootstrap_entries_lem = rw (bootstrap_built, bootstrap_entries) refl

any-or : (f : Bytes → Bool) (a b c : Bytes) → any f (a ∷ b ∷ c ∷ []) ≡ (f a || f b || f c)
any-or f a b c = ground arith

-- The entries of the bootstrap list are valid, and it denies exactly the paths that the
-- hardcoded check denied.
pub bootstrap_entries-legacy :
    (path : Bytes) (es : List PathDenyEntry)
    → bootstrap_entries ≡ ok es
    → All IsValid es × (map_backed_is_blacklisted path es ≡ legacy_hardcoded_is_blacklisted path)
unfolding legacy_hardcoded_is_blacklisted
bootstrap_entries-legacy path es h =
    let same : es ≡ bootstrap_list = cc bootstrap_entries_lem in rw same bootstrap_list-legacy
  where
    bootstrap_list-legacy :
        All IsValid bootstrap_list
        × (map_backed_is_blacklisted path bootstrap_list ≡ legacy_hardcoded_is_blacklisted path)
    bootstrap_list-legacy =
        let (valid, denies) =
          build_entries-any bootstrap_path_deny_prefixes bootstrap_list bootstrap_built in
        (
          valid,
          denies path
              ∙ rw
                  (
                    slice_starts_with-starts_with path (codes "/tmp/"),
                    slice_starts_with-starts_with path (codes "/dev/shm/"),
                    slice_starts_with-starts_with path (codes "/var/tmp/"),
                  )
                  (any-or (starts_with path) (codes "/tmp/") (codes "/dev/shm/")
                    (codes "/var/tmp/")),
        )
