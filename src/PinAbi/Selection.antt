-- ===== src/PinAbi/Selection.antt =====
-- apps/agent-ebpf-sensor/src/pin_abi.rs: which staging directory is chosen, and under which name the
-- next one is made.
use mathlib.Core.Bool.{and-eq-true_iff}
use neuromesh.Prelude.{
  ℕ_discrete, ℕ, zero, suc, ◌+◌, ◌≤◌, ◌<◌, ◌≡◌, refl, ◌∙◌, ap, ◌≢◌, inl, inr, Bool, true, ◌&&◌,
  ◌||◌, Option, none, some, List, [], ◌∷◌, map, arith, leb, any, Bool-cases, Option-cases,
}
use neuromesh.Prelude.Result.{ok}
use neuromesh.Bytes.{Bytes, bytes_eq, bytes_eq_iff, Bytes-discrete}
use neuromesh.HashTable.{get, is_some, is_some-true}
use neuromesh.PinAbi.Disk.{top, under, FilePath-discrete, dir, Nodes, at, exists, is_dir}
use neuromesh.PinAbi.Names.{
  path_deny_list_map, path_deny_count_map, legacy_abi_numeric_suffix, legacy_dir_name, decimal,
  parse_u32,
}
use neuromesh.PinAbi.Staging.{
  insert_by, sort_by, bytes_le, top_names, read_dir_names, numbered_dirs, list_legacy_abi_dirs,
  consider, select_loop, select_deny_legacy_dir, has_list, has_count, next_name,
  next_legacy_dir_name,
}

-- The name of a deny staging directory.
abbrev pub IsNumbered : Bytes → Type 0
IsNumbered d = (n : ℕ) × (legacy_abi_numeric_suffix d ≡ some n)

-- No deny pin lies in this directory.
abbrev pub HoldsNone : Nodes → Bytes → Type 0
HoldsNone nodes d =
    (at (under d path_deny_list_map) nodes ≡ none) × (at (under d path_deny_count_map) nodes ≡ none)

module _ {A : Type 0} (p : A → Bool) (le : A → A → Bool) where
  any-insert_by : (a : A) (xs : List A) → any p (insert_by le a xs) ≡ (p a || any p xs)
  unfolding insert_by
  any-insert_by a [] = refl
  any-insert_by a (x ∷ xs) = ground (arith, any-insert_by a xs)

  any-sort_by : (xs : List A) → any p (sort_by le xs) ≡ any p xs
  unfolding sort_by
  any-sort_by [] = refl
  any-sort_by (x ∷ xs) = any-insert_by x (sort_by le xs) ∙ ap (λ b. p x || b) (any-sort_by xs)

any-map :
    {A B : Type 0} (p : B → Bool) (f : A → B) (xs : List A)
    → any p (map f xs) ≡ any (λ a. p (f a)) xs
any-map p f [] = refl
any-map p f (x ∷ xs) = ap (λ b. p (f x) || b) (any-map p f xs)

abbrev is_name : Bytes → Bytes → Bool
is_name d name = bytes_eq name d

any-top_names :
    (d : Bytes) (nodes : Nodes) → any (is_name d) (top_names nodes) ≡ is_some (at (top d) nodes)
unfolding get FilePath-discrete
any-top_names d [] = refl
any-top_names d ((top name, node) ∷ nodes) =
    ground (arith, any-top_names d nodes, bytes_eq_iff name d)
any-top_names d ((under e name, node) ∷ nodes) = any-top_names d nodes

module _ (d : Bytes) (nodes : Nodes) (numbered : IsNumbered d)
    (there : at (top d) nodes ≡ some dir) where
  any-numbered_dirs :
      (names : List Bytes)
      → any (λ e. is_name d e.1) (numbered_dirs nodes names) ≡ any (is_name d) names
  unfolding numbered_dirs is_dir
  any-numbered_dirs [] = refl
  any-numbered_dirs (name ∷ names) = elim (Bool-cases (bytes_eq name d)) [
    | inl same ↦
        let e = (bytes_eq_iff name d).0 same in
        ground (
          arith,
          any-numbered_dirs names,
          there,
          numbered.1,
          ap legacy_abi_numeric_suffix e,
          ap (λ x. at (top x) nodes) e,
        )
    | inr other ↦ ground (arith, any-numbered_dirs names)
  ]

  -- A staging directory is listed.
  any-list_legacy_abi_dirs : any (is_name d) (list_legacy_abi_dirs nodes) ≡ true
  unfolding list_legacy_abi_dirs read_dir_names
  any-list_legacy_abi_dirs =
      any-map {A = ℕ × Bytes} (is_name d) (λ e. e.1) _
      ∙ any-sort_by (λ e. is_name d e.1) (λ a b. leb a.0 b.0)
          (numbered_dirs nodes (read_dir_names nodes))
      ∙ any-numbered_dirs (read_dir_names nodes)
      ∙ any-sort_by (is_name d) bytes_le (top_names nodes)
      ∙ any-top_names d nodes
      ∙ ap is_some there

module _ (nodes : Nodes) where
  consider-skip :
      (best : Option (ℕ × Bytes)) (d : Bytes)
      → (IsNumbered d → HoldsNone nodes d)
      → consider nodes best d ≡ best
  unfolding consider exists
  consider-skip best d empty = elim (Option-cases (legacy_abi_numeric_suffix d)) [
    | inl other ↦ rw (consider, other) refl
    | inr numbered ↦
        let (no_list, no_count) = empty numbered in
        rw (consider, numbered.1, no_list, no_count) refl
  ]

  select_loop-none :
      (dirs : List Bytes)
      → ((d : Bytes) → IsNumbered d → HoldsNone nodes d)
      → select_loop nodes none dirs ≡ none
  unfolding select_loop
  select_loop-none [] empty = refl
  select_loop-none (d ∷ dirs) empty =
      rw (consider-skip none d (empty d)) (select_loop-none dirs empty)

  -- Without a deny pin in a numbered directory none is chosen.
  pub select_deny_legacy_dir-none :
      ((d : Bytes) → IsNumbered d → HoldsNone nodes d) → select_deny_legacy_dir nodes ≡ none
  unfolding select_deny_legacy_dir
  select_deny_legacy_dir-none empty =
      rw (select_deny_legacy_dir, select_loop-none (list_legacy_abi_dirs nodes) empty) refl

  module _ (n : ℕ) (d : Bytes) (numbered : legacy_abi_numeric_suffix d ≡ some n)
      (holds : (has_list nodes d || has_count nodes d) ≡ true)
      (others : (e : Bytes) → IsNumbered e → e ≢ d → HoldsNone nodes e) where
    consider_hit : consider nodes none d ≡ some (n, d)
    unfolding consider
    consider_hit = ground (arith, numbered)

    consider_again : consider nodes (some (n, d)) d ≡ some (n, d)
    unfolding consider
    consider_again = ground (arith, numbered)

    select_loop-kept : (dirs : List Bytes) → select_loop nodes (some (n, d)) dirs ≡ some (n, d)
    unfolding select_loop
    select_loop-kept [] = refl
    select_loop-kept (e ∷ dirs) = elim (Bytes-discrete e d) [
      | yes same ↦ rw (same, consider_again) (select_loop-kept dirs)
      | no differ ↦
          rw (consider-skip (some (n, d)) e (λ is_numbered. others e is_numbered differ))
            (select_loop-kept dirs)
    ]

    select_loop_hit :
        (dirs : List Bytes)
        → any (is_name d) dirs ≡ true
        → select_loop nodes none dirs ≡ some (n, d)
    unfolding select_loop
    select_loop_hit [] h = absurd (cc h)
    select_loop_hit (e ∷ dirs) h = elim (Bytes-discrete e d) [
      | yes same ↦ rw (same, consider_hit) (select_loop-kept dirs)
      | no differ ↦
          rw (consider-skip none e (λ is_numbered. others e is_numbered differ))
            (select_loop_hit dirs (ground (arith, bytes_eq_iff e d)))
    ]

    -- The one numbered directory with a deny pin is chosen.
    pub select_deny_legacy_dir-some :
        at (top d) nodes ≡ some dir → select_deny_legacy_dir nodes ≡ some d
    unfolding select_deny_legacy_dir
    select_deny_legacy_dir-some there =
        rw
          (
            select_deny_legacy_dir,
            select_loop_hit (list_legacy_abi_dirs nodes)
                (any-list_legacy_abi_dirs d nodes (n, numbered) there),
          )
          refl

abbrev reads_back : ℕ → Bool
reads_back n = is_some (legacy_abi_numeric_suffix (legacy_dir_name n))

-- The names that are tried read back as numbered.
names_read_back : ℕ → Bool
names_read_back zero = true
names_read_back (suc tried) = names_read_back tried && reads_back tried

reads_back_tried : (n tried : ℕ) → n < tried → names_read_back tried ≡ true → reads_back n ≡ true
unfolding names_read_back
reads_back_tried n zero below table = absurd (omega arith)
reads_back_tried n (suc tried) below table = elim (ℕ_discrete n tried) [
  | yes last ↦ rw last ((and-eq-true_iff (names_read_back tried) (reads_back tried)).0 table).1
  | no earlier ↦
      reads_back_tried n tried (omega arith)
        ((and-eq-true_iff (names_read_back tried) (reads_back tried)).0 table).0
]

names_table : names_read_back 1025 ≡ true
unfolding names_read_back legacy_abi_numeric_suffix legacy_dir_name decimal parse_u32
names_table = refl

next_name-fresh :
    (left n : ℕ) (nodes : Nodes) (name : Bytes)
    → left + n ≤ 1025
    → next_name left n nodes ≡ ok name
    → IsNumbered name × (at (top name) nodes ≡ none)
unfolding next_name exists
next_name-fresh zero n nodes name bound found = absurd (cc found)
next_name-fresh (suc left) n nodes name bound found =
    elim (Option-cases (at (top (legacy_dir_name n)) nodes)) [
      | inr (node, taken) ↦
          next_name-fresh left (n + 1) nodes name (omega arith) (ground (arith, taken))
      | inl free ↦
          elim (Bool-cases
            (any (λ d. bytes_eq d (legacy_dir_name n)) (list_legacy_abi_dirs nodes))) [
              | inl listed ↦
                  next_name-fresh left (n + 1) nodes name (omega arith) (ground (arith, listed))
              | inr unlisted ↦
                  let same : legacy_dir_name n ≡ name = ground (arith, free, unlisted) in
                  let numbered =
                    is_some-true (legacy_abi_numeric_suffix (legacy_dir_name n))
                      (reads_back_tried n 1025 (omega arith) names_table) in
                  rw (← same) (numbered, free)
            ]
    ]

-- A new staging directory has a numbered name that was free.
pub next_legacy_dir_name-fresh :
    (nodes : Nodes) (name : Bytes)
    → next_legacy_dir_name nodes ≡ ok name
    → IsNumbered name × (at (top name) nodes ≡ none)
unfolding next_legacy_dir_name
next_legacy_dir_name-fresh nodes name found = next_name-fresh 1025 0 nodes name (omega arith) found
