-- ===== src/PinAbi/ProcessMaps.antt =====
-- apps/agent-ebpf-sensor/src/pin_abi.rs: moving process maps of another layout aside touches nothing
-- that the deny list depends on.
use neuromesh.Prelude.{
  ℕ, ◌≡◌, refl, sym, ◌∙◌, ap, ◌≢◌, ◌⊎◌, inl, inr, Bool, true, false, Option, none, some, [], arith,
  Bool-cases,
}
use neuromesh.Prelude.Result.{Result, ok, err, Result-cases}
use neuromesh.Bytes.{Bytes, bytes_eq, bytes_eq_iff, bytes_eq-ne}
use neuromesh.PinAbi.Disk.{
  FilePath, top, under, pin, Nodes, at, Kernel, PinError, Disk, M, ◌>>=◌, pure, change, add_dir,
  rename_node, remove_tree, exists, is_below,
}
use neuromesh.PinAbi.Names.{
  path_deny_list_map, path_deny_count_map, process_events_map, rate_limit_bucket_map,
  legacy_abi_numeric_suffix, proc_dir_name,
}
use neuromesh.PinAbi.Staging.{
  move_aside, recreate_one, recreate_mismatched_process_maps, has_expected_layout,
}
use neuromesh.PinAbi.Changes.{
  Post, >>=-ok, change-nodes, rename_node-others, add_dir-others, remove_tree-others,
}
use neuromesh.PinAbi.Selection.{IsNumbered}
use neuromesh.PinAbi.Layouts.{IsCurrent, has_expected_layout-true, exists-pin, exists-none}

-- The paths that the deny list depends on.
abbrev pub IsDeny : FilePath → Type 0
IsDeny (top name) = (name ≡ path_deny_list_map) ⊎ ((name ≡ path_deny_count_map) ⊎ IsNumbered name)
IsDeny (under d name) = IsNumbered d

abbrev pub SameDeny : Nodes → Nodes → Type 0
SameDeny n m = (p : FilePath) → IsDeny p → at p m ≡ at p n

record Keeps {A : Type 0} (m : M A) : Type 0 where
  keeps : (s : Disk) → SameDeny s.nodes (m s).0.nodes

Keeps-elim :
    {A B : Type 0} (next : A → M B) (n : Nodes) (p : Disk × Result PinError A)
    → SameDeny n p.0.nodes
    → ((a : A) → Keeps (next a))
    → (let r : Disk × Result PinError B = elim p.1 [ ok a ↦ next a p.0 | err e ↦ (p.0, err e) ] in
        SameDeny n r.0.nodes)
Keeps-elim next n (s, ok a) h k q deny = (k a).keeps s q deny ∙ h q deny
Keeps-elim next n (s, err e) h k q deny = h q deny

Keeps-bind :
    {A B : Type 0} {m : M A} {next : A → M B}
    → Keeps m
    → ((a : A) → Keeps (next a))
    → Keeps (m >>= next)
unfolding ◌>>=◌
Keeps-bind {m} {next} h k = record { keeps = λ s. Keeps-elim next s.nodes (m s) (h.keeps s) k }

Keeps-pure : {A : Type 0} {a : A} → Keeps (pure a)
Keeps-pure = record { keeps = λ s p deny. refl }

-- The paths of a process map lie apart from those of the deny list.
record IsApart (name : Bytes) : Type 0 where
  canonical : (p : FilePath) → IsDeny p → top name ≢ p
  staging : (p : FilePath) → IsDeny p → top (proc_dir_name name) ≢ p
  staged : (p : FilePath) → IsDeny p → under (proc_dir_name name) name ≢ p
  outside : (p : FilePath) → IsDeny p → is_below (proc_dir_name name) p ≡ false

top-apart :
    (name : Bytes)
    → name ≢ path_deny_list_map
    → name ≢ path_deny_count_map
    → legacy_abi_numeric_suffix name ≡ none
    → (p : FilePath) → IsDeny p
    → top name ≢ p
top-apart name a b c (top other) (inl e) h = a (cc)
top-apart name a b c (top other) (inr (inl e)) h = b (cc)
top-apart name a b c (top other) (inr (inr (n, e))) h = absurd (cc)
top-apart name a b c (under d other) deny h = absurd (cc)

outside-apart :
    (name : Bytes)
    → ((p : FilePath) → IsDeny p → top name ≢ p)
    → legacy_abi_numeric_suffix name ≡ none
    → (p : FilePath) → IsDeny p
    → is_below name p ≡ false
outside-apart name apart unnumbered (top other) deny = elim (Bool-cases (bytes_eq other name)) [
  | inl same ↦ absurd (apart (top other) deny (ap top (sym ((bytes_eq_iff other name).0 same))))
  | inr differ ↦ differ
]
outside-apart name apart unnumbered (under d other) (n, e) = elim (Bool-cases (bytes_eq d name)) [
  | inl same ↦
      absurd
        (ground (arith, e, unnumbered, ap legacy_abi_numeric_suffix ((bytes_eq_iff d name).0 same)))
  | inr differ ↦ differ
]

under-apart :
    (d name : Bytes)
    → legacy_abi_numeric_suffix d ≡ none
    → (p : FilePath) → IsDeny p
    → under d name ≢ p
under-apart d name unnumbered (top other) deny h = absurd (cc)
under-apart d name unnumbered (under e other) (n, numbered) h = absurd (cc)

IsApart-of :
    (name : Bytes)
    → bytes_eq name path_deny_list_map ≡ false
    → bytes_eq name path_deny_count_map ≡ false
    → legacy_abi_numeric_suffix name ≡ none
    → bytes_eq (proc_dir_name name) path_deny_list_map ≡ false
    → bytes_eq (proc_dir_name name) path_deny_count_map ≡ false
    → legacy_abi_numeric_suffix (proc_dir_name name) ≡ none
    → IsApart name
IsApart-of name a b c a' b' c' =
    let staging = top-apart (proc_dir_name name) (bytes_eq-ne _ _ a') (bytes_eq-ne _ _ b') c' in
    record {
      canonical = top-apart name (bytes_eq-ne _ _ a) (bytes_eq-ne _ _ b) c;
      staging = staging;
      staged = under-apart (proc_dir_name name) name c';
      outside = outside-apart (proc_dir_name name) staging c';
    }

events-IsApart : IsApart process_events_map
unfolding legacy_abi_numeric_suffix
events-IsApart = IsApart-of process_events_map refl refl refl refl refl refl

bucket-IsApart : IsApart rate_limit_bucket_map
unfolding legacy_abi_numeric_suffix
bucket-IsApart = IsApart-of rate_limit_bucket_map refl refl refl refl refl refl

-- A process map is absent or has the expected layout.
abbrev pub Fits : Kernel → Bytes → Nodes → Type 0
Fits kernel name n =
    (at (top name) n ≡ none)
    ⊎ ((id : ℕ) × (at (top name) n ≡ some (pin id)) × IsCurrent kernel name id)

abbrev pub ProcessMapsFit : Kernel → Nodes → Type 0
ProcessMapsFit kernel n = Fits kernel process_events_map n × Fits kernel rate_limit_bucket_map n

Post-of :
    {A : Type 0} {P : Nodes → Type 0} {X : Type 0} (p : Disk × Result PinError A)
    → P p.0.nodes
    → ((e : PinError) → p.1 ≡ err e → X)
    → Post (λ _ n. P n) (λ e n. P n × X) p
Post-of (s, ok a) h k = record { holds = h }
Post-of (s, err e) h k = record { holds = (h, k e refl) }

module _ (kernel : Kernel) (allows : ℕ → Bool) where
  change-Keeps :
      (f : Nodes → Option Nodes)
      → ((n m : Nodes) → f n ≡ some m → SameDeny n m)
      → Keeps (change allows f)
  change-Keeps f same = record {
    keeps = λ s p deny. elim (change-nodes allows f s) [
      | inl unchanged ↦ ap (at p) unchanged
      | inr done ↦ same s.nodes (change allows f s).0.nodes done p deny
    ];
  }

  move_aside-Keeps : (name : Bytes) → IsApart name → Keeps (move_aside allows kernel name)
  unfolding move_aside
  move_aside-Keeps name apart =
      let proc = proc_dir_name name in
      let removed =
        change-Keeps (remove_tree proc)
          (λ n m done p deny. remove_tree-others proc n m done p (apart.outside p deny)) in
      let created =
        change-Keeps (add_dir proc)
          (λ n m done p deny. add_dir-others proc n m done p (apart.staging p deny)) in
      let renamed = change-Keeps (rename_node (top name) (under proc name)) (λ n m done p deny.
        rename_node-others (top name) (under proc name) n m done p (apart.canonical p deny)
          (apart.staged p deny)) in
      Keeps-bind
        (Keeps-bind (Keeps-bind (record { keeps = removed.keeps }) (λ _. created)) (λ _. renamed))
        (λ _. Keeps-pure)

  recreate_one-Keeps : (name : Bytes) → IsApart name → Keeps (recreate_one allows kernel name)
  unfolding recreate_one
  recreate_one-Keeps name apart = record {
    keeps = λ s p deny. elim (Bool-cases (exists (top name) s.nodes)) [
      | inr absent ↦ rw (recreate_one, absent) refl
      | inl there ↦ elim (Result-cases (has_expected_layout kernel name s.nodes)) [
        | inr (e, unreadable) ↦ rw (recreate_one, there, unreadable) refl
        | inl (true, fits) ↦ rw (recreate_one, there, fits) refl
        | inl (false, differs) ↦
            rw (recreate_one, there, differs) ((move_aside-Keeps name apart).keeps s p deny)
      ]
    ];
  }

  recreate-Keeps : Keeps (recreate_mismatched_process_maps allows kernel)
  unfolding recreate_mismatched_process_maps
  recreate-Keeps = Keeps-bind (recreate_one-Keeps process_events_map events-IsApart) (λ removed.
      Keeps-bind (recreate_one-Keeps rate_limit_bucket_map bucket-IsApart) (λ also. Keeps-pure))

  recreate_one-Fits :
      (name : Bytes) (s : Disk)
      → Fits kernel name s.nodes
      → recreate_one allows kernel name s ≡ (s, ok [])
  unfolding recreate_one
  recreate_one-Fits name s (inl absent) =
      rw (recreate_one, exists-none (top name) s.nodes absent) refl
  recreate_one-Fits name s (inr (id, there, fits)) =
      rw
        (
          recreate_one,
          exists-pin (top name) (pin id) s.nodes there,
          has_expected_layout-true kernel name id s.nodes there fits,
        )
        refl

  pub recreate-Fits :
      (s : Disk)
      → ProcessMapsFit kernel s.nodes
      → recreate_mismatched_process_maps allows kernel s ≡ (s, ok [])
  unfolding recreate_mismatched_process_maps
  recreate-Fits s (events, bucket) =
      >>=-ok _ _ s s [] (recreate_one-Fits process_events_map s events)
      ∙ >>=-ok _ _ s s [] (recreate_one-Fits rate_limit_bucket_map s bucket)

  -- Whatever is refused, what the deny list depends on is kept; process maps that fit cause no
  -- failure.
  pub recreate_mismatched_process_maps-Post :
      (s : Disk)
      → Post
          (λ _ n. SameDeny s.nodes n)
          (λ e n. SameDeny s.nodes n × ¬ ProcessMapsFit kernel s.nodes)
          (recreate_mismatched_process_maps allows kernel s)
  recreate_mismatched_process_maps-Post s =
      Post-of (recreate_mismatched_process_maps allows kernel s) (recreate-Keeps.keeps s)
        (λ e failed fit. absurd (cc (sym failed ∙ ap (λ r. r.1) (recreate-Fits s fit))))
