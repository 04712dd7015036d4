-- ===== src/PinAbi/Reused.antt =====
-- apps/agent-ebpf-sensor/src/pin_abi.rs: which deny pins the loader can meet at the canonical names
-- after a preparation that succeeded. The loader reuses them without looking at their layout.
use neuromesh.Prelude.{
  ℕ, ◌≡◌, refl, sym, ◌∙◌, ◌≢◌, ◌⊎◌, inl, inr, Bool, true, false, Option, none, some, List, arith,
  Bool-cases, Option-cases,
}
use neuromesh.Prelude.Result.{ok, Result-cases}
use neuromesh.Bytes.{Bytes}
use neuromesh.HashTable.{get-insert_ne, get-remove_self}
use neuromesh.DenyEntry.{PathDenyEntry}
use neuromesh.PinAbi.Disk.{
  FilePath-discrete, FilePath, top, under, Nodes, at, Kernel, PinError, Disk, ◌>>=◌, pure, change,
  add_dir, rename_node, remove_pin, read_deny_count, read_legacy_deny_entries_at,
}
use neuromesh.PinAbi.Names.{path_deny_list_map, path_deny_count_map}
use neuromesh.PinAbi.Staging.{
  next_legacy_dir_name, require_deny_pins, stage_legacy_deny_pins, recreate_mismatched_process_maps,
}
use neuromesh.PinAbi.Prepare.{
  Prepared, bootstrap_entries_fallback, DenySeedOverride, bootstrap, resume_pinned,
  migrated_entries, migrate,
}
use neuromesh.PinAbi.Changes.{Post, Post-bind, Post-imp, Post-read, Post-pure, rename_node-others}
use neuromesh.PinAbi.States.{IsPinned}
use neuromesh.PinAbi.ProcessMaps.{SameDeny, recreate_mismatched_process_maps-Post}
use neuromesh.PinAbi.Apart.{top-ne, top-ne-under, list-ne-count}
use neuromesh.PinAbi.Phases.{IsFree}

-- Nothing is said of a failure.
abbrev pub Anyhow : PinError → Nodes → Type 0
Anyhow e n = Unit

pub rename_node-left :
    (source target : FilePath) (n m : Nodes)
    → rename_node source target n ≡ some m
    → target ≢ source
    → at source m ≡ none
unfolding rename_node
rename_node-left source target n m done differ = grind (arith, get-insert_ne, get-remove_self)

pub remove_pin-gone : (p : FilePath) (n m : Nodes) → remove_pin p n ≡ some m → at p m ≡ none
unfolding remove_pin
remove_pin-gone p n m done = ground (arith, get-remove_self FilePath-discrete p n)

pub read_deny_count-same :
    (kernel : Kernel) (p : FilePath) (n m : Nodes)
    → at p m ≡ at p n
    → read_deny_count kernel p m ≡ read_deny_count kernel p n
unfolding read_deny_count
read_deny_count-same kernel p n m same = rw (read_deny_count, same) refl

module _ (kernel : Kernel) where
  -- What a preparation leaves at the two canonical names, by the seed that it hands out.
  abbrev pub IsPrepared : DenySeedOverride → Nodes → Type 0
  IsPrepared bootstrap n = IsFree n
  IsPrepared resume_pinned n =
      IsPinned kernel path_deny_list_map n × IsPinned kernel path_deny_count_map n
  IsPrepared (migrated_entries entries true) n = IsFree n
  IsPrepared (migrated_entries entries false) n =
      (at (top path_deny_list_map) n ≡ none)
      × ((at (top path_deny_count_map) n ≡ none)
          ⊎ ((active : ℕ) × (read_deny_count kernel (top path_deny_count_map) n ≡ ok active)
              × (active ≢ 0)))

  pub IsPrepared-same :
      (seed : DenySeedOverride) (n m : Nodes)
      → at (top path_deny_list_map) m ≡ at (top path_deny_list_map) n
      → at (top path_deny_count_map) m ≡ at (top path_deny_count_map) n
      → IsPrepared seed n
      → IsPrepared seed m
  IsPrepared-same bootstrap n m list count (a, b) = (list ∙ a, count ∙ b)
  IsPrepared-same resume_pinned n m list count ((i, a, fits), (j, b, fits')) =
      ((i, list ∙ a, fits), (j, count ∙ b, fits'))
  IsPrepared-same (migrated_entries entries true) n m list count (a, b) = (list ∙ a, count ∙ b)
  IsPrepared-same (migrated_entries entries false) n m list count (a, inl b) =
      (list ∙ a, inl (count ∙ b))
  IsPrepared-same (migrated_entries entries false) n m list count
        (a, inr (active, read_as, some_active)) =
      (
        list ∙ a,
        inr (
          active,
          read_deny_count-same kernel (top path_deny_count_map) n m count ∙ read_as,
          some_active,
        ),
      )

  pub IsFree-IsPrepared :
      (entries : List PathDenyEntry) (from_legacy : Bool) (n : Nodes)
      → IsFree n
      → IsPrepared (migrated_entries entries from_legacy) n
  IsFree-IsPrepared entries true n free = free
  IsFree-IsPrepared entries false n (list, count) = (list, inl count)

  module _ (allows : ℕ → Bool) where
    pub done-Post :
        (f : Nodes → Option Nodes) (s : Disk)
        → Post (λ _ m. f s.nodes ≡ some m) Anyhow (change allows f s)
    unfolding change
    done-Post f s = elim (Option-cases (f s.nodes)) [
      | inl impossible ↦ rw (change, impossible) (record { holds = tt })
      | inr (m, done) ↦ elim (Bool-cases (allows s.changes)) [
        | inl taken ↦ rw (change, done, taken) (record { holds = refl })
        | inr refused ↦ rw (change, done, refused) (record { holds = tt })
      ]
    ]

    pub recreate-SameDeny :
        (s : Disk)
        → Post (λ _ m. SameDeny s.nodes m) Anyhow (recreate_mismatched_process_maps allows kernel s)
    recreate-SameDeny s =
        Post-imp _ (λ _ m same. same) (λ _ _ _. tt)
          (recreate_mismatched_process_maps-Post kernel allows s)

    pub recreate-IsPrepared :
        (s : Disk) (next : List Bytes → Prepared)
        → ((removed : List Bytes) → IsPrepared (next removed).0 s.nodes)
        → Post
            (λ r n. IsPrepared r.0 n)
            Anyhow
            ((recreate_mismatched_process_maps allows kernel >>= λ removed. pure (next removed)) s)
    recreate-IsPrepared s next prepared = Post-bind _ _ s (recreate-SameDeny s) (λ removed t same.
        Post-pure _ t (
          IsPrepared-same (next removed).0 s.nodes t.nodes
            (same (top path_deny_list_map) (inl refl))
            (same (top path_deny_count_map) (inr (inl refl))) (prepared removed)))

    stage-IsFree : (s : Disk) → Post (λ _ n. IsFree n) Anyhow (stage_legacy_deny_pins allows s)
    unfolding stage_legacy_deny_pins
    stage-IsFree s =
        Post-bind {Q = λ _ _. Unit {0}} _ _ s
          (Post-read next_legacy_dir_name s (λ _ _. tt) (λ _ _. tt))
          (λ d s _. Post-bind _ _ s (done-Post (add_dir d) s) (λ _ s _.
            Post-bind {Q = λ _ _. Unit {0}} _ _ s
              (Post-read require_deny_pins s (λ _ _. tt) (λ _ _. tt))
              (λ _ s _.
                Post-bind _ _ s
                  (done-Post (rename_node (top path_deny_count_map) (under d path_deny_count_map))
                    s)
                  (λ _ t count.
                    Post-bind _ _ t
                      (done-Post (rename_node (top path_deny_list_map) (under d path_deny_list_map))
                        t)
                      (λ _ u list. Post-pure d u (
                        rename_node-left (top path_deny_list_map) (under d path_deny_list_map)
                            t.nodes u.nodes list (λ e. top-ne-under (sym e)),
                        rename_node-others (top path_deny_list_map) (under d path_deny_list_map)
                              t.nodes u.nodes list (top path_deny_count_map) (top-ne list-ne-count)
                              (λ e. top-ne-under (sym e))
                            ∙ rename_node-left (top path_deny_count_map)
                                (under d path_deny_count_map) s.nodes t.nodes count
                                (λ e. top-ne-under (sym e)),
                      ))))))

    pub migrate-IsPrepared :
        (s : Disk) → Post (λ r n. IsPrepared r.0 n) Anyhow (migrate kernel allows s)
    unfolding migrate
    migrate-IsPrepared s =
        elim (Result-cases (
          read_legacy_deny_entries_at kernel (top path_deny_list_map) (top path_deny_count_map)
            s.nodes)) [
              | inl (entries, found) ↦
                  rw (migrate, found)
                    (Post-bind _ _ s (stage-IsFree s)
                      (λ d s free. recreate-IsPrepared s (λ removed. _) (λ removed. free)))
              | inr (e, failed) ↦
                  rw (migrate, failed)
                    (Post-bind _ _ s (stage-IsFree s) (λ d s free.
                      Post-bind _ _ s (recreate-SameDeny s) (λ removed t same.
                        Post-bind {Q = λ _ n. IsFree n} _ _ t
                          (Post-read (λ _. bootstrap_entries_fallback) t
                            (λ _ _. (
                              same (top path_deny_list_map) (inl refl) ∙ free.0,
                              same (top path_deny_count_map) (inr (inl refl)) ∙ free.1,
                            ))
                            (λ _ _. tt))
                          (λ entries u free.
                            Post-pure _ u (IsFree-IsPrepared entries false u.nodes free)))))
            ]
