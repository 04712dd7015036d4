-- ===== src/PinAbi/Recovery.antt =====
-- apps/agent-ebpf-sensor/src/pin_abi.rs: a migration that was interrupted anywhere still has the old
-- deny list, and the next run that is not interrupted hands it out.
use neuromesh.Prelude.{
  ℕ, ◌≡◌, refl, ◌∙◌, ◌≢◌, inl, inr, Bool, true, none, some, List, [], ◌∷◌, ◌++◌,
}
use neuromesh.Prelude.Result.{ok}
use neuromesh.Bytes.{Bytes}
use neuromesh.DenyEntry.{PathDenyEntry}
use neuromesh.PinAbi.Disk.{
  FilePath, top, under, pin, Nodes, at, Kernel, PinError, Disk, ◌>>=◌, pure, remove_pin,
  legacy_entries, read_legacy_deny_entries_at,
}
use neuromesh.PinAbi.Names.{path_deny_list_map, path_deny_count_map}
use neuromesh.PinAbi.Staging.{
  next_legacy_dir_name, resolve_deny_pin_locations, locate, recreate_mismatched_process_maps,
}
use neuromesh.PinAbi.Prepare.{
  Prepared, migrated_entries, migrated, free_name, free_names, canonical_count, resume_read, resume,
  migrate, migration_in_progress, prepare_state, recreated,
}
use neuromesh.PinAbi.Changes.{Post, Post-bind, Post-imp, Post-read, Post-pure, remove_pin-Removed}
use neuromesh.PinAbi.Selection.{IsNumbered}
use neuromesh.PinAbi.Layouts.{read_deny_count-pin, exists-pin, exists-none}
use neuromesh.PinAbi.ProcessMaps.{SameDeny, Fits, recreate_mismatched_process_maps-Post}
use neuromesh.PinAbi.Apart.{
  top-ne, numbered-ne-list, numbered-ne-count, list-ne-count, count-ne-list, IsProcess,
  list-ne-process, count-ne-process,
}
use neuromesh.PinAbi.Phases.{
  IsFree, Fits-same, IsFresh-same, ProcessMapsFit-same, Canonical, Staged, staged, IsFresh,
  Staged-changed, Staged-same,
}
use neuromesh.PinAbi.Resume.{
  Failed, Fit, step, Half, stage_legacy_deny_pins-Post, complete_interrupted_deny_stage-Post,
}

read_legacy-pins :
    (kernel : Kernel) (p q : FilePath) (list_id count_id : ℕ) (n : Nodes)
    → at p n ≡ some (pin list_id)
    → at q n ≡ some (pin count_id)
    → read_legacy_deny_entries_at kernel p q n ≡ legacy_entries kernel list_id count_id
unfolding read_legacy_deny_entries_at
read_legacy-pins kernel p q list_id count_id n there also =
    rw (read_legacy_deny_entries_at, there, also) refl

-- What a run that succeeds leaves, whatever it did to the process maps.
abbrev pub Migrated : Kernel → ℕ → ℕ → List PathDenyEntry → Prepared → Nodes → Type 0
Migrated kernel list_id count_id entries (seed, results) n =
    (seed ≡ migrated_entries entries true)
    × (d : Bytes) × Staged kernel list_id count_id d n
    × IsFree n

module _ (kernel : Kernel) (allows : ℕ → Bool) (list_id count_id : ℕ) (entries : List PathDenyEntry)
    (ready : Type 0) where
  abbrev pub Held : Bytes → Nodes → Type 0
  Held d n = Staged kernel list_id count_id d n × Fit kernel allows list_id count_id ready n

  abbrev pub Fails : PinError → Nodes → Type 0
  Fails = Failed kernel allows list_id count_id ready

  canonical_count-zero :
      (d : Bytes) (n : Nodes)
      → Staged kernel list_id count_id d n
      → canonical_count kernel d n ≡ ok 0
  unfolding canonical_count
  canonical_count-zero d n st = elim st.new_count [
    | inl absent ↦ rw (canonical_count, exists-none (top path_deny_count_map) n absent) refl
    | inr (id, there, current, empty) ↦
        rw
          (
            canonical_count,
            exists-pin (top path_deny_count_map) (pin id) n there,
            exists-pin (under d path_deny_count_map) (pin count_id) n st.count,
          )
          (read_deny_count-pin kernel (top path_deny_count_map) id n there ∙ empty)
  ]

  -- A canonical name is freed when its pin has a staged copy.
  free_name-Post :
      (d name : Bytes) (id : ℕ) (s : Disk)
      → Held d s.nodes
      → at (under d name) s.nodes ≡ some (pin id)
      → Fits kernel name s.nodes
      → (IsNumbered d → d ≢ name)
      → ((other : Bytes) → IsProcess other → name ≢ other)
      → ((m : Nodes)
          → at (top name) m ≡ none
          → ((q : FilePath) → top name ≢ q → at q m ≡ at q s.nodes)
          → Fits kernel path_deny_list_map m × IsFresh kernel m)
      → Post
          (λ _ m.
            Held d m
            × (at (top name) m ≡ none)
            × ((q : FilePath) → top name ≢ q → at q m ≡ at q s.nodes))
          Fails
          (free_name allows d name s)
  unfolding free_name
  free_name-Post d name id s (st, fit) copy (inl absent) numbered_apart process_apart rest =
      rw (free_name, exists-none (top name) s.nodes absent)
        (record { holds = ((st, fit), absent, λ q differ. refl) })
  free_name-Post d name id s (st, fit) copy (inr (new, there, current)) numbered_apart process_apart
        rest =
      let (m, done, gone, same) = remove_pin-Removed (top name) s.nodes new there in
      let (new_list, new_count) = rest m gone same in
      rw
        (
          free_name,
          exists-pin (top name) (pin new) s.nodes there,
          exists-pin (under d name) (pin id) s.nodes copy,
        )
        (step kernel allows list_id count_id ready _ (remove_pin (top name)) s m done (staged d st)
          (
            (
              Staged-changed kernel list_id count_id d name s.nodes m numbered_apart same new_list
                  new_count st,
              λ is_ready.
                  ProcessMapsFit-same kernel s.nodes m
                    (λ other process. same (top other) (top-ne (process_apart other process)))
                    (fit is_ready),
            ),
            gone,
            same,
          ))

  -- A fresh count map has the expected layout.
  IsFresh-Fits : (n : Nodes) → IsFresh kernel n → Fits kernel path_deny_count_map n
  IsFresh-Fits n (inl absent) = inl absent
  IsFresh-Fits n (inr (id, there, current, empty)) = inr (id, there, current)

  free_names-Post :
      (d : Bytes) (s : Disk)
      → Held d s.nodes
      → Post (λ _ n. Held d n × IsFree n) Fails (free_names allows d s)
  free_names-Post d s (st, fit) =
      Post-bind _ _ s
        (free_name-Post d path_deny_list_map list_id s (st, fit) st.list st.new_list
          numbered-ne-list (λ other. list-ne-process)
          (λ m gone same. (
            inl gone,
            IsFresh-same kernel s.nodes m (same (top path_deny_count_map) (top-ne list-ne-count))
                st.new_count,
          )))
        (λ _ s ((st, fit), gone, _).
          Post-imp _
            (λ _ m (held, gone_too, same).
              (held, (same (top path_deny_list_map) (top-ne count-ne-list) ∙ gone, gone_too)))
            (λ e m failed. failed)
            (free_name-Post d path_deny_count_map count_id s (st, fit) st.count
              (IsFresh-Fits s.nodes st.new_count) numbered-ne-count (λ other. count-ne-process)
              (λ m gone same. (
                Fits-same kernel path_deny_list_map s.nodes m
                    (same (top path_deny_list_map) (top-ne count-ne-list)) st.new_list,
                inl gone,
              ))))

  abbrev Done : Prepared → Nodes → Type 0
  Done (seed, results) n =
      (seed ≡ migrated_entries entries true) × (d : Bytes) × Held d n × IsFree n

  resume_read-Post :
      (d : Bytes) (s : Disk)
      → Held d s.nodes
      → Post Done Fails (resume_read kernel allows d entries s)
  unfolding resume_read
  resume_read-Post d s held =
      Post-bind {Q = λ active n. Held d n × (active ≡ 0)} _ _ s
        (Post-read (canonical_count kernel d) s
          (λ active found. (held, cc (found, canonical_count-zero d s.nodes held.0)))
          (λ e failed. absurd (cc (failed, canonical_count-zero d s.nodes held.0))))
        (λ active s (held, zero).
          Post-bind {Q = λ _ n. Held d n × IsFree n} _ _ s (rw zero (free_names-Post d s held))
            (λ _ s (held, free). Post-pure _ s (refl, d, held, free)))

  resolve-Staged :
      (d : Bytes) (n : Nodes)
      → Staged kernel list_id count_id d n
      → resolve_deny_pin_locations d n
        ≡ ok (record { list = under d path_deny_list_map; count = under d path_deny_count_map })
  unfolding resolve_deny_pin_locations locate
  resolve-Staged d n st =
      rw
        (
          resolve_deny_pin_locations,
          locate,
          exists-pin (under d path_deny_list_map) (pin list_id) n st.list,
          exists-pin (under d path_deny_count_map) (pin count_id) n st.count,
        )
        refl

  module _ (readable : legacy_entries kernel list_id count_id ≡ ok entries) where
    resume-Post :
        (d : Bytes) (s : Disk)
        → Half kernel allows list_id count_id ready d s.nodes
        → Fit kernel allows list_id count_id ready s.nodes
        → Post Done Fails (resume kernel allows d s)
    unfolding resume
    resume-Post d s half fit =
        Post-bind _ _ s
          (complete_interrupted_deny_stage-Post kernel allows list_id count_id ready d s half fit)
          (λ _ s (st, fit).
            Post-bind
              {Q = λ locations n.
                Held d n
                × (locations ≡ record {
                  list = under d path_deny_list_map;
                  count = under d path_deny_count_map;
                })}
              _ _ s
              (Post-read (resolve_deny_pin_locations d) s
                (λ locations found. ((st, fit), cc (found, resolve-Staged d s.nodes st)))
                (λ e failed. absurd (cc (failed, resolve-Staged d s.nodes st))))
              (λ locations s ((st, fit), same).
                rw
                  (
                    same,
                    read_legacy-pins kernel (under d path_deny_list_map)
                        (under d path_deny_count_map) list_id count_id s.nodes st.list st.count,
                    readable,
                  )
                  (resume_read-Post d s (st, fit))))

    IsFree-same : (n m : Nodes) → SameDeny n m → IsFree n → IsFree m
    IsFree-same n m same (list, count) = (
      same (top path_deny_list_map) (inl refl) ∙ list,
      same (top path_deny_count_map) (inr (inl refl)) ∙ count,
    )

    -- The process maps are recreated after the pins are staged.
    recreate-Migrated :
        (d : Bytes) (s : Disk) (next : List Bytes → Prepared)
        → Held d s.nodes
        → IsFree s.nodes
        → ((removed : List Bytes) → (next removed).0 ≡ migrated_entries entries true)
        → Post
            (Migrated kernel list_id count_id entries)
            Fails
            ((recreate_mismatched_process_maps allows kernel >>= λ removed. pure (next removed)) s)
    recreate-Migrated d s next (st, fit) free seeds =
        Post-bind {Q = λ _ n. Staged kernel list_id count_id d n × IsFree n} _ _ s
          (Post-imp (recreate_mismatched_process_maps allows kernel s)
            (λ _ m same. (
              Staged-same kernel list_id count_id d s.nodes m same st,
              IsFree-same s.nodes m same free,
            ))
            (λ e m (same, unfit). (
              staged d (Staged-same kernel list_id count_id d s.nodes m same st),
              λ is_ready. absurd (unfit (fit is_ready)),
            ))
            (recreate_mismatched_process_maps-Post kernel allows s))
          (λ removed s (st, free). Post-pure _ s (seeds removed, d, st, free))

    pub migrate-Post :
        (s : Disk)
        → Canonical kernel list_id count_id s.nodes
        → Fit kernel allows list_id count_id ready s.nodes
        → (ready → (d : Bytes) × (next_legacy_dir_name s.nodes ≡ ok d))
        → Post (Migrated kernel list_id count_id entries) Fails (migrate kernel allows s)
    unfolding migrate
    migrate-Post s c fit name_free =
        rw
          (
            migrate,
            read_legacy-pins kernel (top path_deny_list_map) (top path_deny_count_map) list_id
                count_id s.nodes c.list c.count,
            readable,
          )
          (Post-bind _ _ s
            (stage_legacy_deny_pins-Post kernel allows list_id count_id ready s c fit name_free)
            (λ d s (st, fit, free).
              recreate-Migrated d s
                (λ removed. (
                  migrated_entries entries true,
                  recreated kernel allows removed ++ (migrated ∷ []),
                ))
                (st, fit) free (λ _. refl)))

    pub in_progress-Post :
        (d : Bytes) (s : Disk)
        → Half kernel allows list_id count_id ready d s.nodes
        → Fit kernel allows list_id count_id ready s.nodes
        → Post
            (Migrated kernel list_id count_id entries)
            Fails
            (prepare_state kernel allows (migration_in_progress d) s)
    in_progress-Post d s half fit =
        Post-bind _ _ s (resume-Post d s half fit) (λ (seed, results) s (same, d, held, free).
          recreate-Migrated d s (λ removed. (seed, results ++ recreated kernel allows removed)) held
            free (λ _. same))
