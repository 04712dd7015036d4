-- ===== src/PinAbi/Freed.antt =====
-- apps/agent-ebpf-sensor/src/pin_abi.rs: what finishing an interrupted staging and freeing the
-- canonical names do in any file system, also where several staging directories hold pins.
use neuromesh.Prelude.{ℕ, ◌≡◌, refl, sym, ◌∙◌, ap, ◌≢◌, ◌⊎◌, inl, inr, Bool, true, none, Bool-cases}
use neuromesh.Bytes.{Bytes}
use neuromesh.HashTable.{is_some}
use neuromesh.PinAbi.Disk.{
  top, under, Nodes, at, Kernel, Disk, exists, add_dir, rename_node, remove_pin,
}
use neuromesh.PinAbi.Names.{path_deny_list_map, path_deny_count_map}
use neuromesh.PinAbi.Staging.{complete_one, complete_interrupted_deny_stage}
use neuromesh.PinAbi.Prepare.{free_name, free_names}
use neuromesh.PinAbi.Changes.{
  Post, Post-bind, Post-imp, rename_node-others, add_dir-others, remove_pin-others,
}
use neuromesh.PinAbi.Selection.{IsNumbered}
use neuromesh.PinAbi.Reused.{Anyhow, rename_node-left, remove_pin-gone, done-Post}
use neuromesh.PinAbi.States.{absent}
use neuromesh.PinAbi.Layouts.{exists-none}
use neuromesh.PinAbi.Apart.{
  top-ne, top-ne-under, under-ne, numbered-ne-list, numbered-ne-count, list-ne-count, count-ne-list,
}
use neuromesh.PinAbi.Phases.{IsFree}

module _ (kernel : Kernel) (allows : ℕ → Bool) where
  -- A canonical name lost its pin, or it still has the one it had; a staged copy stands for it.
  abbrev pub Kept : Bytes → Nodes → Nodes → Type 0
  Kept name n m = (at (top name) m ≡ none) ⊎ (at (top name) m ≡ at (top name) n)

  abbrev pub Covered : Bytes → Bytes → Nodes → Type 0
  Covered d name m = (at (top name) m ≡ none) ⊎ (exists (under d name) m ≡ true)

  complete_one-Covered :
      (d name other : Bytes) (s : Disk)
      → name ≢ other
      → Post
          (λ _ m.
            Covered d name m
            × Kept name s.nodes m
            × (at (top other) m ≡ at (top other) s.nodes)
            × (at (under d other) m ≡ at (under d other) s.nodes))
          Anyhow
          (complete_one allows d name s)
  unfolding complete_one
  complete_one-Covered d name other s differ = elim (Bool-cases (exists (top name) s.nodes)) [
    | inr free ↦
        rw (complete_one, free)
          (record { holds = (inl (absent (top name) s.nodes free), inr refl, refl, refl) })
    | inl there ↦ elim (Bool-cases (exists (under d name) s.nodes)) [
      | inl copied ↦
          rw (complete_one, there, copied) (record { holds = (inr copied, inr refl, refl, refl) })
      | inr missing ↦
          rw (complete_one, there, missing)
            (Post-imp _
              (λ _ m done.
                let gone =
                  rename_node-left (top name) (under d name) s.nodes m done
                    (λ e. top-ne-under (sym e)) in
                let same = rename_node-others (top name) (under d name) s.nodes m done in
                (
                  inl gone,
                  inl gone,
                  same (top other) (top-ne differ) (λ e. top-ne-under (sym e)),
                  same (under d other) top-ne-under (under-ne differ),
                ))
              (λ _ _ _. tt) (done-Post kernel allows (rename_node (top name) (under d name)) s))
    ]
  ]

  abbrev pub Completed : Bytes → Nodes → Nodes → Type 0
  Completed d n m =
      Covered d path_deny_list_map m
      × Covered d path_deny_count_map m
      × Kept path_deny_list_map n m
      × Kept path_deny_count_map n m

  Kept-same :
      (name : Bytes) (n m k : Nodes)
      → at (top name) m ≡ at (top name) n
      → Kept name m k
      → Kept name n k
  Kept-same name n m k same (inl gone) = inl gone
  Kept-same name n m k same (inr kept) = inr (kept ∙ same)

  Kept-later :
      (name : Bytes) (n m k : Nodes)
      → at (top name) k ≡ at (top name) m
      → Kept name n m
      → Kept name n k
  Kept-later name n m k same (inl gone) = inl (same ∙ gone)
  Kept-later name n m k same (inr kept) = inr (same ∙ kept)

  Covered-later :
      (d name : Bytes) (m k : Nodes)
      → at (top name) k ≡ at (top name) m
      → at (under d name) k ≡ at (under d name) m
      → Covered d name m
      → Covered d name k
  unfolding exists
  Covered-later d name m k same also (inl gone) = inl (same ∙ gone)
  Covered-later d name m k same also (inr copied) = inr (ap is_some also ∙ copied)

  pub complete-Completed :
      (d : Bytes) (s : Disk)
      → IsNumbered d
      → Post (λ _ m. Completed d s.nodes m) Anyhow (complete_interrupted_deny_stage allows d s)
  unfolding complete_interrupted_deny_stage
  complete-Completed d s numbered =
      Post-bind
        {Q = λ _ m.
          Covered d path_deny_list_map m
          × Kept path_deny_list_map s.nodes m
          × (at (top path_deny_count_map) m ≡ at (top path_deny_count_map) s.nodes)}
        _ _ s
        (Post-bind _ _ s (done-Post kernel allows (add_dir d) s) (λ _ t made.
          let same = add_dir-others d s.nodes t.nodes made in
          Post-imp _
            (λ _ m (covered, kept, count, _). (
              covered,
              Kept-same path_deny_list_map s.nodes t.nodes m
                  (same (top path_deny_list_map) (top-ne (numbered-ne-list numbered))) kept,
              count ∙ same (top path_deny_count_map) (top-ne (numbered-ne-count numbered)),
            ))
            (λ _ _ _. tt)
            (complete_one-Covered d path_deny_list_map path_deny_count_map t list-ne-count)))
        (λ _ t (covered, kept, count).
          Post-imp _
            (λ _ m (count_covered, count_kept, list, list_copy). (
              Covered-later d path_deny_list_map t.nodes m list list_copy covered,
              count_covered,
              Kept-later path_deny_list_map s.nodes t.nodes m list kept,
              Kept-same path_deny_count_map s.nodes t.nodes m count count_kept,
            ))
            (λ _ _ _. tt)
            (complete_one-Covered d path_deny_count_map path_deny_list_map t count-ne-list))

  free_name-gone :
      (d name other : Bytes) (s : Disk)
      → name ≢ other
      → Covered d name s.nodes
      → Post
          (λ _ m.
            (at (top name) m ≡ none)
            × (at (top other) m ≡ at (top other) s.nodes)
            × (at (under d other) m ≡ at (under d other) s.nodes))
          Anyhow
          (free_name allows d name s)
  unfolding free_name
  free_name-gone d name other s differ (inl gone) =
      rw (free_name, exists-none (top name) s.nodes gone) (record { holds = (gone, refl, refl) })
  free_name-gone d name other s differ (inr copied) =
      elim (Bool-cases (exists (top name) s.nodes)) [
        | inr free ↦
            rw (free_name, free) (record { holds = (absent (top name) s.nodes free, refl, refl) })
        | inl there ↦
            rw (free_name, there, copied)
              (Post-imp _
                (λ _ m done.
                  let same = remove_pin-others (top name) s.nodes m done in
                  (
                    remove_pin-gone (top name) s.nodes m done,
                    same (top other) (top-ne differ),
                    same (under d other) top-ne-under,
                  ))
                (λ _ _ _. tt) (done-Post kernel allows (remove_pin (top name)) s))
      ]

  pub free_names-IsFree :
      (d : Bytes) (s : Disk)
      → Covered d path_deny_list_map s.nodes
      → Covered d path_deny_count_map s.nodes
      → Post (λ _ m. IsFree m) Anyhow (free_names allows d s)
  free_names-IsFree d s list count =
      Post-bind _ _ s (free_name-gone d path_deny_list_map path_deny_count_map s list-ne-count list)
        (λ _ t (gone, same, copy).
          Post-imp _ (λ _ m (gone_too, list, _). (list ∙ gone, gone_too)) (λ _ _ _. tt)
            (free_name-gone d path_deny_count_map path_deny_list_map t count-ne-list
              (Covered-later d path_deny_count_map s.nodes t.nodes same copy count)))
