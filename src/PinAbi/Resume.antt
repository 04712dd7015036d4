-- ===== src/PinAbi/Resume.antt =====
-- apps/agent-ebpf-sensor/src/pin_abi.rs: staging an old deny list, and finishing an interrupted
-- staging. Whichever changes are refused, the two pins stay where the next run finds them.
use mathlib.Core.Path.{subst}
use neuromesh.Prelude.{ℕ, ◌≡◌, refl, sym, ◌∙◌, ◌≢◌, Bool, Option, none, some, arith}
use neuromesh.Prelude.Result.{ok}
use neuromesh.Bytes.{Bytes}
use neuromesh.PinAbi.Disk.{
  top, under, dir, pin, Nodes, at, Kernel, PinError, Disk, change, add_dir, rename_node,
}
use neuromesh.PinAbi.Names.{path_deny_list_map, path_deny_count_map}
use neuromesh.PinAbi.Staging.{
  next_legacy_dir_name, stage_legacy_deny_pins, require_deny_pins, complete_one,
  complete_interrupted_deny_stage,
}
use neuromesh.PinAbi.Changes.{
  Post, Post-bind, Post-imp, Post-read, Post-pure, Faulty, change-Post, moved-Renamed,
  rename_node-under, add_dir-old, add_dir-new, add_dir-others, Renamed,
}
use neuromesh.PinAbi.Selection.{IsNumbered, next_legacy_dir_name-fresh}
use neuromesh.PinAbi.Layouts.{exists-pin, exists-none}
use neuromesh.PinAbi.ProcessMaps.{ProcessMapsFit}
use neuromesh.PinAbi.Apart.{
  top-ne, top-ne-under, numbered-ne-process, list-ne-count, list-ne-process, count-ne-process,
  IsProcess,
}
use neuromesh.PinAbi.Phases.{
  ProcessMapsFit-same, Canonical, Split, Staged, IsFree, Recoverable, canonical, split, staged,
  Canonical-made, Canonical-Split, Split-Staged,
}

module _ (kernel : Kernel) (allows : ℕ → Bool) (list_id count_id : ℕ) (ready : Type 0) where
  -- The two pins can still be found. Where the run was ready, a change was refused.
  abbrev pub Failed : PinError → Nodes → Type 0
  Failed e n = Recoverable kernel list_id count_id n × (ready → Faulty allows)

  abbrev pub Fit : Nodes → Type 0
  Fit n = ready → ProcessMapsFit kernel n

  -- A change that the file system can do.
  pub step :
      (P : Nodes → Type 0) (f : Nodes → Option Nodes) (s : Disk) (n : Nodes)
      → f s.nodes ≡ some n
      → Recoverable kernel list_id count_id s.nodes
      → P n
      → Post (λ _ n. P n) Failed (change allows f s)
  step P f s n done before after =
      Post-imp (change allows f s) (λ _ m same. subst P (sym same) after)
        (λ e m (same, faulty).
          (subst (Recoverable kernel list_id count_id) (sym same) before, λ _. faulty))
        (change-Post allows f s n done)

  Fit-Renamed :
      (name d : Bytes) (id : ℕ) (n m : Nodes)
      → ((other : Bytes) → IsProcess other → name ≢ other)
      → Renamed (top name) (under d name) id n m
      → Fit n
      → Fit m
  Fit-Renamed name d id n m apart r fit is_ready =
      ProcessMapsFit-same kernel n m
        (λ other process.
          r.others (top other) (top-ne (apart other process)) (λ e. top-ne-under (sym e)))
        (fit is_ready)

  -- A deny pin goes to its place in the staging directory.
  rename-Post :
      (P : Nodes → Type 0) (name d : Bytes) (id : ℕ) (s : Disk)
      → at (top name) s.nodes ≡ some (pin id)
      → at (top d) s.nodes ≡ some dir
      → at (under d name) s.nodes ≡ none
      → Recoverable kernel list_id count_id s.nodes
      → ((m : Nodes) → Renamed (top name) (under d name) id s.nodes m → P m)
      → Post (λ _ n. P n) Failed (change allows (rename_node (top name) (under d name)) s)
  rename-Post P name d id s there directory free before after =
      step P (rename_node (top name) (under d name)) s _
        (rename_node-under (top name) d name id s.nodes there directory free) before
        (after _ (moved-Renamed (top name) (under d name) id s.nodes (λ e. top-ne-under (sym e))))

  rename_count-Post :
      (d : Bytes) (s : Disk)
      → IsNumbered d
      → at (top d) s.nodes ≡ some dir
      → Canonical kernel list_id count_id s.nodes
      → Fit s.nodes
      → Post
          (λ _ n. Split kernel list_id count_id d n × Fit n)
          Failed
          (change allows (rename_node (top path_deny_count_map) (under d path_deny_count_map)) s)
  rename_count-Post d s numbered directory c fit =
      rename-Post _ path_deny_count_map d count_id s c.count directory (c.unstaged d numbered).1
        (canonical c)
        (λ m r. (
          Canonical-Split kernel list_id count_id d s.nodes m numbered directory c r,
          Fit-Renamed path_deny_count_map d count_id s.nodes m (λ other. count-ne-process) r fit,
        ))

  rename_list-Post :
      (d : Bytes) (s : Disk)
      → Split kernel list_id count_id d s.nodes
      → Fit s.nodes
      → Post
          (λ _ n. Staged kernel list_id count_id d n × Fit n × IsFree n)
          Failed
          (change allows (rename_node (top path_deny_list_map) (under d path_deny_list_map)) s)
  rename_list-Post d s sp fit =
      rename-Post _ path_deny_list_map d list_id s sp.list sp.directory sp.no_list (split d sp)
        (λ m r. (
          Split-Staged kernel list_id count_id d s.nodes m sp r,
          Fit-Renamed path_deny_list_map d list_id s.nodes m (λ other. list-ne-process) r fit,
          (
            r.left,
            r.others (top path_deny_count_map) (top-ne list-ne-count) (λ e. top-ne-under (sym e))
                ∙ sp.free,
          ),
        ))

  -- Making the staging directory.
  make-Post :
      (d : Bytes) (s : Disk)
      → IsNumbered d
      → at (top d) s.nodes ≡ none
      → Canonical kernel list_id count_id s.nodes
      → Fit s.nodes
      → Post
          (λ _ n.
            Canonical kernel list_id count_id n × Fit n × IsNumbered d × (at (top d) n ≡ some dir))
          Failed
          (change allows (add_dir d) s)
  make-Post d s numbered free c fit =
      let (m, done, made) = add_dir-new d s.nodes free in
      let same = add_dir-others d s.nodes m done in
      step _ (add_dir d) s m done (canonical c) (
        Canonical-made kernel list_id count_id d s.nodes m numbered same c,
        λ is_ready.
            ProcessMapsFit-same kernel s.nodes m
              (λ other process. same (top other) (top-ne (numbered-ne-process process numbered)))
              (fit is_ready),
        numbered,
        made,
      )

  require_deny_pins-ok :
      (n : Nodes) → Canonical kernel list_id count_id n → require_deny_pins n ≡ ok tt
  require_deny_pins-ok n c =
      rw
        (
          exists-pin (top path_deny_list_map) (pin list_id) n c.list,
          exists-pin (top path_deny_count_map) (pin count_id) n c.count,
        )
        refl

  pub stage_legacy_deny_pins-Post :
      (s : Disk)
      → Canonical kernel list_id count_id s.nodes
      → Fit s.nodes
      → (ready → (d : Bytes) × (next_legacy_dir_name s.nodes ≡ ok d))
      → Post
          (λ d n. Staged kernel list_id count_id d n × Fit n × IsFree n)
          Failed
          (stage_legacy_deny_pins allows s)
  unfolding stage_legacy_deny_pins
  stage_legacy_deny_pins-Post s c fit name_free =
      Post-bind
        {Q = λ d n.
          Canonical kernel list_id count_id n × Fit n × IsNumbered d × (at (top d) n ≡ none)}
        _ _ s
        (Post-read next_legacy_dir_name s
          (λ d found.
            let (numbered, free) = next_legacy_dir_name-fresh s.nodes d found in
            (c, fit, numbered, free))
          (λ e failed. (canonical c, λ is_ready. absurd (cc (failed, (name_free is_ready).1)))))
        (λ d s (c, fit, numbered, free).
          Post-bind _ _ s (make-Post d s numbered free c fit) (λ _ s (c, fit, numbered, directory).
            Post-bind
              {Q = λ _ n. Canonical kernel list_id count_id n × Fit n × (at (top d) n ≡ some dir)} _
              _ s
              (Post-read require_deny_pins s (λ _ _. (c, fit, directory))
                (λ e failed. absurd (cc (failed, require_deny_pins-ok s.nodes c))))
              (λ _ s (c, fit, directory).
                Post-bind _ _ s (rename_count-Post d s numbered directory c fit) (λ _ s (sp, fit).
                  Post-bind _ _ s (rename_list-Post d s sp fit) (λ _ s held. Post-pure d s held)))))

  -- Between the renames of a resumed run.
  pub data Half (d : Bytes) (n : Nodes) : Type 0 where
    one : Split kernel list_id count_id d n → Half d n
    both : Staged kernel list_id count_id d n → Half d n

  pub Half-Recoverable : (d : Bytes) (n : Nodes) → Half d n → Recoverable kernel list_id count_id n
  Half-Recoverable d n (one sp) = split d sp
  Half-Recoverable d n (both st) = staged d st

  Half-directory : (d : Bytes) (n : Nodes) → Half d n → at (top d) n ≡ some dir
  Half-directory d n (one sp) = sp.directory
  Half-directory d n (both st) = st.directory

  -- A pin that was moved is left alone.
  complete_one-staged :
      (d name : Bytes) (id : ℕ) (s : Disk)
      → at (under d name) s.nodes ≡ some (pin id)
      → complete_one allows d name s ≡ (s, ok tt)
  unfolding complete_one
  complete_one-staged d name id s there =
      ground (arith, exists-pin (under d name) (pin id) s.nodes there)

  complete_list-Post :
      (d : Bytes) (s : Disk)
      → Half d s.nodes
      → Fit s.nodes
      → Post
          (λ _ n. Staged kernel list_id count_id d n × Fit n)
          Failed
          (complete_one allows d path_deny_list_map s)
  unfolding complete_one
  complete_list-Post d s (one sp) fit =
      rw
        (
          complete_one,
          exists-pin (top path_deny_list_map) (pin list_id) s.nodes sp.list,
          exists-none (under d path_deny_list_map) s.nodes sp.no_list,
        )
        (Post-imp _ (λ _ m (st, fit, _). (st, fit)) (λ e m failed. failed)
          (rename_list-Post d s sp fit))
  complete_list-Post d s (both st) fit =
      rw (complete_one-staged d path_deny_list_map list_id s st.list) (record { holds = (st, fit) })

  pub complete_interrupted_deny_stage-Post :
      (d : Bytes) (s : Disk)
      → Half d s.nodes
      → Fit s.nodes
      → Post
          (λ _ n. Staged kernel list_id count_id d n × Fit n)
          Failed
          (complete_interrupted_deny_stage allows d s)
  unfolding complete_interrupted_deny_stage
  complete_interrupted_deny_stage-Post d s half fit =
      Post-bind _ _ s
        (Post-bind _ _ s
          (step (λ n. Half d n × Fit n) (add_dir d) s s.nodes
            (add_dir-old d s.nodes (Half-directory d s.nodes half))
            (Half-Recoverable d s.nodes half) (half, fit))
          (λ _ s (half, fit). complete_list-Post d s half fit))
        (λ _ s (st, fit).
          rw (complete_one-staged d path_deny_count_map count_id s st.count)
            (record { holds = (st, fit) }))
