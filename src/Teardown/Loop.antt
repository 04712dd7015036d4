-- ===== src/Teardown/Loop.antt =====
-- apps/agent-ebpf-sensor/src/identity_correlator/mod.rs: `inotify_worker_loop` keeps the tables of
-- the watcher in agreement, and loses no watch on the way.
use neuromesh.Prelude.{
  ℕ, ◌≡◌, ◌⊎◌, refl, ◌∙◌, ap, inl, inr, Bool, true, false, not, ◌||◌, Option, none, some, List, [],
  ◌∷◌, ◌++◌, if◌then◌else◌, is_empty, map, arith, Bool-cases, ite-join, is_empty-nil,
}
use neuromesh.Prelude.Result.{ok, err, Result-cases}
use neuromesh.Correlator.{TeardownCmd, watch, unwatch, rearm}
use neuromesh.Teardown.{
  DirPath, DirPath-discrete, Watcher, read_failed, watch_path, rearm_paths, TeardownBatch,
  ReadEvents, drain_events,
}
use neuromesh.Teardown.Tables.{is_watched, IsConsistent}
use neuromesh.Teardown.Operations.{path_in, unwatch_path_lem}
use neuromesh.Teardown.Rearm.{watch_path-Watches, rearm_paths-Rearms}
use neuromesh.Teardown.Drained.{fails, drain_events-Drains, path_in-append, stays, in_either}
use neuromesh.Teardown.Worker.{
  WorkerRound, dir_path, sent_batch, run_cmd, run_cmds, drain_ready, inotify_worker_loop,
}

-- Every path that the batches report.
abbrev pub torn_paths : List TeardownBatch → List DirPath
torn_paths [] = []
torn_paths (batch ∷ batches) = batch.torn_down_paths ++ torn_paths batches

-- The command only adds a watch.
abbrev pub IsWatch : TeardownCmd → Type 0
IsWatch (watch path) = Unit
IsWatch (unwatch path) = ⊥
IsWatch (rearm paths) = ⊥

abbrev pub AllWatch : List TeardownCmd → Type 0
AllWatch [] = Unit
AllWatch (cmd ∷ cmds) = IsWatch cmd × AllWatch cmds

abbrev pub Readable : Option (List ReadEvents) → Type 0
Readable none = Unit
Readable (some reads) = fails reads ≡ false

-- Only watches are added, and no read fails.
abbrev pub OnlyAdds : List WorkerRound → Type 0
OnlyAdds [] = Unit
OnlyAdds (round ∷ rounds) = AllWatch round.cmds × Readable round.ready × OnlyAdds rounds

torn_paths-append :
    (a b : List TeardownBatch)
    → (p : DirPath)
    → path_in p (torn_paths (a ++ b)) ≡ (path_in p (torn_paths a) || path_in p (torn_paths b))
torn_paths-append [] b p = refl
torn_paths-append (batch ∷ a) b p =
    path_in-append p batch.torn_down_paths (torn_paths (a ++ b))
    ∙ rw (torn_paths-append a b p, path_in-append p batch.torn_down_paths (torn_paths a))
        (ground arith)

sends : (overflow none_torn : Bool) → none_torn ≡ false → (overflow || not none_torn) ≡ true
sends overflow true h = absurd (cc h)
sends overflow false h = ground arith

later : (still told after : Bool) → (still || after) ≡ true → (still || (told || after)) ≡ true
later still told after h = ground arith

now : (still told after : Bool) → told ≡ true → (still || (told || after)) ≡ true
now still told after h = ground arith

-- A batch that reports a path is sent.
sent_batch-path_in :
    (p : DirPath) (batch : TeardownBatch)
    → path_in p batch.torn_down_paths ≡ true
    → path_in p (torn_paths (sent_batch (ok batch))) ≡ true
sent_batch-path_in p batch h = elim (Bool-cases (is_empty batch.torn_down_paths)) [
  | inl nothing ↦ absurd (cc (h, ap (path_in p) (is_empty-nil batch.torn_down_paths nothing)))
  | inr more ↦
      rw (sends batch.overflow (is_empty batch.torn_down_paths) more)
        (path_in-append p batch.torn_down_paths [] ∙ rw h refl)
]

module _ (add_watch : ℕ → DirPath → Option ℕ)
    (unique : (n k : ℕ) (p q : DirPath) (wd : ℕ)
      → add_watch n p ≡ some wd
      → add_watch k q ≡ some wd
      → (n ≡ k) ⊎ (p ≡ q)) where
  run_cmd-IsConsistent :
      (exists : DirPath → Bool) (cmd : TeardownCmd) (w : Watcher)
      → IsConsistent add_watch w
      → IsConsistent add_watch (run_cmd add_watch exists cmd w)
  unfolding run_cmd rearm_paths
  run_cmd-IsConsistent exists (watch path) w good =
      (watch_path-Watches add_watch unique exists (dir_path path) w good).tables
  run_cmd-IsConsistent exists (unwatch path) w good =
      (unwatch_path_lem add_watch (dir_path path) w good).0
  run_cmd-IsConsistent exists (rearm paths) w good =
      (rearm_paths-Rearms add_watch unique exists (map dir_path paths) w good).tables

  run_cmds-IsConsistent :
      (exists : DirPath → Bool) (cmds : List TeardownCmd) (w : Watcher)
      → IsConsistent add_watch w
      → IsConsistent add_watch (run_cmds add_watch exists cmds w)
  unfolding run_cmds
  run_cmds-IsConsistent exists [] w good = good
  run_cmds-IsConsistent exists (cmd ∷ cmds) w good =
      run_cmds-IsConsistent exists cmds (run_cmd add_watch exists cmd w)
        (run_cmd-IsConsistent exists cmd w good)

  drain_ready-IsConsistent :
      (ready : Option (List ReadEvents)) (w : Watcher)
      → IsConsistent add_watch w
      → IsConsistent add_watch (drain_ready ready w).0
  unfolding drain_ready
  drain_ready-IsConsistent none w good = good
  drain_ready-IsConsistent (some reads) w good =
      let (batch, result, handled) = drain_events-Drains add_watch reads w good in handled.tables

  -- If the kernel gives two requests one descriptor only for the same path: from tables that
  -- agree, whatever commands and events come and whichever requests are refused, the three tables
  -- of the watcher agree after any number of rounds.
  pub inotify_worker_loop-IsConsistent :
      (rounds : List WorkerRound) (w : Watcher)
      → IsConsistent add_watch w
      → IsConsistent add_watch (inotify_worker_loop add_watch rounds w).0
  unfolding inotify_worker_loop
  inotify_worker_loop-IsConsistent [] w good = good
  inotify_worker_loop-IsConsistent (round ∷ rounds) w good =
      inotify_worker_loop-IsConsistent rounds
        (drain_ready round.ready (run_cmds add_watch round.exists round.cmds w)).0
        (drain_ready-IsConsistent round.ready (run_cmds add_watch round.exists round.cmds w)
          (run_cmds-IsConsistent round.exists round.cmds w good))

  run_cmds-keeps :
      (exists : DirPath → Bool) (cmds : List TeardownCmd) (w : Watcher) (p : DirPath)
      → IsConsistent add_watch w
      → AllWatch cmds
      → is_watched p w ≡ true
      → is_watched p (run_cmds add_watch exists cmds w) ≡ true
  unfolding run_cmds run_cmd
  run_cmds-keeps exists [] w p good _ is = is
  run_cmds-keeps exists (unwatch path ∷ cmds) w p good (e, _) is = elim e [ ]
  run_cmds-keeps exists (rearm paths ∷ cmds) w p good (e, _) is = elim e [ ]
  run_cmds-keeps exists (watch path ∷ cmds) w p good (_, only) is =
      let one = watch_path-Watches add_watch unique exists (dir_path path) w good in
      run_cmds-keeps exists cmds (watch_path add_watch exists (dir_path path) w).0 p one.tables only
        (elim (Result-cases (watch_path add_watch exists (dir_path path) w).1) [
          | inl (new, h) ↦
              (one.success new h).1 p
              ∙ ite-join (DirPath-discrete (dir_path path) p) (λ _. refl) (λ _. is)
          | inr (e, h) ↦ (one.failure e h).1 p ∙ is
        ])

  drain_ready-keeps :
      (ready : Option (List ReadEvents)) (w : Watcher) (p : DirPath)
      → IsConsistent add_watch w
      → Readable ready
      → is_watched p w ≡ true
      → (is_watched p (drain_ready ready w).0 || path_in p (torn_paths (drain_ready ready w).1))
        ≡ true
  unfolding drain_ready
  drain_ready-keeps none w p good _ is = rw is refl
  drain_ready-keeps (some reads) w p good readable is =
      let (batch, result, handled) = drain_events-Drains add_watch reads w good in
      elim (Bool-cases (path_in p handled.reported)) [
        | inl gone ↦
            let sent : (drain_events reads w).1 ≡ ok batch =
              result ∙ ap (λ b. if b then err read_failed else ok batch) readable in
            rw (sent, sent_batch-path_in p batch (ap (path_in p) handled.appended ∙ gone))
              (ground arith)
        | inr stays ↦ rw (handled.left p) (rw (stays, is) refl)
      ]

  -- If the kernel gives two requests one descriptor only for the same path, and the tables agree:
  -- while commands only add watches and no read fails, a directory that is watched is after any
  -- number of rounds still watched, or a batch that was sent reports it.
  pub inotify_worker_loop-keeps :
      (rounds : List WorkerRound) (w : Watcher) (p : DirPath)
      → IsConsistent add_watch w
      → OnlyAdds rounds
      → is_watched p w ≡ true
      → (is_watched p (inotify_worker_loop add_watch rounds w).0
          || path_in p (torn_paths (inotify_worker_loop add_watch rounds w).1))
        ≡ true
  unfolding inotify_worker_loop
  inotify_worker_loop-keeps [] w p good _ is = rw is refl
  inotify_worker_loop-keeps (round ∷ rounds) w p good (adds, readable, rest) is =
      let k : Watcher = run_cmds add_watch round.exists round.cmds w in
      let good_k = run_cmds-IsConsistent round.exists round.cmds w good in
      let m : Watcher = (drain_ready round.ready k).0 in
      elim (in_either (is_watched p m) (path_in p (torn_paths (drain_ready round.ready k).1)) (
        drain_ready-keeps round.ready k p good_k readable
          (run_cmds-keeps round.exists round.cmds w p good adds is))) [
            | inl still ↦
                rw
                  (torn_paths-append (drain_ready round.ready k).1
                    (inotify_worker_loop add_watch rounds m).1 p)
                  (later (is_watched p (inotify_worker_loop add_watch rounds m).0) _ _ (
                    inotify_worker_loop-keeps rounds m p
                      (drain_ready-IsConsistent round.ready k good_k) rest still))
            | inr (_, told) ↦
                rw
                  (torn_paths-append (drain_ready round.ready k).1
                    (inotify_worker_loop add_watch rounds m).1 p)
                  (now (is_watched p (inotify_worker_loop add_watch rounds m).0) _ _ told)
          ]
