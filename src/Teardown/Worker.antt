-- ===== src/Teardown/Worker.antt =====
-- apps/agent-ebpf-sensor/src/identity_correlator/mod.rs: `inotify_worker_loop`, which runs the
-- commands of the correlator's handlers on the watcher, and drains the events between them.
-- Each round is given the commands that came, which paths exist, and what `poll` found to read.
use neuromesh.Prelude.{
  ℕ, Bool, not, ◌||◌, Option, none, some, List, [], ◌∷◌, ◌++◌, if◌then◌else◌, ◌==◌, is_empty, map,
}
use neuromesh.Prelude.Result.{Result, ok, err}
use neuromesh.Bytes.{Bytes, codes, bytes_eq}
use neuromesh.Correlator.{TeardownCmd, watch, unwatch, rearm}
use neuromesh.Teardown.{
  DirPath, Watcher, WatchError, watch_path, unwatch_path, rearm_paths, TeardownBatch, ReadEvents,
  drain_events,
}

-- `Path` takes an absolute path apart: empty components and `.` do not count.
abbrev with_component : Bytes → DirPath → DirPath
with_component name path = if is_empty name || bytes_eq name (codes ".") then path else name ∷ path

abbrev components : Bytes → Bytes → DirPath → DirPath
components [] name path = with_component name path
components (c ∷ cs) name path =
    let here = components cs (name ++ (c ∷ [])) path in
    let next = components cs [] (with_component name path) in if c == b'/' then next else here

abbrev pub dir_path : Bytes → DirPath
dir_path path = components path [] []

pub record WorkerRound : Type 0 where
  pub cmds : List TeardownCmd
  pub exists : DirPath → Bool
  pub ready : Option (List ReadEvents)

-- A batch is sent if it tells of anything.
abbrev pub sent_batch : Result WatchError TeardownBatch → List TeardownBatch
sent_batch (ok batch) =
    if batch.overflow || not (is_empty batch.torn_down_paths) then batch ∷ [] else []
sent_batch (err e) = []

unfoldable pub drain_ready : Option (List ReadEvents) → Watcher → Watcher × List TeardownBatch
unfolding drain_events
drain_ready none w = (w, [])
drain_ready (some reads) w = let (m, result) = drain_events reads w in (m, sent_batch result)

module _ (add_watch : ℕ → DirPath → Option ℕ) where
  unfoldable pub run_cmd : (DirPath → Bool) → TeardownCmd → Watcher → Watcher
  unfolding watch_path unwatch_path rearm_paths
  run_cmd exists (watch path) w = (watch_path add_watch exists (dir_path path) w).0
  run_cmd exists (unwatch path) w = unwatch_path (dir_path path) w
  run_cmd exists (rearm paths) w = (rearm_paths add_watch exists (map dir_path paths) w).0

  unfoldable pub run_cmds : (DirPath → Bool) → List TeardownCmd → Watcher → Watcher
  unfolding run_cmd
  run_cmds exists [] w = w
  run_cmds exists (cmd ∷ cmds) w = run_cmds exists cmds (run_cmd exists cmd w)

  unfoldable pub inotify_worker_loop : List WorkerRound → Watcher → Watcher × List TeardownBatch
  unfolding run_cmds drain_ready
  inotify_worker_loop [] w = (w, [])
  inotify_worker_loop (round ∷ rounds) w =
      let (m, sent) = drain_ready round.ready (run_cmds round.exists round.cmds w) in
      let (n, later) = inotify_worker_loop rounds m in (n, sent ++ later)
