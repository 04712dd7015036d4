-- ===== src/Tests/Watches.antt =====
-- The theorems on the inotify watcher at concrete inputs: two containers of one pod.
use mathlib.Core.Option.{some-injective}
use neuromesh.Prelude.{
  ℕ, ◌≡◌, ◌⊎◌, inl, refl, sym, ◌∙◌, Bool, true, false, ◌||◌, Option, none, some, List, [], ◌∷◌,
  ℕ_discrete,
}
use neuromesh.Bytes.{Bytes, codes, Bytes-discrete}
use neuromesh.HashTable.{get, insert, remove}
use neuromesh.Correlator.{watch}
use neuromesh.Teardown.{
  DirPath, DirPath-discrete, Watcher, no_watches, register, watch_path, unwatch_path, unwatch_each,
  clear_all_watches, watch_each, rearm_paths, drop_child, RawEvent, events, would_block,
  drain_events,
}
use neuromesh.Teardown.Tables.{is_watched, IsConsistent, no_watches-IsConsistent}
use neuromesh.Teardown.Operations.{path_in}
use neuromesh.Teardown.Rearm.{watch_path-Watches, Rearms, rearm_paths-Rearms}
use neuromesh.Teardown.Drained.{Drains, drain_events-Drains}
use neuromesh.Teardown.Worker.{WorkerRound, dir_path, inotify_worker_loop}
use neuromesh.Teardown.Loop.{
  torn_paths, inotify_worker_loop-IsConsistent, inotify_worker_loop-keeps,
}

-- A kernel that counts its descriptors.
abbrev counting : ℕ → DirPath → Option ℕ
counting n p = some n

unique_counts :
    (n k : ℕ) (p q : DirPath) (wd : ℕ)
    → counting n p ≡ some wd
    → counting k q ≡ some wd
    → (n ≡ k) ⊎ (p ≡ q)
unique_counts n k p q wd a b = inl (some-injective _ _ (a ∙ sym b))

abbrev app : DirPath
app = dir_path (codes "/cg/pod/app")

abbrev proxy : DirPath
proxy = dir_path (codes "/cg//pod/./proxy/")

abbrev there : DirPath → Bool
there p = true

abbrev only_app : DirPath → Bool
only_app p = path_in p (app ∷ [])

abbrev app_watched : Watcher
app_watched = (watch_path counting there app no_watches).0

app_watched-IsConsistent : IsConsistent counting app_watched
app_watched-IsConsistent =
    (watch_path-Watches counting unique_counts there app no_watches
      (no_watches-IsConsistent counting)).tables

abbrev deleted : Bytes → RawEvent
deleted name = record { wd = 0; q_overflow = false; delete = true; moved_from = false; name = name }

-- A path is what its components are.
proxy_components : proxy ≡ codes "proxy" ∷ codes "pod" ∷ codes "cg" ∷ []
proxy_components = refl

drain_events-Drains_example :
    Drains counting
      (events (deleted (codes "proxy") ∷ deleted (codes "app") ∷ []) ∷ would_block ∷ [])
      app_watched
      (record { torn_down_paths = []; overflow = false })
      (drain_events
        (events (deleted (codes "proxy") ∷ deleted (codes "app") ∷ []) ∷ would_block ∷ [])
        app_watched)
drain_events-Drains_example =
    drain_events-Drains counting
      (events (deleted (codes "proxy") ∷ deleted (codes "app") ∷ []) ∷ would_block ∷ []) app_watched
      app_watched-IsConsistent

rearm_paths-Rearms_example :
    Rearms counting
      (proxy ∷ app ∷ [])
      app_watched
      (rearm_paths counting only_app (proxy ∷ app ∷ []) app_watched)
rearm_paths-Rearms_example =
    rearm_paths-Rearms counting unique_counts only_app (proxy ∷ app ∷ []) app_watched
      app_watched-IsConsistent

-- A directory that is gone stops the new watches: the other one, which was watched, no longer is.
rearm_loses_app :
    is_watched app (rearm_paths counting only_app (proxy ∷ app ∷ []) app_watched).0 ≡ false
unfolding watch_path register rearm_paths clear_all_watches unwatch_each unwatch_path drop_child
    watch_each get insert remove Bytes-discrete DirPath-discrete ℕ_discrete
rearm_loses_app = refl

abbrev two_rounds : List WorkerRound
two_rounds =
    record { cmds = watch (codes "/cg/pod/proxy") ∷ []; exists = there; ready = none }
    ∷ record {
      cmds = [];
      exists = there;
      ready = some (events (deleted (codes "app") ∷ []) ∷ would_block ∷ []);
    }
    ∷ []

inotify_worker_loop-IsConsistent_example :
    IsConsistent counting (inotify_worker_loop counting two_rounds no_watches).0
inotify_worker_loop-IsConsistent_example =
    inotify_worker_loop-IsConsistent counting unique_counts two_rounds no_watches
      (no_watches-IsConsistent counting)

app-is_watched : is_watched app app_watched ≡ true
unfolding watch_path register get insert remove Bytes-discrete DirPath-discrete ℕ_discrete
app-is_watched = refl

inotify_worker_loop-keeps_example :
    (is_watched app (inotify_worker_loop counting two_rounds app_watched).0
      || path_in app (torn_paths (inotify_worker_loop counting two_rounds app_watched).1))
    ≡ true
inotify_worker_loop-keeps_example =
    inotify_worker_loop-keeps counting unique_counts two_rounds app_watched app
      app_watched-IsConsistent ((tt, tt), tt, (tt, refl, tt)) app-is_watched
