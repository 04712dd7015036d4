-- ===== src/Teardown.antt =====
-- apps/agent-ebpf-sensor/src/identity_correlator/teardown_watch.rs: which cgroup directories are
-- watched, through their parents, and which removals a batch of inotify events tells.
-- What the kernel answers to the n-th request for a watch is the parameter `add_watch`, and which
-- paths exist the parameter `exists`. The removal of a kernel watch is ignored by the code.
pub mod Tables
pub mod Watching
pub mod Operations
pub mod Rearm
pub mod Reports
pub mod Drained
pub mod Worker
pub mod Loop
use neuromesh.Prelude.{
  ℕ, suc, ◌+◌, Bool, true, false, not, ◌&&◌, ◌||◌, Option, none, some, List, [], ◌∷◌, ◌++◌,
  if◌then◌else◌, is_empty, map, ℕ_discrete, ◌↔◌, ◌≡◌, arith,
}
use neuromesh.Prelude.Result.{Result, ok, err}
use neuromesh.Bytes.{Bytes, codes, bytes_eq, bytes_eq_iff, Bytes-discrete, decide_by}
use neuromesh.HashTable.{HashMap, HashSet, get, insert, remove, contains_key}

-- An absolute path, as Rust's `Path` compares it: its components, the last one first.
abbrev pub DirPath : Type 0
DirPath = List Bytes

abbrev path_eq : DirPath → DirPath → Bool
path_eq [] [] = true
path_eq (a ∷ p) (b ∷ q) = bytes_eq a b && path_eq p q
path_eq _ _ = false

pub path_eq_iff : (p q : DirPath) → (path_eq p q ≡ true) ↔ (p ≡ q)
path_eq_iff [] [] = ground arith
path_eq_iff [] (b ∷ q) = ground arith
path_eq_iff (a ∷ p) [] = ground arith
path_eq_iff (a ∷ p) (b ∷ q) = ground (arith, bytes_eq_iff a b, path_eq_iff p q)

unfoldable pub DirPath-discrete : Discrete DirPath
DirPath-discrete p q = decide_by (path_eq p q) (path_eq_iff p q)

pub record ParentWatch : Type 0 where
  pub wd : ℕ
  pub children : HashSet Bytes

pub record Watcher : Type 0 where
  pub by_wd : HashMap ℕ DirPath
  pub by_parent : HashMap DirPath ParentWatch
  pub by_path : HashMap DirPath (DirPath × Bytes)
  pub adds : ℕ

pub data WatchError : Type 0 where
  no_path : WatchError
  no_parent : WatchError
  add_failed : WatchError
  read_failed : WatchError

abbrev pub no_watches : Watcher
no_watches = record { by_wd = []; by_parent = []; by_path = []; adds = 0 }

abbrev pub path_of : DirPath → Watcher → Option (DirPath × Bytes)
path_of p w = get DirPath-discrete p w.by_path

abbrev pub parent_of : DirPath → Watcher → Option ParentWatch
parent_of p w = get DirPath-discrete p w.by_parent

-- `path.parent()` and `path.file_name()`, which a path that ends in `..` has not.
abbrev pub split_path : DirPath → Option (DirPath × Bytes)
split_path [] = none
split_path (child ∷ parent) = if bytes_eq child (codes "..") then none else some (parent, child)

module _ (add_watch : ℕ → DirPath → Option ℕ) where
  -- The child is added to the watch of its parent, which is made if there is none.
  unfoldable pub register : DirPath → DirPath → Bytes → Watcher → Watcher × Result WatchError Bool
  register path parent child w = elim (parent_of parent w) [
    | some pw ↦ (
      record w {
        by_parent =
            insert DirPath-discrete parent
              (record pw { children = insert Bytes-discrete child tt pw.children }) w.by_parent;
        by_path = insert DirPath-discrete path (parent, child) w.by_path;
      },
      ok true,
    )
    | none ↦ elim (add_watch w.adds parent) [
      | none ↦ (record w { adds = suc w.adds }, err add_failed)
      | some wd ↦ (
        record {
          by_wd = insert ℕ_discrete wd parent w.by_wd;
          by_parent =
              insert DirPath-discrete parent (record { wd = wd; children = (child, tt) ∷ [] })
                w.by_parent;
          by_path = insert DirPath-discrete path (parent, child) w.by_path;
          adds = suc w.adds;
        },
        ok true,
      )
    ]
  ]

  unfoldable pub watch_path :
      (DirPath → Bool) → DirPath → Watcher → Watcher × Result WatchError Bool
  unfolding register
  watch_path exists path w =
      if contains_key DirPath-discrete path w.by_path
      then (w, ok false)
      else if not (exists path)
      then (w, err no_path)
      else (elim (split_path path) [
        | none ↦ (w, err no_parent)
        | some (parent, child) ↦ register path parent child w
      ])

-- A child leaves the watch of its parent, which goes with its last child.
unfoldable pub drop_child : DirPath → Bytes → ParentWatch → Watcher → Watcher
drop_child parent child pw w =
    let children = remove Bytes-discrete child pw.children in
    if is_empty children
    then record w {
      by_wd = remove ℕ_discrete pw.wd w.by_wd;
      by_parent = remove DirPath-discrete parent w.by_parent;
    }
    else record w {
      by_parent = insert DirPath-discrete parent (record pw { children = children }) w.by_parent;
    }

abbrev pub forget : DirPath → Watcher → Watcher
forget path w = record w { by_path = remove DirPath-discrete path w.by_path }

unfoldable pub unwatch_path : DirPath → Watcher → Watcher
unfolding drop_child
unwatch_path path w = elim (path_of path w) [
  | none ↦ w
  | some (parent, child) ↦ elim (parent_of parent w) [
    | none ↦ forget path w
    | some pw ↦ drop_child parent child pw (forget path w)
  ]
]

unfoldable pub unwatch_each : List DirPath → Watcher → Watcher
unfolding unwatch_path
unwatch_each [] w = w
unwatch_each (path ∷ paths) w = unwatch_each paths (unwatch_path path w)

unfoldable pub clear_all_watches : Watcher → Watcher
unfolding unwatch_each
clear_all_watches w = unwatch_each (map (λ e. e.0) w.by_path) w

module _ (add_watch : ℕ → DirPath → Option ℕ) (exists : DirPath → Bool) where
  unfoldable pub watch_each : List DirPath → Watcher → Watcher × Result WatchError (Unit {0})
  unfolding watch_path
  watch_each [] w = (w, ok tt)
  watch_each (path ∷ paths) w =
      let (w', r) = watch_path add_watch exists path w in
      elim r [ err e ↦ (w', err e) | ok _ ↦ watch_each paths w' ]

  unfoldable pub rearm_paths : List DirPath → Watcher → Watcher × Result WatchError (Unit {0})
  unfolding watch_each clear_all_watches
  rearm_paths paths w =
      if is_empty paths then (w, ok tt) else watch_each paths (clear_all_watches w)

-- An event; its name is empty where it has none.
pub record RawEvent : Type 0 where
  pub wd : ℕ
  pub q_overflow : Bool
  pub delete : Bool
  pub moved_from : Bool
  pub name : Bytes

pub record TeardownBatch : Type 0 where
  pub torn_down_paths : List DirPath
  pub overflow : Bool

-- The watched child that an event says is gone, with its parent and the parent's watch.
unfoldable pub torn_child : RawEvent → Watcher → Option (DirPath × ParentWatch)
torn_child ev w =
    if ev.q_overflow || not (ev.delete || ev.moved_from)
    then none
    else (elim (get ℕ_discrete ev.wd w.by_wd) [
      | none ↦ none
      | some parent ↦ if is_empty ev.name then none else (elim (parent_of parent w) [
        | none ↦ none
        | some pw ↦
            if contains_key Bytes-discrete ev.name pw.children then some (parent, pw) else none
      ])
    ])

-- One round of the loop over a batch.
unfoldable pub handle_event : RawEvent → Watcher × TeardownBatch → Watcher × TeardownBatch
unfolding torn_child drop_child
handle_event ev (w, batch) =
    if ev.q_overflow then (w, record batch { overflow = true }) else (elim (torn_child ev w) [
      | none ↦ (w, batch)
      | some (parent, pw) ↦ (
        drop_child parent ev.name pw (forget (ev.name ∷ parent) w),
        record batch { torn_down_paths = batch.torn_down_paths ++ ((ev.name ∷ parent) ∷ []) },
      )
    ])

unfoldable pub handle_events : List RawEvent → Watcher × TeardownBatch → Watcher × TeardownBatch
unfolding handle_event
handle_events [] s = s
handle_events (ev ∷ evs) s = handle_events evs (handle_event ev s)

-- What one `read_events` returns. After the last one it would block.
pub data ReadEvents : Type 0 where
  events : List RawEvent → ReadEvents
  would_block : ReadEvents
  failed : ReadEvents

unfoldable pub drain_loop :
    List ReadEvents → Watcher × TeardownBatch → Watcher × Result WatchError TeardownBatch
unfolding handle_events
drain_loop [] (w, batch) = (w, ok batch)
drain_loop (would_block ∷ reads) (w, batch) = (w, ok batch)
drain_loop (failed ∷ reads) (w, batch) = (w, err read_failed)
drain_loop (events evs ∷ reads) s =
    let (w, batch) = handle_events evs s in
    let rest = drain_loop reads (w, batch) in
    if is_empty evs || batch.overflow then (w, ok batch) else rest

unfoldable pub drain_events : List ReadEvents → Watcher → Watcher × Result WatchError TeardownBatch
unfolding drain_loop
drain_events reads w = drain_loop reads (w, record { torn_down_paths = []; overflow = false })
