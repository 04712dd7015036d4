-- ===== src/Teardown/Rearm.antt =====
-- apps/agent-ebpf-sensor/src/identity_correlator/teardown_watch.rs: what `watch_path` and
-- `rearm_paths` do to the set of watched paths, when they succeed and when they fail.
use mathlib.Core.Logic.{ite}
use neuromesh.Prelude.{
  ℕ, suc, ◌≡◌, refl, ◌⊎◌, sym, ◌∙◌, ap, ◌++◌, inl, inr, Bool, true, false, Option, some, List, [],
  ◌∷◌, if◌then◌else◌, is_empty, arith, Bool-cases, Option-cases, ite-join,
}
use neuromesh.Prelude.Result.{Result, ok, err, Result-cases}
use neuromesh.Bytes.{Bytes, bytes_eq, codes}
use neuromesh.Teardown.{
  DirPath, DirPath-discrete, ParentWatch, Watcher, WatchError, no_path, no_parent, add_failed,
  parent_of, register, watch_path, clear_all_watches, watch_each, rearm_paths,
}
use neuromesh.Teardown.Tables.{is_watched, IsConsistent}
use neuromesh.Teardown.Watching.{
  Added, joined, begun, joined-Added, begun-Added, is_watched-Added, Added-IsConsistent, Watches,
}
use neuromesh.Teardown.Operations.{is_some-path_of, path_in, clear_all_watches_lem}

-- What is watched does not depend on the count of the requests.
pub is_watched-adds :
    (n : ℕ) (w : Watcher) (p : DirPath) → is_watched p (record w { adds = n }) ≡ is_watched p w
is_watched-adds n w [] = refl
is_watched-adds n w (c ∷ parent) = refl

module _ (add_watch : ℕ → DirPath → Option ℕ) where
  -- The effect of a run of `watch_path`, up to the first that fails.
  record WatchesEach (paths : List DirPath) (w : Watcher)
      (s : Watcher × Result WatchError (Unit {0})) : Type 0 where
    tables : IsConsistent add_watch s.0
    success :
        s.1 ≡ ok tt
        → (p : DirPath) → is_watched p s.0 ≡ (if path_in p paths then true else is_watched p w)
    failure :
        (e : WatchError)
        → s.1 ≡ err e
        → (before : List DirPath) × (q : DirPath) × (after : List DirPath) × (paths
            ≡ before ++ (q ∷ after))
          × (is_watched q s.0 ≡ false)
          × ((p : DirPath) → is_watched p s.0 ≡ (if path_in p before then true else is_watched p w))

  -- What is watched after `rearm_paths`: all the paths, or those before the first that fails.
  pub record Rearms (paths : List DirPath) (w : Watcher)
      (s : Watcher × Result WatchError (Unit {0})) : Type 0 where
    pub tables : IsConsistent add_watch s.0
    pub empty : is_empty paths ≡ true → s ≡ (w, ok tt)
    pub success :
        s.1 ≡ ok tt
        → (p : DirPath)
        → is_watched p s.0 ≡ (if is_empty paths then is_watched p w else path_in p paths)
    pub failure :
        (e : WatchError)
        → s.1 ≡ err e
        → (before : List DirPath) × (q : DirPath) × (after : List DirPath) × (paths
            ≡ before ++ (q ∷ after))
          × (is_watched q s.0 ≡ false)
          × ((p : DirPath) → is_watched p s.0 ≡ path_in p before)

module _ (add_watch : ℕ → DirPath → Option ℕ)
    (unique : (n k : ℕ) (p q : DirPath) (wd : ℕ)
      → add_watch n p ≡ some wd
      → add_watch k q ≡ some wd
      → (n ≡ k) ⊎ (p ≡ q)) where
  refused :
      (path : DirPath) (w : Watcher) (e : WatchError)
      → IsConsistent add_watch w
      → is_watched path w ≡ false
      → Watches add_watch path w (w, err e)
  refused path w e good not_there = record {
    tables = good;
    success = λ new h. absurd (cc h);
    failure = λ _ _. (not_there, λ p. refl);
  }

  added :
      (parent : DirPath) (c : Bytes) (new : ParentWatch) (w m : Watcher)
      → IsConsistent add_watch w
      → is_watched (c ∷ parent) w ≡ false
      → Added add_watch w m parent c new
      → Watches add_watch (c ∷ parent) w (m, ok true)
  added parent c new w m good not_there a = record {
    tables = Added-IsConsistent add_watch w m parent c new a good;
    success = λ b h. (rw not_there (cc h), is_watched-Added add_watch w m parent c new a);
    failure = λ e h. absurd (cc h);
  }

  -- The kernel refused the watch: only the count of the requests differs.
  tried :
      (parent : DirPath) (c : Bytes) (w : Watcher)
      → IsConsistent add_watch w
      → is_watched (c ∷ parent) w ≡ false
      → Watches add_watch (c ∷ parent) w (record w { adds = suc w.adds }, err add_failed)
  tried parent c w good not_there = record {
    tables = record {
      root = good.root;
      paths = good.paths;
      watched = good.watched;
      owned = good.owned;
      given = λ wd q h. let (n, early, gave) = good.given wd q h in (n, omega arith, gave);
    };
    success = λ new h. absurd (cc h);
    failure = λ _ _. (not_there, is_watched-adds (suc w.adds) w);
  }

  register_lem :
      (parent : DirPath) (c : Bytes) (w : Watcher)
      → IsConsistent add_watch w
      → is_watched (c ∷ parent) w ≡ false
      → Watches add_watch (c ∷ parent) w (register add_watch (c ∷ parent) parent c w)
  unfolding register
  register_lem parent c w good not_there = elim (Option-cases (parent_of parent w)) [
    | inr (pw, there) ↦
        rw (register, there)
          (added parent c _ w (joined add_watch parent c pw w) good not_there
            (joined-Added add_watch w parent c good pw there))
    | inl free ↦ elim (Option-cases (add_watch w.adds parent)) [
      | inr (wd, gave) ↦
          rw (register, free)
            (rw gave (
              added parent c _ w (begun add_watch parent c wd w) good not_there
                (begun-Added add_watch w parent c good unique wd gave free)))
      | inl failed ↦ rw (register, free) (rw failed (tried parent c w good not_there))
    ]
  ]

  module _ (exists : DirPath → Bool) where
    watch_new :
        (path : DirPath) (w : Watcher)
        → IsConsistent add_watch w
        → is_watched path w ≡ false
        → exists path ≡ true
        → Watches add_watch path w (watch_path add_watch exists path w)
    unfolding watch_path
    watch_new [] w good not_there is =
        rw (watch_path, good.root) (rw is (refused [] w no_parent good refl))
    watch_new (c ∷ parent) w good not_there is = elim (Bool-cases (bytes_eq c (codes ".."))) [
      | inl dots ↦
          rw (watch_path, is_some-path_of add_watch w (c ∷ parent) good ∙ not_there)
            (rw is (rw dots (refused (c ∷ parent) w no_parent good not_there)))
      | inr plain ↦
          rw (watch_path, is_some-path_of add_watch w (c ∷ parent) good ∙ not_there)
            (rw is (rw plain (register_lem parent c w good not_there)))
    ]

    -- `watch_path` on every branch. It keeps the tables of the watcher in agreement. If it succeeds,
    -- it says whether the path is new, and the watched paths are those of before and this one. If it
    -- fails, the path was not watched and the watched paths are those of before.
    pub watch_path-Watches :
        (path : DirPath) (w : Watcher)
        → IsConsistent add_watch w
        → Watches add_watch path w (watch_path add_watch exists path w)
    unfolding watch_path
    watch_path-Watches path w good = elim (Bool-cases (is_watched path w)) [
      | inl is ↦
          rw (watch_path, is_some-path_of add_watch w path good ∙ is)
            (record {
              tables = good;
              success = λ new h. (
                rw is (cc h),
                λ p. sym (
                    ite-join (DirPath-discrete path p) (λ e. sym is ∙ ap (λ r. is_watched r w) e)
                      (λ _. refl)),
              );
              failure = λ e h. absurd (cc h);
            })
      | inr not_there ↦ elim (Bool-cases (exists path)) [
        | inl is ↦ watch_new path w good not_there is
        | inr missing ↦
            rw (watch_path, is_some-path_of add_watch w path good ∙ not_there)
              (rw missing (refused path w no_path good not_there))
      ]
    ]

    -- A path that could be watched, then the rest.
    each_after :
        (path : DirPath) (paths : List DirPath) (w m : Watcher)
        (s : Watcher × Result WatchError (Unit {0}))
        → ((p : DirPath) → is_watched p m ≡ ite (DirPath-discrete path p) true (is_watched p w))
        → WatchesEach add_watch paths m s
        → WatchesEach add_watch (path ∷ paths) w s
    each_after path paths w m s first rest =
        let join : (p : DirPath) (qs : List DirPath)
            → (if path_in p qs then true else is_watched p m)
              ≡ (if path_in p (path ∷ qs) then true else is_watched p w) =
          λ p qs. rw (first p) (ground (arith, DirPath-discrete path p)) in
        record {
          tables = rest.tables;
          success = λ h p. rest.success h p ∙ join p paths;
          failure = λ e h.
              let (before, q, after, split, not_there, effect) = rest.failure e h in
              (
                path ∷ before,
                q,
                after,
                ap (λ l. path ∷ l) split,
                not_there,
                λ p. effect p ∙ join p before,
              );
        }

    watch_each-WatchesEach :
        (paths : List DirPath) (w : Watcher)
        → IsConsistent add_watch w
        → WatchesEach add_watch paths w (watch_each add_watch exists paths w)
    unfolding watch_each
    watch_each-WatchesEach [] w good = record {
      tables = good;
      success = λ _ p. refl;
      failure = λ e h. absurd (cc h);
    }
    watch_each-WatchesEach (path ∷ paths) w good =
        let one = watch_path-Watches path w good in
        elim (Result-cases (watch_path add_watch exists path w).1) [
          | inl (new, h) ↦
              rw (watch_each, h)
                (each_after path paths w _ _ (one.success new h).1
                  (watch_each-WatchesEach paths (watch_path add_watch exists path w).0 one.tables))
          | inr (e, h) ↦
              rw (watch_each, h)
                (record {
                  tables = one.tables;
                  success = λ h'. absurd (cc h');
                  failure = λ e' _. (
                    [],
                    path,
                    paths,
                    refl,
                    (one.failure e h).1 path ∙ (one.failure e h).0,
                    (one.failure e h).1,
                  );
                })
        ]

    rearm_paths-some :
        (path : DirPath) (paths : List DirPath) (w : Watcher)
        → IsConsistent add_watch w
        → Rearms add_watch (path ∷ paths) w (rearm_paths add_watch exists (path ∷ paths) w)
    unfolding rearm_paths
    rearm_paths-some path paths w good =
        let (cleared, nothing) = clear_all_watches_lem add_watch w good in
        let each = watch_each-WatchesEach (path ∷ paths) (clear_all_watches w) cleared in
        let only : (p : DirPath) (qs : List DirPath)
            → (if path_in p qs then true else is_watched p (clear_all_watches w)) ≡ path_in p qs =
          λ p qs. rw (nothing p) (ground arith) in
        record {
          tables = each.tables;
          empty = λ h. absurd (cc h);
          success = λ h p. each.success h p ∙ only p (path ∷ paths);
          failure = λ e h.
              let (before, q, after, split, not_there, effect) = each.failure e h in
              (before, q, after, split, not_there, λ p. effect p ∙ only p before);
        }

    -- If the kernel gives two requests one descriptor only for the same path, and the tables
    -- agree: the tables agree afterwards; for the empty list `rearm_paths` succeeds and changes
    -- nothing; for another one, if it succeeds, exactly the given paths are watched; if it fails,
    -- the given paths fall into some before and some after one that is not watched, and exactly
    -- those before it are watched.
    pub rearm_paths-Rearms :
        (paths : List DirPath) (w : Watcher)
        → IsConsistent add_watch w
        → Rearms add_watch paths w (rearm_paths add_watch exists paths w)
    unfolding rearm_paths
    rearm_paths-Rearms [] w good = record {
      tables = good;
      empty = λ _. refl;
      success = λ _ p. refl;
      failure = λ e h. absurd (cc h);
    }
    rearm_paths-Rearms (path ∷ paths) w good = rearm_paths-some path paths w good
