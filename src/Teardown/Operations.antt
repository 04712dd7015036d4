-- ===== src/Teardown/Operations.antt =====
-- apps/agent-ebpf-sensor/src/identity_correlator/teardown_watch.rs: what `watch_path`,
-- `unwatch_path`, `clear_all_watches` and `rearm_paths` do to the set of watched paths.
use mathlib.Core.Logic.{ite}
use neuromesh.Prelude.{
  ℕ, ◌≡◌, refl, sym, ◌∙◌, ap, inl, inr, Bool, true, false, Option, none, some, List, [], ◌∷◌,
  if◌then◌else◌, map, arith, Bool-cases, ite-join, ite-yes, ite-no,
}
use neuromesh.Bytes.{Bytes}
use neuromesh.HashTable.{HashMap, get, contains_key, is_some}
use neuromesh.Teardown.{
  DirPath, DirPath-discrete, ParentWatch, Watcher, path_of, parent_of, unwatch_path, unwatch_each,
  clear_all_watches, drop_child, forget,
}
use neuromesh.Teardown.Tables.{
  child_in-some, is_watched, IsConsistent, is_watched-dropped, dropped-IsConsistent,
}

abbrev pub path_in : DirPath → List DirPath → Bool
path_in p [] = false
path_in p (q ∷ qs) = ite (DirPath-discrete q p) true (path_in p qs)

module _ (add_watch : ℕ → DirPath → Option ℕ) where
  -- A path has an entry in the table of paths exactly when it is watched.
  pub is_some-path_of :
      (w : Watcher) (p : DirPath)
      → IsConsistent add_watch w
      → is_some (path_of p w) ≡ is_watched p w
  is_some-path_of w [] good = rw good.root refl
  is_some-path_of w (c ∷ parent) good = elim (Bool-cases (is_watched (c ∷ parent) w)) [
    | inl e ↦ rw (good.paths c parent) (rw e refl)
    | inr e ↦ rw (good.paths c parent) (rw e refl)
  ]

  unwatch_path-absent : (q : DirPath) (w : Watcher) → path_of q w ≡ none → unwatch_path q w ≡ w
  unfolding unwatch_path
  unwatch_path-absent q w h = rw (unwatch_path, h) refl

  unwatch_path-present :
      (q parent : DirPath) (c : Bytes) (pw : ParentWatch) (w : Watcher)
      → path_of q w ≡ some (parent, c)
      → parent_of parent w ≡ some pw
      → unwatch_path q w ≡ drop_child parent c pw (forget q w)
  unfolding unwatch_path
  unwatch_path-present q parent c pw w h there = rw (unwatch_path, h) (rw there refl)

  -- The effect of `unwatch_path`: the tables agree, and only `q` is no longer watched.
  abbrev pub Unwatches : DirPath → Watcher → Watcher → Type 0
  Unwatches q w m =
      IsConsistent add_watch m
      × ((p : DirPath) → is_watched p m ≡ ite (DirPath-discrete q p) false (is_watched p w))

  Unwatches-absent :
      (q : DirPath) (w : Watcher)
      → IsConsistent add_watch w
      → is_watched q w ≡ false
      → Unwatches q w w
  Unwatches-absent q w good h = (
    good,
    λ p.
        sym (ite-join (DirPath-discrete q p) (λ e. sym h ∙ ap (λ r. is_watched r w) e) (λ _. refl)),
  )

  pub unwatch_path_lem :
      (q : DirPath) (w : Watcher) → IsConsistent add_watch w → Unwatches q w (unwatch_path q w)
  unwatch_path_lem [] w good =
      rw (unwatch_path-absent [] w good.root) (Unwatches-absent [] w good refl)
  unwatch_path_lem (c ∷ parent) w good = elim (Bool-cases (is_watched (c ∷ parent) w)) [
    | inl is ↦
        let (pw, there) = child_in-some c (parent_of parent w) is in
        rw
          (unwatch_path-present (c ∷ parent) parent c pw w (good.paths c parent ∙ rw is refl) there)
          (
            dropped-IsConsistent add_watch w parent pw c there good,
            is_watched-dropped add_watch w parent pw c there,
          )
    | inr not_there ↦
        rw (unwatch_path-absent (c ∷ parent) w (good.paths c parent ∙ rw not_there refl))
          (Unwatches-absent (c ∷ parent) w good not_there)
  ]

  unwatch_each_lem :
      (qs : List DirPath) (w : Watcher)
      → IsConsistent add_watch w
      → IsConsistent add_watch (unwatch_each qs w)
        × ((p : DirPath)
            → is_watched p (unwatch_each qs w) ≡ (if path_in p qs then false else is_watched p w))
  unfolding unwatch_each
  unwatch_each_lem [] w good = (good, λ p. refl)
  unwatch_each_lem (q ∷ qs) w good =
      let (good', one) = unwatch_path_lem q w good in
      let (good'', others) = unwatch_each_lem qs (unwatch_path q w) good' in
      (
        good'',
        λ p. others p ∙ elim (DirPath-discrete q p) [
          | yes e ↦
              rw
                (
                  one p ∙ ite-yes (DirPath-discrete q p) _ _ e,
                  ite-yes (DirPath-discrete q p) true (path_in p qs) e,
                )
                (ground arith)
          | no n ↦
              rw
                (
                  one p ∙ ite-no (DirPath-discrete q p) _ _ n,
                  ite-no (DirPath-discrete q p) true (path_in p qs) n,
                )
                refl
        ],
      )

  -- Every key of a map is in the list of its keys.
  path_in-keys :
      {V : Type 0} (p : DirPath) (m : HashMap DirPath V)
      → contains_key DirPath-discrete p m ≡ true
      → path_in p (map (λ (e : DirPath × V). e.0) m) ≡ true
  unfolding get
  path_in-keys p [] h = absurd (cc h)
  path_in-keys p ((q, v) ∷ m) h = elim (DirPath-discrete q p) [
    | yes e ↦ ite-yes (DirPath-discrete q p) _ _ e
    | no n ↦
        ite-no (DirPath-discrete q p) _ _ n
        ∙ path_in-keys p m (ap is_some (sym (ite-no (DirPath-discrete q p) _ _ n)) ∙ h)
  ]

  pub clear_all_watches_lem :
      (w : Watcher)
      → IsConsistent add_watch w
      → IsConsistent add_watch (clear_all_watches w)
        × ((p : DirPath) → is_watched p (clear_all_watches w) ≡ false)
  unfolding clear_all_watches
  clear_all_watches_lem w good =
      let keys : List DirPath = map (λ (e : DirPath × (DirPath × Bytes)). e.0) w.by_path in
      let (good', gone) = unwatch_each_lem keys w good in
      (
        good',
        λ p. gone p ∙ elim (Bool-cases (is_watched p w)) [
          | inl is ↦ rw (path_in-keys p w.by_path (is_some-path_of w p good ∙ is)) refl
          | inr not_there ↦ rw not_there (ground arith)
        ],
      )
