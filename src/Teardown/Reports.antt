-- ===== src/Teardown/Reports.antt =====
-- apps/agent-ebpf-sensor/src/identity_correlator/teardown_watch.rs: which paths `drain_events`
-- reports as torn down, and what stays watched.
use mathlib.Core.Path.{subst}
use mathlib.Core.List.{append-nil}
use mathlib.Core.Option.{some-injective}
use neuromesh.Prelude.{
  ℕ, ◌≡◌, refl, sym, ◌∙◌, ap, ◌⊎◌, inl, inr, ◌++◌, Bool, true, false, ◌||◌, Option, none, some,
  List, [], ◌∷◌, if◌then◌else◌, is_empty, arith, ℕ_discrete, ite-yes, ite-no,
}
use neuromesh.Bytes.{Bytes, Bytes-discrete}
use neuromesh.HashTable.{get, contains_key}
use neuromesh.Teardown.{
  DirPath, DirPath-discrete, ParentWatch, Watcher, parent_of, drop_child, forget, RawEvent,
  TeardownBatch, torn_child,
}
use neuromesh.Teardown.Tables.{
  child_in, child_in-some, is_watched, IsConsistent, is_watched-dropped, dropped-IsConsistent,
  known,
}
use neuromesh.Teardown.Operations.{path_in}

-- The event says that this directory left a parent that is watched.
abbrev pub Tells : RawEvent → Watcher → DirPath → Type 0
Tells ev w p =
    (ev.q_overflow ≡ false)
    × ((ev.delete || ev.moved_from) ≡ true)
    × (is_empty ev.name ≡ false)
    × (parent : DirPath) × (p ≡ ev.name ∷ parent)
    × (get ℕ_discrete ev.wd w.by_wd ≡ some parent)

abbrev pub Told : List RawEvent → Watcher → DirPath → Type 0
Told [] w p = ⊥
Told (ev ∷ evs) w p = Tells ev w p ⊎ Told evs w p

torn_child-some :
    (ev : RawEvent) (w : Watcher) (parent : DirPath) (pw : ParentWatch)
    → torn_child ev w ≡ some (parent, pw)
    → (parent_of parent w ≡ some pw)
      × (contains_key Bytes-discrete ev.name pw.children ≡ true)
      × Tells ev w (ev.name ∷ parent)
unfolding torn_child
torn_child-some ev w parent pw h = (
  ground arith,
  ground arith,
  (ground arith, ground arith, ground arith, parent, refl, ground arith),
)

pub torn_child-none :
    (ev : RawEvent) (w : Watcher) (p : DirPath)
    → torn_child ev w ≡ none
    → Tells ev w p
    → is_watched p w ≡ false
unfolding torn_child
torn_child-none ev w p h (calm, gone, named, parent, is, its) = ground arith

abbrev pub any_overflow : List RawEvent → Bool
any_overflow [] = false
any_overflow (ev ∷ evs) = ev.q_overflow || any_overflow evs

module _ (add_watch : ℕ → DirPath → Option ℕ) where
  -- What a run over events does: the tables agree, and what it reports is what it forgets.
  pub record Handles (evs : List RawEvent) (w : Watcher) (batch : TeardownBatch)
      (s : Watcher × TeardownBatch) : Type 0 where
    pub tables : IsConsistent add_watch s.0
    pub less :
        (wd : ℕ) (q : DirPath)
        → get ℕ_discrete wd s.0.by_wd ≡ some q
        → get ℕ_discrete wd w.by_wd ≡ some q
    pub reported : List DirPath
    pub appended : s.1.torn_down_paths ≡ batch.torn_down_paths ++ reported
    pub told : (p : DirPath) → path_in p reported ≡ true → (is_watched p w ≡ true) × Told evs w p
    pub left :
        (p : DirPath) → is_watched p s.0 ≡ (if path_in p reported then false else is_watched p w)
    pub complete : (p : DirPath) → is_watched p s.0 ≡ true → ¬ Told evs w p
    pub overflow : s.1.overflow ≡ (batch.overflow || any_overflow evs)

  -- The descriptor of a watched directory's parent stays known.
  kept :
      (w m : Watcher)
      → IsConsistent add_watch w
      → IsConsistent add_watch m
      → ((wd : ℕ) (q : DirPath)
          → get ℕ_discrete wd m.by_wd ≡ some q
          → get ℕ_discrete wd w.by_wd ≡ some q)
      → (c : Bytes) (q : DirPath) (wd : ℕ) → is_watched (c ∷ q) m ≡ true
      → get ℕ_discrete wd w.by_wd ≡ some q
      → get ℕ_discrete wd m.by_wd ≡ some q
  kept w m before after less c q wd is was =
      let (pw, there) = child_in-some c (parent_of q m) is in
      let now = (after.watched q pw there).0 in
      let (a, is_a, wd_a) = before.owned pw.wd q (less pw.wd q now) in
      let (b, is_b, wd_b) = before.owned wd q was in
      let same : pw.wd ≡ wd =
        sym wd_a ∙ ap (λ (r : ParentWatch). r.wd) (some-injective _ _ (sym is_a ∙ is_b)) ∙ wd_b in
      ap (λ d. get ℕ_discrete d m.by_wd) (sym same) ∙ now

  Tells-back :
      (ev : RawEvent) (w m : Watcher) (p : DirPath)
      → ((wd : ℕ) (q : DirPath)
          → get ℕ_discrete wd m.by_wd ≡ some q
          → get ℕ_discrete wd w.by_wd ≡ some q)
      → Tells ev m p
      → Tells ev w p
  Tells-back ev w m p less (calm, gone, named, parent, is, its) =
      (calm, gone, named, parent, is, less ev.wd parent its)

  pub Told-back :
      (evs : List RawEvent) (w m : Watcher) (p : DirPath)
      → ((wd : ℕ) (q : DirPath)
          → get ℕ_discrete wd m.by_wd ≡ some q
          → get ℕ_discrete wd w.by_wd ≡ some q)
      → Told evs m p
      → Told evs w p
  Told-back [] w m p less t = elim t [ ]
  Told-back (ev ∷ evs) w m p less (inl t) = inl (Tells-back ev w m p less t)
  Told-back (ev ∷ evs) w m p less (inr t) = inr (Told-back evs w m p less t)

  pub Told-on :
      (evs : List RawEvent) (w m : Watcher) (p : DirPath)
      → IsConsistent add_watch w
      → IsConsistent add_watch m
      → ((wd : ℕ) (q : DirPath)
          → get ℕ_discrete wd m.by_wd ≡ some q
          → get ℕ_discrete wd w.by_wd ≡ some q)
      → is_watched p m ≡ true
      → Told evs w p
      → Told evs m p
  Told-on [] w m p before after less is t = elim t [ ]
  Told-on (ev ∷ evs) w m p before after less is (inl (calm, gone, named, parent, e, its)) = inl (
    calm,
    gone,
    named,
    parent,
    e,
    kept w m before after less ev.name parent ev.wd (ap (λ r. is_watched r m) (sym e) ∙ is) its,
  )
  Told-on (ev ∷ evs) w m p before after less is (inr t) =
      inr (Told-on evs w m p before after less is t)

  -- One event that tells of no watched directory.
  pub ignores :
      (ev : RawEvent) (w : Watcher) (batch batch' : TeardownBatch)
      → IsConsistent add_watch w
      → ((p : DirPath) → is_watched p w ≡ true → ¬ Tells ev w p)
      → batch'.torn_down_paths ≡ batch.torn_down_paths
      → batch'.overflow ≡ (batch.overflow || ev.q_overflow)
      → Handles (ev ∷ []) w batch (w, batch')
  ignores ev w batch batch' good nothing same flag = record {
    tables = good;
    less = λ wd q h. h;
    reported = [];
    appended = same ∙ sym (append-nil batch.torn_down_paths);
    told = λ p h. absurd (cc h);
    left = λ p. refl;
    complete = λ p is t. elim t [ inl t' ↦ nothing p is t' | inr t' ↦ t' ];
    overflow = ground (arith, flag);
  }

  -- One event that tells of a watched directory.
  pub removes :
      (ev : RawEvent) (w : Watcher) (batch : TeardownBatch) (parent : DirPath) (pw : ParentWatch)
      → IsConsistent add_watch w
      → torn_child ev w ≡ some (parent, pw)
      → Handles (ev ∷ []) w batch (
        drop_child parent ev.name pw (forget (ev.name ∷ parent) w),
        record batch { torn_down_paths = batch.torn_down_paths ++ ((ev.name ∷ parent) ∷ []) },
      )
  removes ev w batch parent pw good torn =
      let (there, child, tells) = torn_child-some ev w parent pw torn in
      let (calm, gone, named, q, is, its) = tells in
      let after = dropped-IsConsistent add_watch w parent pw ev.name there good in
      let less =
        λ (wd : ℕ) (r : DirPath)
            (h : get ℕ_discrete wd
                (drop_child parent ev.name pw (forget (ev.name ∷ parent) w)).by_wd
              ≡ some r).
          (known add_watch w parent pw ev.name there good wd r h).0 in
      record {
        tables = after;
        less = less;
        reported = (ev.name ∷ parent) ∷ [];
        appended = refl;
        told = λ p h. elim (DirPath-discrete (ev.name ∷ parent) p) [
          | yes e ↦ (
            subst (λ r. is_watched r w ≡ true) e (ap (child_in ev.name) there ∙ child),
            inl (subst (λ r. Tells ev w r) e tells),
          )
          | no n ↦
              absurd (cc (sym (ite-no (DirPath-discrete (ev.name ∷ parent) p) true false n) ∙ h))
        ];
        left = λ p.
            is_watched-dropped add_watch w parent pw ev.name there p
            ∙ ground (arith, DirPath-discrete (ev.name ∷ parent) p);
        complete = λ p still t. elim t [
          | inr t' ↦ t'
          | inl (_, _, _, r, e, its') ↦
              let e' : ev.name ∷ parent ≡ p =
                is ∙ ap (λ u. ev.name ∷ u) (some-injective _ _ (sym its ∙ its')) ∙ sym e in
              absurd (
                cc (
                  sym (
                    is_watched-dropped add_watch w parent pw ev.name there p
                    ∙ ite-yes (DirPath-discrete (ev.name ∷ parent) p) _ _ e')
                  ∙ still))
        ];
        overflow = ground (arith, calm);
      }
