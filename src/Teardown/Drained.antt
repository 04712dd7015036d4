-- ===== src/Teardown/Drained.antt =====
-- apps/agent-ebpf-sensor/src/identity_correlator/teardown_watch.rs: `drain_events` over the reads of
-- one drain, and the loop of identity_correlator/mod.rs that runs the commands between the drains.
use mathlib.Core.Path.{subst}
use mathlib.Core.List.{append_assoc, append-nil}
use neuromesh.Prelude.{
  ℕ, ◌≡◌, refl, sym, ◌∙◌, ap, ◌⊎◌, inl, inr, ◌++◌, Bool, true, false, ◌||◌, Option, none, some,
  List, [], ◌∷◌, if◌then◌else◌, is_empty, arith, Bool-cases, Option-cases,
}
use neuromesh.Prelude.Result.{Result, ok, err}
use neuromesh.Teardown.{
  DirPath, DirPath-discrete, ParentWatch, Watcher, WatchError, read_failed, drop_child, forget,
  RawEvent, TeardownBatch, torn_child, handle_event, handle_events, ReadEvents, events, would_block,
  failed, drain_loop, drain_events,
}
use neuromesh.Teardown.Tables.{is_watched, IsConsistent}
use neuromesh.Teardown.Operations.{path_in}
use neuromesh.Teardown.Reports.{
  Told, Handles, any_overflow, ignores, removes, Told-back, Told-on, torn_child-none,
}

pub path_in-append :
    (p : DirPath) (a b : List DirPath) → path_in p (a ++ b) ≡ (path_in p a || path_in p b)
path_in-append p [] b = refl
path_in-append p (q ∷ a) b = ground (arith, DirPath-discrete q p, path_in-append p a b)

any_overflow-append :
    (a b : List RawEvent) → any_overflow (a ++ b) ≡ (any_overflow a || any_overflow b)
any_overflow-append [] b = refl
any_overflow-append (e ∷ a) b = ground (arith, any_overflow-append a b)

Told-append :
    (a b : List RawEvent) (w : Watcher) (p : DirPath) → Told (a ++ b) w p → Told a w p ⊎ Told b w p
Told-append [] b w p t = inr t
Told-append (e ∷ a) b w p (inl t) = inl (inl t)
Told-append (e ∷ a) b w p (inr t) = elim (Told-append a b w p t) [
  | inl u ↦ inl (inr u)
  | inr u ↦ inr u
]

Told-left : (a b : List RawEvent) (w : Watcher) (p : DirPath) → Told a w p → Told (a ++ b) w p
Told-left [] b w p t = elim t [ ]
Told-left (e ∷ a) b w p (inl t) = inl t
Told-left (e ∷ a) b w p (inr t) = inr (Told-left a b w p t)

Told-right : (a b : List RawEvent) (w : Watcher) (p : DirPath) → Told b w p → Told (a ++ b) w p
Told-right [] b w p t = t
Told-right (e ∷ a) b w p t = inr (Told-right a b w p t)

pub stays : (gone was : Bool) → (if gone then false else was) ≡ true → (gone ≡ false) × (was ≡ true)
stays true was h = absurd (cc h)
stays false was h = (refl, h)

pub in_either : (a b : Bool) → (a || b) ≡ true → (a ≡ true) ⊎ ((a ≡ false) × (b ≡ true))
in_either true b h = inl refl
in_either false b h = inr (refl, h)

neither : (a b : Bool) → (a || b) ≡ false → b ≡ false
neither true b h = absurd (cc h)
neither false b h = h

module _ (ev : RawEvent) (w : Watcher) (batch : TeardownBatch) where
  handle_event-full :
      ev.q_overflow ≡ true → handle_event ev (w, batch) ≡ (w, record batch { overflow = true })
  unfolding handle_event
  handle_event-full h = rw h refl

  handle_event-nothing :
      ev.q_overflow ≡ false → torn_child ev w ≡ none → handle_event ev (w, batch) ≡ (w, batch)
  unfolding handle_event
  handle_event-nothing calm nothing = rw nothing (rw calm refl)

  handle_event-torn :
      (parent : DirPath) (pw : ParentWatch)
      → ev.q_overflow ≡ false
      → torn_child ev w ≡ some (parent, pw)
      → handle_event ev (w, batch) ≡ (
        drop_child parent ev.name pw (forget (ev.name ∷ parent) w),
        record batch { torn_down_paths = batch.torn_down_paths ++ ((ev.name ∷ parent) ∷ []) },
      )
  unfolding handle_event
  handle_event-torn parent pw calm torn = rw torn (rw calm refl)

module _ (add_watch : ℕ → DirPath → Option ℕ) where
  handle_event-Handles :
      (ev : RawEvent) (w : Watcher) (batch : TeardownBatch)
      → IsConsistent add_watch w
      → Handles add_watch (ev ∷ []) w batch (handle_event ev (w, batch))
  unfolding handle_event
  handle_event-Handles ev w batch good = elim (Bool-cases ev.q_overflow) [
    | inl full ↦
        subst (Handles add_watch (ev ∷ []) w batch) (sym (handle_event-full ev w batch full)) (
          ignores add_watch ev w batch (record batch { overflow = true }) good
            (λ p is t. absurd (cc (t.0, full))) refl (ground (arith, full)))
    | inr calm ↦ elim (Option-cases (torn_child ev w)) [
      | inl nothing ↦
          subst (Handles add_watch (ev ∷ []) w batch)
            (sym (handle_event-nothing ev w batch calm nothing))
            (ignores add_watch ev w batch batch good
              (λ p is t. absurd (cc (torn_child-none ev w p nothing t, is))) refl
              (ground (arith, calm)))
      | inr ((parent, pw), torn) ↦
          subst (Handles add_watch (ev ∷ []) w batch)
            (sym (handle_event-torn ev w batch parent pw calm torn))
            (removes add_watch ev w batch parent pw good torn)
    ]
  ]

  -- A run, then another.
  join :
      (es fs : List RawEvent) (w m n : Watcher) (b c d : TeardownBatch)
      → IsConsistent add_watch w
      → Handles add_watch es w b (m, c)
      → Handles add_watch fs m c (n, d)
      → Handles add_watch (es ++ fs) w b (n, d)
  join es fs w m n b c d good first second = record {
    tables = second.tables;
    less = λ wd q h. first.less wd q (second.less wd q h);
    reported = first.reported ++ second.reported;
    appended =
        second.appended
        ∙ ap (λ l. l ++ second.reported) first.appended
        ∙ append_assoc b.torn_down_paths first.reported second.reported;
    told = λ p h.
        elim (in_either (path_in p first.reported) (path_in p second.reported)
          (sym (path_in-append p first.reported second.reported) ∙ h)) [
            | inl early ↦ ((first.told p early).0, Told-left es fs w p (first.told p early).1)
            | inr (not_early, late) ↦
                let (is, t) = second.told p late in
                (
                  (stays _ _ (sym (first.left p) ∙ is)).1,
                  Told-right es fs w p (Told-back add_watch fs w m p first.less t),
                )
          ];
    left = λ p.
        second.left p
        ∙ rw (first.left p, path_in-append p first.reported second.reported) (ground arith);
    complete = λ p still t.
        let between : is_watched p m ≡ true = (stays _ _ (sym (second.left p) ∙ still)).1 in
        elim (Told-append es fs w p t) [
          | inl u ↦ first.complete p between u
          | inr u ↦
              second.complete p still
                (Told-on add_watch fs w m p good first.tables first.less between u)
        ];
    overflow = second.overflow ∙ rw (first.overflow, any_overflow-append es fs) (ground arith);
  }

  handle_events-Handles :
      (evs : List RawEvent) (w : Watcher) (batch : TeardownBatch)
      → IsConsistent add_watch w
      → Handles add_watch evs w batch (handle_events evs (w, batch))
  unfolding handle_events
  handle_events-Handles [] w batch good = record {
    tables = good;
    less = λ wd q h. h;
    reported = [];
    appended = sym (append-nil batch.torn_down_paths);
    told = λ p h. absurd (cc h);
    left = λ p. refl;
    complete = λ p is t. t;
    overflow = ground arith;
  }
  handle_events-Handles (ev ∷ evs) w batch good =
      let one = handle_event-Handles ev w batch good in
      join (ev ∷ []) evs w (handle_event ev (w, batch)).0 _ batch (handle_event ev (w, batch)).1 _
        good one
        (handle_events-Handles evs (handle_event ev (w, batch)).0 (handle_event ev (w, batch)).1
          one.tables)

-- The events that a drain sees: it stops where a read is empty, would block or fails, and after the
-- batch that tells of an overflow.
abbrev pub processed : List ReadEvents → List RawEvent
processed [] = []
processed (would_block ∷ reads) = []
processed (failed ∷ reads) = []
processed (events evs ∷ reads) =
    if is_empty evs || any_overflow evs then evs else evs ++ processed reads

abbrev pub fails : List ReadEvents → Bool
fails [] = false
fails (would_block ∷ reads) = false
fails (failed ∷ reads) = true
fails (events evs ∷ reads) = if is_empty evs || any_overflow evs then false else fails reads

module _ (add_watch : ℕ → DirPath → Option ℕ) where
  -- The batch of a drain, which a failed read loses.
  abbrev pub Drains :
      List ReadEvents → Watcher → TeardownBatch → Watcher × Result WatchError TeardownBatch → Type 0
  Drains reads w before s =
      (batch : TeardownBatch) × (s.1 ≡ (if fails reads then err read_failed else ok batch))
      × Handles add_watch (processed reads) w before (s.0, batch)

  drain_loop-Drains :
      (reads : List ReadEvents) (w : Watcher) (batch : TeardownBatch)
      → IsConsistent add_watch w
      → batch.overflow ≡ false
      → Drains reads w batch (drain_loop reads (w, batch))
  unfolding drain_loop handle_events
  drain_loop-Drains [] w batch good calm =
      (batch, refl, handle_events-Handles add_watch [] w batch good)
  drain_loop-Drains (would_block ∷ reads) w batch good calm =
      (batch, refl, handle_events-Handles add_watch [] w batch good)
  drain_loop-Drains (failed ∷ reads) w batch good calm =
      (batch, refl, handle_events-Handles add_watch [] w batch good)
  drain_loop-Drains (events evs ∷ reads) w batch good calm =
      let first = handle_events-Handles add_watch evs w batch good in
      let m : Watcher = (handle_events evs (w, batch)).0 in
      let c : TeardownBatch = (handle_events evs (w, batch)).1 in
      let flag : c.overflow ≡ any_overflow evs = first.overflow ∙ rw calm refl in
      let same : (is_empty evs || c.overflow) ≡ (is_empty evs || any_overflow evs) =
        ap (λ b. is_empty evs || b) flag in
      elim (Bool-cases (is_empty evs || any_overflow evs)) [
        | inl stop ↦ rw (same ∙ stop, stop) (c, refl, first)
        | inr more ↦
            let (last, result, others) =
              drain_loop-Drains reads m c first.tables
                (flag ∙ (neither (is_empty evs) (any_overflow evs) more)) in
            rw (same ∙ more, more)
              (
                last,
                result,
                join add_watch evs (processed reads) w m _ batch c last good first others,
              )
      ]

  -- From tables that agree, a drain leaves tables that agree. Of the events up to its end it
  -- reports exactly the directories that were watched and that one of the events says are gone
  -- from a watched parent; they are no longer watched, every other one still is, and the overflow
  -- flag is set exactly if an event tells of one. If a read fails, the drain returns an error
  -- instead of the report, and the directories of the events before it are no longer watched all
  -- the same.
  pub drain_events-Drains :
      (reads : List ReadEvents) (w : Watcher)
      → IsConsistent add_watch w
      → Drains reads w (record { torn_down_paths = []; overflow = false }) (drain_events reads w)
  unfolding drain_events
  drain_events-Drains reads w good =
      drain_loop-Drains reads w (record { torn_down_paths = []; overflow = false }) good refl
