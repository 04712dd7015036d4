-- ===== src/Teardown/Watching.antt =====
-- apps/agent-ebpf-sensor/src/identity_correlator/teardown_watch.rs: `watch_path` keeps the tables in
-- agreement, with a new parent and with one that is watched already.
use mathlib.Core.Option.{some-injective, none-ne-some}
use mathlib.Core.Logic.{ite}
use neuromesh.Prelude.{
  ℕ, suc, ◌≤◌, ◌≡◌, ◌≢◌, ◌⊎◌, refl, sym, ◌∙◌, ap, inl, inr, Bool, true, false, not, Option, none,
  some, [], ◌∷◌, if◌then◌else◌, is_empty, arith, ℕ_discrete, ite-join, ite-yes, ite-no,
}
use neuromesh.Prelude.Result.{Result, ok, err}
use neuromesh.Bytes.{Bytes, Bytes-discrete}
use neuromesh.HashTable.{get, insert, is_some, get-insert}
use neuromesh.Teardown.{
  DirPath, DirPath-discrete, ParentWatch, Watcher, WatchError, path_of, parent_of,
}
use neuromesh.Teardown.Tables.{child_in, is_watched, Given, IsConsistent}

module _ (add_watch : ℕ → DirPath → Option ℕ) where
  -- A child came to the watch of a parent.
  pub record Added (w m : Watcher) (parent : DirPath) (c : Bytes) (new : ParentWatch) : Type 0 where
    pub parents :
        (q : DirPath) → parent_of q m ≡ ite (DirPath-discrete parent q) (some new) (parent_of q w)
    pub paths :
        (p : DirPath)
        → path_of p m ≡ ite (DirPath-discrete (c ∷ parent) p) (some (parent, c)) (path_of p w)
    pub children :
        (x : Bytes)
        → child_in x (some new) ≡ ite (Bytes-discrete c x) true (child_in x (parent_of parent w))
    pub wds :
        (wd : ℕ)
        → get ℕ_discrete wd m.by_wd
          ≡ ite (ℕ_discrete new.wd wd) (some parent) (get ℕ_discrete wd w.by_wd)
    pub apart :
        (q : DirPath) (other : ParentWatch)
        → parent_of q w ≡ some other
        → parent ≢ q
        → new.wd ≢ other.wd
    pub same_wd : (other : ParentWatch) → parent_of parent w ≡ some other → other.wd ≡ new.wd
    pub not_empty : is_empty new.children ≡ false
    pub new_given : Given add_watch new.wd parent m.adds
    pub more_adds : w.adds ≤ m.adds

  module _ (w m : Watcher) (parent : DirPath) (c : Bytes) (new : ParentWatch)
      (a : Added w m parent c new) where
    pub is_watched-Added :
        (p : DirPath) → is_watched p m ≡ ite (DirPath-discrete (c ∷ parent) p) true (is_watched p w)
    is_watched-Added [] = sym (ite-no (DirPath-discrete (c ∷ parent) []) _ _ (λ e. absurd (cc e)))
    is_watched-Added (x ∷ q) = elim (DirPath-discrete parent q) [
      | no differ ↦
          ap (child_in x) (a.parents q ∙ ite-no (DirPath-discrete parent q) _ _ differ)
          ∙ sym (ite-no (DirPath-discrete (c ∷ parent) (x ∷ q)) _ _ (λ e. differ (cc)))
      | yes same ↦
          ap (child_in x) (a.parents q ∙ ite-yes (DirPath-discrete parent q) _ _ same)
          ∙ a.children x
          ∙ elim (Bytes-discrete c x) [
            | yes e ↦
                ite-yes (Bytes-discrete c x) _ _ e
                ∙ sym (ite-yes (DirPath-discrete (c ∷ parent) (x ∷ q)) _ _ (cc (e, same)))
            | no n ↦
                ite-no (Bytes-discrete c x) _ _ n
                ∙ ap (λ r. child_in x (parent_of r w)) same
                ∙ sym (ite-no (DirPath-discrete (c ∷ parent) (x ∷ q)) _ _ (λ h. n (cc)))
          ]
    ]

    module _ (good : IsConsistent add_watch w) where
      paths-Added :
          (x : Bytes) (q : DirPath)
          → path_of (x ∷ q) m ≡ (if child_in x (parent_of q m) then some (q, x) else none)
      paths-Added x q = elim (DirPath-discrete (c ∷ parent) (x ∷ q)) [
        | yes same ↦
            rw (is_watched-Added (x ∷ q) ∙ ite-yes (DirPath-discrete (c ∷ parent) (x ∷ q)) _ _ same)
              (a.paths (x ∷ q) ∙ ite-yes (DirPath-discrete (c ∷ parent) (x ∷ q)) _ _ same ∙ cc same)
        | no differ ↦
            rw
              (is_watched-Added (x ∷ q) ∙ ite-no (DirPath-discrete (c ∷ parent) (x ∷ q)) _ _ differ)
              (a.paths (x ∷ q)
                ∙ ite-no (DirPath-discrete (c ∷ parent) (x ∷ q)) _ _ differ
                ∙ good.paths x q)
      ]

      watched-Added :
          (q : DirPath) (other : ParentWatch)
          → parent_of q m ≡ some other
          → (get ℕ_discrete other.wd m.by_wd ≡ some q) × (is_empty other.children ≡ false)
      watched-Added q other h = elim (DirPath-discrete parent q) [
        | yes same ↦
            let e : new ≡ other =
              some-injective _ _
                (sym (a.parents q ∙ ite-yes (DirPath-discrete parent q) _ _ same) ∙ h) in
            rw (← e) (
              a.wds new.wd ∙ ite-yes (ℕ_discrete new.wd new.wd) _ _ refl ∙ ap some same,
              a.not_empty,
            )
        | no differ ↦
            let before : parent_of q w ≡ some other =
              sym (a.parents q ∙ ite-no (DirPath-discrete parent q) _ _ differ) ∙ h in
            (
              a.wds other.wd
                  ∙ ite-no (ℕ_discrete new.wd other.wd) _ _ (a.apart q other before differ)
                  ∙ (good.watched q other before).0,
              (good.watched q other before).1,
            )
      ]

      owned-Added :
          (wd : ℕ) (q : DirPath)
          → get ℕ_discrete wd m.by_wd ≡ some q
          → (other : ParentWatch) × (parent_of q m ≡ some other) × (other.wd ≡ wd)
      owned-Added wd q h = elim (ℕ_discrete new.wd wd) [
        | yes same ↦
            let e : parent ≡ q =
              some-injective _ _ (sym (a.wds wd ∙ ite-yes (ℕ_discrete new.wd wd) _ _ same) ∙ h) in
            (new, a.parents q ∙ ite-yes (DirPath-discrete parent q) _ _ e, same)
        | no differ ↦
            let before : get ℕ_discrete wd w.by_wd ≡ some q =
              sym (a.wds wd ∙ ite-no (ℕ_discrete new.wd wd) _ _ differ) ∙ h in
            let (other, is_other, its_wd) = good.owned wd q before in
            (
              other,
              a.parents q
                  ∙ ite-no (DirPath-discrete parent q) _ _ (λ e.
                    differ (sym (a.same_wd other (ap (λ r. parent_of r w) e ∙ is_other)) ∙ its_wd))
                  ∙ is_other,
              its_wd,
            )
      ]

      Given-Added :
          (wd : ℕ) (q : DirPath) → get ℕ_discrete wd m.by_wd ≡ some q → Given add_watch wd q m.adds
      Given-Added wd q h = elim (ℕ_discrete new.wd wd) [
        | yes same ↦
            let e : parent ≡ q =
              some-injective _ _ (sym (a.wds wd ∙ ite-yes (ℕ_discrete new.wd wd) _ _ same) ∙ h) in
            rw (← same, ← e) a.new_given
        | no differ ↦
            let (n, early, gave) =
              good.given wd q (sym (a.wds wd ∙ ite-no (ℕ_discrete new.wd wd) _ _ differ) ∙ h) in
            let more = a.more_adds in (n, omega arith, gave)
      ]

      pub Added-IsConsistent : IsConsistent add_watch m
      Added-IsConsistent = record {
        root =
            a.paths []
            ∙ ite-no (DirPath-discrete (c ∷ parent) []) _ _ (λ e. absurd (cc e))
            ∙ good.root;
        paths = paths-Added;
        watched = watched-Added;
        owned = owned-Added;
        given = Given-Added;
      }

  -- The child joins the children of a parent that is watched.
  abbrev pub joined : DirPath → Bytes → ParentWatch → Watcher → Watcher
  joined parent c pw w = record w {
    by_parent =
        insert DirPath-discrete parent
          (record pw { children = insert Bytes-discrete c tt pw.children }) w.by_parent;
    by_path = insert DirPath-discrete (c ∷ parent) (parent, c) w.by_path;
  }

  -- The child is the first of a parent with the new descriptor `wd`.
  abbrev pub begun : DirPath → Bytes → ℕ → Watcher → Watcher
  begun parent c wd w = record {
    by_wd = insert ℕ_discrete wd parent w.by_wd;
    by_parent =
        insert DirPath-discrete parent (record { wd = wd; children = (c, tt) ∷ [] }) w.by_parent;
    by_path = insert DirPath-discrete (c ∷ parent) (parent, c) w.by_path;
    adds = suc w.adds;
  }

  is_some-ite :
      {P A : Type 0} (d : Dec P) (a : A) (o : Option A)
      → is_some (ite d (some a) o) ≡ ite d true (is_some o)
  is_some-ite d a o = ground arith

  module _ (w : Watcher) (parent : DirPath) (c : Bytes) (good : IsConsistent add_watch w) where
    pub joined-Added :
        (pw : ParentWatch)
        → parent_of parent w ≡ some pw
        → Added w
            (joined parent c pw w)
            parent
            c
            (record pw { children = insert Bytes-discrete c tt pw.children })
    unfolding insert
    joined-Added pw there = record {
      parents = λ q. get-insert DirPath-discrete parent q _ w.by_parent;
      paths = λ p. get-insert DirPath-discrete (c ∷ parent) p _ w.by_path;
      children = λ x.
          ap is_some (get-insert Bytes-discrete c x tt pw.children)
          ∙ is_some-ite (Bytes-discrete c x) tt (get Bytes-discrete x pw.children)
          ∙ ap (λ o. ite (Bytes-discrete c x) true (child_in x o)) (sym there);
      wds = λ wd. sym (
          ite-join (ℕ_discrete pw.wd wd)
            (λ e.
              sym (ap (λ d. get ℕ_discrete d w.by_wd) (sym e) ∙ (good.watched parent pw there).0))
            (λ _. refl));
      apart = λ q other h differ same. differ (
          some-injective _ _ (
            sym (good.watched parent pw there).0
            ∙ ap (λ d. get ℕ_discrete d w.by_wd) same
            ∙ (good.watched q other h).0));
      same_wd = λ other h. ap (λ (r : ParentWatch). r.wd) (some-injective _ _ (sym h ∙ there));
      not_empty = refl;
      new_given = good.given pw.wd parent (good.watched parent pw there).0;
      more_adds = omega arith;
    }

    module _
        (unique : (n k : ℕ) (p q : DirPath) (wd : ℕ)
          → add_watch n p ≡ some wd
          → add_watch k q ≡ some wd
          → (n ≡ k) ⊎ (p ≡ q))
        (wd : ℕ) (gave : add_watch w.adds parent ≡ some wd) where
      -- The kernel gave the new descriptor to no directory that is watched.
      fresh :
          parent_of parent w ≡ none
          → (q : DirPath) (other : ParentWatch) → parent_of q w ≡ some other
          → wd ≢ other.wd
      fresh free q other h same =
          let (n, early, before) = good.given other.wd q (good.watched q other h).0 in
          elim (unique n w.adds q parent wd (before ∙ ap some (sym same)) gave) [
            | inl e ↦ absurd (omega arith)
            | inr e ↦ absurd (none-ne-some _ (sym free ∙ ap (λ r. parent_of r w) (sym e) ∙ h))
          ]

      pub begun-Added :
          parent_of parent w ≡ none
          → Added w (begun parent c wd w) parent c (record { wd = wd; children = (c, tt) ∷ [] })
      unfolding get
      begun-Added free = record {
        parents = λ q. get-insert DirPath-discrete parent q _ w.by_parent;
        paths = λ p. get-insert DirPath-discrete (c ∷ parent) p _ w.by_path;
        children = λ x.
            is_some-ite (Bytes-discrete c x) tt none
            ∙ ap (λ o. ite (Bytes-discrete c x) true (child_in x o)) (sym free);
        wds = λ d. get-insert ℕ_discrete wd d parent w.by_wd;
        apart = λ q other h _. fresh free q other h;
        same_wd = λ other h. absurd (none-ne-some _ (sym free ∙ h));
        not_empty = refl;
        new_given = (w.adds, omega arith, gave);
        more_adds = omega arith;
      }

  -- What `watch_path` does to the set of watched paths, and that it keeps the tables in agreement.
  pub record Watches (path : DirPath) (w : Watcher) (s : Watcher × Result WatchError Bool)
      : Type 0 where
    pub tables : IsConsistent add_watch s.0
    pub success :
        (new : Bool)
        → s.1 ≡ ok new
        → (new ≡ not (is_watched path w))
          × ((p : DirPath) → is_watched p s.0 ≡ ite (DirPath-discrete path p) true (is_watched p w))
    pub failure :
        (e : WatchError)
        → s.1 ≡ err e
        → (is_watched path w ≡ false) × ((p : DirPath) → is_watched p s.0 ≡ is_watched p w)
