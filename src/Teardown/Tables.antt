-- ===== src/Teardown/Tables.antt =====
-- apps/agent-ebpf-sensor/src/identity_correlator/teardown_watch.rs: the three tables of the watcher
-- agree, whatever is watched and unwatched.
use mathlib.Core.Logic.{ite}
use mathlib.Core.Option.{some-injective, none-ne-some}
use neuromesh.Prelude.{
  ℕ, ◌<◌, ◌≡◌, ◌≢◌, refl, sym, ◌∙◌, ap, inl, inr, Bool, true, false, Option, none, some, [], ◌∷◌,
  if◌then◌else◌, is_empty, arith, ℕ_discrete, Bool-cases, ite-join, is_empty-nil, ite-yes, ite-no,
}
use neuromesh.Bytes.{Bytes, Bytes-discrete}
use neuromesh.HashTable.{HashSet, get, remove, contains_key, get-insert, get-remove}
use neuromesh.Teardown.{
  DirPath, DirPath-discrete, ParentWatch, Watcher, path_of, parent_of, drop_child, forget,
  no_watches,
}

abbrev pub child_in : Bytes → Option ParentWatch → Bool
child_in c none = false
child_in c (some pw) = contains_key Bytes-discrete c pw.children

pub child_in-some :
    (c : Bytes) (o : Option ParentWatch) → child_in c o ≡ true → (pw : ParentWatch) × (o ≡ some pw)
child_in-some c none h = absurd (cc h)
child_in-some c (some pw) h = (pw, refl)

-- The path is a child that is watched through its parent.
abbrev pub is_watched : DirPath → Watcher → Bool
is_watched [] w = false
is_watched (c ∷ parent) w = child_in c (parent_of parent w)

module _ (add_watch : ℕ → DirPath → Option ℕ) where
  -- The kernel gave this descriptor for the directory in one of the first requests.
  abbrev pub Given : ℕ → DirPath → ℕ → Type 0
  Given wd parent adds = (n : ℕ) × (n < adds) × (add_watch n parent ≡ some wd)

  pub record IsConsistent (w : Watcher) : Type 0 where
    pub root : path_of [] w ≡ none
    pub paths :
        (c : Bytes) (parent : DirPath)
        → path_of (c ∷ parent) w
          ≡ (if child_in c (parent_of parent w) then some (parent, c) else none)
    pub watched :
        (parent : DirPath) (pw : ParentWatch)
        → parent_of parent w ≡ some pw
        → (get ℕ_discrete pw.wd w.by_wd ≡ some parent) × (is_empty pw.children ≡ false)
    pub owned :
        (wd : ℕ) (parent : DirPath)
        → get ℕ_discrete wd w.by_wd ≡ some parent
        → (pw : ParentWatch) × (parent_of parent w ≡ some pw) × (pw.wd ≡ wd)
    pub given :
        (wd : ℕ) (parent : DirPath)
        → get ℕ_discrete wd w.by_wd ≡ some parent
        → Given wd parent w.adds

  pub no_watches-IsConsistent : IsConsistent no_watches
  unfolding get
  no_watches-IsConsistent = record {
    root = refl;
    paths = λ c parent. refl;
    watched = λ parent pw h. absurd (cc h);
    owned = λ wd parent h. absurd (cc h);
    given = λ wd parent h. absurd (cc h);
  }

  module _ (w : Watcher) (parent : DirPath) (pw : ParentWatch) (c : Bytes)
      (there : parent_of parent w ≡ some pw) where
    abbrev dropped : Watcher
    dropped = drop_child parent c pw (forget (c ∷ parent) w)

    -- What is left of the children.
    abbrev left : HashSet Bytes
    left = remove Bytes-discrete c pw.children

    path_of-dropped :
        (p : DirPath) → path_of p dropped ≡ ite (DirPath-discrete (c ∷ parent) p) none (path_of p w)
    unfolding drop_child
    path_of-dropped p = elim (Bool-cases (is_empty left)) [
      | inl last ↦ rw (drop_child, last) (get-remove DirPath-discrete (c ∷ parent) p w.by_path)
      | inr more ↦ rw (drop_child, more) (get-remove DirPath-discrete (c ∷ parent) p w.by_path)
    ]

    abbrev remaining : Option ParentWatch
    remaining = if is_empty left then none else some (record pw { children = left })

    parent_of-dropped :
        (q : DirPath)
        → parent_of q dropped ≡ ite (DirPath-discrete parent q) remaining (parent_of q w)
    unfolding drop_child
    parent_of-dropped q = elim (Bool-cases (is_empty left)) [
      | inl last ↦ rw (drop_child, last) (get-remove DirPath-discrete parent q w.by_parent)
      | inr more ↦
          rw (drop_child, more)
            (get-insert DirPath-discrete parent q (record pw { children = left }) w.by_parent)
    ]

    by_wd-dropped :
        (wd : ℕ)
        → get ℕ_discrete wd dropped.by_wd ≡ (
            if is_empty left
            then ite (ℕ_discrete pw.wd wd) none (get ℕ_discrete wd w.by_wd)
            else get ℕ_discrete wd w.by_wd)
    unfolding drop_child
    by_wd-dropped wd = elim (Bool-cases (is_empty left)) [
      | inl last ↦ rw (drop_child, last) (get-remove ℕ_discrete pw.wd wd w.by_wd)
      | inr more ↦ rw (drop_child, more) refl
    ]

    contains-left :
        (x : Bytes)
        → contains_key Bytes-discrete x left
          ≡ ite (Bytes-discrete c x) false (contains_key Bytes-discrete x pw.children)
    contains-left x = ground (arith, get-remove Bytes-discrete c x pw.children)

    child_in-remaining :
        (x : Bytes)
        → child_in x remaining
          ≡ ite (Bytes-discrete c x) false (contains_key Bytes-discrete x pw.children)
    unfolding get
    child_in-remaining x = elim (Bool-cases (is_empty left)) [
      | inl last ↦ rw last (
          ap (λ children. contains_key Bytes-discrete x children) (sym (is_empty-nil left last))
          ∙ contains-left x)
      | inr more ↦ rw more (contains-left x)
    ]

    adds-dropped : dropped.adds ≡ w.adds
    unfolding drop_child
    adds-dropped = elim (Bool-cases (is_empty left)) [
      | inl last ↦ rw (drop_child, last) refl
      | inr more ↦ rw (drop_child, more) refl
    ]

    -- What was watched still is, but the child.
    pub is_watched-dropped :
        (p : DirPath)
        → is_watched p dropped ≡ ite (DirPath-discrete (c ∷ parent) p) false (is_watched p w)
    is_watched-dropped [] =
        sym (ite-join (DirPath-discrete (c ∷ parent) []) (λ _. refl) (λ _. refl))
    is_watched-dropped (x ∷ q) = elim (DirPath-discrete parent q) [
      | no differ ↦
          rw
            (
              parent_of-dropped q,
              ite-no (DirPath-discrete parent q) _ _ differ,
              ite-no (DirPath-discrete (c ∷ parent) (x ∷ q)) _ _ (λ e. differ (cc)),
            )
            refl
      | yes same ↦
          ap (child_in x) (parent_of-dropped q ∙ ite-yes (DirPath-discrete parent q) _ _ same)
          ∙ child_in-remaining x
          ∙ elim (Bytes-discrete c x) [
            | yes e ↦
                ite-yes (Bytes-discrete c x) _ _ e
                ∙ sym (ite-yes (DirPath-discrete (c ∷ parent) (x ∷ q)) _ _ (cc (e, same)))
            | no n ↦
                ite-no (Bytes-discrete c x) _ _ n
                ∙ ap (child_in x) (sym there ∙ ap (λ r. parent_of r w) same)
                ∙ sym (ite-no (DirPath-discrete (c ∷ parent) (x ∷ q)) _ _ (λ h. n (cc)))
          ]
    ]

    module _ (ok : IsConsistent w) where
      owner : get ℕ_discrete pw.wd w.by_wd ≡ some parent
      owner = (ok.watched parent pw there).0

      paths-dropped :
          (x : Bytes) (q : DirPath)
          → path_of (x ∷ q) dropped
            ≡ (if child_in x (parent_of q dropped) then some (q, x) else none)
      paths-dropped x q = elim (DirPath-discrete (c ∷ parent) (x ∷ q)) [
        | yes same ↦
            rw
              (
                path_of-dropped (x ∷ q),
                ite-yes (DirPath-discrete (c ∷ parent) (x ∷ q)) _ _ same,
                is_watched-dropped (x ∷ q)
                    ∙ ite-yes (DirPath-discrete (c ∷ parent) (x ∷ q)) _ _ same,
              )
              refl
        | no differ ↦
            rw
              (
                path_of-dropped (x ∷ q),
                ite-no (DirPath-discrete (c ∷ parent) (x ∷ q)) _ _ differ,
                is_watched-dropped (x ∷ q)
                    ∙ ite-no (DirPath-discrete (c ∷ parent) (x ∷ q)) _ _ differ,
              )
              (ok.paths x q)
      ]

      -- The other parent that has the same descriptor would be the same parent.
      apart :
          (q : DirPath) (other : ParentWatch)
          → parent_of q w ≡ some other
          → parent ≢ q
          → pw.wd ≢ other.wd
      apart q other h differ same = differ (
          some-injective _ _
            (sym owner ∙ ap (λ d. get ℕ_discrete d w.by_wd) same ∙ (ok.watched q other h).0))

      by_wd-others :
          (wd : ℕ) → pw.wd ≢ wd → get ℕ_discrete wd dropped.by_wd ≡ get ℕ_discrete wd w.by_wd
      by_wd-others wd differ = elim (Bool-cases (is_empty left)) [
        | inl last ↦ by_wd-dropped wd ∙ rw last (ite-no (ℕ_discrete pw.wd wd) _ _ differ)
        | inr more ↦ by_wd-dropped wd ∙ rw more refl
      ]

      watched-dropped :
          (q : DirPath) (other : ParentWatch)
          → parent_of q dropped ≡ some other
          → (get ℕ_discrete other.wd dropped.by_wd ≡ some q) × (is_empty other.children ≡ false)
      watched-dropped q other h = elim (DirPath-discrete parent q) [
        | yes same ↦ elim (Bool-cases (is_empty left)) [
          | inl last ↦ absurd (
              none-ne-some _ (
                sym (
                  parent_of-dropped q ∙ ite-yes (DirPath-discrete parent q) _ _ same ∙ rw last refl)
                ∙ h))
          | inr more ↦
              let e : some (record pw { children = left }) ≡ some other =
                sym (
                  parent_of-dropped q ∙ ite-yes (DirPath-discrete parent q) _ _ same ∙ rw more refl)
                ∙ h in
              let e' = some-injective _ _ e in
              (
                ap (λ (r : ParentWatch). get ℕ_discrete r.wd dropped.by_wd) (sym e')
                    ∙ by_wd-dropped pw.wd
                    ∙ rw more (owner ∙ ap some same),
                ap (λ (r : ParentWatch). is_empty r.children) (sym e') ∙ more,
              )
        ]
        | no differ ↦
            let before : parent_of q w ≡ some other =
              sym (parent_of-dropped q ∙ ite-no (DirPath-discrete parent q) _ _ differ) ∙ h in
            (
              by_wd-others other.wd (apart q other before differ) ∙ (ok.watched q other before).0,
              (ok.watched q other before).1,
            )
      ]

      -- A descriptor that is still known was known, and belongs to another parent or to one with
      -- children left.
      pub known :
          (wd : ℕ) (q : DirPath)
          → get ℕ_discrete wd dropped.by_wd ≡ some q
          → (get ℕ_discrete wd w.by_wd ≡ some q) × (parent ≡ q → is_empty left ≡ false)
      known wd q h = elim (Bool-cases (is_empty left)) [
        | inr more ↦ (sym (by_wd-dropped wd ∙ rw more refl) ∙ h, λ _. more)
        | inl last ↦ elim (ℕ_discrete pw.wd wd) [
          | yes same ↦ absurd (
              none-ne-some _
                (sym (by_wd-dropped wd ∙ rw last (ite-yes (ℕ_discrete pw.wd wd) _ _ same)) ∙ h))
          | no differ ↦
              let before : get ℕ_discrete wd w.by_wd ≡ some q = sym (by_wd-others wd differ) ∙ h in
              (
                before,
                λ same.
                    let (other, is_other, its_wd) = ok.owned wd q before in
                    absurd (
                      differ (
                        ap (λ (r : ParentWatch). r.wd)
                          (some-injective _ _ (sym there ∙ ap (λ r. parent_of r w) same ∙ is_other))
                        ∙ its_wd)),
              )
        ]
      ]

      owned-dropped :
          (wd : ℕ) (q : DirPath)
          → get ℕ_discrete wd dropped.by_wd ≡ some q
          → (other : ParentWatch) × (parent_of q dropped ≡ some other) × (other.wd ≡ wd)
      owned-dropped wd q h =
          let (before, has_left) = known wd q h in
          let (other, is_other, its_wd) = ok.owned wd q before in
          elim (DirPath-discrete parent q) [
            | no differ ↦ (
              other,
              parent_of-dropped q ∙ ite-no (DirPath-discrete parent q) _ _ differ ∙ is_other,
              its_wd,
            )
            | yes same ↦ (
              record pw { children = left },
              parent_of-dropped q
                  ∙ ite-yes (DirPath-discrete parent q) _ _ same
                  ∙ rw (has_left same) refl,
              ap (λ (r : ParentWatch). r.wd)
                    (some-injective _ _ (sym there ∙ ap (λ r. parent_of r w) same ∙ is_other))
                  ∙ its_wd,
            )
          ]

      pub dropped-IsConsistent : IsConsistent dropped
      dropped-IsConsistent = record {
        root =
            path_of-dropped []
            ∙ ite-join (DirPath-discrete (c ∷ parent) []) (λ _. refl) (λ _. ok.root);
        paths = paths-dropped;
        watched = watched-dropped;
        owned = owned-dropped;
        given = λ wd q h. rw adds-dropped (ok.given wd q (known wd q h).0);
      }
