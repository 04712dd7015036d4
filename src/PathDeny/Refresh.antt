-- ===== src/PathDeny/Refresh.antt =====
-- The kernel program reads the maps while `apply_deny_entries` writes them. A run that is refused an
-- update stops there, so what holds after every run, whatever `accepts` is, holds between any two
-- of the updates: these are the states that the kernel program can see.
use neuromesh.Prelude.{
  ℕ, zero, suc, ◌+◌, ◌-◌, ◌≤◌, ◌<◌, ◌≡◌, refl, sym, ap, ◌∙◌, inl, inr, Bool, true, false, ◌&&◌,
  ◌||◌, some, List, [], ◌∷◌, arith, ltb, ◌==◌, Bool-cases, ℕ_discrete, length, is_empty, get_elem?,
  set, length-set, get_elem?-set_self, get_elem?-set_ne, take,
}
use native.Mathlib.Nat.{zero-add}
use neuromesh.Prelude.Result.{ok, Result-cases}
use neuromesh.Bytes.{Bytes}
use neuromesh.DenyEntry.{
  matches, PathDenyEntry, empty_entry, u32, path_deny_key_bytes, path_deny_max_entries,
}
use neuromesh.PathDeny.{
  map_backed_is_blacklisted, PathDenyMaps, Write, slot, total, M, ◌>>◌, set_slot, set_count,
  write_slots, clear_slots, apply_deny_entries,
}
use neuromesh.PathDeny.Apply.{HasUsableLen, write_slots-ok}

>>-preserves :
    (Q : PathDenyMaps → Type 0) (a b : M) (d : PathDenyMaps)
    → Q (a d).0
    → ((a d).1 ≡ ok tt → Q (b (a d).0).0)
    → Q ((a >> b) d).0
>>-preserves Q a b d first later = elim (Result-cases (a d).1) [
  | inl (tt', good) ↦ rw (good, ◌>>◌) (later good)
  | inr (e, bad) ↦ rw (bad, ◌>>◌) first
]

>>-first : (a b : M) (d : PathDenyMaps) → ((a >> b) d).1 ≡ ok tt → (a d).1 ≡ ok tt
>>-first a b d h = elim (Result-cases (a d).1) [
  | inl (_, good) ↦ good
  | inr (e, bad) ↦ absurd (ground arith)
]

-- The rule for what `apply_deny_entries entries` keeps: `P` is kept by each update that it makes.
record Keeps (entries : List PathDenyEntry) (P : PathDenyMaps → Type 0) : Type 0 where
  by_slot :
      (d : PathDenyMaps) (j : ℕ) (x : PathDenyEntry)
      → length d.list ≡ path_deny_max_entries
      → get_elem? entries j ≡ some x
      → HasUsableLen x
      → P d
      → P (record d { list = set d.list j x })
  by_count :
      (d : PathDenyMaps)
      → length entries ≤ path_deny_max_entries
      → P d
      → P (record d { count = set d.count 0 (length entries) })
  by_clear :
      (d : PathDenyMaps) (j : ℕ)
      → length entries ≤ j
      → P d
      → P (record d { list = set d.list j empty_entry })

module _ (accepts : Write → Bool) (entries : List PathDenyEntry) (P : PathDenyMaps → Type 0)
    (keeps : Keeps entries P) where
  -- `P`, and the size that the updates keep.
  abbrev Q : PathDenyMaps → Type 0
  Q d = P d × (length d.list ≡ path_deny_max_entries)

  set_slot-Q :
      (d : PathDenyMaps) (j : ℕ) (x : PathDenyEntry)
      → Q d
      → P (record d { list = set d.list j x })
      → Q (set_slot accepts j x d).0
  unfolding set_slot
  set_slot-Q d j x (p, size) next =
      elim (Bool-cases (ltb j (length d.list) && accepts (slot j x))) [
        | inl good ↦ rw (good, set_slot) (next, length-set d.list j x ∙ size)
        | inr bad ↦ rw (bad, set_slot) (p, size)
      ]

  set_slot_inside :
      (d : PathDenyMaps) (j : ℕ) (x : PathDenyEntry)
      → (set_slot accepts j x d).1 ≡ ok tt
      → j < length d.list
  unfolding set_slot
  set_slot_inside d j x h = ground arith

  write_slots-Q :
      (j : ℕ) (es : List PathDenyEntry) (d : PathDenyMaps)
      → j ≤ path_deny_max_entries
      → ((k : ℕ) (x : PathDenyEntry) → get_elem? es k ≡ some x → get_elem? entries (j + k) ≡ some x)
      → Q d
      → Q (write_slots accepts j es d).0
  unfolding write_slots
  write_slots-Q j [] d low suffix q = q
  write_slots-Q j (e ∷ es) d low suffix q =
      elim (Bool-cases (e.len == 0 || ltb path_deny_key_bytes e.len)) [
        | inl bad ↦ rw (bad, write_slots) q
        | inr good ↦
            let index : u32 j ≡ j = omega arith in
            let here : j + 0 ≡ j = omega arith in
            let first : Q (set_slot accepts j e d).0 =
              set_slot-Q d j e q (
                keeps.by_slot d j e q.1 (rw here at (suffix 0 e refl)) (ground (arith, good))
                  q.0) in
            rw (good, index, write_slots)
              (>>-preserves Q (set_slot accepts j e) (write_slots accepts (j + 1) es) d first
                (λ wrote.
                  write_slots-Q (j + 1) es (set_slot accepts j e d).0
                    (omega (arith, set_slot_inside d j e wrote, q.1))
                    (λ k x found.
                      let shift : j + 1 + k ≡ j + suc k = omega arith in
                      rw shift (suffix (suc k) x found))
                    first))
      ]

  clear_slots-Q :
      (rounds j : ℕ) (d : PathDenyMaps)
      → length entries ≤ j
      → Q d
      → Q (clear_slots accepts rounds j d).0
  unfolding clear_slots
  clear_slots-Q zero j d low q = q
  clear_slots-Q (suc rounds) j d low q =
      >>-preserves Q (set_slot accepts j empty_entry) (clear_slots accepts rounds (j + 1)) d
        (set_slot-Q d j empty_entry q (keeps.by_clear d j low q.0))
        (λ _.
          clear_slots-Q rounds (j + 1) _ (omega arith)
            (set_slot-Q d j empty_entry q (keeps.by_clear d j low q.0)))

  set_count-Q :
      (d : PathDenyMaps)
      → length entries ≤ path_deny_max_entries
      → Q d
      → Q (set_count accepts (length entries) d).0
  unfolding set_count
  set_count-Q d fits q =
      elim (Bool-cases (ltb 0 (length d.count) && accepts (total (length entries)))) [
        | inl good ↦ rw (good, set_count) (keeps.by_count d fits q.0, q.1)
        | inr bad ↦ rw (bad, set_count) q
      ]

  write_slots_fit :
      (d : PathDenyMaps)
      → length d.list ≡ path_deny_max_entries
      → (write_slots accepts 0 entries d).1 ≡ ok tt
      → length entries ≤ path_deny_max_entries
  write_slots_fit d size wrote =
      let (w, usable) =
        write_slots-ok accepts 0 entries d (write_slots accepts 0 entries d).0 (omega arith) size
          (ap (λ r. ((write_slots accepts 0 entries d).0, r)) wrote) in
      omega (arith, w.fits, size)

  run-Q :
      (d : PathDenyMaps)
      → Q d
      → Q
          ((write_slots accepts 0 entries
              >> set_count accepts (u32 (length entries))
              >> clear_slots accepts
                  (path_deny_max_entries - u32 (length entries))
                  (u32 (length entries)))
            d).0
  run-Q d q =
      let n = u32 (length entries) in
      let a = write_slots accepts 0 entries in
      let first : Q (a d).0 =
        write_slots-Q 0 entries d (omega arith) (λ k x found. rw zero-add found) q in
      let b = set_count accepts n in
      let whole : (a d).1 ≡ ok tt → length entries ≡ n =
        λ wrote. omega (arith, write_slots_fit d q.1 wrote) in
      let second : Q ((a >> b) d).0 =
        >>-preserves Q a b d first
          (λ wrote. rw (← whole wrote) (set_count-Q (a d).0 (write_slots_fit d q.1 wrote) first)) in
      >>-preserves Q (a >> b) (clear_slots accepts (path_deny_max_entries - n) n) d second (λ both.
        clear_slots-Q (path_deny_max_entries - n) n ((a >> b) d).0
          (omega (arith, whole (>>-first a b d both))) second)

  -- Whatever the three kinds of update keep, every run of `apply_deny_entries` keeps.
  apply_deny_entries-Q : (d : PathDenyMaps) → Q d → Q (apply_deny_entries accepts entries d).0
  unfolding apply_deny_entries
  apply_deny_entries-Q d q = elim (Bool-cases (is_empty entries)) [
    | inl none_given ↦ rw (none_given, apply_deny_entries) q
    | inr given ↦ elim (Bool-cases (ltb path_deny_max_entries (u32 (length entries)))) [
      | inl over ↦ rw (given, over, apply_deny_entries) q
      | inr under ↦ rw (given, under, apply_deny_entries) (run-Q d q)
    ]
  ]

-- Slot `i` holds `e`, and the count covers it: the kernel program consults `e`.
pub record Enforces (d : PathDenyMaps) (i : ℕ) (e : PathDenyEntry) : Type 0 where
  pub held : get_elem? d.list i ≡ some e
  pub total : ℕ
  pub counted : get_elem? d.count 0 ≡ some total
  pub covered : i < total

get_elem?-lt {ℓ} :
    {A : Type ℓ} (xs : List A) (i : ℕ) (a : A) → get_elem? xs i ≡ some a → i < length xs
get_elem?-lt [] i a h = absurd (cc h)
get_elem?-lt (x ∷ xs) zero a h = omega arith
get_elem?-lt (x ∷ xs) (suc i) a h = omega (arith, get_elem?-lt xs i a h)

count-set_head :
    (counts : List ℕ) (c n : ℕ)
    → get_elem? counts 0 ≡ some c
    → get_elem? (set counts 0 n) 0 ≡ some n
count-set_head [] c n h = absurd (cc h)
count-set_head (x ∷ xs) c n h = refl

-- A write of the same entry, or to another slot, leaves what a slot holds.
held-set :
    (l : List PathDenyEntry) (i j : ℕ) (e x : PathDenyEntry)
    → get_elem? l i ≡ some e
    → (i ≡ j → x ≡ e)
    → get_elem? (set l j x) i ≡ some e
held-set l i j e x held same = elim (ℕ_discrete j i) [
  | yes p ↦
      let v : x ≡ e = same (sym p) in rw (p, v) (get_elem?-set_self l i e (get_elem?-lt l i e held))
  | no p ↦ get_elem?-set_ne l j i x p ∙ held
]

Enforces-Keeps :
    (entries : List PathDenyEntry) (i : ℕ) (e : PathDenyEntry)
    → get_elem? entries i ≡ some e
    → Keeps entries (λ d. Enforces d i e)
Enforces-Keeps entries i e there = record {
  by_slot = λ d j x size found usable p. record {
    held = held-set d.list i j e x p.held (λ s. cc (ap (get_elem? entries) s));
    total = p.total;
    counted = p.counted;
    covered = p.covered;
  };
  by_count = λ d fits p. record {
    held = p.held;
    total = length entries;
    counted = count-set_head d.count p.total (length entries) p.counted;
    covered = get_elem?-lt entries i e there;
  };
  by_clear = λ d j past p. record {
    held =
        held-set d.list i j e empty_entry p.held
          (λ s. absurd (omega (arith, s, get_elem?-lt entries i e there)));
    total = p.total;
    counted = p.counted;
    covered = p.covered;
  };
}

-- If the deny list has its 64 slots: an entry that the old and the new list have at the same place
-- is enforced after every run of `apply_deny_entries`, complete or stopped at any update.
pub apply_deny_entries-Enforces :
    (accepts : Write → Bool) (entries : List PathDenyEntry) (d : PathDenyMaps) (i : ℕ)
    (e : PathDenyEntry)
    → length d.list ≡ path_deny_max_entries
    → get_elem? entries i ≡ some e
    → Enforces d i e
    → Enforces (apply_deny_entries accepts entries d).0 i e
apply_deny_entries-Enforces accepts entries d i e size there p =
    (apply_deny_entries-Q accepts entries (λ d. Enforces d i e) (Enforces-Keeps entries i e there) d
      (p, size)).0

-- The first slot holds an entry that the kernel program consults, and its length is usable.
abbrev pub IsArmed : PathDenyMaps → Type 0
IsArmed d = (e : PathDenyEntry) × Enforces d 0 e × HasUsableLen e

IsArmed-Keeps : (entries : List PathDenyEntry) → 1 ≤ length entries → Keeps entries IsArmed
IsArmed-Keeps entries low = record {
  by_slot = λ d j x size found usable (e, p, usable_e). elim (ℕ_discrete j 0) [
    | yes first ↦ (
      x,
      record {
        held = rw first (get_elem?-set_self d.list 0 x (omega (arith, size)));
        total = p.total;
        counted = p.counted;
        covered = p.covered;
      },
      usable,
    )
    | no later ↦ (
      e,
      record {
        held = get_elem?-set_ne d.list j 0 x later ∙ p.held;
        total = p.total;
        counted = p.counted;
        covered = p.covered;
      },
      usable_e,
    )
  ];
  by_count = λ d fits (e, p, usable). (
    e,
    record {
      held = p.held;
      total = length entries;
      counted = count-set_head d.count p.total (length entries) p.counted;
      covered = low;
    },
    usable,
  );
  by_clear = λ d j past (e, p, usable). (
    e,
    record {
      held = get_elem?-set_ne d.list j 0 empty_entry (λ z. omega (arith, z, low, past)) ∙ p.held;
      total = p.total;
      counted = p.counted;
      covered = p.covered;
    },
    usable,
  );
}

-- No run of `apply_deny_entries` disarms the maps, complete or stopped at any update.
pub apply_deny_entries-IsArmed :
    (accepts : Write → Bool) (entries : List PathDenyEntry) (d : PathDenyMaps)
    → length d.list ≡ path_deny_max_entries
    → IsArmed d
    → IsArmed (apply_deny_entries accepts entries d).0
unfolding apply_deny_entries
apply_deny_entries-IsArmed accepts [] d size armed = armed
apply_deny_entries-IsArmed accepts (e ∷ es) d size armed =
    (apply_deny_entries-Q accepts (e ∷ es) IsArmed (IsArmed-Keeps (e ∷ es) (omega arith)) d
      (armed, size)).0

-- A refresh that swaps two usable entries is open in between: if the kernel takes the first update
-- and refuses the second (or the kernel program looks between them), a path that the old and the
-- new list deny is not denied.
pub apply_deny_entries_gap :
    (accepts : Write → Bool) (a b : PathDenyEntry) (rest : List PathDenyEntry) (path : Bytes)
    → HasUsableLen a
    → HasUsableLen b
    → matches a path ≡ true
    → matches b path ≡ false
    → accepts (slot 0 b) ≡ true
    → accepts (slot 1 a) ≡ false
    → let d : PathDenyMaps = record { list = a ∷ b ∷ rest; count = 2 ∷ [] } in
      let d' = (apply_deny_entries accepts (b ∷ a ∷ []) d).0 in
      (map_backed_is_blacklisted path (take 2 d.list) ≡ true)
      × (map_backed_is_blacklisted path (b ∷ a ∷ []) ≡ true)
      × (d'.count ≡ 2 ∷ [])
      × (map_backed_is_blacklisted path (take 2 d'.list) ≡ false)
unfolding apply_deny_entries map_backed_is_blacklisted write_slots set_slot
apply_deny_entries_gap accepts a b rest path ua ub hit miss first second =
    (ground arith, ground arith, ground arith, ground arith)
