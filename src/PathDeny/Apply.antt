-- ===== src/PathDeny/Apply.antt =====
-- What a successful `apply_deny_entries` leaves in the maps: exactly the entries, then empty slots.
use neuromesh.Prelude.{
  ℕ, zero, suc, ◌+◌, ◌-◌, ◌≤◌, ◌<◌, ◌≡◌, refl, sym, ap, ◌∙◌, inl, inr, Bool, ◌||◌, List, [], ◌∷◌,
  ◌++◌, arith, ltb, ◌==◌, Bool-cases, length, set, take, drop, replicate, take-append-drop,
  take-append_length, drop_of_length-le, take-set, drop-set, length-set, length-replicate,
  length-append, length-drop, All,
}
use mathlib.Core.List.{append_assoc, append-nil}
use neuromesh.Prelude.Result.{ok, Result-cases}
use neuromesh.DenyEntry.{
  PathDenyEntry, empty_entry, u32, path_deny_key_bytes, path_deny_max_entries,
}
use neuromesh.PathDeny.{
  PathDenyMaps, Write, M, ◌>>◌, set_slot, set_count, write_slots, clear_slots, apply_deny_entries,
}

abbrev pub HasUsableLen : PathDenyEntry → Type 0
HasUsableLen e = (1 ≤ e.len) × (e.len ≤ path_deny_key_bytes)

-- The sizes of the two BPF arrays.
pub record HasSize (d : PathDenyMaps) : Type 0 where
  pub list : length d.list ≡ path_deny_max_entries
  pub count : length d.count ≡ 1

-- `es` written over the list of `d` from index `i` on gives `d'`.
pub record Written (d : PathDenyMaps) (i : ℕ) (es : List PathDenyEntry) (d' : PathDenyMaps)
    : Type 0 where
  pub list : d'.list ≡ take i d.list ++ (es ++ drop (i + length es) d.list)
  pub count : d'.count ≡ d.count
  pub fits : i + length es ≤ length d.list

Written-nil : (d : PathDenyMaps) (i : ℕ) → i ≤ length d.list → Written d i [] d
Written-nil d i h = record {
  list = (let z : i + 0 ≡ i = omega arith in rw z (sym (take-append-drop i d.list)));
  count = refl;
  fits = omega arith;
}

Written-cons :
    (d d' : PathDenyMaps) (i : ℕ) (e : PathDenyEntry) (es : List PathDenyEntry)
    → i < length d.list
    → Written (record d { list = set d.list i e }) (suc i) es d'
    → Written d i (e ∷ es) d'
Written-cons d d' i e es inside w = record {
  list =
      (let shift : suc i + length es ≡ i + suc (length es) = omega arith in
        w.list
        ∙ rw
            (
              take-set d.list i e inside,
              shift,
              drop-set d.list i (i + suc (length es)) e (omega arith),
              append_assoc,
            )
            refl);
  count = w.count;
  fits = omega (arith, w.fits, length-set d.list i e);
}

-- A chain that succeeds has a first part that succeeds.
pub >>-ok :
    (a b : M) (d d' : PathDenyMaps)
    → (a >> b) d ≡ (d', ok tt)
    → (d₁ : PathDenyMaps) × (a d ≡ (d₁, ok tt)) × (b d₁ ≡ (d', ok tt))
>>-ok a b d d' h = elim (Result-cases (a d).1) [
  | inl (_, good) ↦ ((a d).0, ground arith, ground arith)
  | inr (e, bad) ↦ absurd (ground arith)
]

module _ (accepts : Write → Bool) where
  pub set_slot-ok :
      (i : ℕ) (e : PathDenyEntry) (d d' : PathDenyMaps)
      → set_slot accepts i e d ≡ (d', ok tt)
      → (i < length d.list) × (d' ≡ record d { list = set d.list i e })
  unfolding set_slot
  set_slot-ok i e d d' h = (ground arith, ground arith)

  set_count-ok :
      (n : ℕ) (d d' : PathDenyMaps)
      → set_count accepts n d ≡ (d', ok tt)
      → d' ≡ record d { count = set d.count 0 n }
  unfolding set_count
  set_count-ok n d d' h = ground arith

  pub write_slots-ok :
      (i : ℕ) (es : List PathDenyEntry) (d d' : PathDenyMaps)
      → i ≤ length d.list
      → length d.list ≡ path_deny_max_entries
      → write_slots accepts i es d ≡ (d', ok tt)
      → Written d i es d' × All HasUsableLen es
  unfolding write_slots
  write_slots-ok i [] d d' low size h = let same : d' ≡ d = cc in rw same (Written-nil d i low, tt)
  write_slots-ok i (e ∷ es) d d' low size h =
      elim (Bool-cases (e.len == 0 || ltb path_deny_key_bytes e.len)) [
        | inl bad ↦ absurd (ground arith)
        | inr good ↦
            let index : u32 i ≡ i = omega arith in
            let next : i + 1 ≡ suc i = omega arith in
            let runs : (set_slot accepts i e >> write_slots accepts (suc i) es) d ≡ (d', ok tt) =
              rw (good, index, next) at h in
            let (d₁, first, later) =
              >>-ok (set_slot accepts i e) (write_slots accepts (suc i) es) d d' runs in
            let (inside, same) = set_slot-ok i e d d₁ first in
            let (w, usable) =
              write_slots-ok (suc i) es (record d { list = set d.list i e }) d'
                (omega (arith, length-set d.list i e)) (length-set d.list i e ∙ size)
                (rw same at later) in
            (Written-cons d d' i e es inside w, ((ground arith, ground arith), usable))
      ]

  clear_slots-ok :
      (rounds i : ℕ) (d d' : PathDenyMaps)
      → i ≤ length d.list
      → clear_slots accepts rounds i d ≡ (d', ok tt)
      → Written d i (replicate rounds empty_entry) d'
  unfolding clear_slots
  clear_slots-ok zero i d d' low h = let same : d' ≡ d = cc in rw same (Written-nil d i low)
  clear_slots-ok (suc rounds) i d d' low h =
      let next : i + 1 ≡ suc i = omega arith in
      let (d₁, first, later) =
        >>-ok (set_slot accepts i empty_entry) (clear_slots accepts rounds (i + 1)) d d' h in
      let (inside, same) = set_slot-ok i empty_entry d d₁ first in
      Written-cons d d' i empty_entry (replicate rounds empty_entry) inside (
        clear_slots-ok rounds (suc i) (record d { list = set d.list i empty_entry }) d'
          (omega (arith, length-set d.list i empty_entry)) (rw (same, next) at later))

-- The maps hold exactly `entries`, and empty slots behind them.
pub record Applied (entries : List PathDenyEntry) (d : PathDenyMaps) : Type 0 where
  pub list : d.list ≡ entries ++ replicate (path_deny_max_entries - length entries) empty_entry
  pub count : d.count ≡ length entries ∷ []
  pub nonempty : 1 ≤ length entries
  pub bounded : length entries ≤ path_deny_max_entries
  pub usable : All HasUsableLen entries

pub count-set : (counts : List ℕ) (n : ℕ) → length counts ≡ 1 → set counts 0 n ≡ n ∷ []
count-set [] n h = absurd (omega arith)
count-set (c ∷ []) n h = refl
count-set (c ∷ c' ∷ cs) n h = absurd (omega arith)

-- Written from the start, then cleared behind: nothing of the old list is left.
overwritten :
    (d d₁ d₂ : PathDenyMaps) (es fs : List PathDenyEntry)
    → length es + length fs ≡ length d.list
    → Written d 0 es d₁
    → d₂.list ≡ take (length es) d₁.list ++ (fs ++ drop (length es + length fs) d₁.list)
    → d₂.list ≡ es ++ fs
overwritten d d₁ d₂ es fs size w v =
    let start : take (length es) d₁.list ≡ es =
      rw w.list (take-append_length es (drop (0 + length es) d.list)) in
    let long : length d₁.list ≡ length d.list = rw w.list (
      omega (
        arith,
        length-append es (drop (0 + length es) d.list),
        length-drop (0 + length es) d.list,
      )) in
    v ∙ rw (start, drop_of_length-le (length es + length fs) d₁.list (omega arith), append-nil) refl

length-Written :
    (d d' : PathDenyMaps) (es : List PathDenyEntry)
    → Written d 0 es d'
    → length d'.list ≡ length d.list
length-Written d d' es w = rw w.list (
    omega (
      arith,
      w.fits,
      length-append es (drop (0 + length es) d.list),
      length-drop (0 + length es) d.list,
    ))

finished :
    (entries : List PathDenyEntry) (d d₁ d' : PathDenyMaps)
    → HasSize d
    → 1 ≤ length entries
    → All HasUsableLen entries
    → Written d 0 entries d₁
    → Written
        (record d₁ { count = set d₁.count 0 (length entries) })
        (length entries)
        (replicate (path_deny_max_entries - length entries) empty_entry)
        d'
    → Applied entries d'
finished entries d d₁ d' size low usable w c =
    let fits : length entries ≤ path_deny_max_entries = omega (arith, w.fits, size.list) in
    record {
      list =
          overwritten d d₁ d' entries
            (replicate (path_deny_max_entries - length entries) empty_entry)
            (omega (
              arith,
              size.list,
              length-replicate (path_deny_max_entries - length entries) empty_entry,
            ))
            w c.list;
      count = c.count ∙ count-set d₁.count (length entries) (ap length w.count ∙ size.count);
      nonempty = low;
      bounded = fits;
      usable = usable;
    }

module _ (accepts : Write → Bool) where
  chain_lem :
      (entries : List PathDenyEntry) (n : ℕ) (d d' : PathDenyMaps)
      → HasSize d
      → n ≡ u32 (length entries)
      → 1 ≤ length entries
      → (write_slots accepts 0 entries
            >> set_count accepts n
            >> clear_slots accepts (path_deny_max_entries - n) n)
          d
        ≡ (d', ok tt)
      → Applied entries d'
  chain_lem entries n d d' size e low h =
      let (d₂, front, cleared) =
        >>-ok (write_slots accepts 0 entries >> set_count accepts n)
          (clear_slots accepts (path_deny_max_entries - n) n) d d' h in
      let (d₁, wrote, counted) =
        >>-ok (write_slots accepts 0 entries) (set_count accepts n) d d₂ front in
      let (w, usable) = write_slots-ok accepts 0 entries d d₁ (omega arith) size.list wrote in
      let whole : length entries ≡ n = omega (arith, w.fits, size.list) in
      let same = set_count-ok accepts n d₁ d₂ counted in
      let room : n ≤ length d₂.list =
        rw same (omega (arith, w.fits, length-Written d d₁ entries w)) in
      let c = clear_slots-ok accepts (path_deny_max_entries - n) n d₂ d' room cleared in
      finished entries d d₁ d' size low usable w (rw whole (rw same at c))

  -- After a success the maps hold exactly the entries, which are from 1 to 64 and all usable,
  -- whatever they held before.
  pub apply_deny_entries-Applied :
      (entries : List PathDenyEntry) (d d' : PathDenyMaps)
      → HasSize d
      → apply_deny_entries accepts entries d ≡ (d', ok tt)
      → Applied entries d'
  unfolding apply_deny_entries
  apply_deny_entries-Applied [] d d' size h = absurd (ground arith)
  apply_deny_entries-Applied (e ∷ es) d d' size h =
      elim (Bool-cases (ltb path_deny_max_entries (u32 (length (e ∷ es))))) [
        | inl over ↦ absurd (ground arith)
        | inr under ↦
            chain_lem (e ∷ es) (u32 (length (e ∷ es))) d d' size refl (omega arith) (rw under at h)
      ]
