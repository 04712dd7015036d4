-- ===== src/HashTable.antt =====
-- The hash maps and hash sets of the standard library (and the kernel's hash map) as association
-- lists without repeated keys. `insert` and `remove` drop every pair with the key, so the laws of
-- `get` hold of any list.
use mathlib.Core.Logic.{ite, if_pos, if_neg}
use neuromesh.Prelude.{
  suc, ◌≤◌, ◌<◌, ◌≡◌, ◌≢◌, refl, sym, Bool, true, false, Option, none, some, List, [], ◌∷◌, arith,
  length,
}

abbrev pub HashMap : Type 0 → Type 0 → Type 0
HashMap K V = List (K × V)

-- A set is a map to the unit type.
abbrev pub HashSet : Type 0 → Type 0
HashSet K = HashMap K (Unit {0})

abbrev pub is_some {ℓ} : {A : Type ℓ} → Option A → Bool
is_some none = false
is_some (some a) = true

module _ {K V : Type 0} (dec : Discrete K) where
  unfoldable pub get : K → HashMap K V → Option V
  get k [] = none
  get k ((j, v) ∷ m) = ite (dec j k) (some v) (get k m)

  unfoldable pub remove : K → HashMap K V → HashMap K V
  remove k [] = []
  remove k ((j, v) ∷ m) = ite (dec j k) (remove k m) ((j, v) ∷ remove k m)

  unfoldable pub insert : K → V → HashMap K V → HashMap K V
  insert k v m = (k, v) ∷ remove k m

  abbrev pub contains_key : K → HashMap K V → Bool
  contains_key k m = is_some (get k m)

  -- No key stands twice.
  abbrev pub Distinct : HashMap K V → Type 0
  Distinct [] = Unit
  Distinct ((k, v) ∷ m) = (get k m ≡ none) × Distinct m

  pub get-nil : (k : K) → get k [] ≡ none
  unfolding get
  get-nil k = refl

  pub get-remove_self : (k : K) (m : HashMap K V) → get k (remove k m) ≡ none
  unfolding get remove
  get-remove_self k [] = refl
  get-remove_self k ((j, v) ∷ m) = ground (arith, get-remove_self k m)

  pub get-remove_ne : (k q : K) (m : HashMap K V) → k ≢ q → get q (remove k m) ≡ get q m
  unfolding get remove
  get-remove_ne k q [] h = refl
  get-remove_ne k q ((j, v) ∷ m) h = ground (arith, get-remove_ne k q m)

  pub get-insert_self : (k : K) (v : V) (m : HashMap K V) → get k (insert k v m) ≡ some v
  unfolding get insert
  get-insert_self k v m = ground arith

  pub get-insert_ne : (k q : K) (v : V) (m : HashMap K V) → k ≢ q → get q (insert k v m) ≡ get q m
  unfolding get insert
  get-insert_ne k q v m h = ground (arith, get-remove_ne k q m h)

  pub get-remove : (k q : K) (m : HashMap K V) → get q (remove k m) ≡ ite (dec k q) none (get q m)
  get-remove k q m = elim (dec k q) [
    | yes p ↦ rw (if_pos _ p, p) (get-remove_self q m)
    | no p ↦ rw (if_neg _ p) (get-remove_ne k q m p)
  ]

  pub get-insert :
      (k q : K) (v : V) (m : HashMap K V) → get q (insert k v m) ≡ ite (dec k q) (some v) (get q m)
  get-insert k q v m = elim (dec k q) [
    | yes p ↦ rw (if_pos _ p, p) (get-insert_self q v m)
    | no p ↦ rw (if_neg _ p) (get-insert_ne k q v m p)
  ]

  pub remove-Distinct : (k : K) (m : HashMap K V) → Distinct m → Distinct (remove k m)
  unfolding remove
  remove-Distinct k [] d = tt
  remove-Distinct k ((j, v) ∷ m) (fresh, d) = elim (dec j k) [
    | yes p ↦ rw (if_pos _ p) (remove-Distinct k m d)
    | no p ↦
        rw (if_neg _ p) (rw (get-remove_ne k j m (λ e. p (sym e))) fresh, remove-Distinct k m d)
  ]

  pub insert-Distinct : (k : K) (v : V) (m : HashMap K V) → Distinct m → Distinct (insert k v m)
  unfolding insert
  insert-Distinct k v m d = (get-remove_self k m, remove-Distinct k m d)

  pub length-remove-le : (k : K) (m : HashMap K V) → length (remove k m) ≤ length m
  unfolding remove
  length-remove-le k [] = omega arith
  length-remove-le k ((j, v) ∷ m) = ground (arith, length-remove-le k m)

  pub length-remove_hit :
      (k : K) (v : V) (m : HashMap K V) → get k m ≡ some v → length (remove k m) < length m
  unfolding get remove
  length-remove_hit k v [] h = absurd (cc h)
  length-remove_hit k v ((j, w) ∷ m) h =
      ground (arith, length-remove_hit k v m, length-remove-le k m)

  pub length-insert-le : (k : K) (v : V) (m : HashMap K V) → length (insert k v m) ≤ suc (length m)
  unfolding insert
  length-insert-le k v m = let h = length-remove-le k m in omega arith

pub is_some-false : {A : Type 0} (o : Option A) → is_some o ≡ false → o ≡ none
is_some-false none h = refl
is_some-false (some a) h = absurd (cc h)

pub is_some-true : {A : Type 0} (o : Option A) → is_some o ≡ true → (a : A) × (o ≡ some a)
is_some-true none h = absurd (cc h)
is_some-true (some a) h = (a, refl)
