-- ===== src/PinAbi/Changes.antt =====
-- apps/agent-ebpf-sensor/src/pin_abi.rs: what each change of the file system does to each path, and
-- how assertions on the file system pass through a sequence of changes that may be refused.
use neuromesh.Prelude.{
  ℕ, ◌≡◌, refl, ◌∙◌, ap, ◌≢◌, ◌⊎◌, inl, inr, Bool, false, Option, none, some, [], ◌∷◌, arith,
  Bool-cases,
}
use neuromesh.Prelude.Result.{Result, ok, err}
use neuromesh.Bytes.{Bytes}
use neuromesh.HashTable.{
  get, insert, remove, get-insert_self, get-insert_ne, get-remove_self, get-remove_ne,
}
use neuromesh.PinAbi.Disk.{
  FilePath, top, under, FilePath-discrete, dir, pin, Nodes, at, PinError, Disk, M, ◌>>=◌, pure,
  read, change, rename_node, add_dir, remove_pin, remove_tree, without_tree, is_below,
}

-- What holds of the file system and the result of a run, by its outcome.
abbrev pub Outcome :
    {A : Type 0}
    → (A → Nodes → Type 0)
    → (PinError → Nodes → Type 0)
    → Disk × Result PinError A
    → Type 0
Outcome Q E (s, ok a) = Q a s.nodes
Outcome Q E (s, err e) = E e s.nodes

pub record Post {A : Type 0} (Q : A → Nodes → Type 0) (E : PinError → Nodes → Type 0)
    (p : Disk × Result PinError A) : Type 0 where
  pub holds : Outcome Q E p

module _ {A B : Type 0} {Q : A → Nodes → Type 0} {R : B → Nodes → Type 0}
    {E : PinError → Nodes → Type 0} where
  Post-elim :
      (next : A → M B) (p : Disk × Result PinError A)
      → Post Q E p
      → ((a : A) (s : Disk) → Q a s.nodes → Post R E (next a s))
      → Post R E (elim p.1 [ ok a ↦ next a p.0 | err e ↦ (p.0, err e) ])
  Post-elim next (s, ok a) h k = k a s h.holds
  Post-elim next (s, err e) h k = record { holds = h.holds }

  pub Post-bind :
      (m : M A) (next : A → M B) (s : Disk)
      → Post Q E (m s)
      → ((a : A) (s : Disk) → Q a s.nodes → Post R E (next a s))
      → Post R E ((m >>= next) s)
  unfolding ◌>>=◌
  Post-bind m next s = Post-elim next (m s)

pub >>=-ok :
    {A B : Type 0} (m : M A) (next : A → M B) (s t : Disk) (a : A)
    → m s ≡ (t, ok a)
    → (m >>= next) s ≡ next a t
unfolding ◌>>=◌
>>=-ok {A} {B} m next s t a h =
    let step : Disk × Result PinError A → Disk × Result PinError B =
      λ p. elim p.1 [ ok a ↦ next a p.0 | err e ↦ (p.0, err e) ] in
    ap step h

module _ {A : Type 0} {Q R : A → Nodes → Type 0} {E F : PinError → Nodes → Type 0} where
  pub Post-imp :
      (p : Disk × Result PinError A)
      → ((a : A) (n : Nodes) → Q a n → R a n)
      → ((e : PinError) (n : Nodes) → E e n → F e n)
      → Post Q E p
      → Post R F p
  Post-imp (s, ok a) f g h = record { holds = f a s.nodes h.holds }
  Post-imp (s, err e) f g h = record { holds = g e s.nodes h.holds }

module _ {A : Type 0} {Q : A → Nodes → Type 0} {E : PinError → Nodes → Type 0} where
  Post-result :
      (s : Disk) (r : Result PinError A)
      → ((a : A) → r ≡ ok a → Q a s.nodes)
      → ((e : PinError) → r ≡ err e → E e s.nodes)
      → Post Q E (s, r)
  Post-result s (ok a) f g = record { holds = f a refl }
  Post-result s (err e) f g = record { holds = g e refl }

  pub Post-read :
      (f : Nodes → Result PinError A) (s : Disk)
      → ((a : A) → f s.nodes ≡ ok a → Q a s.nodes)
      → ((e : PinError) → f s.nodes ≡ err e → E e s.nodes)
      → Post Q E (read f s)
  unfolding read
  Post-read f s = Post-result s (f s.nodes)

  pub Post-pure : (a : A) (s : Disk) → Q a s.nodes → Post Q E (pure a s)
  Post-pure a s h = record { holds = h }

-- Some change was refused.
abbrev pub Faulty : (ℕ → Bool) → Type 0
Faulty allows = (k : ℕ) × (allows k ≡ false)

module _ (allows : ℕ → Bool) (f : Nodes → Option Nodes) (s : Disk) where
  -- A change that the file system can do: it is done, or it was refused and nothing changed.
  pub change-Post :
      (nodes : Nodes)
      → f s.nodes ≡ some nodes
      → Post (λ _ n. n ≡ nodes) (λ e n. (n ≡ s.nodes) × Faulty allows) (change allows f s)
  unfolding change
  change-Post nodes done = elim (Bool-cases (allows s.changes)) [
    | inl taken ↦ rw (change, done, taken) (record { holds = refl })
    | inr refused ↦ rw (change, done, refused) (record { holds = (refl, (s.changes, refused)) })
  ]

  pub change-nodes :
      ((change allows f s).0.nodes ≡ s.nodes) ⊎ (f s.nodes ≡ some (change allows f s).0.nodes)
  unfolding change
  change-nodes = ground arith

pub record Renamed (source target : FilePath) (id : ℕ) (n m : Nodes) : Type 0 where
  pub arrived : at target m ≡ some (pin id)
  pub left : at source m ≡ none
  pub others : (q : FilePath) → source ≢ q → target ≢ q → at q m ≡ at q n

abbrev moved : FilePath → FilePath → ℕ → Nodes → Nodes
moved source target id n =
    insert FilePath-discrete target (pin id) (remove FilePath-discrete source n)

pub moved-Renamed :
    (source target : FilePath) (id : ℕ) (n : Nodes)
    → target ≢ source
    → Renamed source target id n (moved source target id n)
moved-Renamed source target id n differ = record {
  arrived = get-insert_self FilePath-discrete target (pin id) _;
  left =
      get-insert_ne FilePath-discrete target source (pin id) _ differ
      ∙ get-remove_self FilePath-discrete source n;
  others = λ q not_source not_target.
      get-insert_ne FilePath-discrete target q (pin id) _ not_target
      ∙ get-remove_ne FilePath-discrete source q n not_source;
}

-- A pin can be renamed to a free name in a directory.
pub rename_node-under :
    (source : FilePath) (d name : Bytes) (id : ℕ) (n : Nodes)
    → at source n ≡ some (pin id)
    → at (top d) n ≡ some dir
    → at (under d name) n ≡ none
    → rename_node source (under d name) n ≡ some (moved source (under d name) id n)
unfolding rename_node
rename_node-under source d name id n there parent free = ground arith

pub rename_node-others :
    (source target : FilePath) (n m : Nodes)
    → rename_node source target n ≡ some m
    → (q : FilePath) → source ≢ q
    → target ≢ q
    → at q m ≡ at q n
unfolding rename_node
rename_node-others source target n m done q not_source not_target =
    grind (arith, get-insert_ne, get-remove_ne)

pub add_dir-others :
    (name : Bytes) (n m : Nodes)
    → add_dir name n ≡ some m
    → (q : FilePath) → top name ≢ q
    → at q m ≡ at q n
unfolding add_dir
add_dir-others name n m done q differ =
    ground (arith, get-insert_ne FilePath-discrete (top name) q dir n differ)

pub add_dir-old : (name : Bytes) (n : Nodes) → at (top name) n ≡ some dir → add_dir name n ≡ some n
unfolding add_dir
add_dir-old name n there = ground arith

pub add_dir-new :
    (name : Bytes) (n : Nodes)
    → at (top name) n ≡ none
    → (m : Nodes) × (add_dir name n ≡ some m) × (at (top name) m ≡ some dir)
unfolding add_dir
add_dir-new name n free = (
  insert FilePath-discrete (top name) dir n,
  ground arith,
  get-insert_self FilePath-discrete (top name) dir n,
)

pub remove_pin-Removed :
    (p : FilePath) (n : Nodes) (id : ℕ)
    → at p n ≡ some (pin id)
    → (m : Nodes) × (remove_pin p n ≡ some m)
      × (at p m ≡ none)
      × ((q : FilePath) → p ≢ q → at q m ≡ at q n)
unfolding remove_pin
remove_pin-Removed p n id there = (
  remove FilePath-discrete p n,
  ground arith,
  get-remove_self FilePath-discrete p n,
  λ q. get-remove_ne FilePath-discrete p q n,
)

pub remove_pin-others :
    (p : FilePath) (n m : Nodes)
    → remove_pin p n ≡ some m
    → (q : FilePath) → p ≢ q
    → at q m ≡ at q n
unfolding remove_pin
remove_pin-others p n m done q differ = ground (arith, get-remove_ne FilePath-discrete p q n differ)

pub without_tree-others :
    (name : Bytes) (n : Nodes) (q : FilePath)
    → is_below name q ≡ false
    → at q (without_tree name n) ≡ at q n
unfolding without_tree get
without_tree-others name [] q outside = refl
without_tree-others name ((p, node) ∷ n) q outside =
    ground (arith, without_tree-others name n q outside, λ (e : p ≡ q). ap (is_below name) e)

pub remove_tree-others :
    (name : Bytes) (n m : Nodes)
    → remove_tree name n ≡ some m
    → (q : FilePath) → is_below name q ≡ false
    → at q m ≡ at q n
unfolding remove_tree
remove_tree-others name n m done q outside = ground (arith, without_tree-others name n q outside)
