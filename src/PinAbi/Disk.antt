-- ===== src/PinAbi/Disk.antt =====
-- apps/agent-ebpf-sensor/src/pin_abi.rs: `PinAbiIo` and `RealPinAbiIo` over a model of the file
-- system. A pin holds the id of a kernel map, and what a map holds is read by the parameter `Kernel`.
-- A change of the file system may be refused, or never happen because the agent was stopped: which
-- of the changes go through is a parameter of each run. The removal of a directory is one change.
use neuromesh.Prelude.{
  ℕ, zero, suc, ◌+◌, ◌≡◌, ◌↔◌, Bool, true, false, ◌&&◌, Option, none, some, List, [], ◌∷◌, arith,
  ◌==◌, if◌then◌else◌, is_empty, min,
}
use neuromesh.Prelude.Result.{Result, ok, err}
use neuromesh.Bytes.{Bytes, bytes_eq, bytes_eq_iff, decide_by}
use neuromesh.HashTable.{HashMap, get, insert, remove, is_some}
use neuromesh.DenyEntry.{PathDenyEntry, LegacyPathDenyEntry, widen, path_deny_max_entries}

-- A path below the pin root: `pin_root.join(name)`, and `pin_root.join(dir).join(name)`.
pub data FilePath : Type 0 where
  top : Bytes → FilePath
  under : Bytes → Bytes → FilePath

abbrev path_eq : FilePath → FilePath → Bool
path_eq (top a) (top b) = bytes_eq a b
path_eq (under a x) (under b y) = bytes_eq a b && bytes_eq x y
path_eq _ _ = false

pub path_eq_iff : (p q : FilePath) → (path_eq p q ≡ true) ↔ (p ≡ q)
path_eq_iff (top a) (top b) = ground (arith, bytes_eq_iff a b)
path_eq_iff (top a) (under b y) = ground arith
path_eq_iff (under a x) (top b) = ground arith
path_eq_iff (under a x) (under b y) = ground (arith, bytes_eq_iff a b, bytes_eq_iff x y)

unfoldable pub FilePath-discrete : Discrete FilePath
FilePath-discrete p q = decide_by (path_eq p q) (path_eq_iff p q)

-- A directory, or a pin with the id of its map.
pub data Node : Type 0 where
  dir : Node
  pin : ℕ → Node

abbrev pub Nodes : Type 0
Nodes = HashMap FilePath Node

abbrev pub at : FilePath → Nodes → Option Node
at p nodes = get FilePath-discrete p nodes

pub record ObservedMapInfo : Type 0 where
  pub map_type : ℕ
  pub key_size : ℕ
  pub value_size : ℕ
  pub max_entries : ℕ

-- What the kernel tells of a map: its layout, and its slots as entries of the old layout or as
-- counts, where it can be opened so.
pub record Kernel : Type 0 where
  pub map_info : ℕ → Option ObservedMapInfo
  pub legacy_list : ℕ → Option (ℕ → Option LegacyPathDenyEntry)
  pub count_array : ℕ → Option (ℕ → Option ℕ)

pub data PinError : Type 0 where
  io_failed : PinError
  unreadable : PinError
  empty_deny_list : PinError
  invalid_len : ℕ → PinError
  missing : Bytes → PinError
  exhausted : PinError
  not_empty : ℕ → PinError
  incompatible : Bytes → PinError
  bootstrap_invalid : PinError

-- The file system, and how many changes were tried since the agent started.
pub record Disk : Type 0 where
  pub nodes : Nodes
  pub changes : ℕ

abbrev pub M : Type 0 → Type 0
M A = Disk → Disk × Result PinError A

infixl 5 ◌>>=◌ ◌>>◌
unfoldable pub ◌>>=◌ : {A B : Type 0} → M A → (A → M B) → M B
◌>>=◌ m next s = let (s', r) = m s in elim r [ ok a ↦ next a s' | err e ↦ (s', err e) ]

abbrev pub ◌>>◌ : {B : Type 0} → M (Unit {0}) → M B → M B
m >> next = m >>= λ _. next

abbrev pub pure : {A : Type 0} → A → M A
pure a s = (s, ok a)

abbrev pub bail : {A : Type 0} → PinError → M A
bail e s = (s, err e)

-- A result that depends on the file system and leaves it as it is.
unfoldable pub read : {A : Type 0} → (Nodes → Result PinError A) → M A
read f s = (s, f s.nodes)

unfoldable pub exists : FilePath → Nodes → Bool
exists p nodes = is_some (at p nodes)

abbrev pub is_dir_node : Option Node → Bool
is_dir_node (some dir) = true
is_dir_node _ = false

unfoldable pub is_dir : FilePath → Nodes → Bool
is_dir p nodes = is_dir_node (at p nodes)

-- The map that is pinned at a path.
abbrev pub pinned_map : Option Node → Result PinError ℕ
pinned_map (some (pin id)) = ok id
pinned_map _ = err unreadable

abbrev pub readable : {A : Type 0} → Option A → Result PinError A
readable none = err unreadable
readable (some a) = ok a

-- The parent directory of the target of a rename.
abbrev parent_is_dir : FilePath → Nodes → Bool
parent_is_dir (top name) nodes = true
parent_is_dir (under d name) nodes = is_dir_node (at (top d) nodes)

unfoldable pub rename_node : FilePath → FilePath → Nodes → Option Nodes
rename_node source target nodes = elim (at source nodes) [
  | some (pin id) ↦
      if parent_is_dir target nodes
      then (elim (at target nodes) [
        | some dir ↦ none
        | _ ↦
            some (insert FilePath-discrete target (pin id) (remove FilePath-discrete source nodes))
      ])
      else none
  | _ ↦ none
]

unfoldable pub add_dir : Bytes → Nodes → Option Nodes
add_dir name nodes = elim (at (top name) nodes) [
  | none ↦ some (insert FilePath-discrete (top name) dir nodes)
  | some dir ↦ some nodes
  | some (pin id) ↦ none
]

unfoldable pub remove_pin : FilePath → Nodes → Option Nodes
remove_pin p nodes = elim (at p nodes) [
  | some (pin id) ↦ some (remove FilePath-discrete p nodes)
  | _ ↦ none
]

abbrev pub is_below : Bytes → FilePath → Bool
is_below name (top other) = bytes_eq other name
is_below name (under d other) = bytes_eq d name

-- Everything but a directory and what is below it.
unfoldable pub without_tree : Bytes → Nodes → Nodes
without_tree name [] = []
without_tree name ((p, node) ∷ nodes) =
    let rest = without_tree name nodes in if is_below name p then rest else (p, node) ∷ rest

unfoldable pub remove_tree : Bytes → Nodes → Option Nodes
remove_tree name nodes = if is_dir (top name) nodes then some (without_tree name nodes) else none

module _ (allows : ℕ → Bool) where
  unfoldable pub change : (Nodes → Option Nodes) → M (Unit {0})
  change f s = elim (f s.nodes) [
    | none ↦ (record s { changes = suc s.changes }, err io_failed)
    | some nodes ↦
        if allows s.changes
        then (record { nodes = nodes; changes = suc s.changes }, ok tt)
        else (record s { changes = suc s.changes }, err io_failed)
  ]

  abbrev pub create_dir_all : Bytes → M (Unit {0})
  create_dir_all name = change (add_dir name)

  abbrev pub rename : FilePath → FilePath → M (Unit {0})
  rename source target = change (rename_node source target)

  abbrev pub remove_file : FilePath → M (Unit {0})
  remove_file p = change (remove_pin p)

  abbrev pub remove_dir_all : Bytes → M (Unit {0})
  remove_dir_all name = change (remove_tree name)

module _ (kernel : Kernel) where
  unfoldable pub map_info : FilePath → Nodes → Result PinError ObservedMapInfo
  map_info p nodes = elim (pinned_map (at p nodes)) [
    | err e ↦ err e
    | ok id ↦ readable (kernel.map_info id)
  ]

  -- `PATH_DENY_COUNT[0]` of the map with this id.
  abbrev pub count_of : ℕ → Result PinError ℕ
  count_of id = elim (kernel.count_array id) [
    | none ↦ err unreadable
    | some slots ↦ readable (slots 0)
  ]

  unfoldable pub read_deny_count : FilePath → Nodes → Result PinError ℕ
  read_deny_count p nodes = elim (pinned_map (at p nodes)) [ err e ↦ err e | ok id ↦ count_of id ]

  -- The slots from `i` on, as many as are left.
  unfoldable pub widen_slots :
      (ℕ → Option LegacyPathDenyEntry) → ℕ → ℕ → Result PinError (List PathDenyEntry)
  widen_slots slots zero i = ok []
  widen_slots slots (suc left) i = elim (slots i) [
    | none ↦ err unreadable
    | some legacy ↦ elim (widen legacy) [
      | none ↦ err (invalid_len i)
      | some wide ↦ elim (widen_slots slots left (i + 1)) [
        | ok out ↦ ok (wide ∷ out)
        | err e ↦ err e
      ]
    ]
  ]

  -- The entries of a list map and a count map of the old layout.
  unfoldable pub legacy_entries : ℕ → ℕ → Result PinError (List PathDenyEntry)
  unfolding widen_slots
  legacy_entries list_id count_id = elim (kernel.legacy_list list_id) [
    | none ↦ err unreadable
    | some slots ↦ elim (count_of count_id) [
      | err e ↦ err e
      | ok active ↦
          if active == 0
          then err empty_deny_list
          else (elim (widen_slots slots (min active path_deny_max_entries) 0) [
            | err e ↦ err e
            | ok out ↦ if is_empty out then err empty_deny_list else ok out
          ])
    ]
  ]

  unfoldable pub read_legacy_deny_entries_at :
      FilePath → FilePath → Nodes → Result PinError (List PathDenyEntry)
  read_legacy_deny_entries_at list_path count_path nodes = elim (pinned_map (at list_path nodes)) [
    | err e ↦ err e
    | ok list_id ↦ elim (pinned_map (at count_path nodes)) [
      | err e ↦ err e
      | ok count_id ↦ legacy_entries list_id count_id
    ]
  ]
