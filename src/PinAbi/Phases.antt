-- ===== src/PinAbi/Phases.antt =====
-- apps/agent-ebpf-sensor/src/pin_abi.rs: where the two pins of an old deny list can be between two
-- runs of the migration, and how each change leads from one of these places to another.
use neuromesh.Prelude.{ℕ, ◌≡◌, refl, sym, ◌∙◌, ◌≢◌, ◌⊎◌, inl, inr, none, some}
use neuromesh.Prelude.Result.{ok}
use neuromesh.Bytes.{Bytes}
use neuromesh.PinAbi.Disk.{FilePath, top, under, dir, pin, Nodes, at, Kernel, count_of}
use neuromesh.PinAbi.Names.{
  path_deny_list_map, path_deny_count_map, process_events_map, rate_limit_bucket_map,
}
use neuromesh.PinAbi.Apart.{
  top-ne, top-ne-under, under-ne, under-ne_dir, list-ne-count, count-ne-list, numbered-ne-list,
  numbered-ne-count, SameProcess,
}
use neuromesh.PinAbi.Changes.{Renamed}
use neuromesh.PinAbi.Selection.{IsNumbered, HoldsNone}
use neuromesh.PinAbi.Layouts.{IsCurrent}
use neuromesh.PinAbi.ProcessMaps.{SameDeny, Fits, ProcessMapsFit}

-- The names at which the new maps are to be made are free.
abbrev pub IsFree : Nodes → Type 0
IsFree n = (at (top path_deny_list_map) n ≡ none) × (at (top path_deny_count_map) n ≡ none)

module _ (kernel : Kernel) where
  pub Fits-same :
      (name : Bytes) (n m : Nodes)
      → at (top name) m ≡ at (top name) n
      → Fits kernel name n
      → Fits kernel name m
  Fits-same name n m same (inl absent) = inl (same ∙ absent)
  Fits-same name n m same (inr (id, there, fits)) = inr (id, same ∙ there, fits)

  pub ProcessMapsFit-same :
      (n m : Nodes) → SameProcess n m → ProcessMapsFit kernel n → ProcessMapsFit kernel m
  ProcessMapsFit-same n m same (events, bucket) = (
    Fits-same process_events_map n m (same process_events_map (inl refl)) events,
    Fits-same rate_limit_bucket_map n m (same rate_limit_bucket_map (inr refl)) bucket,
  )

  -- The canonical count map is absent, or was made by a load and is empty.
  abbrev pub IsFresh : Nodes → Type 0
  IsFresh n =
      (at (top path_deny_count_map) n ≡ none)
      ⊎ ((id : ℕ) × (at (top path_deny_count_map) n ≡ some (pin id))
          × IsCurrent kernel path_deny_count_map id
          × (count_of kernel id ≡ ok 0))

  pub IsFresh-same :
      (n m : Nodes)
      → at (top path_deny_count_map) m ≡ at (top path_deny_count_map) n
      → IsFresh n
      → IsFresh m
  IsFresh-same n m same (inl absent) = inl (same ∙ absent)
  IsFresh-same n m same (inr (id, there, current, empty)) = inr (id, same ∙ there, current, empty)

  module _ (list_id count_id : ℕ) where
    -- Nothing was moved.
    pub record Canonical (n : Nodes) : Type 0 where
      pub list : at (top path_deny_list_map) n ≡ some (pin list_id)
      pub count : at (top path_deny_count_map) n ≡ some (pin count_id)
      pub unstaged : (d : Bytes) → IsNumbered d → HoldsNone n d

    -- The count was moved, the list was not.
    pub record Split (d : Bytes) (n : Nodes) : Type 0 where
      pub numbered : IsNumbered d
      pub directory : at (top d) n ≡ some dir
      pub list : at (top path_deny_list_map) n ≡ some (pin list_id)
      pub free : at (top path_deny_count_map) n ≡ none
      pub no_list : at (under d path_deny_list_map) n ≡ none
      pub count : at (under d path_deny_count_map) n ≡ some (pin count_id)
      pub others : (e : Bytes) → IsNumbered e → e ≢ d → HoldsNone n e

    -- Both were moved. At their old names there is nothing, or what a load made and nobody filled.
    pub record Staged (d : Bytes) (n : Nodes) : Type 0 where
      pub numbered : IsNumbered d
      pub directory : at (top d) n ≡ some dir
      pub list : at (under d path_deny_list_map) n ≡ some (pin list_id)
      pub count : at (under d path_deny_count_map) n ≡ some (pin count_id)
      pub others : (e : Bytes) → IsNumbered e → e ≢ d → HoldsNone n e
      pub new_list : Fits kernel path_deny_list_map n
      pub new_count : IsFresh n

    pub data Recoverable (n : Nodes) : Type 0 where
      canonical : Canonical n → Recoverable n
      split : (d : Bytes) → Split d n → Recoverable n
      staged : (d : Bytes) → Staged d n → Recoverable n

    HoldsNone-same :
        (n m : Nodes) (d : Bytes) → SameDeny n m → IsNumbered d → HoldsNone n d → HoldsNone m d
    HoldsNone-same n m d same numbered (no_list, no_count) = (
      same (under d path_deny_list_map) numbered ∙ no_list,
      same (under d path_deny_count_map) numbered ∙ no_count,
    )

    pub Staged-same : (d : Bytes) (n m : Nodes) → SameDeny n m → Staged d n → Staged d m
    Staged-same d n m same s = record {
      numbered = s.numbered;
      directory = same (top d) (inr (inr s.numbered)) ∙ s.directory;
      list = same (under d path_deny_list_map) s.numbered ∙ s.list;
      count = same (under d path_deny_count_map) s.numbered ∙ s.count;
      others = λ e numbered differ. HoldsNone-same n m e same numbered (s.others e numbered differ);
      new_list =
          Fits-same path_deny_list_map n m (same (top path_deny_list_map) (inl refl)) s.new_list;
      new_count = IsFresh-same n m (same (top path_deny_count_map) (inr (inl refl))) s.new_count;
    }

    -- A new staging directory.
    pub Canonical-made :
        (d : Bytes) (n m : Nodes)
        → IsNumbered d
        → ((q : FilePath) → top d ≢ q → at q m ≡ at q n)
        → Canonical n
        → Canonical m
    Canonical-made d n m numbered same s = record {
      list = same (top path_deny_list_map) (top-ne (numbered-ne-list numbered)) ∙ s.list;
      count = same (top path_deny_count_map) (top-ne (numbered-ne-count numbered)) ∙ s.count;
      unstaged = λ e e_numbered.
          let (no_list, no_count) = s.unstaged e e_numbered in
          (
            same (under e path_deny_list_map) top-ne-under ∙ no_list,
            same (under e path_deny_count_map) top-ne-under ∙ no_count,
          );
    }

    pub Canonical-Split :
        (d : Bytes) (n m : Nodes)
        → IsNumbered d
        → at (top d) n ≡ some dir
        → Canonical n
        → Renamed (top path_deny_count_map) (under d path_deny_count_map) count_id n m
        → Split d m
    Canonical-Split d n m numbered directory s r = record {
      numbered = numbered;
      directory =
          r.others (top d) (top-ne (λ e. numbered-ne-count numbered (sym e)))
            (λ e. top-ne-under (sym e))
          ∙ directory;
      list =
          r.others (top path_deny_list_map) (top-ne count-ne-list) (λ e. top-ne-under (sym e))
          ∙ s.list;
      free = r.left;
      no_list =
          r.others (under d path_deny_list_map) top-ne-under (under-ne count-ne-list)
          ∙ (s.unstaged d numbered).0;
      count = r.arrived;
      others = λ e e_numbered differ.
          let (no_list, no_count) = s.unstaged e e_numbered in
          (
            r.others (under e path_deny_list_map) top-ne-under (under-ne count-ne-list) ∙ no_list,
            r.others (under e path_deny_count_map) top-ne-under (under-ne_dir (λ h. differ (sym h)))
                ∙ no_count,
          );
    }

    pub Split-Staged :
        (d : Bytes) (n m : Nodes)
        → Split d n
        → Renamed (top path_deny_list_map) (under d path_deny_list_map) list_id n m
        → Staged d m
    Split-Staged d n m s r = record {
      numbered = s.numbered;
      directory =
          r.others (top d) (top-ne (λ e. numbered-ne-list s.numbered (sym e)))
            (λ e. top-ne-under (sym e))
          ∙ s.directory;
      list = r.arrived;
      count =
          r.others (under d path_deny_count_map) top-ne-under (under-ne list-ne-count) ∙ s.count;
      others = λ e e_numbered differ.
          let (no_list, no_count) = s.others e e_numbered differ in
          (
            r.others (under e path_deny_list_map) top-ne-under (under-ne_dir (λ h. differ (sym h)))
                ∙ no_list,
            r.others (under e path_deny_count_map) top-ne-under (under-ne list-ne-count) ∙ no_count,
          );
      new_list = inl r.left;
      new_count = inl (
          r.others (top path_deny_count_map) (top-ne list-ne-count) (λ e. top-ne-under (sym e))
          ∙ s.free);
    }

    -- A canonical name was freed or filled by a load.
    pub Staged-changed :
        (d name : Bytes) (n m : Nodes)
        → (IsNumbered d → d ≢ name)
        → ((q : FilePath) → top name ≢ q → at q m ≡ at q n)
        → Fits kernel path_deny_list_map m
        → IsFresh m
        → Staged d n
        → Staged d m
    Staged-changed d name n m differ same new_list new_count s = record {
      numbered = s.numbered;
      directory = same (top d) (top-ne (λ e. differ s.numbered (sym e))) ∙ s.directory;
      list = same (under d path_deny_list_map) top-ne-under ∙ s.list;
      count = same (under d path_deny_count_map) top-ne-under ∙ s.count;
      others = λ e e_numbered e_differs.
          let (no_list, no_count) = s.others e e_numbered e_differs in
          (
            same (under e path_deny_list_map) top-ne-under ∙ no_list,
            same (under e path_deny_count_map) top-ne-under ∙ no_count,
          );
      new_list = new_list;
      new_count = new_count;
    }
