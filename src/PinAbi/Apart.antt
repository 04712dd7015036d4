-- ===== src/PinAbi/Apart.antt =====
-- apps/agent-ebpf-sensor/src/pin_abi.rs: the paths of the pin directory that are never the same.
use neuromesh.Prelude.{◌≡◌, refl, ◌∙◌, ap, ◌≢◌, ◌⊎◌, inl, inr, none}
use neuromesh.Bytes.{Bytes, bytes_eq-ne}
use neuromesh.PinAbi.Disk.{top, under, Nodes, at}
use neuromesh.PinAbi.Names.{
  path_deny_list_map, path_deny_count_map, process_events_map, rate_limit_bucket_map,
  legacy_abi_numeric_suffix,
}
use neuromesh.PinAbi.Selection.{IsNumbered}

pub top-ne : {a b : Bytes} → a ≢ b → top a ≢ top b
top-ne differ e = differ (cc)

pub top-ne-under : {a d b : Bytes} → top a ≢ under d b
top-ne-under e = absurd (cc e)

pub under-ne : {d e a b : Bytes} → a ≢ b → under d a ≢ under e b
under-ne differ e = differ (cc)

pub under-ne_dir : {d e a b : Bytes} → d ≢ e → under d a ≢ under e b
under-ne_dir differ e = differ (cc)

pub list-ne-count : path_deny_list_map ≢ path_deny_count_map
list-ne-count = bytes_eq-ne _ _ refl

pub count-ne-list : path_deny_count_map ≢ path_deny_list_map
count-ne-list = bytes_eq-ne _ _ refl

-- A numbered directory is none of the pins.
numbered-ne : {name d : Bytes} → legacy_abi_numeric_suffix name ≡ none → IsNumbered d → d ≢ name
numbered-ne unnumbered (n, e) same = absurd (cc)

pub numbered-ne-list : {d : Bytes} → IsNumbered d → d ≢ path_deny_list_map
unfolding legacy_abi_numeric_suffix
numbered-ne-list = numbered-ne refl

pub numbered-ne-count : {d : Bytes} → IsNumbered d → d ≢ path_deny_count_map
unfolding legacy_abi_numeric_suffix
numbered-ne-count = numbered-ne refl

-- The paths at which the two process maps are pinned.
abbrev pub IsProcess : Bytes → Type 0
IsProcess name = (name ≡ process_events_map) ⊎ (name ≡ rate_limit_bucket_map)

pub numbered-ne-process : {d name : Bytes} → IsProcess name → IsNumbered d → d ≢ name
unfolding legacy_abi_numeric_suffix
numbered-ne-process (inl e) = numbered-ne (ap legacy_abi_numeric_suffix e)
numbered-ne-process (inr e) = numbered-ne (ap legacy_abi_numeric_suffix e)

pub list-ne-process : {name : Bytes} → IsProcess name → path_deny_list_map ≢ name
list-ne-process (inl e) h = bytes_eq-ne path_deny_list_map process_events_map refl (h ∙ e)
list-ne-process (inr e) h = bytes_eq-ne path_deny_list_map rate_limit_bucket_map refl (h ∙ e)

pub count-ne-process : {name : Bytes} → IsProcess name → path_deny_count_map ≢ name
count-ne-process (inl e) h = bytes_eq-ne path_deny_count_map process_events_map refl (h ∙ e)
count-ne-process (inr e) h = bytes_eq-ne path_deny_count_map rate_limit_bucket_map refl (h ∙ e)

abbrev pub SameProcess : Nodes → Nodes → Type 0
SameProcess n m = (name : Bytes) → IsProcess name → at (top name) m ≡ at (top name) n
