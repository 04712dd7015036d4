-- ===== src/LsmPin.antt =====
-- apps/agent-ebpf-sensor/src/lsm_pin.rs: the pins that keep the LSM program attached without the
-- agent. What the kernel does with the link is reduced to who holds it: a pin, or the agent itself.
pub mod Handoff
use neuromesh.Prelude.{
  ℕ, Bool, true, false, not, ◌&&◌, ◌||◌, Option, none, some, List, [], ◌∷◌, ◌==◌, if◌then◌else◌,
}
use neuromesh.Prelude.Result.{Result, ok, err}
use neuromesh.Bytes.{Bytes, codes}
use neuromesh.HashTable.{is_some}
use neuromesh.PinAbi.Disk.{FilePath, top, Nodes, exists, is_dir}
use neuromesh.PinAbi.Names.{path_deny_list_map, path_deny_count_map}
use neuromesh.PinAbi.Staging.{select_deny_legacy_dir}

abbrev pub lsm_link_pin_name : Bytes
lsm_link_pin_name = codes "neuromesh_lsm_exec_guard_link"

pub data EnforcementPinState : Type 0 where
  cold : EnforcementPinState
  maps_ready : Bool → EnforcementPinState
  inconsistent_link_without_maps : EnforcementPinState
  migration_in_progress : EnforcementPinState

abbrev pub is_file : FilePath → Nodes → Bool
unfolding exists is_dir
is_file path nodes = exists path nodes && not (is_dir path nodes)

unfoldable pub classify_enforcement_pins : Nodes → EnforcementPinState
unfolding exists is_dir select_deny_legacy_dir
classify_enforcement_pins nodes =
    let maps_ok =
      is_file (top path_deny_list_map) nodes && is_file (top path_deny_count_map) nodes in
    let link_ok = is_file (top lsm_link_pin_name) nodes in
    if is_some (select_deny_legacy_dir nodes) && not maps_ok
    then migration_in_progress
    else if link_ok && not maps_ok
    then inconsistent_link_without_maps
    else if maps_ok
    then maps_ready link_ok
    else cold

pub data DenyMapSeedPlan : Type 0 where
  bootstrap : DenyMapSeedPlan
  resume_pinned : ℕ → DenyMapSeedPlan

-- none where a pinned list without entries is refused.
unfoldable pub deny_map_seed_plan : Bool → ℕ → Option DenyMapSeedPlan
deny_map_seed_plan reused active_count =
    if not reused
    then some bootstrap
    else if active_count == 0
    then none
    else some (resume_pinned active_count)

-- Where a link stands that keeps the program attached: the pin, the temporary pin, the agent's hand.
pub record LinkPins : Type 0 where
  pub link : Bool
  pub link_tmp : Bool
  pub held : Bool

abbrev pub is_attached : LinkPins → Bool
is_attached p = p.link || (p.link_tmp || p.held)

-- The calls of `attach_and_pin_lsm_fail_closed`, in their order.
pub data HandoffStep : Type 0 where
  prepare_directory remove_stale_tmp attach take_link pin_tmp remove_previous rename_link reopen :
      HandoffStep

-- Only an existing file is removed.
abbrev pub is_due : HandoffStep → LinkPins → Bool
is_due remove_stale_tmp p = p.link_tmp
is_due remove_previous p = p.link
is_due _ p = true

abbrev pub effect : HandoffStep → LinkPins → LinkPins
effect prepare_directory p = p
effect remove_stale_tmp p = record p { link_tmp = false }
effect attach p = record p { held = true }
effect take_link p = p
effect pin_tmp p = record p { link_tmp = true; held = false }
effect remove_previous p = record p { link = false }
effect rename_link p = record p { link = true; link_tmp = false }
effect reopen p = p

-- The states that the kernel goes through, the first one first. A refused call ends the agent, which
-- drops what it holds.
pub record HandoffRun : Type 0 where
  pub seen : List LinkPins
  pub result : Result HandoffStep (Unit {0})

abbrev pub handoff_steps : List HandoffStep
handoff_steps =
    prepare_directory ∷ remove_stale_tmp ∷ attach ∷ take_link ∷ pin_tmp ∷ remove_previous
    ∷ rename_link ∷ reopen ∷ []

module _ (allows : HandoffStep → Bool) where
  unfoldable pub run_steps : List HandoffStep → LinkPins → HandoffRun
  run_steps [] p = record { seen = []; result = ok tt }
  run_steps (s ∷ steps) p =
      let skipped = run_steps steps p in
      let next = run_steps steps (effect s p) in
      if not (is_due s p)
      then skipped
      else if allows s
      then record next { seen = effect s p ∷ next.seen }
      else record { seen = record p { held = false } ∷ []; result = err s }

  unfoldable pub attach_and_pin_lsm_fail_closed : LinkPins → HandoffRun
  unfolding run_steps
  attach_and_pin_lsm_fail_closed p = run_steps handoff_steps p
