-- ===== src/Tests/Seeds.antt =====
-- A start with two cgroups that are allowed by hand.
use neuromesh.Prelude.{
  ℕ, ◌≡◌, refl, true, Option, some, List, [], ◌∷◌, ℕ_discrete, ◌==◌, if◌then◌else◌,
}
use neuromesh.Prelude.Result.{Result, ok}
use neuromesh.Bytes.{Bytes, codes, bytes_eq, Bytes-discrete}
use neuromesh.Text.{trim, trim_start, trim_end, parse_u64, parse_digits}
use neuromesh.HashTable.{get, insert, remove, is_some}
use neuromesh.IdentityAllow.{seed_allow_cgroup}
use neuromesh.SideTable.{SideEntry, entry_of, insert_entry, unlink_indexes, remove_by_cgroup, link}
use neuromesh.Correlator.{Env, State}
use neuromesh.Correlator.Sound.{IsSound}
use neuromesh.Correlator.Seeds.{
  SeedError, split_comma, parse_manual_cgroup_ids, seed_each, seed_parsed,
  apply_manual_cgroup_seeds_from_env, seeded_entry, register_seeded_cgroup,
  register_manual_seed_ids, arm_manual_seeds,
}
use neuromesh.Correlator.Seeded.{id_in}
use neuromesh.Correlator.Start.{arm_manual_seeds-IsSound}
use neuromesh.Tests.{accept_all}
use neuromesh.Tests.Identity.{one_key, env, web_state, web_state-IsSound}

abbrev lab_path : ℕ → Option Bytes
lab_path id = if id == 8 then some (codes "/lab/eight") else some (codes "/cg/a")

abbrev lab_env : Env
lab_env = record env {
  inode_of_path = λ path. if bytes_eq path (codes "/lab/eight") then some 8 else some 7;
}

web_state_lab-IsSound : IsSound lab_env web_state
web_state_lab-IsSound = record {
  consistent = web_state-IsSound.consistent;
  tracked = web_state-IsSound.tracked;
  insertable = λ q _ refused. absurd (cc refused);
}

abbrev armed : State × Result SeedError (List SideEntry)
armed = arm_manual_seeds lab_path true lab_env (some (codes " 7, 8 ")) web_state

armed_ok : armed.1 ≡ ok (seeded_entry (codes "/cg/a") 7 ∷ seeded_entry (codes "/lab/eight") 8 ∷ [])
unfolding arm_manual_seeds apply_manual_cgroup_seeds_from_env seed_parsed seed_each
    seed_allow_cgroup parse_manual_cgroup_ids split_comma trim trim_start trim_end parse_u64
    parse_digits register_manual_seed_ids register_seeded_cgroup insert_entry remove_by_cgroup
    unlink_indexes link get insert remove ℕ_discrete Bytes-discrete
armed_ok = refl

arm_manual_seeds-IsSound_example :
    IsSound lab_env armed.0
    × ((ids : List ℕ) (q : ℕ)
        → (apply_manual_cgroup_seeds_from_env accept_all (some (codes " 7, 8 ")) one_key).1 ≡ ok ids
        → id_in q ids ≡ true
        → is_some (entry_of q armed.0.table) ≡ true)
arm_manual_seeds-IsSound_example =
    arm_manual_seeds-IsSound lab_path true lab_env (some (codes " 7, 8 ")) web_state
      (seeded_entry (codes "/cg/a") 7 ∷ seeded_entry (codes "/lab/eight") 8 ∷ [])
      web_state_lab-IsSound armed_ok
