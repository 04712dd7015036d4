-- ===== src/Tests/Pinning.antt =====
-- The handoff of the LSM link after one that was interrupted.
use neuromesh.Prelude.{◌≡◌, refl, Bool, true, false, List, [], ◌∷◌}
use neuromesh.LsmPin.{LinkPins, HandoffStep, rename_link, run_steps, attach_and_pin_lsm_fail_closed}
use neuromesh.LsmPin.Handoff.{all_attached, attach_and_pin_lsm_fail_closed-all_attached}

abbrev all_but_rename : HandoffStep → Bool
all_but_rename rename_link = false
all_but_rename _ = true

abbrev pinned : LinkPins
pinned = record { link = true; link_tmp = false; held = false }

abbrev only_tmp : LinkPins
only_tmp = record { link = false; link_tmp = true; held = false }

abbrev last_of : LinkPins → List LinkPins → LinkPins
last_of p [] = p
last_of p (q ∷ qs) = last_of q qs

-- A handoff that stops at the rename leaves the temporary pin alone.
interrupted_handoff :
    last_of pinned (attach_and_pin_lsm_fail_closed all_but_rename pinned).seen ≡ only_tmp
unfolding attach_and_pin_lsm_fail_closed run_steps
interrupted_handoff = refl

attach_and_pin_lsm_fail_closed-all_attached_example :
    all_attached (attach_and_pin_lsm_fail_closed (λ s. true) only_tmp).seen ≡ false
attach_and_pin_lsm_fail_closed-all_attached_example =
    attach_and_pin_lsm_fail_closed-all_attached (λ s. true) false true
