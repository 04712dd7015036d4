-- ===== src/LsmPin/Handoff.antt =====
-- apps/agent-ebpf-sensor/src/lsm_pin.rs: in which starts the LSM program stays attached all the way
-- through `attach_and_pin_lsm_fail_closed`.
use neuromesh.Prelude.{
  ◌≡◌, refl, Bool, true, false, not, ◌&&◌, List, [], ◌∷◌, if◌then◌else◌, arith, ◌∙◌, ap, inl, inr,
  Bool-cases,
}
use neuromesh.LsmPin.{
  LinkPins, is_attached, is_due, effect, HandoffStep, prepare_directory, remove_stale_tmp,
  handoff_steps, run_steps, attach_and_pin_lsm_fail_closed,
}

abbrev pub all_attached : List LinkPins → Bool
all_attached [] = true
all_attached (p ∷ ps) = is_attached p && all_attached ps

and_true : (b : Bool) → (b && true) ≡ b
and_true true = refl
and_true false = refl

-- The test, without the states.
abbrev stays_attached : (HandoffStep → Bool) → List HandoffStep → LinkPins → Bool
stays_attached allows [] p = true
stays_attached allows (s ∷ steps) p =
    let skipped = stays_attached allows steps p in
    let next = is_attached (effect s p) && stays_attached allows steps (effect s p) in
    if is_due s p
    then (if allows s then next else is_attached (record p { held = false }))
    else skipped

all_attached-run_steps :
    (allows : HandoffStep → Bool) (steps : List HandoffStep) (p : LinkPins)
    → all_attached (run_steps allows steps p).seen ≡ stays_attached allows steps p
unfolding run_steps
all_attached-run_steps allows [] p = refl
all_attached-run_steps allows (s ∷ steps) p = elim (Bool-cases (is_due s p)) [
  | inr skip ↦ rw (run_steps, skip) (all_attached-run_steps allows steps p)
  | inl due ↦ elim (Bool-cases (allows s)) [
    | inr refused ↦
        rw (run_steps, due) (rw refused (and_true (is_attached (record p { held = false }))))
    | inl allowed ↦
        rw (run_steps, due)
          (rw allowed (
            ap (λ b. is_attached (effect s p) && b)
              (all_attached-run_steps allows steps (effect s p))))
  ]
]

-- Whichever calls are refused: a pin or the agent holds an attached program in every state of the
-- handoff exactly if the link's pin was there at its start, or only the temporary pin was there
-- and its removal, or the preparation before it, was refused.
pub attach_and_pin_lsm_fail_closed-all_attached :
    (allows : HandoffStep → Bool) (link link_tmp : Bool)
    → all_attached
        (attach_and_pin_lsm_fail_closed allows
          (record { link = link; link_tmp = link_tmp; held = false })).seen
      ≡ (if link
          then true
          else link_tmp && not (allows prepare_directory && allows remove_stale_tmp))
unfolding attach_and_pin_lsm_fail_closed
attach_and_pin_lsm_fail_closed-all_attached allows true true =
    all_attached-run_steps allows handoff_steps
      (record { link = true; link_tmp = true; held = false })
    ∙ ground arith
attach_and_pin_lsm_fail_closed-all_attached allows true false =
    all_attached-run_steps allows handoff_steps
      (record { link = true; link_tmp = false; held = false })
    ∙ ground arith
attach_and_pin_lsm_fail_closed-all_attached allows false true =
    all_attached-run_steps allows handoff_steps
      (record { link = false; link_tmp = true; held = false })
    ∙ ground arith
attach_and_pin_lsm_fail_closed-all_attached allows false false =
    all_attached-run_steps allows handoff_steps
      (record { link = false; link_tmp = false; held = false })
    ∙ ground arith
