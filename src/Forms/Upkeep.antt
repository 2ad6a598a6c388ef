-- ===== src/Forms/Upkeep.antt =====
-- What `settle` of app/services/form_settlement.py may do to a form.
use avora_be.Prelude.{◌≡◌, true, false, ◌⊎◌, arith}
use avora_be.Forms.{
  Assignment, Situation, Settle, is_withdrawn, subject_left, is_handed_over, is_pool,
  is_active_person, usable, settle, settle_buddy, settle_manager,
}

-- A form is cancelled only if it no longer goes out, or its subject left, or nobody is left to fill
-- it in; a form that was handed over to the manager's half is not cancelled for that last reason.
pub settle-cancel :
    (a : Assignment) (now : Situation)
    → settle a now ≡ Settle.cancel
    → (is_withdrawn a now ≡ true)
      ⊎ (subject_left a now ≡ true)
      ⊎ (is_active_person now.assignee ≡ false) × (is_handed_over a ≡ false) × (is_pool a ≡ false)
unfolding settle settle_buddy settle_manager
settle-cancel a now h = ground arith

-- A form is sent to a buddy or to a manager only if there is one who is active and is not the
-- person that it is about.
pub settle-usable :
    (a : Assignment) (now : Situation)
    → (settle a now ≡ Settle.to_buddy → usable now.joiner now.buddy ≡ true)
      × (settle a now ≡ Settle.to_manager → usable now.joiner now.manager ≡ true)
unfolding settle settle_buddy settle_manager
settle-usable a now = (λ h. ground arith, λ h. ground arith)
