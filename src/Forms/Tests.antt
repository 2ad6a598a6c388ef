-- ===== src/Forms/Tests.antt =====
-- An appraisal form, and forms whose people changed.
use avora_be.Prelude.{◌≡◌, refl, Bool, true, false, none, some, List, [], ◌∷◌}
use avora_be.Calendar.{date}
use avora_be.Auth.{Role}
use avora_be.Staff.{Employee}
use avora_be.Forms.{
  FormField, FieldKind, Stage, Assignment, AssignmentStatus, Trigger, Situation, Settle,
  stages_used, first_stage, settle, settle_buddy,
}

abbrev asks : Stage → FormField
asks s = record { kind = FieldKind.question; stage = some s }

-- Only the manager has questions; the employee's part is a heading.
abbrev appraisal : List FormField
appraisal =
    record { kind = FieldKind.section_heading; stage = some Stage.employee_stage }
    ∷ asks Stage.manager_stage
    ∷ []

starts_at_manager : first_stage appraisal ≡ some Stage.manager_stage
unfolding stages_used
starts_at_manager = refl

abbrev person : Bool → Employee
person active = record {
  role = Role.executive;
  manager_id = none;
  department = none;
  payroll_manager = false;
  is_active = active;
  gender = none;
  date_of_birth = none;
  hire_date = none;
  created_on = date 2026 1 1;
  probation_months = none;
}

abbrev sent : Trigger → Assignment
sent t = record {
  status = AssignmentStatus.pending;
  trigger = t;
  subject_id = some 1;
  assignee_id = some 2;
  stage = none;
  handed_over_at = none;
  notified_at = none;
}

-- The buddy has left and nobody took over.
abbrev buddy_left : Situation
buddy_left = record {
  live_trigger = some Trigger.buddy_form;
  joiner = some (1, person true);
  assignee = some (2, person false);
  buddy = none;
  manager = none;
}

waits : settle (sent Trigger.buddy_form) buddy_left ≡ Settle.wait_for_buddy
unfolding settle settle_buddy
waits = refl
