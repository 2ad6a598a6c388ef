-- ===== src/Forms.antt =====
-- Forms that two people fill in, and the upkeep of forms that nobody has been told about:
-- app/services/form_stages.py, app/services/form_settlement.py and the two tests that the latter
-- takes from app/services/probation_forms.py.
pub mod Walk
pub mod Upkeep
mod Tests
use avora_be.Prelude.{
  ℕ, Bool, true, false, not, ◌&&◌, ◌||◌, Option, none, some, List, [], ◌∷◌, any, keep, ◌==◌,
  is_some, if◌then◌else◌,
}
use avora_be.Staff.{Employee}

pub data Stage : Type 0 where
  employee_stage manager_stage : Stage

pub data FieldKind : Type 0 where
  section_heading question : FieldKind

pub record FormField : Type 0 where
  pub kind : FieldKind
  pub stage : Option Stage

abbrev pub same_stage : Stage → Stage → Bool
same_stage Stage.employee_stage Stage.employee_stage = true
same_stage Stage.manager_stage Stage.manager_stage = true
same_stage _ _ = false

-- `field.stage is stage`
abbrev pub in_stage : Stage → FormField → Bool
in_stage s f = elim f.stage [ none ↦ false | some t ↦ same_stage t s ]

abbrev pub is_question : FormField → Bool
is_question f = elim f.kind [ section_heading ↦ false | question ↦ true ]

abbrev pub is_staged : List FormField → Bool
is_staged fs = any (λ f. is_some f.stage) fs

-- `answerable`
abbrev pub answerable : List FormField → List FormField
answerable fs = keep is_question fs

abbrev non_empty : List FormField → Bool
non_empty [] = false
non_empty (f ∷ fs) = true

abbrev pub stage_has_questions : List FormField → Stage → Bool
stage_has_questions fs s = non_empty (answerable (keep (in_stage s) fs))

-- `STAGE_ORDER`
abbrev pub stage_order : List Stage
stage_order = Stage.employee_stage ∷ Stage.manager_stage ∷ []

unfoldable pub stages_used : List FormField → List Stage
stages_used fs = keep (stage_has_questions fs) stage_order

abbrev head : List Stage → Option Stage
head [] = none
head (s ∷ ss) = some s

abbrev pub first_stage : List FormField → Option Stage
first_stage fs = head (stages_used fs)

-- The stage after the first place of one in a list; none where it is last or absent.
abbrev after : Stage → List Stage → Option Stage
after s [] = none
after s (t ∷ ts) = if same_stage t s then head ts else after s ts

unfoldable pub next_stage : List FormField → Option Stage → Option Stage
next_stage fs none = none
next_stage fs (some s) = after s (stages_used fs)

unfoldable pub fields_for_stage : List FormField → Option Stage → List FormField
fields_for_stage fs none = fs
fields_for_stage fs (some s) = keep (in_stage s) fs

pub data AssignmentStatus : Type 0 where
  pending submitted_form needs_buddy needs_manager cancelled_form : AssignmentStatus

pub data Trigger : Type 0 where
  manual new_joiner buddy_form probation_self probation_manager probation_hr : Trigger

pub record Assignment : Type 0 where
  pub status : AssignmentStatus
  pub trigger : Trigger
  pub subject_id : Option ℕ
  pub assignee_id : Option ℕ
  pub stage : Option Stage
  pub handed_over_at : Option ℕ
  pub notified_at : Option ℕ

pub data Settle : Type 0 where
  kept cancel to_buddy wait_for_buddy to_manager wait_for_manager : Settle

-- A person on file with the key of the row.
abbrev pub Person : Type 0
Person = ℕ × Employee

pub record Situation : Type 0 where
  pub live_trigger : Option Trigger
  pub joiner : Option Person
  pub assignee : Option Person
  pub buddy : Option Person
  pub manager : Option Person

abbrev pub trigger_code : Trigger → ℕ
trigger_code Trigger.manual = 0
trigger_code Trigger.new_joiner = 1
trigger_code Trigger.buddy_form = 2
trigger_code Trigger.probation_self = 3
trigger_code Trigger.probation_manager = 4
trigger_code Trigger.probation_hr = 5

abbrev is_status : AssignmentStatus → AssignmentStatus → Bool
is_status AssignmentStatus.pending AssignmentStatus.pending = true
is_status AssignmentStatus.needs_buddy AssignmentStatus.needs_buddy = true
is_status AssignmentStatus.needs_manager AssignmentStatus.needs_manager = true
is_status _ _ = false

abbrev pub is_unsent : Assignment → Bool
is_unsent a =
    is_status a.status AssignmentStatus.needs_buddy
    || is_status a.status AssignmentStatus.needs_manager
    || is_status a.status AssignmentStatus.pending && not (is_some a.notified_at)

abbrev at_manager : Option Stage → Bool
at_manager (some Stage.manager_stage) = true
at_manager _ = false

abbrev pub is_handed_over : Assignment → Bool
is_handed_over a = at_manager a.stage && is_some a.handed_over_at

-- `usable_buddy` and `usable_manager`: an active colleague other than the person themselves.
abbrev pub usable : Option Person → Option Person → Bool
usable (some (j, _)) (some (k, e)) = e.is_active && not (k == j)
usable _ _ = false

abbrev pub is_active_person : Option Person → Bool
is_active_person none = false
is_active_person (some (k, e)) = e.is_active

-- `is_pool`
abbrev pub is_pool : Assignment → Bool
is_pool a = (trigger_code a.trigger == 5) && not (is_some a.assignee_id)

unfoldable pub settle_buddy : Assignment → Situation → Settle
settle_buddy a now =
    if is_status a.status AssignmentStatus.needs_buddy
    then if usable now.joiner now.buddy then Settle.to_buddy else Settle.kept
    else if is_active_person now.assignee
    then Settle.kept
    else if usable now.joiner now.buddy
    then Settle.to_buddy
    else Settle.wait_for_buddy

-- `assignment.assignee_id == now.manager.id`
abbrev assigned_to : Option ℕ → Option Person → Bool
assigned_to (some a) (some (k, e)) = a == k
assigned_to _ _ = false

unfoldable pub settle_manager : Assignment → Situation → Settle
settle_manager a now =
    if is_status a.status AssignmentStatus.needs_manager
    then if usable now.joiner now.manager then Settle.to_manager else Settle.kept
    else if usable now.joiner now.manager && assigned_to a.assignee_id now.manager
    then Settle.kept
    else if usable now.joiner now.manager
    then Settle.to_manager
    else Settle.wait_for_manager

-- Sent by itself, and no longer by this trigger.
abbrev pub is_withdrawn : Assignment → Situation → Bool
is_withdrawn a now =
    not (trigger_code a.trigger == 0)
    && not
        (elim now.live_trigger [ none ↦ false | some t ↦ trigger_code t == trigger_code a.trigger ])

abbrev pub subject_left : Assignment → Situation → Bool
subject_left a now = is_some a.subject_id && not (is_active_person now.joiner)

unfoldable pub settle : Assignment → Situation → Settle
unfolding settle_buddy settle_manager
settle a now =
    if is_withdrawn a now
    then Settle.cancel
    else if subject_left a now
    then Settle.cancel
    else if trigger_code a.trigger == 2
    then settle_buddy a now
    else if trigger_code a.trigger == 4
    then settle_manager a now
    else if is_handed_over a
    then settle_manager a now
    else if is_pool a
    then Settle.kept
    else if is_active_person now.assignee
    then Settle.kept
    else Settle.cancel
