-- ===== src/Probation/Desk.antt =====
-- Recording an outcome: `decide` of app/services/probation_service.py. `uploaded` says whether HR
-- uploaded a letter and `delivered` whether the mail went out; the text of a letter is not part of
-- the state. `today` is the day in the office's time zone.
use Prim.Native.String.{String}
use avora_be.Prelude.{
  ℕ, zero, suc, Bool, true, false, not, ◌&&◌, ◌||◌, Option, none, some, List, [], ◌∷◌, ltb,
  if◌then◌else◌, is_some,
}
use avora_be.Prelude.Dict.{Dict, lookup, insert}
use avora_be.Prelude.Service.{
  AppError, ok, Service, ◌>>=◌, ◌>>◌, return, raise_if, or_raise, gets, modify,
}
use avora_be.Calendar.{Date, date_ltb, date_leb}
use avora_be.Auth.{CurrentUser}
use avora_be.Staff.{Employee}
use avora_be.Tenure.{probation_end, months_to_reach, anniversaries_reached}
use avora_be.Probation.{
  Db, Decision, ProbationOutcome, SystemNote, Action, is_terminated, may_manage, visible_employee,
  at_employee, log, mark_done_by_system,
}

abbrev pub max_probation_months : ℕ
max_probation_months = 24

pub record DecisionCreate : Type 0 where
  pub outcome : ProbationOutcome
  pub effective_date : Date
  pub job_title : Option String
  pub note : Option String
  pub send_letter : Bool
  pub expectations : List String

abbrev pub is_text : Option String → Bool
is_text none = false
is_text (some String.[]) = false
is_text (some (String.◌∷◌ c s)) = true

-- `a or b`
abbrev pub or_text : Option String → Option String → Option String
or_text a b = if is_text a then a else b

abbrev pub some_of : List String → Option (List String)
some_of [] = none
some_of (x ∷ xs) = some (x ∷ xs)

abbrev pub is_extended : ProbationOutcome → Bool
is_extended ProbationOutcome.extended = true
is_extended _ = false

-- A probation of no months counts as none of one's own.
abbrev pub own_months : Option ℕ → Option ℕ
own_months none = none
own_months (some zero) = none
own_months (some (suc n)) = some (suc n)

-- `_default_probation_months`: the policy is made on the first read, with six months.
unfoldable pub default_probation_months : Service Db ℕ
default_probation_months db = elim db.default_months [
  | some n ↦ ok (n, db)
  | none ↦ ok (6, record db { default_months = some 6 })
]

abbrev pub own_or_default : Option ℕ → Service Db ℕ
own_or_default (some n) = return n
own_or_default none = default_probation_months

-- `_probation_months`
unfoldable pub probation_months_of : Employee → Service Db ℕ
probation_months_of e = own_or_default (own_months e.probation_months)

-- `_check_standard_letter_inputs`: the letter is due and cannot be filled in.
unfoldable pub lacks_letter_inputs : Option String → DecisionCreate → Bool → Bool
lacks_letter_inputs staff_title p uploaded =
    p.send_letter
    && not uploaded
    && not (is_terminated p.outcome)
    && (not (is_text (or_text p.job_title staff_title))
        || is_extended p.outcome && not (is_some (some_of p.expectations)))

-- The end that an earlier extension has on record.
abbrev pub extended_from : Option Decision → Option Date
extended_from none = none
extended_from (some d) = if is_extended d.outcome then d.original_end_date else none

-- `_end_before_extension`, of an extension: the joining date and the end on record.
abbrev pub first_end : Employee → Option Date → Option Date → Service Db (Option Date)
first_end e none first = return none
first_end e (some hired) (some day) = return (some day)
first_end e (some hired) none = do
  months ← probation_months_of e
  return (some (probation_end hired months))

-- `_end_before_extension`
unfoldable pub end_before_extension :
    Employee → Option Decision → DecisionCreate → Service Db (Option Date)
end_before_extension e previous p =
    if is_extended p.outcome then first_end e e.hire_date (extended_from previous) else return none

abbrev pub set_months : ℕ → Employee → ℕ → Service Db (Unit {0})
set_months who e n =
    modify λ db. record db {
      employees = insert who (record e { probation_months = some n }) db.employees;
    }

abbrev pub at_least_one : ℕ → ℕ
at_least_one zero = 1
at_least_one (suc n) = suc n

-- A confirmation cuts a window short that still runs.
unfoldable pub confirm : ℕ → Employee → Date → Date → ℕ → Service Db Date
confirm who e hired day months = do
  let cut = set_months who e (at_least_one (anniversaries_reached hired day))
  if date_ltb day (probation_end hired months) then cut else return tt
  return day

abbrev pub was_extended : Option Decision → Bool
was_extended none = false
was_extended (some d) = is_extended d.outcome

unfoldable pub extend : ℕ → Employee → Option Decision → Date → Date → ℕ → Date → Service Db Date
extend who e previous hired day months today = do
  let reached = months_to_reach hired day
  let new_end = probation_end hired reached
  raise_if (date_leb new_end today) AppError.validation_error
  raise_if (not (was_extended previous) && date_leb new_end (probation_end hired months))
      AppError.validation_error
  raise_if (ltb max_probation_months reached) AppError.validation_error
  set_months who e reached
  return new_end

-- `_apply_outcome`, where employment goes on.
unfoldable pub new_window : ℕ → Employee → Option Decision → DecisionCreate → Date → Service Db Date
new_window who e previous p today = do
  hired ← or_raise e.hire_date AppError.validation_error
  months ← probation_months_of e
  let longer = extend who e previous hired p.effective_date months today
  if is_extended p.outcome then longer else confirm who e hired p.effective_date months

-- `_apply_outcome`
unfoldable pub apply_outcome :
    ℕ → Employee → Option Decision → DecisionCreate → Date → Service Db Date
apply_outcome who e previous p today =
    if is_terminated p.outcome then return p.effective_date else new_window who e previous p today

-- `_letter_available`
abbrev pub letter_available : Decision → Bool
letter_available d =
    is_some d.job_title
    && not (is_terminated d.outcome)
    && (not (is_extended d.outcome) || is_some d.expectations && is_some d.original_end_date)

-- `_send_letter`
abbrev pub send_letter : Bool → ℕ → Decision → Decision
send_letter delivered now d =
    if delivered && not (is_terminated d.outcome) then record d { letter_sent_at = some now } else d

-- `_decision_ticks`
abbrev pub decision_ticks : Decision → Bool → Dict SystemNote
decision_ticks d has_letter =
    (7, SystemNote.outcome_recorded d.outcome)
    ∷ (if is_terminated d.outcome
        then []
        else (15, SystemNote.end_updated)
          ∷ (if has_letter
              then (
                13,
                if is_some d.letter_sent_at
                    then SystemNote.letter_emailed
                    else SystemNote.letter_prepared,
              )
                ∷ []
              else []))

abbrev pub new_decision :
    CurrentUser → DecisionCreate → Option String → Option Date → Date → ℕ → Decision
new_decision caller p staff_title original effective now = record {
  outcome = p.outcome;
  effective_date = effective;
  job_title = or_text p.job_title staff_title;
  note = p.note;
  original_end_date = original;
  expectations = some_of p.expectations;
  decided_by = caller.employee_id;
  decided_at = now;
  letter_sent_at = none;
}

abbrev pub sent : DecisionCreate → Bool → ℕ → Decision → Decision
sent p delivered now d = if p.send_letter then send_letter delivered now d else d

-- The decision on file and the steps that it settles.
abbrev pub record_decision : ℕ → Decision → Bool → ℕ → Db → Db
record_decision who d has_letter now db = record db {
  decisions = insert who d db.decisions;
  items = at_employee who (mark_done_by_system (decision_ticks d has_letter) now) db.items;
}

-- The writes of `decide` on a row that it may decide.
unfoldable pub record_outcome :
    CurrentUser → ℕ → Employee → DecisionCreate → Bool → Bool → Date → ℕ → Service Db Decision
record_outcome caller who e p uploaded delivered today now = do
  staff_title ← gets (λ db. db.titles who)
  previous ← gets (λ db. lookup who db.decisions)
  original ← end_before_extension e previous p
  effective ← apply_outcome who e previous p today
  let d = sent p delivered now (new_decision caller p staff_title original effective now)
  modify (record_decision who d (uploaded || letter_available d) now)
  modify (log caller.employee_id (Action.deciding p.outcome) who)
  return d

unfoldable pub decide :
    CurrentUser → ℕ → DecisionCreate → Bool → Bool → Date → ℕ → Service Db Decision
decide caller who p uploaded delivered today now = do
  e ← visible_employee caller who
  raise_if (not (may_manage caller)) AppError.authorization_error
  staff_title ← gets (λ db. db.titles who)
  raise_if (lacks_letter_inputs staff_title p uploaded) AppError.validation_error
  record_outcome caller who e p uploaded delivered today now
