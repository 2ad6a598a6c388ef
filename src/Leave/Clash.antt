-- ===== src/Leave/Clash.antt =====
-- Colliding leaves, app/services/leave_rules.py and the overlap check of leave_service.py.
use avora_be.Prelude.{
  ℕ, ◌≡◌, ◌≢◌, refl, Bool, true, false, ◌&&◌, Option, none, some, inl, inr, arith, Bool-cases,
}
use avora_be.Prelude.Dict.{Dict, lookup, any_rows-lookup}
use avora_be.Calendar.{date_leb}
use avora_be.Leave.{
  Leave, LeaveStatus, HalfDayPeriod, is_half_day, clashes, meets, overlaps, same_half,
}
use avora_be.Leave.Desk.{Request, any_clash}

same_half-sym : (a b : Option HalfDayPeriod) → same_half a b ≡ same_half b a
same_half-sym none none = refl
same_half-sym none (some HalfDayPeriod.first_half) = refl
same_half-sym none (some HalfDayPeriod.second_half) = refl
same_half-sym (some HalfDayPeriod.first_half) none = refl
same_half-sym (some HalfDayPeriod.second_half) none = refl
same_half-sym (some HalfDayPeriod.first_half) (some HalfDayPeriod.first_half) = refl
same_half-sym (some HalfDayPeriod.first_half) (some HalfDayPeriod.second_half) = refl
same_half-sym (some HalfDayPeriod.second_half) (some HalfDayPeriod.first_half) = refl
same_half-sym (some HalfDayPeriod.second_half) (some HalfDayPeriod.second_half) = refl

-- Collision is symmetric.
pub clashes-sym :
    (a b : Leave)
    → clashes a b.leave_type b.half_day_period ≡ clashes b a.leave_type a.half_day_period
clashes-sym a b = elim (Bool-cases (is_half_day a.leave_type)) [
  | inl x ↦ elim (Bool-cases (is_half_day b.leave_type)) [
    | inl y ↦ rw (x, y) (same_half-sym a.half_day_period b.half_day_period)
    | inr y ↦ rw (x, y) refl
  ]
  | inr x ↦ elim (Bool-cases (is_half_day b.leave_type)) [
    | inl y ↦ rw (x, y) refl
    | inr y ↦ rw (x, y) refl
  ]
]

pub meets-sym : (a b : Leave) → meets a b.start_date b.end_date ≡ meets b a.start_date a.end_date
meets-sym a b = elim (Bool-cases (date_leb a.start_date b.end_date)) [
  | inl x ↦ elim (Bool-cases (date_leb b.start_date a.end_date)) [
    | inl y ↦ rw (x, y) refl
    | inr y ↦ rw (x, y) refl
  ]
  | inr x ↦ elim (Bool-cases (date_leb b.start_date a.end_date)) [
    | inl y ↦ rw (x, y) refl
    | inr y ↦ rw (x, y) refl
  ]
]

only_clash : {a b : Bool} → a ≡ true → (a && b) ≡ false → b ≡ false
only_clash e h = ground arith

overlaps-true :
    (who : ℕ) (r : Request) (k j : ℕ) (at_approval : Bool) (old : Leave)
    → j ≢ k
    → old.employee_id ≡ who
    → old.status ≡ LeaveStatus.approved
    → meets old r.start r.end ≡ true
    → overlaps who r.start r.end at_approval (some k) j old ≡ true
overlaps-true who r k j at_approval old ne same s m = rw (same, s) (ground arith)

-- A passed overlap check leaves no approved row that meets the request and collides with it.
pub any_clash_sound :
    (r : Request) (who k j : ℕ) (at_approval : Bool) (d : Dict Leave) {old : Leave}
    → any_clash r who at_approval (some k) d ≡ false
    → j ≢ k
    → lookup j d ≡ some old
    → old.employee_id ≡ who
    → old.status ≡ LeaveStatus.approved
    → meets old r.start r.end ≡ true
    → clashes old r.leave_type r.half_day ≡ false
any_clash_sound r who k j at_approval d {old} h ne e same s m =
    let hit : (overlaps who r.start r.end at_approval (some k) j old
          && clashes old r.leave_type r.half_day)
        ≡ false =
      any_rows-lookup _ j d h e in
    only_clash (overlaps-true who r k j at_approval old ne same s m) hit
