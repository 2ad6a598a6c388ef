-- ===== src/Lib.antt =====
-- Verification of the Avora backend: the rules by which it pays salaries, grants leave, settles
-- expense claims, checks payouts, judges attendance and hands on forms.
--
-- The program is a FastAPI application. A route authenticates a caller, opens a database session
-- and calls a service; a service reads and writes rows through repositories, appends to the audit
-- log, sends in-app messages, and raises an exception to refuse. The session of a request is
-- committed if nothing was raised and rolled back otherwise (app/db/session.py, get_session).
-- Prelude/Service.antt is that discipline: a service method takes the state to an answer with the
-- new state, or to an exception without one. Histories are sequences of whole calls: leave rows
-- are locked with FOR UPDATE and so decided one call at a time; expense claims and devices are not
-- locked, and their histories are those of calls that do not overlap.
--
-- Files and code:
-- - Payroll/Tax.antt, Payroll/Slip.antt, Payroll/Prorate.antt, Payroll/WorkDays.antt:
--   app/core/payroll.py (compute_annual_income_tax; compute_breakdown; prorate_breakdown and
--   employer_contributions; the working calendar, payroll_window and payable_base_days).
-- - Payroll/Adjust.antt, Payroll/Line.antt, Payroll/Release.antt: the overrides and adjustments,
--   _line_for, estimate and finalize of app/services/payroll_service.py; a line goes through the
--   calculators above, and finalize writes the payslips that freeze reimbursements and leaves.
-- - Payroll/Adjustments.antt: app/services/payroll_adjustment_service.py with its repository.
-- - Calendar.antt: the part of Python's datetime.date and calendar that the program uses.
-- - Tenure.antt: app/core/tenure.py and app/core/leave_year.py.
-- - Auth.antt, Staff.antt: CurrentUser of app/schemas/auth.py, and the columns and queries of
--   employees that services read (app/models/employee.py, app/repositories/employee.py).
--   Staff/Scope.antt: the scope clause of that repository and its recursive reporting tree.
-- - Notice.antt: AuditRepository.append and NotificationService.notify, as lists that grow.
-- - Reimbursement.antt and Reimbursement/Handlers.antt: the claims and the operations of
--   app/services/reimbursement_service.py; Reimbursement/History.antt is the step relation of its
--   calls together with releases of payslips and changes of the staff.
-- - Leave.antt: app/services/leave_rules.py and the clauses of app/repositories/leave.py;
--   Leave/Balance.antt, Leave/Desk.antt and Leave/Handlers.antt: _compute_balance, the checks and
--   the handlers of app/services/leave_service.py; Leave/History.antt is their step relation.
-- - Payout.antt: app/services/payout_reconcile.py.
-- - PayoutFile/Text.antt, PayoutFile/Amount.antt, PayoutFile/Header.antt, PayoutFile/Rows.antt:
--   app/core/payout_file.py, from the cells of a bank's file to the rows that the reconciliation
--   reads. A sheet is the list of its rows, with none where the reader failed on a row; a number is
--   a decimal of digits and places; letters and digits in texts are ASCII.
-- - Activity.antt: ingest of app/services/activity_service.py; Activity/Sequences.antt has its
--   histories, in which each call sees the device row that the one before left.
-- - RateLimit.antt: app/core/ratelimit.py.
-- - Forms.antt: app/services/form_stages.py and app/services/form_settlement.py.
-- - Attendance.antt: classify_day of app/core/attendance.py.
-- - Regularization.antt: app/services/regularization_service.py with its repository;
--   Regularization/History.antt has its histories.
-- - Resignation.antt: app/services/resignation_service.py with its repository;
--   Resignation/History.antt has its histories.
-- - Idempotency.antt: app/services/idempotency.py with its repository, for any operation.
-- - Probation.antt, Probation/Desk.antt: the checklist and the outcomes of
--   app/services/probation_service.py; Probation/History.antt has its histories, and
--   Probation/Window.antt reads the windows that it writes by the bands of Tenure.antt.
-- - DeviceHealth.antt: app/services/device_health_rules.py.
-- - Prelude.antt and its children: numbers, tables, results and lemmas that these share.
-- The children of each of these are named for what they prove; Tests are concrete runs.
--
-- Choices. Identifiers (UUIDs) and normalised texts that are only compared are numbers; the fresh
-- identifier of a new row is an argument. Amounts are whole paise, percentages whole numbers, days
-- of leave hundredths of a day; `round` is taken on exact quotients, which agrees with Python's
-- float quotients on amounts below 2 ^ 46. Leaves are stored at UTC instants but read by every rule
-- as UTC dates, so they are dates here. The clock, today's date and the minute of an arrival are
-- arguments. Loops over days and months recurse on fuel that is computed from their bounds:
-- the days of the range for working_days_between and _leave_year_windows (each round advances by a
-- day at least), the months of it for _months_between, and two rounds for the upward loop of
-- months_to_reach, which starts at most one month short.
--
-- Not modelled: routes, the ORM and migrations, e-mail (best effort, it changes no row), PDF and
-- spreadsheet rendering, object storage and receipts, imports from the HR system, the worker
-- processes, and the services for tasks, rooms, recognition and the like. Deleting an employee
-- (which nulls reviewer columns) is outside the histories. The texts of messages and errors are
-- left out; titles and kinds of error are kept.
pub mod Prelude
pub mod Payroll
pub mod Calendar
pub mod Tenure
pub mod Auth
pub mod Staff
pub mod Notice
pub mod Leave
pub mod Probation
pub mod Idempotency
pub mod RateLimit
pub mod Payout
pub mod PayoutFile
pub mod Forms
pub mod Attendance
pub mod Regularization
pub mod Activity
pub mod DeviceHealth
pub mod Resignation
pub mod Reimbursement
