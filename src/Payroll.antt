-- ===== src/Payroll.antt =====
-- Salary arithmetic and the working calendar: app/core/payroll.py.
pub mod Tax
pub mod Slip
pub mod Prorate
pub mod Adjust
pub mod Adjustments
pub mod Line
pub mod Release
pub mod WorkDays
