-- ===== src/PayoutFile.antt =====
-- Bank payout files: app/core/payout_file.py. The children are its texts, amounts and rows.
pub mod Text
pub mod Amount
pub mod Header
pub mod Rows
