-- ===== src/Tenure/Tests.antt =====
-- Tenure on concrete dates, and the theorems at inputs that meet their hypotheses.
use avora_be.Prelude.{ℕ, ◌≤◌, ◌<◌, ◌≡◌, refl, arith}
use avora_be.Calendar.{
  date, to_ordinal, date_ltb, month_length, is_leap, days_before_year, days_before_month, next_day,
  prev_day,
}
use avora_be.Tenure.{add_months, months_to_reach}
use avora_be.Tenure.Months.{months_to_reach_fewest}

calendar : Unit {0}
unfolding to_ordinal date_ltb month_length is_leap days_before_year days_before_month next_day
    prev_day
calendar = tt

-- 31 August and six months is the last day of February.
end_of_february : add_months (date 2025 8 31) 6 ≡ date 2026 2 28
unfolding calendar add_months
end_of_february = refl

months_to_reach_fewest_example :
    (to_ordinal (date 2026 3 1)
      ≤ to_ordinal (add_months (date 2025 8 31) (months_to_reach (date 2025 8 31) (date 2026 3 1))))
    × ((k : ℕ)
        → k < months_to_reach (date 2025 8 31) (date 2026 3 1)
        → to_ordinal (add_months (date 2025 8 31) k) < to_ordinal (date 2026 3 1))
unfolding calendar
months_to_reach_fewest_example =
    months_to_reach_fewest (date 2025 8 31) (omega arith) (date 2026 3 1) (omega arith)
