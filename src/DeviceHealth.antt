-- ===== src/DeviceHealth.antt =====
-- Is a device's agent capturing: app/services/device_health_rules.py. Instants are seconds.
pub mod Assess
mod Tests
use avora_be.Prelude.{
  ℕ, ◌+◌, ◌-◌, ◌*◌, Bool, true, false, not, ◌&&◌, ◌||◌, Option, none, some, List, [], ◌∷◌, ◌++◌,
  any, ltb, leb, is_some, if◌then◌else◌,
}

-- The states that a capability reports; a missing one is no issue.
pub data Capability : Type 0 where
  working failing empty permission_denied unsupported unknown : Capability

pub data Issue : Type 0 where
  screen_capture_failing screen_capture_permission_denied window_info_empty
        window_info_permission_denied browser_url_empty browser_url_permission_denied report_stale
        queue_backlog :
      Issue

pub data HealthStatus : Type 0 where
  no_report healthy needs_attention : HealthStatus

-- What the rules read of a device's row.
pub record HealthSnapshot : Type 0 where
  pub screen_capture : Option Capability
  pub window_info : Option Capability
  pub browser_url : Option Capability
  pub oldest_queued_age_seconds : Option ℕ
  pub reported_at : Option ℕ
  pub last_seen_at : Option ℕ

pub record HealthAssessment : Type 0 where
  pub status : HealthStatus
  pub issues : List Issue

abbrev pub stale_report_after : ℕ
stale_report_after = 1800

abbrev pub queue_backlog_after : ℕ
queue_backlog_after = 3600

-- The rows of `_CAPABILITY_ISSUES`, by field.
abbrev pub screen_issue : Option Capability → List Issue
screen_issue (some Capability.failing) = Issue.screen_capture_failing ∷ []
screen_issue (some Capability.permission_denied) = Issue.screen_capture_permission_denied ∷ []
screen_issue _ = []

abbrev pub window_issue : Option Capability → List Issue
window_issue (some Capability.empty) = Issue.window_info_empty ∷ []
window_issue (some Capability.permission_denied) = Issue.window_info_permission_denied ∷ []
window_issue _ = []

abbrev pub browser_issue : Option Capability → List Issue
browser_issue (some Capability.empty) = Issue.browser_url_empty ∷ []
browser_issue (some Capability.permission_denied) = Issue.browser_url_permission_denied ∷ []
browser_issue _ = []

-- `_capability_issues`
abbrev pub capability_issues : HealthSnapshot → List Issue
capability_issues d =
    screen_issue d.screen_capture ++ (window_issue d.window_info ++ browser_issue d.browser_url)

-- `now - at <= STALE_REPORT_AFTER`
abbrev pub is_recent : ℕ → ℕ → Bool
is_recent now at = leb now (at + stale_report_after)

unfoldable pub is_report_stale : HealthSnapshot → ℕ → Bool
is_report_stale d now = elim d.reported_at [
  | none ↦ false
  | some at ↦
      not (is_recent now at)
      && elim d.last_seen_at [ none ↦ false | some seen ↦ is_recent now seen ]
]

unfoldable pub queue_backlogged : HealthSnapshot → Bool
queue_backlogged d = elim d.oldest_queued_age_seconds [
  | none ↦ false
  | some age ↦ ltb queue_backlog_after age
]

-- All issues, in the order of `assess`.
abbrev pub issues_of : HealthSnapshot → ℕ → List Issue
issues_of d now =
    capability_issues d
    ++ ((if is_report_stale d now then Issue.report_stale ∷ [] else [])
        ++ (if queue_backlogged d then Issue.queue_backlog ∷ [] else []))

abbrev verdict : List Issue → HealthAssessment
verdict [] = record { status = HealthStatus.healthy; issues = [] }
verdict (i ∷ is) = record { status = HealthStatus.needs_attention; issues = i ∷ is }

unfoldable pub assess : HealthSnapshot → ℕ → HealthAssessment
unfolding is_report_stale queue_backlogged
assess d now =
    if is_some d.reported_at
    then verdict (issues_of d now)
    else record { status = HealthStatus.no_report; issues = [] }
