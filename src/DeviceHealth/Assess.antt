-- ===== src/DeviceHealth/Assess.antt =====
-- The verdict of app/services/device_health_rules.py against its description.
use avora_be.Prelude.{
  ℕ, ◌+◌, ◌≤◌, ◌<◌, ◌≡◌, ◌≢◌, ◌↔◌, refl, true, Option, some, [], ◌⊎◌, inl, inr, arith, is_some,
  Bool-cases, Option-cases,
}
use avora_be.DeviceHealth.{
  Capability, HealthSnapshot, HealthStatus, assess, is_report_stale, queue_backlogged, screen_issue,
  window_issue, browser_issue, capability_issues,
}

-- A capability that fails in a way of its field.
pub data Broken (d : HealthSnapshot) : Type 0 where
  screen_fails : d.screen_capture ≡ some Capability.failing → Broken d
  screen_denied : d.screen_capture ≡ some Capability.permission_denied → Broken d
  window_blank : d.window_info ≡ some Capability.empty → Broken d
  window_denied : d.window_info ≡ some Capability.permission_denied → Broken d
  browser_blank : d.browser_url ≡ some Capability.empty → Broken d
  browser_denied : d.browser_url ≡ some Capability.permission_denied → Broken d

-- Alive but not reporting: the last report is older than half an hour, the last activity is not.
pub data Quiet (d : HealthSnapshot) (now : ℕ) : Type 0 where
  quiet :
      (at seen : ℕ)
      → d.reported_at ≡ some at
      → d.last_seen_at ≡ some seen
      → at + 1800 < now
      → now ≤ seen + 1800
      → Quiet d now

-- The oldest capture has waited for more than an hour.
pub data Backlog (d : HealthSnapshot) : Type 0 where
  backlog : (age : ℕ) → d.oldest_queued_age_seconds ≡ some age → 3600 < age → Backlog d

is_report_stale-Quiet : (d : HealthSnapshot) (now : ℕ) → is_report_stale d now ≡ true → Quiet d now
unfolding is_report_stale
is_report_stale-Quiet d now h = elim (Option-cases d.reported_at) [
  | inl a ↦ absurd (ground (arith, a))
  | inr (at, a) ↦ elim (Option-cases d.last_seen_at) [
    | inl b ↦ absurd (ground (arith, a, b))
    | inr (seen, b) ↦ Quiet.quiet at seen a b (ground (arith, a, b)) (ground (arith, a, b))
  ]
]

Quiet-is_report_stale : (d : HealthSnapshot) (now : ℕ) → Quiet d now → is_report_stale d now ≡ true
unfolding is_report_stale
Quiet-is_report_stale d now (Quiet.quiet at seen a b old new) = rw (a, b) (ground arith)

queue_backlogged-Backlog : (d : HealthSnapshot) → queue_backlogged d ≡ true → Backlog d
unfolding queue_backlogged
queue_backlogged-Backlog d h = elim (Option-cases d.oldest_queued_age_seconds) [
  | inl a ↦ absurd (ground (arith, a))
  | inr (age, a) ↦ Backlog.backlog age a (ground (arith, a))
]

Backlog-queue_backlogged : (d : HealthSnapshot) → Backlog d → queue_backlogged d ≡ true
unfolding queue_backlogged
Backlog-queue_backlogged d (Backlog.backlog age a old) = rw a (ground arith)

screen_issue_lem :
    (o : Option Capability)
    → (screen_issue o ≡ [])
      ⊎ (o ≡ some Capability.failing)
      ⊎ (o ≡ some Capability.permission_denied)
screen_issue_lem o = ground arith

window_issue_lem :
    (o : Option Capability)
    → (window_issue o ≡ []) ⊎ (o ≡ some Capability.empty) ⊎ (o ≡ some Capability.permission_denied)
window_issue_lem o = ground arith

browser_issue_lem :
    (o : Option Capability)
    → (browser_issue o ≡ []) ⊎ (o ≡ some Capability.empty) ⊎ (o ≡ some Capability.permission_denied)
browser_issue_lem o = ground arith

capability_issues-Broken : (d : HealthSnapshot) → (capability_issues d ≡ []) ⊎ Broken d
capability_issues-Broken d = elim (screen_issue_lem d.screen_capture) [
  | inr (inl e) ↦ inr (Broken.screen_fails e)
  | inr (inr e) ↦ inr (Broken.screen_denied e)
  | inl a ↦ elim (window_issue_lem d.window_info) [
    | inr (inl e) ↦ inr (Broken.window_blank e)
    | inr (inr e) ↦ inr (Broken.window_denied e)
    | inl b ↦ elim (browser_issue_lem d.browser_url) [
      | inr (inl e) ↦ inr (Broken.browser_blank e)
      | inr (inr e) ↦ inr (Broken.browser_denied e)
      | inl c ↦ inl (rw (a, b, c) refl)
    ]
  ]
]

Broken-capability_issues : (d : HealthSnapshot) → Broken d → capability_issues d ≢ []
Broken-capability_issues d (Broken.screen_fails e) = rw e (λ h. absurd (ground arith))
Broken-capability_issues d (Broken.screen_denied e) = rw e (λ h. absurd (ground arith))
Broken-capability_issues d (Broken.window_blank e) = rw e (λ h. absurd (ground arith))
Broken-capability_issues d (Broken.window_denied e) = rw e (λ h. absurd (ground arith))
Broken-capability_issues d (Broken.browser_blank e) = rw e (λ h. absurd (ground arith))
Broken-capability_issues d (Broken.browser_denied e) = rw e (λ h. absurd (ground arith))

-- A device needs attention exactly if it has reported and a capability is broken, or its agent is
-- alive but quiet, or its queue is stuck.
pub assess-needs_attention :
    (d : HealthSnapshot) (now : ℕ)
    → ((assess d now).status ≡ HealthStatus.needs_attention)
      ↔ ((is_some d.reported_at ≡ true) × (Broken d ⊎ Quiet d now ⊎ Backlog d))
unfolding assess
assess-needs_attention d now = (
  λ h. (
    ground arith,
    elim (Bool-cases (is_report_stale d now)) [
      | inl e ↦ inr (inl (is_report_stale-Quiet d now e))
      | inr e ↦ elim (Bool-cases (queue_backlogged d)) [
        | inl f ↦ inr (inr (queue_backlogged-Backlog d f))
        | inr f ↦ elim (capability_issues-Broken d) [
          | inr b ↦ inl b
          | inl c ↦ absurd (ground (arith, c))
        ]
      ]
    ],
  ),
  λ (reported, why). elim why [
    | inl b ↦ ground (arith, Broken-capability_issues d b)
    | inr (inl q) ↦ ground (arith, Quiet-is_report_stale d now q)
    | inr (inr w) ↦ ground (arith, Backlog-queue_backlogged d w)
  ],
)
