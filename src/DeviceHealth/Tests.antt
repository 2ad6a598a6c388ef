-- ===== src/DeviceHealth/Tests.antt =====
-- A device whose agent stopped reporting while activity still arrives.
use avora_be.Prelude.{◌≡◌, ◌⊎◌, ◌↔◌, refl, true, none, some, [], ◌∷◌, is_some}
use avora_be.DeviceHealth.{
  HealthSnapshot, HealthStatus, Capability, Issue, assess, is_report_stale, queue_backlogged,
}
use avora_be.DeviceHealth.Assess.{Broken, Quiet, Backlog, assess-needs_attention}

abbrev silent : HealthSnapshot
silent = record {
  screen_capture = some Capability.working;
  window_info = some Capability.unsupported;
  browser_url = some Capability.unknown;
  oldest_queued_age_seconds = none;
  reported_at = some 1000;
  last_seen_at = some 4000;
}

stale : (assess silent 4100).issues ≡ Issue.report_stale ∷ []
unfolding assess is_report_stale queue_backlogged
stale = refl

assess-needs_attention_example :
    ((assess silent 4100).status ≡ HealthStatus.needs_attention)
    ↔ ((is_some silent.reported_at ≡ true) × (Broken silent ⊎ Quiet silent 4100 ⊎ Backlog silent))
assess-needs_attention_example = assess-needs_attention silent 4100
