-- ===== src/Notice.antt =====
-- What every service writes beside its own rows: a line of the audit log
-- (app/repositories/audit.py) and an in-app message (app/services/notification_service.py).
use avora_be.Prelude.{ℕ, Option, List, [], ◌∷◌, ◌++◌, if◌then◌else◌, opt_eq}

-- One line of the log; the action is a type of the service's own.
pub record AuditEntry (A : Type 0) : Type 0 where
  pub actor : ℕ
  pub action : A
  pub target : ℕ

abbrev pub append_entry : {A : Type 0} → ℕ → A → ℕ → List (AuditEntry A) → List (AuditEntry A)
append_entry who act k log = log ++ (record { actor = who; action = act; target = k } ∷ [])

pub record Message (T : Type 0) : Type 0 where
  pub recipient : ℕ
  pub entity : ℕ
  pub title : T
  pub actor : Option ℕ

-- `NotificationService.notify`: nobody is told of their own action.
abbrev pub notify : {T : Type 0} → ℕ → T → ℕ → Option ℕ → List (Message T) → List (Message T)
notify to subject k who ms =
    if opt_eq who to
    then ms
    else ms ++ (record { recipient = to; entity = k; title = subject; actor = who } ∷ [])
