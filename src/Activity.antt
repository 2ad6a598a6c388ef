-- ===== src/Activity.antt =====
-- Ingest of agent samples: app/services/activity_service.py with the device row of
-- app/repositories/device.py. Instants are seconds. Whether the monitoring gate suppresses the
-- sample is an argument; the domain taken from the address and the health check that follows are
-- left out.
mod Sequences
mod Tests
use Prim.Native.String.{String}
use avora_be.Prelude.{
  ℕ, ◌+◌, ◌-◌, Bool, true, false, Option, none, some, List, [], ◌∷◌, ◌++◌, ltb, leb, any, ◌==◌,
  ◌&&◌, if◌then◌else◌,
}
use avora_be.Prelude.Dict.{Dict, lookup, insert}
use avora_be.Prelude.Service.{
  AppError, ok, err, Service, ◌>>=◌, ◌>>◌, return, raise_if, gets, modify,
}

pub record Device : Type 0 where
  pub last_sequence : ℕ
  pub last_seen_at : Option ℕ

-- The device as it was authenticated.
pub record CurrentDevice : Type 0 where
  pub device_id : ℕ
  pub employee_id : ℕ
  pub last_sequence : ℕ

pub record ActivityIngest : Type 0 where
  pub sequence : ℕ
  pub client_timestamp : ℕ
  pub idle_seconds : ℕ
  pub active_window : Option String
  pub url : Option String
  pub page_title : Option String
  pub browser : Option String

pub data Flag : Type 0 where
  clock_skew future_timestamp : Flag

pub record Sample : Type 0 where
  pub device_id : ℕ
  pub employee_id : ℕ
  pub sequence : ℕ
  pub client_timestamp : ℕ
  pub idle_seconds : ℕ
  pub active_window : Option String
  pub url : Option String
  pub page_title : Option String
  pub browser : Option String
  pub flags : List Flag

pub record Db : Type 0 where
  pub devices : Dict Device
  pub samples : List Sample
  pub max_clock_skew : ℕ

-- `_flags`
unfoldable pub flags_of : ℕ → ActivityIngest → ℕ → List Flag
flags_of max_skew p received_at =
    let skewed =
      if ltb max_skew (p.client_timestamp - received_at + (received_at - p.client_timestamp))
      then Flag.clock_skew ∷ []
      else [] in
    skewed ++ (if ltb received_at p.client_timestamp then Flag.future_timestamp ∷ [] else [])

-- `_advance_device` on the row, which may have gone.
abbrev pub advance : CurrentDevice → ℕ → ℕ → Dict Device → Dict Device
advance d seq at devices = elim (lookup d.device_id devices) [
  | none ↦ devices
  | some row ↦ insert d.device_id (record { last_sequence = seq; last_seen_at = some at }) devices
]

abbrev pub new_sample : CurrentDevice → ActivityIngest → List Flag → Sample
new_sample d p fs = record {
  device_id = d.device_id;
  employee_id = d.employee_id;
  sequence = p.sequence;
  client_timestamp = p.client_timestamp;
  idle_seconds = p.idle_seconds;
  active_window = p.active_window;
  url = p.url;
  page_title = p.page_title;
  browser = p.browser;
  flags = fs;
}

-- Outside a work session nothing is stored, but the sequence moves on.
abbrev drop : CurrentDevice → ActivityIngest → ℕ → Service Db (Option Sample)
drop d p now = do
  modify (λ db. record db { devices = advance d p.sequence now db.devices })
  return none

-- The unique index on (device_id, sequence).
abbrev pub same_key : ℕ → ℕ → Sample → Bool
same_key k seq s = s.device_id == k && s.sequence == seq

-- The insert, which fails on a sequence that the device has used (a unique index), and the move.
abbrev store : CurrentDevice → ActivityIngest → ℕ → Service Db (Option Sample)
store d p now = do
  skew ← gets (λ db. db.max_clock_skew)
  used ← gets (λ db. any (same_key d.device_id p.sequence) db.samples)
  raise_if used AppError.conflict_error
  let sample = new_sample d p (flags_of skew p now)
  modify (λ db. record db {
    samples = db.samples ++ (sample ∷ []);
    devices = advance d p.sequence now db.devices;
  })
  return (some sample)

-- A replay is refused: its audit entry is rolled back with the exception.
unfoldable pub ingest : CurrentDevice → ActivityIngest → Bool → ℕ → Service Db (Option Sample)
ingest d p suppressed now = do
  raise_if (leb p.sequence d.last_sequence) AppError.replay_error
  if suppressed then drop d p now else store d p now
