-- ===== src/Bus/Session.antt =====
-- crates/lemnos-bus/src/session.rs: what every session records of its calls. The system's clock is
-- outside the repository: a function that reads it takes the time that it reads.
use lemnos.Prelude.{
  Bool, Option, Result, Text, false, if◌then◌else◌, is_ok, or_else, some, text_ord, true,
}
use lemnos.Bus.Error.{BusError}
use lemnos.Core.Interface.{interface_ord}
use lemnos.Core.State.{TimestampMs}

pub data SessionAccess : Type 0 where
  shared_read_only shared exclusive exclusive_controller : SessionAccess

-- `can_write` and `is_exclusive`.
abbrev pub can_write : SessionAccess → Bool
can_write SessionAccess.shared_read_only = false
can_write _ = true

abbrev pub is_exclusive : SessionAccess → Bool
is_exclusive SessionAccess.exclusive = true
is_exclusive SessionAccess.exclusive_controller = true
is_exclusive _ = false

pub data SessionState : Type 0 where
  open_state idle busy stale faulted closed : SessionState

pub record SessionMetadata : Type 0 where
  pub backend_name : Text
  pub access : SessionAccess
  pub state : SessionState
  pub opened_at : Option TimestampMs
  pub last_active_at : Option TimestampMs

-- `SessionMetadata::new`.
unfoldable pub new_metadata : TimestampMs → Text → SessionAccess → SessionMetadata
new_metadata now backend_name access = record {
  backend_name = backend_name;
  access = access;
  state = SessionState.open_state;
  opened_at = some now;
  last_active_at = some now;
}

-- `ensure_opened_at_with`.
unfoldable pub ensure_opened_at : TimestampMs → SessionMetadata → SessionMetadata
ensure_opened_at now m = record m { opened_at = or_else m.opened_at (some now) }

-- `touch_now`.
unfoldable pub touch : TimestampMs → SessionMetadata → SessionMetadata
unfolding ensure_opened_at
touch now m = record (ensure_opened_at now m) { last_active_at = some now }

-- `mark_idle`, `mark_busy`, `mark_stale`, `mark_faulted` and `mark_closed`.
unfoldable pub mark : SessionState → TimestampMs → SessionMetadata → SessionMetadata
unfolding touch
mark state now m = record (touch now m) { state = state }

-- `begin_call`, which reads the clock twice.
unfoldable pub begin_call : TimestampMs → TimestampMs → SessionMetadata → SessionMetadata
unfolding ensure_opened_at mark
begin_call now later m = mark SessionState.busy later (ensure_opened_at now m)

-- `finish_call`.
unfoldable pub finish_call :
    {A : Type 0} → TimestampMs → Result BusError A → SessionMetadata → SessionMetadata
unfolding mark
finish_call now result m =
    mark (if is_ok result then SessionState.idle else SessionState.faulted) now m
