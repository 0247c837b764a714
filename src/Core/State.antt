-- ===== src/Core/State.antt =====
-- crates/lemnos-core/src/state.rs and issue.rs. A timestamp (time.rs) is its milliseconds.
use lemnos.Prelude.{List, Option, Text, [], none, text_ord, ℕ}
use lemnos.Core.Ids.{DeviceId}
use lemnos.Core.Interface.{interface_ord}
use lemnos.Core.Value.{Value, ValueMap, set_value}

abbrev pub TimestampMs : Type 0
TimestampMs = ℕ

pub data DeviceHealth : Type 0 where
  healthy degraded failed offline unknown : DeviceHealth

pub data Availability : Type 0 where
  present missing unknown : Availability

pub data DeviceLifecycleState : Type 0 where
  discovered binding bound idle active busy suspended unbinding removed faulted :
      DeviceLifecycleState

pub data OperationStatus : Type 0 where
  succeeded rejected failed timed_out : OperationStatus

pub record OperationRecord : Type 0 where
  pub interaction : Text
  pub status : OperationStatus
  pub observed_at : Option TimestampMs
  pub summary : Option Text
  pub output : Option Value

pub data IssueSeverity : Type 0 where
  info warning error critical : IssueSeverity

pub data IssueCategory : Type 0 where
  discovery inventory binding transport capability configuration conflict : IssueCategory
  permissions timeout protocol validation hotplug other : IssueCategory

pub record DeviceIssue : Type 0 where
  pub code : Text
  pub category : IssueCategory
  pub severity : IssueSeverity
  pub message : Text
  pub first_seen_at : Option TimestampMs
  pub last_seen_at : Option TimestampMs
  pub attributes : ValueMap

pub record DeviceStateSnapshot : Type 0 where
  pub device_id : DeviceId
  pub lifecycle : DeviceLifecycleState
  pub health : DeviceHealth
  pub availability : Availability
  pub observed_at : Option TimestampMs
  pub updated_at : Option TimestampMs
  pub issues : List DeviceIssue
  pub realized_config : ValueMap
  pub telemetry : ValueMap
  pub last_operation : Option OperationRecord

-- `DeviceStateSnapshot::new`.
unfoldable pub new_state : DeviceId → DeviceStateSnapshot
new_state device_id = record {
  device_id = device_id;
  lifecycle = DeviceLifecycleState.discovered;
  health = DeviceHealth.healthy;
  availability = Availability.present;
  observed_at = none;
  updated_at = none;
  issues = [];
  realized_config = ValueMap.empty;
  telemetry = ValueMap.empty;
  last_operation = none;
}

-- The builders `with_lifecycle`, `with_config` and `with_telemetry`.
abbrev pub with_lifecycle : DeviceLifecycleState → DeviceStateSnapshot → DeviceStateSnapshot
with_lifecycle lifecycle s = record s { lifecycle = lifecycle }

unfoldable pub with_config_entry : Text → Value → DeviceStateSnapshot → DeviceStateSnapshot
unfolding set_value
with_config_entry key value s = record s { realized_config = set_value key value s.realized_config }

unfoldable pub with_telemetry : Text → Value → DeviceStateSnapshot → DeviceStateSnapshot
unfolding set_value
with_telemetry key value s = record s { telemetry = set_value key value s.telemetry }
