-- ===== src/Core/Metadata.antt =====
-- crates/lemnos-core/src/capability.rs and descriptor/metadata.rs.
use lemnos.Prelude.{Bool, List, Map, Option, Text, text_ord}
use lemnos.Core.Ids.{DeviceId}
use lemnos.Core.Interface.{interface_ord}
use lemnos.Core.Value.{ValueMap}

pub record CapabilityAccess : Type 0 where
  pub read : Bool
  pub write : Bool
  pub configure : Bool
  pub stream : Bool

pub record CapabilityDescriptor : Type 0 where
  pub id : Text
  pub summary : Option Text
  pub access : CapabilityAccess
  pub properties : ValueMap

pub data DeviceControlSurface : Type 0 where
  linux_class : Text → DeviceControlSurface

pub data DeviceRelation : Type 0 where
  parent controller bus transport interface channel dependency peer consumer provider :
      DeviceRelation
  custom : Text → DeviceRelation

pub record DeviceLink : Type 0 where
  pub target : DeviceId
  pub relation : DeviceRelation
  pub attributes : ValueMap

pub record MatchHints : Type 0 where
  pub driver_hint : Option Text
  pub modalias : Option Text
  pub compatible : List Text
  pub vendor : Option Text
  pub model : Option Text
  pub revision : Option Text
  pub serial_number : Option Text
  pub hardware_ids : Map Text Text
