-- ===== src/Tests/Usb.antt =====
-- The theorem on USB devices at a concrete input.
use lemnos.Prelude.{
  List, [], codes, ensure, lookup, none, not, ok, refl, some, text_ord, ◌==◌, ◌∷◌, ◌≡◌,
}
use lemnos.Bus.Error.{BusError}
use lemnos.Bus.Session.{SessionAccess, SessionState}
use lemnos.Bus.Traits.{UsbSession}
use lemnos.Core.Interface.{interface_ord}
use lemnos.Core.Request.Kinds.{UsbRequest}
use lemnos.Drivers.Usb.{UsbBoundDevice, hex_u16, usb_request}
use lemnos.Drivers.UsbLaws.{claim_in, usb_requests, usb_requests-claim_in}
use lemnos.Drivers.UsbStats.{number_ord, usb_stats}
use lemnos.Sdk.Operation.{hex}
use lemnos.Tests.Samples.{port}

-- A session that refuses to claim interface 0.
abbrev usb_session : UsbSession (Unit {0})
usb_session = record {
  bus = record {
    device = λ _. port;
    metadata = λ _. record {
      backend_name = codes "test";
      access = SessionAccess.exclusive_controller;
      state = SessionState.idle;
      opened_at = none;
      last_active_at = none;
    };
    close = λ s. (s, ok tt);
  };
  control_transfer = λ transfer s. (s, ok []);
  bulk_read = λ endpoint n timeout s. (s, ok []);
  bulk_write = λ endpoint bytes timeout s. (s, ok tt);
  interrupt_read = λ endpoint n timeout s. (s, ok []);
  interrupt_write = λ transfer s. (s, ok tt);
  claim_interface =
      λ number setting s. (s, ensure (not (number == 0)) (BusError.disconnected port.id));
  release_interface = λ number s. (s, ok tt);
}

abbrev usb_bound : UsbBoundDevice (Unit {0})
usb_bound = record { driver_id = codes "usb"; session = tt; stats = usb_stats }

abbrev requests : List UsbRequest
requests =
    UsbRequest.claim_interface 0 none
    ∷ UsbRequest.claim_interface 1 none
    ∷ UsbRequest.claim_interface 2 (some 1)
    ∷ UsbRequest.release_interface 1
    ∷ []

usb_requests-claim_in_example :
    lookup 2 (usb_requests usb_session requests usb_bound).0.stats.claimed_interfaces
    ≡ claim_in 2 (usb_requests usb_session requests usb_bound).1 none
usb_requests-claim_in_example = usb_requests-claim_in usb_session 2 requests usb_bound

-- Interface 1 was released and interface 0 never claimed.
claims : (usb_requests usb_session requests usb_bound).0.stats.claimed_interfaces ≡ (2, some 1) ∷ []
unfolding usb_request
claims = refl

-- An identifier of four hexadecimal digits.
printed : hex_u16 3085 ≡ codes "0c0d"
unfolding hex
printed = refl
