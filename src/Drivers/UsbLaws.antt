-- ===== src/Drivers/UsbLaws.antt =====
-- Which interfaces of a USB device count as claimed: crates/lemnos-drivers-usb/src/{bound,stats}.rs.
use lemnos.Prelude.Calls.{Holds, Holds-proceed, ◌>>=◌}
use lemnos.Prelude.{
  List, Option, [], ap, err, if◌then◌else◌, lookup, lookup-insert, lookup-remove, map_err, none, ok,
  refl, same, some, text_ord, ℕ, ◌∙◌, ◌∷◌, ◌≡◌,
}
use lemnos.Bus.Error.{BusError, BusResult}
use lemnos.Bus.Traits.{BusCall, BusSession, UsbSession}
use lemnos.Core.Interface.{interface_ord}
use lemnos.Core.Request.Kinds.{UsbControlTransfer, UsbDirection, UsbRequest}
use lemnos.Core.Request.Responses.{UsbResponse}
use lemnos.Drivers.Usb.{UsbBoundDevice, record_control, usb_request}
use lemnos.Drivers.UsbStats.{
  UsbStats, number_ord, record_bulk_read, record_bulk_write, record_claim, record_control_read,
  record_control_write, record_interrupt_read, record_interrupt_write, record_release,
}
use lemnos.Sdk.Error.{DriverError, DriverResult}
use lemnos.Sdk.Session.{DeviceCall, on_session}

module _ {S : Type 0} (session : UsbSession S) where
  -- Requests one after the other, with what each returned.
  abbrev pub usb_requests :
      List UsbRequest
      → UsbBoundDevice S
      → UsbBoundDevice S × List (UsbRequest × DriverResult UsbResponse)
  usb_requests [] b = (b, [])
  usb_requests (r ∷ rs) b =
      let (next, answer) = usb_request session r b in
      let (last, answers) = usb_requests rs next in (last, (r, answer) ∷ answers)

-- The setting under which an interface is claimed behind one answered request.
abbrev pub claim_after : ℕ → UsbRequest → Option (Option ℕ) → Option (Option ℕ)
claim_after n (UsbRequest.claim_interface number setting) before =
    if same n number then some setting else before
claim_after n (UsbRequest.release_interface number) before = if same n number then none else before
claim_after n _ before = before

-- Behind all of them: a request that failed changes nothing.
abbrev pub claim_in :
    ℕ → List (UsbRequest × DriverResult UsbResponse) → Option (Option ℕ) → Option (Option ℕ)
claim_in n [] before = before
claim_in n ((r, ok _) ∷ trace) before = claim_in n trace (claim_after n r before)
claim_in n ((r, err _) ∷ trace) before = claim_in n trace before

record_control-claimed :
    (transfer : UsbControlTransfer) (bytes : List ℕ) (d : UsbDirection) (s : UsbStats)
    → (record_control transfer bytes d s).claimed_interfaces ≡ s.claimed_interfaces
unfolding record_control record_control_read record_control_write
record_control-claimed transfer bytes UsbDirection.inward s = refl
record_control-claimed transfer bytes UsbDirection.outward s = refl

module _ {S : Type 0} (n : ℕ) (before : Option (Option ℕ)) where
  -- The interface is claimed as before.
  abbrev Same : UsbBoundDevice S → Type 0
  Same b = lookup n b.stats.claimed_interfaces ≡ before

  abbrev ClaimedBy : UsbRequest → UsbResponse → UsbBoundDevice S → Type 0
  ClaimedBy r _ b = lookup n b.stats.claimed_interfaces ≡ claim_after n r before

  mapped-Same :
      {A : Type 0} (b : UsbBoundDevice S) (out : S × BusResult A) (f : BusError → DriverError)
      → Same b
      → Holds Same (λ _. Same) (record b { session = out.0 }, map_err f out.1)
  mapped-Same b (s, ok a) f h = h
  mapped-Same b (s, err e) f h = h

  after_call :
      {A : Type 0} (bus : BusSession S) (r : UsbRequest) (call : BusCall S A)
      (next : A → DeviceCall S UsbStats UsbResponse) (b : UsbBoundDevice S)
      → Same b
      → ((a : A) (c : UsbBoundDevice S) → Same c → Holds Same (ClaimedBy r) (next a c))
      → Holds Same (ClaimedBy r) ((on_session bus call >>= next) b)
  unfolding on_session
  after_call bus r call next b h k =
      Holds-proceed Same (λ _. Same) (ClaimedBy r) (on_session bus call b) next
        (mapped-Same b (call b.session) _ h) k

  usb_request-ClaimedBy :
      (session : UsbSession S) (r : UsbRequest) (b : UsbBoundDevice S)
      → Same b
      → Holds Same (ClaimedBy r) (usb_request session r b)
  unfolding usb_request record_bulk_read record_bulk_write record_interrupt_read
      record_interrupt_write record_claim record_release
  usb_request-ClaimedBy session (UsbRequest.control t) b h =
      after_call session.bus (UsbRequest.control t) (session.control_transfer t) _ b h
        (λ bytes c k. ap (lookup n) (record_control-claimed t bytes t.setup.direction c.stats) ∙ k)
  usb_request-ClaimedBy session (UsbRequest.bulk_read e l t) b h =
      after_call session.bus (UsbRequest.bulk_read e l t) (session.bulk_read e l t) _ b h
        (λ _ c k. k)
  usb_request-ClaimedBy session (UsbRequest.bulk_write e l t) b h =
      after_call session.bus (UsbRequest.bulk_write e l t) (session.bulk_write e l t) _ b h
        (λ _ c k. k)
  usb_request-ClaimedBy session (UsbRequest.interrupt_read e l t) b h =
      after_call session.bus (UsbRequest.interrupt_read e l t) (session.interrupt_read e l t) _ b h
        (λ _ c k. k)
  usb_request-ClaimedBy session (UsbRequest.interrupt_write t) b h =
      after_call session.bus (UsbRequest.interrupt_write t) (session.interrupt_write t) _ b h
        (λ _ c k. k)
  usb_request-ClaimedBy session (UsbRequest.claim_interface i a) b h =
      after_call session.bus (UsbRequest.claim_interface i a) (session.claim_interface i a) _ b h
        (λ _ c k. lookup-insert i n a c.stats.claimed_interfaces ∙ rw k refl)
  usb_request-ClaimedBy session (UsbRequest.release_interface i) b h =
      after_call session.bus (UsbRequest.release_interface i) (session.release_interface i) _ b h
        (λ _ c k. lookup-remove i n c.stats.claimed_interfaces ∙ rw k refl)

module _ {S : Type 0} (session : UsbSession S) where
  one_request :
      (n : ℕ) (r : UsbRequest) (before : Option (Option ℕ))
      (out : UsbBoundDevice S × DriverResult UsbResponse)
      (rest : List (UsbRequest × DriverResult UsbResponse))
      → Holds (Same n before) (ClaimedBy n before r) out
      → claim_in n rest (lookup n out.0.stats.claimed_interfaces)
        ≡ claim_in n ((r, out.1) ∷ rest) before
  one_request n r before (c, ok a) rest h = ap (claim_in n rest) h
  one_request n r before (c, err e) rest h = ap (claim_in n rest) h

  -- After any requests to a USB device, an interface is recorded as claimed under a setting exactly
  -- if the last request on it that succeeded claimed it under that setting, or if there was none and
  -- it was so before.
  pub usb_requests-claim_in :
      (n : ℕ) (requests : List UsbRequest) (b : UsbBoundDevice S)
      → lookup n (usb_requests session requests b).0.stats.claimed_interfaces
        ≡ claim_in n (usb_requests session requests b).1 (lookup n b.stats.claimed_interfaces)
  usb_requests-claim_in n [] b = refl
  usb_requests-claim_in n (r ∷ rs) b =
      let out = usb_request session r b in
      let before = lookup n b.stats.claimed_interfaces in
      usb_requests-claim_in n rs out.0
      ∙ one_request n r before out (usb_requests session rs out.0).1
          (usb_request-ClaimedBy n before session r b refl)
