-- ===== src/Mock/GpioLoop.antt =====
-- A level that was written to a line of the mock is read back, through every session of the line:
-- crates/lemnos-mock/src/gpio.rs behind crates/lemnos-drivers-gpio/src/bound.rs.
use lemnos.Prelude.Calls.{Holds, Holds-proceed, done, ◌>>=◌, ◌>>◌}
use lemnos.Prelude.{
  Bool, Option, Option-cases, [], ap, codes, err, false, inl, inr, is_ok, lookup,
  lookup-insert_self, none, ok, refl, some, subst, sym, text_ord, true, true≢false, ◌∙◌, ◌≡◌,
}
use lemnos.Bus.Error.{BusError, BusResult}
use lemnos.Core.Ids.{DeviceId}
use lemnos.Core.Interface.{interface_ord}
use lemnos.Core.Request.Kinds.{GpioLevel, GpioRequest}
use lemnos.Core.Request.Responses.{GpioResponse}
use lemnos.Drivers.First.{first-ok, first-session, first-value}
use lemnos.Drivers.Gpio.{GpioBoundDevice, gpio_request}
use lemnos.Drivers.UsbStats.{number_ord}
use lemnos.Mock.Faults.{take}
use lemnos.Mock.Gpio.{
  gpio_line, is_output, mock_gpio_session, mock_read_level, mock_write_level, read_body, set_line,
  with_level, write_body,
}
use lemnos.Mock.Hardware.{
  Clock, MockGpioLineState, MockHardwareState, MockWorld, begin, denied, device_id, entry_of,
  finish_with, injected, mock_bus, require, run_call, take_injected_error, with_metadata,
}
use lemnos.Mock.Queues.{queue_of, take-Taken}

module _ (id : DeviceId) where
  -- The world has a session of the device.
  abbrev OfDevice : MockWorld → Type 0
  OfDevice w = device_id w ≡ id

  abbrev HasLevel : GpioLevel → MockHardwareState → Type 0
  HasLevel level hw =
      (line : MockGpioLineState) × (lookup id hw.gpio_lines ≡ some line) × (line.level ≡ level)

  abbrev Written : GpioLevel → Unit {0} → MockWorld → Type 0
  Written level u w = HasLevel level w.hardware

  injected-OfDevice :
      (taken : Option BusError) (w : MockWorld)
      → OfDevice w
      → Holds OfDevice (λ _. OfDevice) (injected taken w)
  unfolding injected
  injected-OfDevice none w h = h
  injected-OfDevice (some e) w h = h

  set_line-Written :
      (test : Bool) (level : GpioLevel) (line : MockGpioLineState) (w : MockWorld)
      → OfDevice w
      → Holds OfDevice (Written level) (
          (require test (denied (codes "gpio.write") (codes "line is not configured for output"))
              >> set_line (with_level level line))
            w)
  unfolding set_line
  set_line-Written true level line w h =
      (with_level level line, rw h (lookup-insert_self id _ w.hardware.gpio_lines), refl)
  set_line-Written false level line w h = h

  after_line-Written :
      (level : GpioLevel) (w : MockWorld)
      → OfDevice w
      → Holds OfDevice (Written level) (
          (gpio_line >>= λ line.
          require
            (is_output line.configuration.direction)
            (denied (codes "gpio.write") (codes "line is not configured for output"))
          >> set_line (with_level level line))
            w)
  after_line-Written level w h = elim (Option-cases (lookup (device_id w) w.hardware.gpio_lines)) [
    | inl n ↦ rw (entry_of, n) h
    | inr (line, s) ↦
        rw (entry_of, s) (set_line-Written (is_output line.configuration.direction) level line w h)
  ]

  write_body-Written :
      (level : GpioLevel) (w : MockWorld)
      → OfDevice w
      → Holds OfDevice (Written level) (write_body level w)
  unfolding write_body take_injected_error
  write_body-Written level w h =
      Holds-proceed OfDevice (λ _. OfDevice) (Written level)
        (take_injected_error (codes "gpio.write") w) _
        (injected-OfDevice (take (device_id w) (codes "gpio.write") w.hardware.faults).0 _ h)
        (λ _ v k. after_line-Written level v k)

  finish-Written :
      (clock : Clock) (level : GpioLevel) (out : MockWorld × BusResult (Unit {0}))
      → Holds OfDevice (Written level) out
      → is_ok out.1 ≡ true
      → HasLevel level (finish_with clock out).0.hardware
  unfolding finish_with with_metadata
  finish-Written clock level (w, ok u) h k = h
  finish-Written clock level (w, err e) h k = absurd (true≢false (sym k))

  mock_write_level-HasLevel :
      (clock : Clock) (level : GpioLevel) (w : MockWorld)
      → OfDevice w
      → is_ok (mock_write_level clock level w).1 ≡ true
      → HasLevel level (mock_write_level clock level w).0.hardware
  unfolding mock_write_level run_call begin with_metadata
  mock_write_level-HasLevel clock level w h k =
      finish-Written clock level (write_body level (begin clock w))
        (write_body-Written level (begin clock w) h) k

  line-read :
      (level : GpioLevel) (w : MockWorld)
      → OfDevice w
      → HasLevel level w.hardware
      → ((gpio_line >>= λ line. done line.level) w).1 ≡ ok level
  line-read level w h (line, found, e) = rw (entry_of, h, found) (ap ok e)

  injected-read :
      (taken : Option BusError) (level : GpioLevel) (w : MockWorld)
      → taken ≡ none
      → OfDevice w
      → HasLevel level w.hardware
      → ((injected taken >> (gpio_line >>= λ line. done line.level)) w).1 ≡ ok level
  unfolding injected
  injected-read none level w quiet h held = line-read level w h held
  injected-read (some e) level w quiet h held = cc

  -- A read without a queued error returns the level of the line.
  read_body-eq :
      (level : GpioLevel) (w : MockWorld)
      → OfDevice w
      → HasLevel level w.hardware
      → queue_of w.hardware.faults id (codes "gpio.read") ≡ []
      → (read_body w).1 ≡ ok level
  unfolding read_body take_injected_error
  read_body-eq level w h held empty =
      let (taken, faults) = take (device_id w) (codes "gpio.read") w.hardware.faults in
      injected-read taken level (record w { hardware = record w.hardware { faults = faults } })
        ((take-Taken (device_id w) (codes "gpio.read") w.hardware.faults).0 ∙ rw (h, empty) refl) h
        held

  mock_read_level-eq :
      (clock : Clock) (level : GpioLevel) (w : MockWorld)
      → OfDevice w
      → HasLevel level w.hardware
      → queue_of w.hardware.faults id (codes "gpio.read") ≡ []
      → (mock_read_level clock w).1 ≡ ok level
  unfolding mock_read_level run_call begin finish_with with_metadata
  mock_read_level-eq clock level w h held empty = read_body-eq level (begin clock w) h held empty

-- A write through one session of a simulated line that succeeds is what a read through any session
-- of the line returns, the same or another, as long as no error is queued for that read.
pub gpio_request-loop :
    (clock : Clock) (level : GpioLevel) (writer reader : GpioBoundDevice MockWorld)
    → is_ok (gpio_request (mock_gpio_session clock) (GpioRequest.write level) writer).1 ≡ true
    → reader.session.hardware
      ≡ (gpio_request (mock_gpio_session clock) (GpioRequest.write level) writer).0.session.hardware
    → device_id reader.session ≡ device_id writer.session
    → queue_of reader.session.hardware.faults (device_id writer.session) (codes "gpio.read") ≡ []
    → (gpio_request (mock_gpio_session clock) GpioRequest.read reader).1
      ≡ ok (GpioResponse.level level)
unfolding gpio_request mock_gpio_session
gpio_request-loop clock level writer reader h same_hardware same_id empty =
    let bus = mock_bus clock in
    let id = device_id writer.session in
    let written = mock_write_level clock level in
    let wrote = first-ok bus written _ writer h in
    let left = first-session bus written _ writer (λ _ c. refl) in
    let held : HasLevel id level reader.session.hardware =
      subst (HasLevel id level) (sym same_hardware) (
        subst (λ w. HasLevel id level w.hardware) (sym left)
          (mock_write_level-HasLevel id clock level writer.session refl wrote)) in
    ap (λ out. out.1)
      (first-value bus (mock_read_level clock) _ reader level
        (mock_read_level-eq id clock level reader.session same_id held empty))
