-- ===== src/Mock/UartLoop.antt =====
-- The bytes that a simulated port has received are read in their order, none lost and none twice:
-- crates/lemnos-mock/src/uart.rs.
use lemnos.Prelude.Calls.{Holds, Holds-proceed, Holds_ok, ◌>>=◌}
use lemnos.Prelude.{
  Bool-cases, List, Map, Option, Option-cases, [], ap, arith, codes, drop, err, inl, inr, insert,
  length, lookup, lookup-insert_self, min, none, not, ok, refl, some, subst, suc, sym, text_ord,
  zero, ℕ, ◌++◌, ◌==◌, ◌∙◌, ◌∷◌, ◌≡◌,
}
use lemnos.Bus.Error.{BusError, BusResult}
use lemnos.Core.Ids.{DeviceId}
use lemnos.Core.Interface.{interface_ord}
use lemnos.Drivers.UsbStats.{number_ord}
use lemnos.Mock.Faults.{take}
use lemnos.Mock.Hardware.{
  Clock, MockUartPortState, MockWorld, begin, device_id, entry_of, finish_with, injected, require,
  run_call, take_injected_error, with_metadata,
}
use lemnos.Mock.Uart.{drain, mock_uart_read, set_port, uart_port, uart_read_body}
use lemnos.Sdk.Operation.{first_bytes}

first-rest : (n : ℕ) (xs : List ℕ) → first_bytes n xs ++ drop n xs ≡ xs
first-rest zero xs = refl
first-rest (suc n) [] = refl
first-rest (suc n) (x ∷ xs) = ap (λ r. x ∷ r) (first-rest n xs)

pub length-first_bytes : (n : ℕ) (xs : List ℕ) → length (first_bytes n xs) ≡ min n (length xs)
length-first_bytes zero xs = omega arith
length-first_bytes (suc n) [] = omega arith
length-first_bytes (suc n) (x ∷ xs) = omega (arith, length-first_bytes n xs)

-- The bytes that wait at the port of the session.
abbrev pub rx_of : Option MockUartPortState → List ℕ
rx_of none = []
rx_of (some port) = port.rx_buffer

abbrev pub received_by : Map DeviceId MockUartPortState → DeviceId → List ℕ
received_by ports id = rx_of (lookup id ports)

-- What a read of at most `n` bytes promises of the bytes it returns and the ports it leaves.
abbrev pub Drained :
    ℕ → DeviceId → Map DeviceId MockUartPortState → List ℕ → Map DeviceId MockUartPortState → Type 0
Drained n id before bytes after =
    (bytes ++ received_by after id ≡ received_by before id)
    × (length bytes ≡ min n (length (received_by before id)))

module _ (n : ℕ) (id : DeviceId) (ports : Map DeviceId MockUartPortState) where
  abbrev Before : MockWorld → Type 0
  Before w = (device_id w ≡ id) × (w.hardware.uart_ports ≡ ports)

  abbrev After : List ℕ → MockWorld → Type 0
  After bytes w = Drained n id ports bytes w.hardware.uart_ports

  injected-Before :
      (taken : Option BusError) (w : MockWorld)
      → Before w
      → Holds Before (λ _. Before) (injected taken w)
  unfolding injected
  injected-Before none w h = h
  injected-Before (some e) w h = h

  drain-After :
      (port : MockUartPortState) (w : MockWorld)
      → Before w
      → lookup id ports ≡ some port
      → Holds Before After (drain (min n (length port.rx_buffer)) port w)
  unfolding drain set_port
  drain-After port w h found =
      let count = min n (length port.rx_buffer) in
      let left : MockUartPortState = record port { rx_buffer = drop count port.rx_buffer } in
      let after : received_by (insert (device_id w) left w.hardware.uart_ports) id
          ≡ left.rx_buffer =
        rw h.0 (ap rx_of (lookup-insert_self id left w.hardware.uart_ports)) in
      let before : received_by ports id ≡ port.rx_buffer = ap rx_of found in
      let size = length-first_bytes count port.rx_buffer in
      (
        ap (λ r. first_bytes count port.rx_buffer ++ r) after
            ∙ (first-rest count port.rx_buffer ∙ sym before),
        subst (λ r. length (first_bytes count port.rx_buffer) ≡ min n (length r)) (sym before)
            (omega (arith, size)),
      )

  port-After :
      (w : MockWorld)
      → Before w
      → Holds Before After ((uart_port >>= λ port. drain (min n (length port.rx_buffer)) port) w)
  unfolding uart_port
  port-After w h = elim (Option-cases (lookup (device_id w) w.hardware.uart_ports)) [
    | inl x ↦ rw (entry_of, x) h
    | inr (port, s) ↦ rw (entry_of, s) (drain-After port w h (rw (h.0, h.1) at s))
  ]

  body-After : (w : MockWorld) → Before w → Holds Before After (uart_read_body n w)
  unfolding uart_read_body take_injected_error
  body-After w h =
      Holds-proceed Before (λ _. Before) After (take_injected_error (codes "uart.read") w)
        (λ _. uart_port >>= λ port. drain (min n (length port.rx_buffer)) port)
        (injected-Before (take (device_id w) (codes "uart.read") w.hardware.faults).0 _ h)
        (λ _ v k. port-After v k)

  finish-After :
      (clock : Clock) (out : MockWorld × BusResult (List ℕ))
      → Holds Before After out
      → Holds Before After (finish_with clock out)
  unfolding finish_with with_metadata
  finish-After clock (w, ok bytes) h = h
  finish-After clock (w, err e) h = h

  read-After :
      (clock : Clock) (w : MockWorld) → Before w → Holds Before After (mock_uart_read clock n w)
  unfolding mock_uart_read run_call begin with_metadata
  read-After clock w h = elim (Bool-cases (not (n == 0))) [
    | inr z ↦ rw (require, z) h
    | inl p ↦
        rw (require, p)
          (finish-After clock (uart_read_body n (begin clock w)) (body-After (begin clock w) h))
  ]

-- A read from a simulated port that succeeds returns the first of the bytes that waited, as many as
-- were asked for or as there were, and leaves the others in their order.
pub mock_uart_read-Drained :
    (clock : Clock) (n : ℕ) (w : MockWorld) {bytes : List ℕ}
    → (mock_uart_read clock n w).1 ≡ ok bytes
    → Drained n
        (device_id w)
        w.hardware.uart_ports
        bytes
        (mock_uart_read clock n w).0.hardware.uart_ports
mock_uart_read-Drained clock n w h =
    Holds_ok (Before n (device_id w) w.hardware.uart_ports)
      (After n (device_id w) w.hardware.uart_ports) (mock_uart_read clock n w) h
      (read-After n (device_id w) w.hardware.uart_ports clock w (refl, refl))
