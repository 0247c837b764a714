-- ===== src/Drivers/I2cLaws.antt =====
-- Transactions on an I2C device, and what of its requests is counted:
-- crates/lemnos-drivers-i2c/src/bound.rs.
use lemnos.Prelude.Calls.{Holds, Holds-ensure, Holds-proceed, Holds_ok, ◌>>◌}
use lemnos.Prelude.{
  List, Result, [], add_u64, arith, err, inl, inr, is_ok, length, length-append, ok, refl, sum_by,
  text_ord, true, ℕ, ◌%◌, ◌++◌, ◌+◌, ◌==◌, ◌^◌, ◌∷◌, ◌≡◌, ◌⊎◌,
}
use lemnos.Bus.Traits.{GpioSession, I2cSession}
use lemnos.Core.Interface.{interface_ord}
use lemnos.Core.Request.Kinds.{I2cOperation, I2cRequest, InteractionRequest, StandardRequest}
use lemnos.Core.Request.Responses.{I2cResponse, I2cTransactionResult, StandardResponse}
use lemnos.Drivers.Counted.{
  Counted, Counts, HandledCounts, Unchanged, answered-Counts, execute_standard-Counts,
  gpio_handle-Counts, mapped-Unchanged, request-Counts,
}
use lemnos.Drivers.Gpio.{GpioBoundDevice, gpio_execute, gpio_handle}
use lemnos.Drivers.I2c.{
  I2cBoundDevice, I2cStats, Transacted, i2c_execute, i2c_handle, i2c_request, mismatch,
  record_transaction, transact, transact_one,
}
use lemnos.Runtime.Requests.{request}
use lemnos.Sdk.Error.{DriverError}
use lemnos.Sdk.Session.{DeviceCall, SessionDevice, on_session}

-- The bytes that an operation writes.
abbrev pub written_by : I2cOperation → ℕ
written_by (I2cOperation.read n) = 0
written_by (I2cOperation.write bytes) = length bytes

-- The loop over as many results as operations returns one result for each and adds up what was
-- written.
transact-results :
    (ops : List I2cOperation) (raws : List (List ℕ)) (t : Transacted)
    → length raws ≡ length ops
    → (length (transact ops raws t).results ≡ length t.results + length ops)
      × ((transact ops raws t).bytes_written ≡ t.bytes_written + sum_by written_by ops)
unfolding transact transact_one
transact-results [] raws t h = (omega arith, omega arith)
transact-results (op ∷ ops) [] t h = absurd (omega arith)
transact-results (I2cOperation.read n ∷ ops) (raw ∷ raws) t h =
    let step = record t {
      results = t.results ++ I2cTransactionResult.read raw ∷ [];
      bytes_read = t.bytes_read + length raw;
    } in
    let (results, written) = transact-results ops raws step (omega arith) in
    let one = length-append t.results (I2cTransactionResult.read raw ∷ []) in
    (omega (arith, results, one), omega (arith, written))
transact-results (I2cOperation.write bytes ∷ ops) (raw ∷ raws) t h =
    let step = record t {
      results = t.results ++ I2cTransactionResult.write (length bytes % 2 ^ 32) ∷ [];
      bytes_written = t.bytes_written + length bytes;
    } in
    let (results, written) = transact-results ops raws step (omega arith) in
    let one = length-append t.results (I2cTransactionResult.write (length bytes % 2 ^ 32) ∷ []) in
    (omega (arith, results, one), omega (arith, written))

module _ {S : Type 0} (session : I2cSession S) (stats : I2cStats) where
  guarded-Counts :
      {R : Type 0} (results operations : ℕ) (next : DeviceCall S I2cStats R)
      → Counts stats next
      → Counts stats (mismatch session results operations >> next)
  unfolding mismatch
  guarded-Counts results operations next counts b h =
      Holds-ensure (λ c. c.stats ≡ stats) (λ _ _. Unit {0}) (results == operations) _ next b h
        (λ _. counts b h)

  i2c_request-Counts : (request : I2cRequest) → Counts stats (i2c_request session request)
  unfolding i2c_request
  i2c_request-Counts (I2cRequest.read n) =
      request-Counts stats session.bus (session.read n) _ (λ _ b h. tt)
  i2c_request-Counts (I2cRequest.write bytes) =
      request-Counts stats session.bus (session.write bytes) _ (λ _ b h. tt)
  i2c_request-Counts (I2cRequest.write_read bytes n) =
      request-Counts stats session.bus (session.write_read bytes n) _ (λ _ b h. tt)
  i2c_request-Counts (I2cRequest.transaction ops) =
      request-Counts stats session.bus (session.transaction ops) _
        (λ raws. guarded-Counts (length raws) (length ops) _ (λ b h. tt))

  i2c_handle-Counts :
      (request : InteractionRequest) → HandledCounts stats (i2c_handle session request)
  unfolding i2c_handle
  i2c_handle-Counts (InteractionRequest.standard (StandardRequest.i2c request)) =
      answered-Counts stats (i2c_request session request) StandardResponse.i2c
        (i2c_request-Counts request)
  i2c_handle-Counts (InteractionRequest.standard (StandardRequest.gpio _)) = tt
  i2c_handle-Counts (InteractionRequest.standard (StandardRequest.pwm _)) = tt
  i2c_handle-Counts (InteractionRequest.standard (StandardRequest.spi _)) = tt
  i2c_handle-Counts (InteractionRequest.standard (StandardRequest.uart _)) = tt
  i2c_handle-Counts (InteractionRequest.standard (StandardRequest.usb _)) = tt
  i2c_handle-Counts (InteractionRequest.custom _) = tt

-- The request failed and left the statistics as they were, or it did not fail.
abbrev pub FailsUncounted :
    {S T A : Type 0} → SessionDevice S T → SessionDevice S T × Result DriverError A → Type 0
FailsUncounted b out = (is_ok out.1 ≡ true) ⊎ (out.0.stats ≡ b.stats)

Counted-cases :
    {S T A : Type 0} (b : SessionDevice S T) (out : SessionDevice S T × Result DriverError A)
    → Counted b.stats out
    → FailsUncounted b out
Counted-cases b (c, ok a) h = inl refl
Counted-cases b (c, err e) h = inr h

-- A request to an I2C device that fails, for whatever reason and after whatever the session did, is
-- not counted in the statistics of the device.
pub i2c_execute-FailsUncounted :
    {S : Type 0} (session : I2cSession S) (request : InteractionRequest) (b : I2cBoundDevice S)
    → FailsUncounted b (i2c_execute session request b)
unfolding i2c_execute
i2c_execute-FailsUncounted session request b = Counted-cases b (i2c_execute session request b) (
    execute_standard-Counts b.stats session.bus (i2c_handle session) request
      (i2c_handle-Counts session b.stats request) b refl)

-- The same for a GPIO line.
pub gpio_execute-FailsUncounted :
    {S : Type 0} (session : GpioSession S) (request : InteractionRequest) (b : GpioBoundDevice S)
    → FailsUncounted b (gpio_execute session request b)
unfolding gpio_execute
gpio_execute-FailsUncounted session request b = Counted-cases b (gpio_execute session request b) (
    execute_standard-Counts b.stats session.bus (gpio_handle session) request
      (gpio_handle-Counts session b.stats request) b refl)

-- What a transaction that succeeds returns and counts.
abbrev pub Transaction :
    {S : Type 0} → List I2cOperation → I2cStats → I2cResponse → SessionDevice S I2cStats → Type 0
Transaction ops before (I2cResponse.transaction results) b =
    (length results ≡ length ops)
    × (b.stats.transaction_ops ≡ add_u64 before.transaction_ops 1)
    × (b.stats.bytes_written ≡ add_u64 before.bytes_written (sum_by written_by ops))
Transaction ops before _ b = ⊥

eq-of_test : (m n : ℕ) → (m == n) ≡ true → m ≡ n
eq-of_test m n h = ground arith

transaction-Holds :
    {S : Type 0} (session : I2cSession S) (ops : List I2cOperation) (b : I2cBoundDevice S)
    → Holds
        (λ c. c.stats ≡ b.stats)
        (Transaction ops b.stats)
        (i2c_request session (I2cRequest.transaction ops) b)
unfolding i2c_request on_session mismatch record_transaction
transaction-Holds session ops b =
    let begun : Transacted = record { results = []; bytes_written = 0; bytes_read = 0 } in
    Holds-proceed (λ c. c.stats ≡ b.stats) (Unchanged b.stats) (Transaction ops b.stats)
      (on_session session.bus (session.transaction ops) b) _
      (mapped-Unchanged b.stats b (session.transaction ops b.session) _ refl)
      (λ raws c h.
        Holds-ensure (λ d. d.stats ≡ b.stats) (Transaction ops b.stats) (length raws == length ops)
          _ _ c h
          (λ t.
            let (results, written) =
              transact-results ops raws begun (eq-of_test (length raws) (length ops) t) in
            let all : length (transact ops raws begun).results ≡ length ops =
              omega (arith, results) in
            let sum : (transact ops raws begun).bytes_written ≡ sum_by written_by ops =
              omega (arith, written) in
            (all, rw h refl, rw (h, sum) refl)))

-- A transaction that an I2C device returns without an error has one result for each operation, is
-- counted once, and adds the bytes of its write operations to those written.
pub i2c_request-Transaction :
    {S : Type 0} (session : I2cSession S) (ops : List I2cOperation) (b : I2cBoundDevice S)
    {response : I2cResponse}
    → (i2c_request session (I2cRequest.transaction ops) b).1 ≡ ok response
    → Transaction ops b.stats response (i2c_request session (I2cRequest.transaction ops) b).0
i2c_request-Transaction session ops b h =
    Holds_ok (λ c. c.stats ≡ b.stats) (Transaction ops b.stats)
      (i2c_request session (I2cRequest.transaction ops) b) h (transaction-Holds session ops b)
