-- ===== src/Mock/PwmSafety.antt =====
-- The channels of the mock keep a period above zero and a duty cycle within it:
-- crates/lemnos-mock/src/pwm.rs, behind the driver of crates/lemnos-drivers-pwm/src/bound.rs.
use lemnos.Prelude.Calls.{
  Holds, Keeps, Holds-proceed, Keeps-proceed, ◌>>=◌, ◌>>◌, done, Holds_state,
}
use lemnos.Prelude.{
  All, Bool, Bool-cases, Option-cases, Text, arith, codes, err, false, inl, inr, insert-All, leb,
  leb→le, lookup, lookup-All, not, refl, text_ord, true, ℕ, ◌<◌, ◌==◌, ◌≡◌, ◌≤◌,
}
use lemnos.Bus.Error.{BusError}
use lemnos.Bus.Session.{can_write}
use lemnos.Core.Interface.{interface_ord}
use lemnos.Core.Request.Kinds.{InteractionRequest, PwmConfiguration}
use lemnos.Drivers.Kept.{InSession}
use lemnos.Drivers.Pwm.{PwmBoundDevice, pwm_execute}
use lemnos.Drivers.PwmKept.{pwm_execute-Keeps}
use lemnos.Drivers.UsbStats.{number_ord}
use lemnos.Mock.Hardware.{
  Clock, MockCall, MockHardwareState, MockPwmChannelState, MockWorld, denied, device_id, entry_of,
  mock_bus, require, require_write, run_call, take_injected_error,
}
use lemnos.Mock.Pwm.{
  configure_channel, duty_channel, enable_channel, long_duty, mock_configure_pwm,
  mock_pwm_configuration, mock_pwm_session, mock_set_duty_cycle_ns, mock_set_enabled,
  mock_set_period_ns, on_channel, period_channel, set_channel, validate_pwm_configuration,
  zero_period,
}
use lemnos.Mock.Steps.{OnHardware, run_call-Holds, take_injected_error-Keeps}
use lemnos.Runtime.Requests.{request}

abbrev pub IsSafe : PwmConfiguration → Type 0
IsSafe c = (0 < c.period_ns) × (c.duty_cycle_ns ≤ c.period_ns)

abbrev pub AllSafe : MockHardwareState → Type 0
AllSafe hw = All (λ e. IsSafe (e.1).configuration) hw.pwm_channels

abbrev pub SafeWorld : MockWorld → Type 0
SafeWorld = OnHardware AllSafe

nonzero-pos : (n : ℕ) → not (n == 0) ≡ true → 0 < n
nonzero-pos n h = ground arith

set_channel-Holds :
    (channel : MockPwmChannelState) (c : PwmConfiguration) (w : MockWorld)
    → IsSafe c
    → SafeWorld w
    → Holds SafeWorld (λ _. SafeWorld) (set_channel channel c w)
unfolding set_channel
set_channel-Holds channel c w safe h = insert-All _ (device_id w) _ w.hardware.pwm_channels safe h

Found : MockPwmChannelState → MockWorld → Type 0
Found channel v = IsSafe channel.configuration × SafeWorld v

-- A channel that is found is safe.
channel-Holds :
    (w : MockWorld) → SafeWorld w → Holds SafeWorld Found (entry_of (λ hw. hw.pwm_channels) w)
unfolding Found
channel-Holds w h = elim (Option-cases (lookup (device_id w) w.hardware.pwm_channels)) [
  | inl n ↦ rw (entry_of, n) h
  | inr (a, s) ↦ rw (entry_of, s) (lookup-All _ (device_id w) w.hardware.pwm_channels h s, h)
]

-- The shape of every method's body: a fault, the channel, and what is done with it.
body-Keeps :
    {A : Type 0} (operation : Text) (next : MockPwmChannelState → MockCall A)
    → ((channel : MockPwmChannelState) (v : MockWorld)
        → IsSafe channel.configuration
        → SafeWorld v
        → Holds SafeWorld (λ _. SafeWorld) (next channel v))
    → Keeps SafeWorld (on_channel operation next)
unfolding Found on_channel
body-Keeps operation next keeps =
    Keeps-proceed SafeWorld (take_injected_error operation)
      (λ _. entry_of (λ hw. hw.pwm_channels) >>= next)
      (take_injected_error-Keeps AllSafe (λ hw faults s. s) operation)
      (λ _ w h.
        Holds-proceed SafeWorld Found (λ _. SafeWorld) (entry_of (λ hw. hw.pwm_channels) w) next
          (channel-Holds w h) (λ channel v f. keeps channel v f.0 f.1))

-- A test in front of a call, which gives it what was tested.
after_require-Holds :
    {A : Type 0} (test : Bool) (otherwise : MockCall (Unit {0})) (next : MockCall A)
    → ((w : MockWorld) → (e : BusError) × (otherwise w ≡ (w, err e)))
    → (test ≡ true → Keeps SafeWorld next)
    → Keeps SafeWorld (require test otherwise >> next)
after_require-Holds true otherwise next failing keeps w h = keeps refl w h
after_require-Holds false otherwise next failing keeps w h = rw (require, (failing w).1) h

enable-Keeps :
    (enabled : Bool) (operation : Text)
    → Keeps SafeWorld (on_channel operation (enable_channel enabled))
unfolding enable_channel
enable-Keeps enabled operation = body-Keeps operation (enable_channel enabled) (λ channel v s k.
    set_channel-Holds channel (record channel.configuration { enabled = enabled }) v s k)

period-Keeps :
    (period_ns : ℕ) (operation : Text)
    → 0 < period_ns
    → Keeps SafeWorld (on_channel operation (period_channel period_ns))
unfolding period_channel
period-Keeps period_ns operation pos =
    body-Keeps operation (period_channel period_ns) (λ channel v s k.
      let c : PwmConfiguration = record channel.configuration { period_ns = period_ns } in
      after_require-Holds (leb channel.configuration.duty_cycle_ns period_ns) long_duty
        (set_channel channel c) (λ _. (_, refl))
        (λ t u k'. set_channel-Holds channel c u (pos, leb→le _ _ t) k') v k)

duty-Keeps :
    (duty_ns : ℕ) (operation : Text) → Keeps SafeWorld (on_channel operation (duty_channel duty_ns))
unfolding duty_channel
duty-Keeps duty_ns operation = body-Keeps operation (duty_channel duty_ns) (λ channel v s k.
    let c : PwmConfiguration = record channel.configuration { duty_cycle_ns = duty_ns } in
    after_require-Holds (leb duty_ns channel.configuration.period_ns) long_duty
      (set_channel channel c) (λ _. (_, refl))
      (λ t u k'. set_channel-Holds channel c u (s.0, leb→le _ _ t) k') v k)

configure-Keeps :
    (c : PwmConfiguration) (operation : Text)
    → IsSafe c
    → Keeps SafeWorld (on_channel operation (configure_channel c))
unfolding configure_channel
configure-Keeps c operation safe =
    body-Keeps operation (configure_channel c)
      (λ channel v s k. set_channel-Holds channel c v safe k)

run-Keeps :
    (clock : Clock) (operation : Text) (next : MockPwmChannelState → MockCall (Unit {0}))
    → Keeps SafeWorld (on_channel operation next)
    → Keeps SafeWorld (run_call clock (on_channel operation next))
run-Keeps clock operation next keeps =
    run_call-Holds AllSafe clock (on_channel operation next) (λ _. AllSafe) keeps

writable-Keeps :
    {A : Type 0} (operation reason : Text) (next : MockCall A)
    → Keeps SafeWorld next
    → Keeps SafeWorld (require_write operation reason >> next)
writable-Keeps operation reason next keeps w h =
    after_require-Holds (can_write w.session.metadata.access) (denied operation reason) next
      (λ _. (_, refl)) (λ _. keeps) w h

Checked : PwmConfiguration → Unit {0} → MockWorld → Type 0
Checked c u v = IsSafe c × SafeWorld v

validate-Holds :
    (c : PwmConfiguration) (w : MockWorld)
    → SafeWorld w
    → Holds SafeWorld (Checked c) (validate_pwm_configuration c w)
unfolding validate_pwm_configuration Checked
validate-Holds c w h = elim (Bool-cases (not (c.period_ns == 0))) [
  | inr z ↦ rw (require, z) h
  | inl p ↦ elim (Bool-cases (leb c.duty_cycle_ns c.period_ns)) [
    | inr z ↦ rw (require, p, z) h
    | inl d ↦ rw (require, p, d) ((nonzero-pos _ p, leb→le _ _ d), h)
  ]
]

configured : Clock → PwmConfiguration → MockCall (Unit {0})
configured clock c = run_call clock (on_channel (codes "pwm.configure") (configure_channel c))

checked-Keeps :
    (clock : Clock) (c : PwmConfiguration)
    → Keeps SafeWorld (validate_pwm_configuration c >> configured clock c)
unfolding Checked configured
checked-Keeps clock c w h =
    Holds-proceed SafeWorld (Checked c) (λ _. SafeWorld) (validate_pwm_configuration c w)
      (λ _. configured clock c) (validate-Holds c w h)
      (λ _ v f.
        run-Keeps clock (codes "pwm.configure") (configure_channel c)
          (configure-Keeps c (codes "pwm.configure") f.0) v f.1)

-- The five methods of the session.
pub mock_set_enabled-Keeps :
    (clock : Clock) (enabled : Bool) → Keeps SafeWorld (mock_set_enabled clock enabled)
unfolding mock_set_enabled
mock_set_enabled-Keeps clock enabled =
    writable-Keeps (codes "pwm.enable") _
      (run_call clock (on_channel (codes "pwm.enable") (enable_channel enabled)))
      (run-Keeps clock (codes "pwm.enable") (enable_channel enabled)
        (enable-Keeps enabled (codes "pwm.enable")))

pub mock_set_period_ns-Keeps :
    (clock : Clock) (period_ns : ℕ) → Keeps SafeWorld (mock_set_period_ns clock period_ns)
unfolding mock_set_period_ns
mock_set_period_ns-Keeps clock period_ns =
    let run : MockCall (Unit {0}) =
      run_call clock (on_channel (codes "pwm.set_period") (period_channel period_ns)) in
    writable-Keeps (codes "pwm.set_period") _ (require (not (period_ns == 0)) zero_period >> run) (
      after_require-Holds (not (period_ns == 0)) zero_period run (λ _. (_, refl))
        (λ t.
          run-Keeps clock (codes "pwm.set_period") (period_channel period_ns)
            (period-Keeps period_ns (codes "pwm.set_period") (nonzero-pos period_ns t))))

pub mock_set_duty_cycle_ns-Keeps :
    (clock : Clock) (duty_ns : ℕ) → Keeps SafeWorld (mock_set_duty_cycle_ns clock duty_ns)
unfolding mock_set_duty_cycle_ns
mock_set_duty_cycle_ns-Keeps clock duty_ns =
    writable-Keeps (codes "pwm.set_duty_cycle") _
      (run_call clock (on_channel (codes "pwm.set_duty_cycle") (duty_channel duty_ns)))
      (run-Keeps clock (codes "pwm.set_duty_cycle") (duty_channel duty_ns)
        (duty-Keeps duty_ns (codes "pwm.set_duty_cycle")))

pub mock_configure_pwm-Keeps :
    (clock : Clock) (c : PwmConfiguration) → Keeps SafeWorld (mock_configure_pwm clock c)
unfolding mock_configure_pwm configured
mock_configure_pwm-Keeps clock c =
    writable-Keeps (codes "pwm.configure") _ (validate_pwm_configuration c >> configured clock c)
      (checked-Keeps clock c)

pub mock_pwm_configuration-Keeps : Keeps SafeWorld mock_pwm_configuration
unfolding mock_pwm_configuration
mock_pwm_configuration-Keeps =
    body-Keeps (codes "pwm.get_configuration") (λ channel. done channel.configuration)
      (λ channel v s k. k)

-- Whatever requests a PWM device of the mock gets, valid or not, with or without queued errors and
-- through a session of any access: if each channel of the hardware had a period above zero and a
-- duty cycle within it before the request, each has one after it.
pub pwm_execute-AllSafe :
    (clock : Clock) (request : InteractionRequest) (b : PwmBoundDevice MockWorld)
    → AllSafe b.session.hardware
    → AllSafe (pwm_execute (mock_pwm_session clock) request b).0.session.hardware
unfolding mock_pwm_session
pwm_execute-AllSafe clock request b h =
    Holds_state (InSession (mock_bus clock) SafeWorld)
      (pwm_execute (mock_pwm_session clock) request b)
      (pwm_execute-Keeps (mock_pwm_session clock) SafeWorld (mock_set_enabled-Keeps clock)
        (mock_set_period_ns-Keeps clock) (mock_set_duty_cycle_ns-Keeps clock)
        (mock_configure_pwm-Keeps clock) mock_pwm_configuration-Keeps request b h)
