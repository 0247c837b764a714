-- ===== src/Lib.antt =====
-- Lemnos discovers hardware, matches it to drivers and runs requests on it. This library models
-- the parts that decide: the data model, the manifests, the registry, discovery, the synchronous
-- runtime, the generic drivers and the simulated hardware. Paths are from the repository's root.
--
-- A runtime (crates/lemnos-runtime) runs probes, which yield an inventory (crates/lemnos-discovery)
-- of device descriptors (crates/lemnos-core). To bind a device it asks the registry
-- (crates/lemnos-registry), which ranks the drivers (crates/lemnos-driver-sdk) by how their manifests
-- (crates/lemnos-driver-manifest) match the descriptor. Requests go to the bound device. States and
-- changes of the inventory become events, which the runtime retains and subscribers poll. A bound
-- device talks to its hardware through a session (crates/lemnos-bus), which the generic drivers
-- (crates/lemnos-drivers-*) wrap and the mock (crates/lemnos-mock) implements.
--
-- Prelude    shared helpers: tests, lists, results, maps in the order of their keys, sorting
-- Core       crates/lemnos-core/src: `validate_identifier`, `validate_descriptor`, `validate_for`
-- Manifest   crates/lemnos-driver-manifest/src: `rule_matches`, `match_device`, `validate_manifest`
-- Bus        crates/lemnos-bus/src: `SessionMetadata`, the traits of sessions as records
-- Sdk        crates/lemnos-driver-sdk/src: `Driver`, `BoundDevice`, and the parts that the generic
--            drivers share: `execute_standard`, `bind_session`, `bounded_bytes_output`
-- Registry   crates/lemnos-registry/src: `register`, `resolve`, `match_report`
-- Discovery  crates/lemnos-discovery/src: `with_observed_at`, `diff`, `run_probes`,
--            `record_run`, `merge_snapshot`, `apply_enrichers`
-- Runtime    crates/lemnos-runtime/src: retention.rs is Bytes, subscription.rs is Notifier, events.rs
--            is EventLog, failures.rs and diagnostics.rs are Diagnostics, and lifecycle.rs,
--            operations.rs, requests.rs, refresh.rs and watch.rs are Defs, Operations, Requests,
--            Refresh, Watch
-- Drivers    crates/lemnos-drivers-{gpio,pwm,spi,uart,i2c,usb}/src: `gpio_request`, `gpio_execute` and
--            their like, over any session
-- Mock       crates/lemnos-mock/src: faults.rs, gpio.rs, i2c.rs, pwm.rs, spi.rs, uart.rs and hardware
-- Tests      the theorems at concrete inputs
--
-- A text is the list of its Unicode scalar values and a `BTreeMap` the list of its entries in the
-- order of its keys. Functions that change their object return the object that they leave. Every
-- loop is a structural recursion, so there is no fuel. Scores and occurrence counts wrap as in a
-- release build, the version of the notifier saturates at the largest `usize` of a 64-bit target.
-- and the indices and byte counts of the event log have no upper bound.
--
-- Parameters stand for what the source does not fix: the methods of drivers and bound devices,
-- which are trait objects (`Driver`, `BoundDevice`), probes (`DiscoveryProbe`), the backends that
-- `bind` reads, the sizes that the compiler gives types (`Sizes`), printed errors, the clock
-- (`FailureEnv`) and the number of processors (`Host`). A bound device behind an `Arc<Mutex<..>>` is
-- the device itself, since the synchronous runtime alone locks it. The hardware that the sessions of
-- the mock share is passed from one call to the next; each call is atomic, as under its mutex. A wait on the condition variable
-- of the notifier is its guard. Logging is left out.
--
-- A method of a session or driver is a call: a function from its object to the object that it
-- leaves and its result, so that what a failing call has changed stays changed. The clock's readings
-- and the floats of the PWM telemetry are parameters.
--
-- Not modelled: the transports on Linux, the USB devices of the mock, the
-- macros that generate drivers, and the asynchronous front end.
pub mod Prelude
pub mod Core
pub mod Manifest
pub mod Bus
pub mod Sdk
pub mod Registry
pub mod Discovery
pub mod Runtime
pub mod Drivers
pub mod Mock
pub mod Tests
