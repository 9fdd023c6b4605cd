-- ===== src/Lib.antt =====
-- LoRaHome firmware: a host talks to a bridge over a serial line, and the bridge to battery nodes over
-- LoRa. The firmware that both sides share is C without a heap, in firmware/common; this library
-- models the parts of it that move frames, describe a node and run its sensors. Paths are those of the
-- repository.
--
-- A part's file follows its C file: a struct is a record with the same fields, an enum a data type, a
-- function a function of the same name without its prefix. State that a C function changes through a
-- pointer is an argument and a result. Machine integers are natural numbers, with the wrap-around of
-- each assignment written out (`u8`, `u16`, `u32`, `inc32` of Prelude). Signed
-- integers are `ℤ` of Prelude/Signed, cut to their width by `i32` and `i64`; where C leaves the
-- overflow of a signed sum or product undefined, the model wraps. A C array is a list, read by
-- `get_or` and written by `set`, and buffers come with the length that the caller passes. Times in
-- microseconds are natural numbers: the clock is 64 bits wide and counts up from the start.
--
-- - Crc: firmware/common/src/crc16.c.
-- - Frame: firmware/common/src/protocol.c, the header, `build` (lh_frame_build), `parse`
--   (lh_frame_parse). It uses Crc.
-- - Slip: firmware/common/src/slip.c, the framing of the serial line: `feed` (lh_slip_feed) is one
--   step of the decoder, `encode` (lh_slip_encode) the encoder. Slip/Collect runs the decoder over a
--   list of bytes and keeps the frames it announces, as every caller of it does.
-- - Arq: firmware/common/src/arq.c, stop-and-wait delivery of one frame: `send`, `on_ack`, `tick`.
--   What the two callbacks answer is an argument (`Env`).
-- - Dedup: firmware/common/src/dedup.c, which refuses a frame that was seen before. The 8-bit sequence
--   number is `s % 256` of an unbounded one; Dedup/Window compares the 32-bit window with the set of
--   the unbounded numbers that were accepted, and Dedup/Senders runs the whole table.
-- - BridgeStat: firmware/common/src/bridge_stat.c, the codec of the health readout.
-- - Bridge: firmware/common/src/bridge_core.c. It drives Slip on the serial side, Frame for the test of
--   a frame, and BridgeStat for requests to itself; a run lists what it hands to the radio (`on_air`)
--   and to the host (`on_line`), and what it asks the duty cycle guard (`asked`).
-- - Frag: firmware/common/src/frag.c, a configuration in fragments: `frag_build`, `frag_feed`, `tick`.
-- - Ring: firmware/common/src/ring.c, the byte ring between the UART interrupt and the task. A run is a
--   list of the calls of both sides; each call is one step, as the fences make it appear.
-- - Cbor: firmware/common/src/cbor.c: the writer (Cbor/Writer), the reader (Cbor/Reader) and
--   `skip` (Cbor/Skip). Cbor/Items has the items of the subset, independently of the code.
-- - Capability: firmware/common/src/capability.c, the report of what a node has, written and read with
--   Cbor.
-- - Driver: firmware/common/src/driver.c, the supervision of one component: `bind`, `start_read`,
--   `poll`, `sleep`, `clear_fault` (Driver/Calls). A driver is a `Vtable` of functions over a world `W`.
-- - Scheduler: firmware/common/src/scheduler.c, the table of components: one step (Scheduler/Step) for
--   each of them in a tick (Scheduler/Tick). It uses Driver.
-- - Gpio: firmware/common/src/gpio_digital.c, the debounced digital input; Gpio/Device
--   is its `Vtable` for Driver.
-- - Bme680: firmware/common/src/bme680.c, the gas sensor: its coefficients (Bme680/Calibration), the
--   arithmetic of its channels (Bme680/Compensate, Bme680/Gas), the state machine (Bme680/Chip), and
--   its `Vtable` for Driver (Bme680/Device).
-- - I2cScan: firmware/common/src/i2c_scan.c, the sweep over the addresses of a bus.
-- - DutyCycle: firmware/bridge/src/duty_cycle_tracker.h, the airtime the bridge has used within a window
--   that slides; `budget` is the product of its float limit and the window.
-- - Rule: firmware/common/src/rule_evaluator.c, one rule with its hysteresis and its window.
-- - Tests: runs of each part at concrete inputs.
--
-- All loops but two run over a list or a bounded index, so they are structural recursion. The loop of
-- lh_cbor_skip has fuel for a round per byte that is left and two more, which is enough on every input.
-- The loop of `prune` (DutyCycle) has a round for each entry, and each round forgets one or is the last.
--
-- What these parts call is a parameter: the functions of a driver (`Vtable`), the I2C bus
-- (`I2cBus`, `I2cIo`), the pins and the clock (`GpioIo`), the callbacks of the ARQ and of the bridge
-- (`Env`, `Ports`), the floats of a rule (`Floats`), the float limit of the duty cycle. The functions of
-- a driver, of a bus and of `Ports` take a world and return it with the answer, so they may keep a state
-- of their own. `Env` and `GpioIo` hold what the callbacks and the pins answer to one call of an
-- operation, and another call has another one. `Floats` is a type with its comparisons, its sum and its
-- difference. What a theorem asks of a parameter beyond that is a hypothesis of the theorem.
--
-- Not modelled: the registration of callbacks, which only stores a pointer; the memory order of the
-- ring's two sides, beyond the order of its calls; calls with a NULL pointer in place of a buffer or a
-- result; the airtime formula (floating point); the C++ that binds these parts to the
-- radio, the UART and the flash (the rest of firmware/node and firmware/bridge); the TypeScript packages of the host.
pub mod Arq
pub mod Bme680
pub mod Bridge
pub mod BridgeStat
pub mod Capability
pub mod Cbor
pub mod Crc
pub mod Dedup
pub mod Driver
pub mod DutyCycle
pub mod Frag
pub mod Frame
pub mod Gpio
pub mod I2cScan
pub mod Prelude
pub mod Ring
pub mod Rule
pub mod Scheduler
pub mod Slip
pub mod Tests
