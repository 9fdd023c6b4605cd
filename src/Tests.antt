-- ===== src/Tests.antt =====
-- Runs of the models at inputs that can be followed in the source, and the theorems at such inputs.
mod CrcRuns
mod FrameRuns
mod GpioRuns
mod I2cScanRuns
mod SlipRuns
mod ArqRuns
mod DedupRuns
mod RingRuns
mod RuleRuns
mod FragRuns
mod Bme680Runs
mod BridgeRuns
mod CapabilityRuns
mod CborRuns
mod CborSkipRuns
mod DriverRuns
mod DutyCycleRuns
mod SchedulerRuns
