-- ===== src/Cnc.antt =====
-- The stepper driver (src/cnc.c, src/cnc_private.h), by the parts of its state machine.
pub mod Modes
pub mod Sampler
pub mod Decay
pub mod Position
pub mod Readback
pub mod DecayTracks
pub mod State
pub mod Motion
pub mod Control
pub mod Run
pub mod Fault
pub mod Probe
pub mod Laser
pub mod Event
pub mod Invariant
pub mod Outputs
pub mod Ramp
pub mod StartRace
pub mod Commits
pub mod StartRules
pub mod Recovery
pub mod Recovers
mod Tests
