-- ===== src/Cnc/Invariant.antt =====
-- Invariants of the driver over every order of events.
pub mod Flags
pub mod Faults
pub mod Rates
pub mod Laser
