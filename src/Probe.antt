-- ===== src/Probe.antt =====
-- src/probe: which profile a stream's first bytes speak for.
pub mod Set
pub mod Text
pub mod Probes
pub mod Detection
pub mod Tables
pub mod Agreement
