-- ===== src/Office.antt =====
-- src/chunker/office: the chunker of `ooxml-ber-v1`, and what its profiles share.
pub mod Kind
pub mod Fault
pub mod Package
pub mod Ber
