-- ===== src/Platform.antt =====
-- platform/: what the kernel's HTTP interface stands on.
pub mod Claims
pub mod Verifier
