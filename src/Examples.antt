-- ===== src/Examples.antt =====
-- Runs of the program on concrete inputs: a platform whose cluster knows no object, a table with
-- two environments, and each theorem with conditions at such inputs.
pub mod Fixtures
pub mod Serving
pub mod Choosing
pub mod Signing
pub mod Running
