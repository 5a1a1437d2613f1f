-- ===== src/Keys.antt =====
-- Package common: the agent's TPM keys and their registration.
pub mod Hex
pub mod Creation
pub mod Registration
