-- ===== src/Setup.antt =====
-- Package setup: the setup tasks of the agent. `Validate` of a task tells whether it is done, and
-- `Run` does it, unless it is done and not forced.
pub mod SigningKey
pub mod BindingKey
pub mod RegisterSigningKey
pub mod RegisterBindingKey
pub mod UpdateServiceConfig
use workload_agent.Prelude.{String}

-- `ErrMessageSetupIncomplete`
abbrev pub setup_incomplete : String
setup_incomplete =
    "configuration is not complete - setup tasks can be completed only after configuration"
