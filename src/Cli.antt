-- ===== src/Cli.antt =====
-- cli/: the subcommands.
pub mod Settings
pub mod CcSwitch
pub mod Probes
pub mod Doctor
pub mod Pidfile
pub mod Cache
pub mod Setup
pub mod Commands
