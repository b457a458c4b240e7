-- ===== src/Config.antt =====
-- src/config.rs: the configuration, from the command line, a file and the environment.
pub mod Keys
pub mod Values
pub mod App
pub mod Cli
pub mod EnvFile
pub mod Resolve
pub mod Report
pub mod Numbers
pub mod Sources
pub mod Redacts
