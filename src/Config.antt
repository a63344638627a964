-- ===== src/Config.antt =====
-- config.py: how a configuration file becomes a `Config`. The YAML parser is a library: the file comes
-- as the value that it gives.
pub mod Values
pub mod Env
pub mod Proxies
pub mod Types
pub mod Ssh
pub mod Sections
pub mod Build
pub mod Hosts
pub mod SshSound
pub mod Sound
mod Tests
