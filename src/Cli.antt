-- ===== src/Cli.antt =====
-- The command lines under cmd, and what they use of the packages net, flag and strings.
pub mod Messages
pub mod Addresses
pub mod Flags
pub mod Bcurl
pub mod Bserve
pub mod Bchaos
