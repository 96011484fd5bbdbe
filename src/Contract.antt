-- ===== src/Contract.antt =====
-- The entry points of src/lib.rs and the checks that they share.
pub mod Monad
pub mod Rules
pub mod Guards
pub mod Writes
pub mod Register
pub mod Remove
pub mod Verify
pub mod Rename
pub mod Rotation
pub mod Challenge
pub mod Control
pub mod Roles
pub mod Maintenance
pub mod Upgrade
pub mod Staging
pub mod Multisig
pub mod Migration
pub mod Oracle
pub mod Settings
pub mod Export
pub mod Health
pub mod Reads
pub mod Run
