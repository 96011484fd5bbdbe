-- ===== src/Lib.antt =====
-- The TrustBridge registry contract (src/lib.rs and the modules beside it).
--
-- The contract keeps a registry of GitHub names and the addresses that hold them. Contributors register,
-- rename, rotate their address and leave; verifiers and the admin verify, revoke, challenge and remove;
-- the admin and a guardian pause the contract; roles, an allowlist and a rate limit say who may verify.
--
-- Parts and files:
--
--   Error            src/error.rs: `ContractError` with its codes and categories; Error/Codes.
--   Username         src/utils.rs: validation, canonical form, percentage; Username/Lower, Canonical,
--                    Valid, Percentage.
--   Types            the stored types (src/storage.rs, src/audit.rs, src/multisig_upgrade.rs,
--                    src/staged_wasm.rs); Types/Event the events (src/events.rs, src/domain.rs);
--                    Types/State all entries of the contract's storage as one record.
--   NameList         the loops over lists of names.
--   Registry         src/storage.rs: records, counters, flat and chunked index, compaction and repair;
--                    Registry/Chunks, Verified, Coherent (the invariant), Repair.
--   Names            src/storage.rs: what is kept for a name beside its record.
--   Access           src/storage.rs: roles, role index, verifier allowlist, verification rate;
--                    Access/Rate, Allowlist, RoleIndex.
--   Version          src/version.rs: comparison, bumps, the upgrade report; Version/Order.
--   Oracle           src/oracle_proof.rs: the message of a proof and the tests of its parts; Oracle/Digits,
--                    Message.
--   Merkle           src/merkle.rs: the root of a page; Merkle/Total, Binding, Records.
--   Paging           src/storage.rs: limits, slices, cursors and the walk over the chunks; Paging/Cursor,
--                    Slice, Walk.
--   Contract         the entry points of src/lib.rs and src/batch.rs, each under the name it has there:
--                    Contract/Monad the host (environment, outcome, transaction), Contract/Rules and
--                    Contract/Writes how a proof steps through an entry point, Contract/Guards the checks
--                    and the audit log, then Register, Remove, Verify, Rename, Rotation, Challenge,
--                    Control, Roles, Maintenance, Upgrade, Staging (src/staged_wasm.rs), Multisig
--                    (src/multisig_upgrade.rs), Migration, Oracle, Settings, Export, Health, Reads;
--                    Contract/Run the calls as values; Migration/Layout the migration step on entries as
--                    they are stored. A child Effect says what the writes do, Completes and Answers
--                    when a call returns, Multisig/Machine the life of a proposal, Export/Agree and Cover
--                    how pages relate.
--   Tests            concrete states, calls and applications of the theorems.
--
-- An entry point is a function of the environment of the call (time, ledger, network, authorizations) and
-- of the state; it ends with a value, with a `ContractError`, or with a trap of the host. `invoke` is the
-- transaction of the host: the writes of a call that does not return a value are discarded. An entry point
-- of the source reads its entries one by one; the model reads the state once where nothing was written
-- in between. The writes stand in the order of the source.
--
-- Choices: an address, a symbol and a 32-byte hash are opaque to the contract, which only compares them,
-- and are numbers. A name is its list of bytes, of any length, and a buffer of the source is a bound on
-- the length. Integers are natural numbers, with the saturation, wrap-around or overflow trap of the
-- source written out. A keyed entry is a function of the key. Loops over vectors recurse on the list, and
-- those over the chunks on the number of chunks. Two loops run on fuel: the Merkle levels, with one unit
-- for each leaf but the first, and the digits of an expiry, with the twenty places of the buffer; Merkle/Total
-- and Oracle/Digits show that this is enough. SHA-256, the check of a signature, the text of an address, and
-- which code is uploaded are functions of the environment.
--
-- Not modelled: the time-to-live of entries and their archival, metering, the encoding of events, the
-- overflow trap of the chunk counter at 2^32 chunks, the text form of a version, the unused wrapper of
-- src/oracle_proof.rs that stores a flag, and getters that return one stored entry. How the
-- host encodes a record is a parameter of Migration/Layout; elsewhere a record is the value it reads as.
pub mod Base
pub mod Error
pub mod Username
pub mod Types
pub mod NameList
pub mod Registry
pub mod Names
pub mod Access
pub mod Version
pub mod Oracle
pub mod Merkle
pub mod Paging
pub mod Contract
pub mod Tests
