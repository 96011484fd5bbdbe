-- ===== src/Tests.antt =====
-- Concrete states and calls, on which the theorems are applied.
pub mod Witnesses
pub mod Runs
pub mod Completes
pub mod Upgrades
pub mod Exports
use trustbridge_contract.Base.{
  ℕ, Bool, true, false, none, some, List, [], ◌∷◌, ◌+◌, ◌≡◌, refl, ⊤, bytes_eq, take, length,
}
use trustbridge_contract.Username.{Username}
use trustbridge_contract.Types.{
  Address, AuditStats, ContributorRecord, PendingBatchRemove, PendingRotation, ChallengeRecord,
  Role,
}
use trustbridge_contract.Types.State.{
  State, Registry, Names, Access, Control, Governance, Audit, Outbox, put_name, put_id,
}
use trustbridge_contract.Registry.Coherent.{Coherent}
use trustbridge_contract.NameList.{mentions}
use trustbridge_contract.Registry.Chunks.{joined}
use trustbridge_contract.Registry.Verified.{count_verified}
use trustbridge_contract.Contract.Monad.{Env}

-- The names `alice` and `Alice`.
abbrev pub alice : Username
alice = 97 ∷ 108 ∷ 105 ∷ 99 ∷ 101 ∷ []

abbrev pub capital_alice : Username
capital_alice = 65 ∷ 108 ∷ 105 ∷ 99 ∷ 101 ∷ []

-- The admin, a second admin, the holder of a name, and another contributor.
abbrev pub admin : Address
admin = 7

abbrev pub second_admin : Address
second_admin = 8

abbrev pub holder : Address
holder = 9

abbrev pub newcomer : Address
newcomer = 10

-- A call that everybody has authorized, at time 1000.
abbrev pub at_1000 : Env
at_1000 = record {
  timestamp = 1000;
  sequence = 5;
  network_id = 1;
  contract_address = 50;
  zero_address = 0;
  authorized = λ _. true;
  uploaded = λ _. true;
  address_text = λ a. (65 + a) ∷ [];
  ed25519_verify = λ key message signature. bytes_eq (take 2 signature) (take 2 message);
  sha256 = λ b. length b ∷ b;
}

abbrev pub empty_registry : Registry
empty_registry = record {
  records = λ _. none;
  count = 0;
  verified_count = 0;
  ever_verified_count = none;
  index = [];
  chunks = λ _. [];
  chunk_count = 0;
  index_generation = 0;
}

abbrev pub alice_record : ContributorRecord
alice_record = record {
  stellar_address = holder;
  payout_address = holder;
  registered_at = 900;
  verified = false;
  is_bot = false;
}

abbrev pub alice_registry : Registry
alice_registry = record {
  records = put_name alice (some alice_record) (λ _. none);
  count = 1;
  verified_count = 0;
  ever_verified_count = none;
  index = alice ∷ [];
  chunks = λ _. alice ∷ [];
  chunk_count = 1;
  index_generation = 0;
}

abbrev pub plain_names : Names
plain_names = record {
  last_action = λ _. 0;
  verified_at = λ _. none;
  pending_reverify = λ _. false;
  challenges = λ _. none;
  rotations = λ _. none;
  rotation_delay = 0;
  reserved = [];
  verification_config = none;
  batch_remove_threshold = 0;
  pending_batch_remove = none;
}

abbrev pub two_admins : Access
two_admins = record {
  roles = put_id second_admin (some Role.admin) (put_id admin (some Role.admin) (λ _. none));
  role_expiry = λ _. none;
  role_index = admin ∷ second_admin ∷ [];
  pending_roles = λ _. none;
  role_delay = 0;
  allowlist = none;
  verify_limit = none;
  verify_rate = λ _. none;
  oracle_allowlist = 77 ∷ [];
}

abbrev pub running : Control
running = record {
  admin = some admin;
  network = some 1;
  paused = false;
  pause_reason = none;
  legacy_pause_reason = none;
  emergency_pause = false;
  emergency_pause_ts = 0;
  guardian = none;
}

abbrev pub no_events : AuditStats
no_events = record {
  total_events = 0;
  registrations = 0;
  removals = 0;
  verifications = 0;
  unauthorized_attempts = 0;
}

abbrev pub state_of : Registry → Names → State
state_of r n = record {
  registry = r;
  names = n;
  access = two_admins;
  control = running;
  governance = record {
    cooldown = 0;
    last_upgrade = none;
    version = none;
    provenance = none;
    attestation = none;
    attestation_required = false;
    upgrade_threshold = none;
    proposal_count = 0;
    proposal = none;
    staged = none;
    current_wasm = 0;
  };
  audit = record { logs = []; stats = no_events; config = none };
  outbox = record { events = []; last_event_ledger = 0 };
}

-- Nobody is registered; `alice` is; and a removal, a rotation or a challenge of hers is pending.
abbrev pub start : State
start = state_of empty_registry plain_names

abbrev pub with_alice : State
with_alice = state_of alice_registry plain_names

abbrev pub removal_of_alice : PendingBatchRemove
removal_of_alice = record { usernames = alice ∷ []; proposed_by = admin; proposed_at = 900 }

abbrev pub removal_pending : State
removal_pending =
    state_of alice_registry (record plain_names { pending_batch_remove = some removal_of_alice })

abbrev pub rotation_pending : State
rotation_pending = state_of alice_registry (record plain_names {
  rotations =
      λ _. some (record { new_address = newcomer; requested_at = 900; executable_at = 950 });
})

abbrev pub challenge_pending : State
challenge_pending = state_of alice_registry (record plain_names {
  challenges = λ _. some (record { challenged_by = admin; started_at = 1; resolve_after = 999 });
})

-- The same under a pause.
abbrev pub paused : State
paused = record with_alice { control = record running { paused = true } }

pub empty-Coherent : Coherent empty_registry
unfolding mentions joined count_verified
empty-Coherent = record {
  indexed = λ u. refl;
  distinct = tt;
  canonical = tt;
  chunked = refl;
  counted = refl;
  verified_counted = refl;
}

-- The second admin is on the allowlist, with an entry that expires at 2000.
abbrev pub with_verifier : State
with_verifier = record start {
  access = record two_admins {
    allowlist = some (record { address = second_admin; expires_at = 2000; added_at = 900 } ∷ []);
  };
}
