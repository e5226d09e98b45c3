-- ===== src/Leases.antt =====
-- backend/src/codefixer/infrastructure/leases.py: worker leases, one row for each resource key.
-- A time is a number of microseconds.
pub mod Exclusion
mod Attempts
mod Workers
mod Tests
use code_fixer.Base.{
  ℕ, ◌+◌, ◌*◌, String, Bool, true, false, not, ◌&&◌, Option, none, some, List, [], ◌∷◌, ◌++◌, ltb,
  ◌==◌, text_eq, number_eq, if◌then◌else◌, any,
}
use code_fixer.Base.Table.{find, update, delete, count}
use code_fixer.Base.Result.{Result, ok, err, transaction}

pub record WorkerLease : Type 0 where
  pub resource_key : String
  pub owner : String
  pub expires_at : ℕ
  pub heartbeat_at : ℕ
  pub row_version : ℕ

-- LeaseBusyError, raised in two places, and sqlite3.IntegrityError.
pub data LeaseError : Type 0 where
  lease_busy ownership_lost integrity_error : LeaseError

abbrev pub microseconds : ℕ → ℕ
microseconds ttl_seconds = ttl_seconds * 1_000_000

abbrev pub for_key : String → WorkerLease → Bool
for_key resource_key l = l.resource_key == resource_key

abbrev pub held_by : String → String → WorkerLease → Bool
held_by resource_key owner l = l.resource_key == resource_key && l.owner == owner

-- SET owner, expires_at, heartbeat_at and the next row_version
abbrev pub take : String → ℕ → ℕ → WorkerLease → WorkerLease
take owner ttl_seconds now l = record l {
  owner = owner;
  expires_at = now + microseconds ttl_seconds;
  heartbeat_at = now;
  row_version = l.row_version + 1;
}

-- An acquisition after its SELECT: its arguments and the row that it read.
pub record Attempt : Type 0 where
  pub resource_key : String
  pub owner : String
  pub ttl_seconds : ℕ
  pub now : ℕ
  pub row : Option WorkerLease

-- The SELECT. sqlite3 begins a transaction at the first write, so that another worker's calls can
-- stand between the SELECT and the rest.
unfoldable pub look :
    (resource_key owner : String) (ttl_seconds now : ℕ) → List WorkerLease → Attempt
look resource_key owner ttl_seconds now leases = record {
  resource_key = resource_key;
  owner = owner;
  ttl_seconds = ttl_seconds;
  now = now;
  row = find (for_key resource_key) leases;
}

abbrev pub new_lease : Attempt → WorkerLease
new_lease x = record {
  resource_key = x.resource_key;
  owner = x.owner;
  expires_at = x.now + microseconds x.ttl_seconds;
  heartbeat_at = x.now;
  row_version = 1;
}

-- What follows the SELECT: an UPDATE of the key's rows as they are now, or an INSERT, which the
-- primary key refuses if the key has a row by now.
unfoldable pub write : Attempt → List WorkerLease → Result LeaseError (Unit {0}) × List WorkerLease
write x leases = elim x.row [
  | some row ↦
      if ltb x.now row.expires_at && not (row.owner == x.owner)
      then (err lease_busy, leases)
      else (ok tt, update (for_key x.resource_key) (take x.owner x.ttl_seconds x.now) leases)
  | none ↦
      if any (for_key x.resource_key) leases
      then (err integrity_error, leases)
      else (ok tt, leases ++ new_lease x ∷ [])
]

-- A call that no other worker's call interrupts.
unfoldable pub acquire :
    (resource_key owner : String) (ttl_seconds now : ℕ)
    → List WorkerLease
    → Result LeaseError (Unit {0}) × List WorkerLease
unfolding look write
acquire resource_key owner ttl_seconds now leases =
    write (look resource_key owner ttl_seconds now leases) leases

unfoldable pub heartbeat :
    (resource_key owner : String) (ttl_seconds now : ℕ)
    → List WorkerLease
    → Result LeaseError (Unit {0}) × List WorkerLease
heartbeat resource_key owner ttl_seconds now leases =
    if count (held_by resource_key owner) leases == 1
    then (ok tt, update (held_by resource_key owner) (take owner ttl_seconds now) leases)
    else (err ownership_lost, leases)

unfoldable pub release : (resource_key owner : String) → List WorkerLease → List WorkerLease
release resource_key owner leases = delete (held_by resource_key owner) leases
