-- ===== src/HostEntry.antt =====
-- modules/renter.go, types/signatures.go: the fields of a host's entry that the host tree reads.
-- A key's bytes are only compared, so they are read as one number; so is a time.
use sia_hostdb_profiles.Prelude.{ℕ, List, Bool}

pub record SiaPublicKey : Type 0 where
  pub algorithm : ℕ
  pub key : ℕ

pub record HostDbScan : Type 0 where
  pub timestamp : ℕ
  pub success : Bool

pub record HostDbEntry : Type 0 where
  pub accepting_contracts : Bool
  pub scan_history : List HostDbScan
  pub public_key : SiaPublicKey
