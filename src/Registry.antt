-- ===== src/Registry.antt =====
-- internal/registry/registry.go: what a registry publishes and says.
pub mod Service
pub mod Receipts
pub mod Observed
pub mod Client
pub mod Sorting
use indexjack.Prelude.{ℕ, Bool, List, Text, Bytes, ℤ}

-- The sentinels of a client's errors.
pub data FetchError : Type 0 where
  not_found unavailable protocol disallowed unauthorized : FetchError

pub record VersionInfo : Type 0 where
  pub version : Text
  pub size : ℤ
  pub sha256 : Text

pub record Metadata : Type 0 where
  pub format : Text
  pub source : Text
  pub role : Text
  pub name : Text
  pub versions : List VersionInfo

pub record Artifact : Type 0 where
  pub version : Text
  pub bytes : Bytes

pub record Package : Type 0 where
  pub name : Text
  pub versions : List Artifact

pub record FixtureSet : Type 0 where
  pub id : Text
  pub role : Text
  pub revision : Text
  pub vulnerable : Bool
  pub packages : List Package

-- One observation at the registry's boundary.
pub record Request : Type 0 where
  pub method : Text
  pub path : Text
  pub name : Text
  pub version : Text
  pub status : ℕ

pub record Receipt : Type 0 where
  pub format : Text
  pub source : Text
  pub role : Text
  pub revision : Text
  pub run : Text
  pub request_count : ℕ
  pub requests : List Request
  pub signature : Text

pub record ReceiptConfig : Type 0 where
  pub credential : Text
  pub signing_key : Text
