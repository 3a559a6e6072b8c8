-- ===== src/Proxy/Types.antt =====
-- The shared types of internal/proxy/types.go.
use ciallo.Common.{Bytes, List, Bool, Option}

-- `StatusCache` is a pointer to a Boolean, nil for the global setting.
pub record Backend : Type 0 where
  pub name : Bytes
  pub addr : Bytes
  pub status_cache : Option Bool

pub record Route : Type 0 where
  pub hosts : List Bytes
  pub backend : Backend

pub record HealthStatus : Type 0 where
  pub healthy : Bool
  pub circuit_open : Bool
