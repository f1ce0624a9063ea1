-- ===== src/Server.antt =====
-- The state of `Server` (pkg/openlore/server.go) that authorization reads, and the roles of a caller:
-- `currentPolicy` of pkg/openlore/authz.go.
pub mod Policy
pub mod Access
pub mod Governing
pub mod Writes
pub mod Startup
pub mod SessionWrites
pub mod Sample
mod Tests
use open_lore.Prelude.{Bool, List, Text, Result}
use open_lore.Config.{AuthConfig}
use open_lore.AuthorizationStore.{AuthorizationPolicy, AuthenticatedPrincipal, PolicyError}
use open_lore.Grants.{GrantRegistry}
use open_lore.Vfs.{FileSystem}

-- The configured store: none, the file-backed one, or another implementation of the interface.
pub data Store : Type 0 where
  missing file : Store
  custom : (AuthenticatedPrincipal → Result PolicyError AuthorizationPolicy) → Store

-- `auth` is what `currentAuth` returns, `readonly` the global lock of the configuration, and `merge`
-- the merged filesystem with the display paths of its mounts.
pub record Server : Type 0 where
  pub auth_enforced : Bool
  pub auth : AuthConfig
  pub readonly : Bool
  pub grants : GrantRegistry
  pub authorization_store : Store
  pub merge : FileSystem
  pub mount_paths : List Text
  pub system_mount_paths : List Text
