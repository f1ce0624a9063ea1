-- ===== src/Identity.antt =====
-- pkg/openlore/identity.go: token scopes and the authenticated caller.
use open_lore.Prelude.{Bool, false, ◌||◌, Option, List, [], ◌∷◌, ◌==◌, Text, text}
use open_lore.AuthorizationStore.{AuthorizationPolicy, AuthenticatedPrincipal}

abbrev pub scope_full : Text
scope_full = text "full"

abbrev pub scope_read : Text
scope_read = text "read"

-- scopeGrantsWrite
unfoldable pub scope_grants_write : List Text → Bool
scope_grants_write [] = false
scope_grants_write (s ∷ []) = s == scope_full
scope_grants_write (s ∷ t ∷ scopes) = false

-- recognizedScope
unfoldable pub recognized_scope : Text → Bool
recognized_scope s = s == scope_full || s == scope_read

-- The fields that authorization reads.
pub record Identity : Type 0 where
  pub identity_name : Text
  pub principal : AuthenticatedPrincipal
  pub policy_snapshot : Option AuthorizationPolicy
  pub scopes : List Text
