-- ===== src/Server/Policy.antt =====
-- `currentPolicy` and `capabilityDenial` of pkg/openlore/authz.go.
pub mod Roles
pub mod Capability
use open_lore.Prelude.{
  Bool, true, false, not, ◌&&◌, ◌||◌, Option, none, some, List, [], ◌∷◌, ◌++◌, map, ◌==◌,
  if◌then◌else◌, is_some, any, Text, text, has_prefix, Result, ◌>>=◌, lookup, contains, ◌>>◌, ok,
  err,
}
use open_lore.Config.{AuthConfig, RoleSpec}
use open_lore.AuthorizationStore.{
  AuthorizationPolicy, AuthenticatedPrincipal, PolicyError, store_unavailable, identity_mismatch,
  invalid_guest, empty_identity, guest_role, unknown_home, unknown_role, invalid_role, home_denied,
  resolve_authorization,
}
use open_lore.Identity.{Identity}
use open_lore.Server.{Server, Store, missing, file, custom}

-- The encodings of the characters that strings.TrimSpace trims.
abbrev spaces : List Text
spaces =
    map (λ b. b ∷ []) (9 ∷ 10 ∷ 11 ∷ 12 ∷ 13 ∷ 32 ∷ [])
    ++ map (λ b. 0xc2 ∷ b ∷ []) (0x85 ∷ 0xa0 ∷ [])
    ++ map (λ b. 0xe2 ∷ 0x80 ∷ b ∷ [])
        (0x80 ∷ 0x81 ∷ 0x82 ∷ 0x83 ∷ 0x84 ∷ 0x85 ∷ 0x86 ∷ 0x87 ∷ 0x88 ∷ 0x89 ∷ 0x8a ∷ 0xa8 ∷ 0xa9
          ∷ 0xaf ∷ [])
    ++ (0xe1 ∷ 0x9a ∷ 0x80 ∷ []) ∷ (0xe2 ∷ 0x81 ∷ 0x9f ∷ []) ∷ (0xe3 ∷ 0x80 ∷ 0x80 ∷ []) ∷ []

has_suffix : Text → Text → Bool
has_suffix [] suffix = [] == suffix
has_suffix (c ∷ s) suffix = (c ∷ s) == suffix || has_suffix s suffix

-- strings.TrimSpace(s) == s
is_trimmed : Text → Bool
unfolding has_suffix
is_trimmed s = not (any (λ space. has_prefix s space || has_suffix s space) spaces)

-- The loop over the roles of a policy; `seen` holds the roles that it has passed.
check_roles : AuthConfig → Bool → List Text → List Text → Result PolicyError (Unit {0})
unfolding is_trimmed
check_roles auth guest seen [] = ok tt
check_roles auth guest seen (role ∷ roles) =
    let rest = check_roles auth guest (role ∷ seen) roles in
    if role == [] || not (is_trimmed role) || contains seen role
    then err (invalid_role role)
    else if role == text "guest"
    then if guest then rest else err guest_role
    else if is_some (lookup role auth.roles)
    then rest
    else err (unknown_role role)

-- The loop over the roles that are denied on the home docset.
check_home_denied : List Text → List Text → Result PolicyError (Unit {0})
check_home_denied roles [] = ok tt
check_home_denied roles (denied ∷ rest) =
    if contains roles denied then err (home_denied denied) else check_home_denied roles rest

check_home : AuthConfig → AuthorizationPolicy → Result PolicyError (Unit {0})
unfolding check_home_denied
check_home auth policy =
    if policy.home_docset == [] then ok tt else elim (lookup policy.home_docset auth.docsets) [
      | none ↦ err unknown_home
      | some home ↦ check_home_denied policy.roles home.access.deny
    ]

-- `len(policy.Roles) != 1 || policy.Roles[0] != "guest" || policy.HomeDocset != ""`, negated
is_guest_policy : AuthorizationPolicy → Bool
is_guest_policy policy = elim policy.roles [
  | [] ↦ false
  | role ∷ roles ↦ elim roles [
    | [] ↦ role == text "guest" && policy.home_docset == []
    | next ∷ rest ↦ false
  ]
]

-- The checks on what the store returned for the principal `p`.
pub check_policy : AuthConfig → Text → AuthorizationPolicy → Result PolicyError AuthorizationPolicy
unfolding check_roles check_home is_guest_policy
check_policy auth name policy =
    let guest = name == text "guest" in
    if not (policy.identity_name == name)
    then err identity_mismatch
    else if guest && not (is_guest_policy policy)
    then err invalid_guest
    else if not guest && policy.identity_name == []
    then err empty_identity
    else (do check_roles auth guest [] policy.roles; check_home auth policy; ok policy)

-- The principal that the store is asked about.
unfoldable pub principal_of : Identity → AuthenticatedPrincipal
principal_of id =
    if id.principal.identity_name == []
    then record (id.principal) { identity_name = id.identity_name }
    else id.principal

resolve : Server → AuthenticatedPrincipal → Result PolicyError AuthorizationPolicy
resolve s p = elim s.authorization_store [
  | missing ↦ err store_unavailable
  | file ↦ resolve_authorization s.auth p
  | custom store ↦ store p
]

unfoldable pub current_policy : Server → Identity → Result PolicyError AuthorizationPolicy
unfolding resolve principal_of check_policy
current_policy s id =
    let p = principal_of id in do policy ← resolve s p; check_policy s.auth p.identity_name policy

-- Why a capability is withheld: the entry of the delegate, a role that is not defined, a role that
-- denies it, or no role that allows it.
pub data CapabilityDenial : Type 0 where
  delegate_denies lacking no_role : CapabilityDenial
  undefined_role role_denies : Text → CapabilityDenial

-- The loop over the roles; `allowed` and `some_role` are its variables.
scan_roles : AuthConfig → Text → Bool → Bool → List Text → Option CapabilityDenial
scan_roles auth capability allowed some_role [] =
    if allowed then none else if some_role then some lacking else some no_role
scan_roles auth capability allowed some_role (name ∷ names) = elim (lookup name auth.roles) [
  | none ↦
      if name == text "guest"
      then scan_roles auth capability allowed some_role names
      else some (undefined_role name)
  | some role ↦
      if contains role.deny.capabilities capability
      then some (role_denies name)
      else scan_roles auth capability (allowed || contains role.allow.capabilities capability) true
          names
]

-- capabilityDenial
unfoldable pub capability_denial : Server → AuthorizationPolicy → Text → Option CapabilityDenial
unfolding scan_roles
capability_denial s policy capability =
    if contains policy.deny_capabilities capability
    then some delegate_denies
    else scan_roles s.auth capability false false policy.roles

-- hasCurrentCapability
unfoldable pub has_current_capability : Server → Identity → Text → Bool
unfolding current_policy capability_denial
has_current_capability s id capability = elim (current_policy s id) [
  | err e ↦ false
  | ok policy ↦ not (is_some (capability_denial s policy capability))
]
