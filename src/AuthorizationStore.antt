-- ===== src/AuthorizationStore.antt =====
-- pkg/openlore/authorization_store.go: from an authenticated principal to its current roles.
pub mod Delegation
use open_lore.Prelude.{
  not, ◌&&◌, ◌||◌, Option, none, some, List, [], ◌∷◌, ◌==◌, if◌then◌else◌, is_some, keep, Text,
  text, Result, ◌>>=◌, lookup, contains, ok, err,
}
use open_lore.Config.{AuthConfig, AuthIdentity, DelegateEntry}

-- A claim of a token: a string, or a value of another type.
pub data Claim : Type 0 where
  string other : Text → Claim

pub record AuthenticatedPrincipal : Type 0 where
  pub identity_name : Text
  pub claims : List (Text × Claim)

pub record AuthorizationPolicy : Type 0 where
  pub identity_name : Text
  pub roles : List Text
  pub home_docset : Text
  pub deny_docsets : List Text
  pub deny_capabilities : List Text

pub data PolicyError : Type 0 where
  store_unavailable unknown_identity identity_mismatch invalid_guest empty_identity : PolicyError
  guest_role unknown_home : PolicyError
  unknown_role invalid_role home_denied store_error : Text → PolicyError

-- p.Claims["actor"].(string), "" when it is missing or no string
unfoldable pub actor : AuthenticatedPrincipal → Text
actor p = elim (lookup (text "actor") p.claims) [
  | some (Claim.string s) ↦ s
  | some (Claim.other s) ↦ []
  | none ↦ []
]

-- findDelegate
unfoldable pub find_delegate : List DelegateEntry → Text → Option DelegateEntry
find_delegate [] name = none
find_delegate (d ∷ ds) name = if d.identity == name then some d else find_delegate ds name

-- intersectStrings
unfoldable pub intersect_strings : List Text → List Text → List Text
intersect_strings a b = keep (λ value. contains b value) a

-- the roles after the delegate's list, where the entry has one
narrow : List Text → Option (List Text) → List Text
unfolding intersect_strings
narrow roles none = roles
narrow roles (some allowed) = intersect_strings roles allowed

-- the loop that rejects roles which the configuration does not define
check_defined : AuthConfig → List Text → Result PolicyError (Unit {0})
check_defined auth [] = ok tt
check_defined auth (role ∷ roles) =
    if not (role == text "guest") && not (is_some (lookup role auth.roles))
    then err (unknown_role role)
    else check_defined auth roles

policy_of :
    AuthConfig
    → AuthIdentity
    → (roles deny_docsets deny_capabilities : List Text) → Result PolicyError AuthorizationPolicy
unfolding check_defined
policy_of auth identity roles deny_docsets deny_capabilities = check_defined auth roles >>= λ _.
    ok (record {
      identity_name = identity.name;
      roles = roles;
      home_docset = identity.home;
      deny_docsets = deny_docsets;
      deny_capabilities = deny_capabilities;
    })

-- the body of the loop, once the identity is found
resolve_identity :
    AuthConfig → AuthenticatedPrincipal → AuthIdentity → Result PolicyError AuthorizationPolicy
unfolding policy_of find_delegate narrow actor
resolve_identity auth p identity =
    if actor p == []
    then policy_of auth identity identity.roles [] []
    else elim (find_delegate identity.delegates (actor p)) [
      | none ↦ err unknown_identity
      | some delegate ↦
          policy_of auth identity (narrow identity.roles delegate.roles) delegate.deny_docsets
            delegate.deny_capabilities
    ]

find_identity :
    AuthConfig → AuthenticatedPrincipal → List AuthIdentity → Result PolicyError AuthorizationPolicy
unfolding resolve_identity
find_identity auth p [] = err unknown_identity
find_identity auth p (identity ∷ rest) =
    if identity.name == p.identity_name
    then resolve_identity auth p identity
    else find_identity auth p rest

abbrev pub guest_policy : AuthorizationPolicy
guest_policy = record {
  identity_name = text "guest";
  roles = text "guest" ∷ [];
  home_docset = [];
  deny_docsets = [];
  deny_capabilities = [];
}

-- fileAuthorizationStore.ResolveAuthorization
unfoldable pub resolve_authorization :
    AuthConfig → AuthenticatedPrincipal → Result PolicyError AuthorizationPolicy
unfolding find_identity
resolve_authorization auth p =
    if p.identity_name == text "guest" || p.identity_name == []
    then ok guest_policy
    else find_identity auth p auth.identities
