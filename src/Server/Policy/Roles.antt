-- ===== src/Server/Policy/Roles.antt =====
-- What a policy satisfies once `currentPolicy` has accepted it.
use open_lore.Prelude.{
  ◌≡◌, refl, ap, ◌∙◌, ◌≢◌, ◌⊎◌, inl, inr, Bool, true, false, not, ◌&&◌, Option, none, some, List,
  [], ◌∷◌, arith, ◌==◌, if◌then◌else◌, Bool-cases, is_some, In, Text, text, eq_iff, Result, lookup,
  ◌>>◌, In-contains, >>=-eq-ok, ok, err,
}
use mathlib.Core.Path.{subst}
use open_lore.Config.{AuthConfig, DocsetSpec}
use open_lore.AuthorizationStore.{AuthorizationPolicy, PolicyError}
use open_lore.Identity.{Identity}
use open_lore.Server.{Server}
use open_lore.Server.Policy.{
  check_roles, check_home_denied, check_home, is_guest_policy, check_policy, principal_of, resolve,
  current_policy,
}

-- The roles are distinct, non-empty and not among `seen`; the role "guest" is one of the guest only,
-- and any other is defined by the configuration.
abbrev pub AreRoles : AuthConfig → Bool → List Text → List Text → Type 0
AreRoles auth guest seen [] = Unit
AreRoles auth guest seen (role ∷ roles) =
    ((role ≢ [])
      × (¬ In role seen)
      × (role ≡ text "guest" → guest ≡ true)
      × (role ≢ text "guest" → is_some (lookup role auth.roles) ≡ true))
    × AreRoles auth guest (role ∷ seen) roles

check_roles-AreRoles :
    (auth : AuthConfig) (guest : Bool) (seen roles : List Text)
    → check_roles auth guest seen roles ≡ ok tt
    → AreRoles auth guest seen roles
unfolding check_roles
check_roles-AreRoles auth guest seen [] h = tt
check_roles-AreRoles auth guest seen (role ∷ roles) h = (
  (
    ground (arith, eq_iff role []),
    λ m. ground (arith, In-contains seen role m),
    λ e. ground (arith, eq_iff role (text "guest")),
    λ e. ground (arith, eq_iff role (text "guest")),
  ),
  check_roles-AreRoles auth guest (role ∷ seen) roles (ground arith),
)

check_home_denied_sound :
    (roles denied : List Text)
    → check_home_denied roles denied ≡ ok tt
    → (role : Text) → In role denied
    → In role roles
    → ⊥
unfolding check_home_denied
check_home_denied_sound roles [] h role m k = m
check_home_denied_sound roles (d ∷ denied) h role (inl e) k =
    ground (arith, In-contains roles d (rw e at k))
check_home_denied_sound roles (d ∷ denied) h role (inr m) k =
    check_home_denied_sound roles denied (ground arith) role m k

-- The home docset is configured, and denies none of the roles.
abbrev pub IsHome : AuthConfig → AuthorizationPolicy → Type 0
IsHome auth policy =
    (policy.home_docset ≡ [])
    ⊎ ((ds : DocsetSpec) × (lookup policy.home_docset auth.docsets ≡ some ds)
        × ((role : Text) → In role ds.access.deny → In role policy.roles → ⊥))

check_home-IsHome :
    (auth : AuthConfig) (policy : AuthorizationPolicy)
    → check_home auth policy ≡ ok tt
    → IsHome auth policy
unfolding check_home
check_home-IsHome auth policy h = elim (Bool-cases (policy.home_docset == [])) [
  | inl e ↦ inl ((eq_iff policy.home_docset []).0 e)
  | inr e ↦ inr (go (lookup policy.home_docset auth.docsets) refl (rw e at h))
]
  where
    go :
        (o : Option DocsetSpec)
        → lookup policy.home_docset auth.docsets ≡ o
        → (let r : Result PolicyError (Unit {0}) = elim o [
          | none ↦ err PolicyError.unknown_home
          | some home ↦ check_home_denied policy.roles home.access.deny
        ] in
            r)
          ≡ ok tt
        → (ds : DocsetSpec) × (lookup policy.home_docset auth.docsets ≡ some ds)
          × ((role : Text) → In role ds.access.deny → In role policy.roles → ⊥)
    go none e k = cc
    go (some ds) e k = (ds, e, check_home_denied_sound policy.roles ds.access.deny k)

is_guest_policy_sound :
    (policy : AuthorizationPolicy)
    → is_guest_policy policy ≡ true
    → (policy.roles ≡ text "guest" ∷ []) × (policy.home_docset ≡ [])
unfolding is_guest_policy
is_guest_policy_sound policy h = go policy.roles refl h
  where
    go :
        (roles : List Text)
        → policy.roles ≡ roles
        → (let b : Bool = elim roles [
          | [] ↦ false
          | role ∷ rest ↦ elim rest [
            | [] ↦ role == text "guest" && policy.home_docset == []
            | next ∷ more ↦ false
          ]
        ] in
            b)
          ≡ true
        → (policy.roles ≡ text "guest" ∷ []) × (policy.home_docset ≡ [])
    go [] e k = cc
    go (role ∷ []) e k = (
      e ∙ ap (λ r. r ∷ []) ((eq_iff role (text "guest")).0 (ground arith)),
      (eq_iff policy.home_docset []).0 (ground arith),
    )
    go (role ∷ next ∷ rest) e k = cc

-- What `currentPolicy` guarantees of the policy of a caller whose identity name is `name`.
pub record IsAccepted (auth : AuthConfig) (name : Text) (policy : AuthorizationPolicy)
    : Type 0 where
  pub same_identity : policy.identity_name ≡ name
  pub named : name ≢ []
  pub guest : name ≡ text "guest" → (policy.roles ≡ text "guest" ∷ []) × (policy.home_docset ≡ [])
  pub roles : AreRoles auth (name == text "guest") [] policy.roles
  pub home : IsHome auth policy

-- The chain of three tests and two checks passes only if each does.
chain-ok :
    {P : Type 0} (same guest empty : Bool) (roles home : Result PolicyError (Unit {0}))
    (e₁ e₂ e₃ : PolicyError) (p q : P)
    → (if not same
        then err e₁
        else if guest
        then err e₂
        else if empty
        then err e₃
        else (roles >> (home >> ok p)))
      ≡ ok q
    → (same ≡ true) × (guest ≡ false) × (empty ≡ false) × (roles ≡ ok tt) × (home ≡ ok tt) × (p ≡ q)
chain-ok true false false (ok u) (ok v) e₁ e₂ e₃ p q h = (refl, refl, refl, refl, refl, cc)
chain-ok false guest empty roles home e₁ e₂ e₃ p q h = cc
chain-ok true true empty roles home e₁ e₂ e₃ p q h = cc
chain-ok true false true roles home e₁ e₂ e₃ p q h = cc
chain-ok true false false (err x) home e₁ e₂ e₃ p q h = cc
chain-ok true false false (ok u) (err x) e₁ e₂ e₃ p q h = cc

empty_name : (not ([] == text "guest") && [] == []) ≡ true
unfolding ◌==◌
empty_name = refl

passed : (a b : Bool) → (a && not b) ≡ false → a ≡ true → b ≡ true
passed a b h k = ground arith

guest-named :
    (policy_name name : Text)
    → policy_name ≡ name
    → (not (name == text "guest") && policy_name == []) ≡ false
    → name ≢ []
guest-named policy_name name same h e = cc (rw (same, e) at h, empty_name)

pub check_policy-IsAccepted :
    (auth : AuthConfig) (name : Text) (found policy : AuthorizationPolicy)
    → check_policy auth name found ≡ ok policy
    → (found ≡ policy) × IsAccepted auth name policy
unfolding check_policy
check_policy-IsAccepted auth name found policy h =
    let (eq, guest, filled, roles, home, same) = chain-ok _ _ _ _ _ _ _ _ found policy h in
    let named : found.identity_name ≡ name = (eq_iff found.identity_name name).0 eq in
    (
      same,
      subst (IsAccepted auth name) same (record {
        same_identity = named;
        named = guest-named found.identity_name name named filled;
        guest = λ e. is_guest_policy_sound found (
            passed (name == text "guest") (is_guest_policy found) guest
              ((eq_iff name (text "guest")).1 e));
        roles = check_roles-AreRoles auth (name == text "guest") [] found.roles roles;
        home = check_home-IsHome auth found home;
      }),
    )

-- A policy that `currentPolicy` returns is that of the authenticated identity, whose name is not
-- empty; the guest has the role "guest" alone and no home; any other identity has distinct,
-- non-empty roles that the configuration defines, "guest" not among them; and the home, if there
-- is one, is configured and denies none of the roles.
pub current_policy-IsAccepted :
    (s : Server) (id : Identity) (policy : AuthorizationPolicy)
    → current_policy s id ≡ ok policy
    → IsAccepted s.auth (principal_of id).identity_name policy
unfolding current_policy
current_policy-IsAccepted s id policy h =
    let (found, resolved, checked) =
      >>=-eq-ok (resolve s (principal_of id)) (check_policy s.auth (principal_of id).identity_name)
        h in
    (check_policy-IsAccepted s.auth (principal_of id).identity_name found policy checked).1

-- The principal does not depend on the snapshot.
pub principal_of_fresh :
    (id : Identity)
    → (principal_of (record id { policy_snapshot = none })).identity_name
      ≡ (principal_of id).identity_name
unfolding principal_of
principal_of_fresh id = refl
