-- ===== src/AuthorizationStore/Delegation.antt =====
-- A delegated login never has more roles than the principal on whose behalf it acts.
use open_lore.Prelude.{
  ◌≡◌, refl, sym, ◌∙◌, ◌≢◌, ◌↔◌, ◌⊎◌, inl, inr, true, ◌||◌, Option, none, some, List, [], ◌∷◌,
  arith, ◌==◌, Bool, false, Bool-cases, Option-cases, is_some, In, keep-In, Text, text, eq_iff,
  Result, lookup, contains, contains-In, In-contains, >>=-eq-ok, ok, err,
}
use mathlib.Core.Path.{subst}
use open_lore.Config.{AuthConfig, AuthIdentity, DelegateEntry}
use open_lore.AuthorizationStore.{
  AuthorizationPolicy, AuthenticatedPrincipal, PolicyError, actor, find_delegate, intersect_strings,
  check_defined, narrow, policy_of, resolve_identity, find_identity, resolve_authorization,
  guest_policy, store_unavailable, unknown_identity, identity_mismatch, invalid_guest,
  empty_identity, guest_role, unknown_home, unknown_role, invalid_role, home_denied, store_error,
}

-- The entry for the actor is listed, its role list (where it has one) contains every role of the
-- policy, and the policy denies what the entry denies.
pub record IsDelegated (identity : AuthIdentity) (name : Text) (policy : AuthorizationPolicy)
    : Type 0 where
  pub entry : DelegateEntry
  pub listed : In entry identity.delegates
  pub named : entry.identity ≡ name
  pub narrowed :
      (allowed : List Text)
      → entry.roles ≡ some allowed
      → (role : Text) → In role policy.roles
      → In role allowed
  pub docsets : policy.deny_docsets ≡ entry.deny_docsets
  pub capabilities : policy.deny_capabilities ≡ entry.deny_capabilities

-- The policy is that of a configured identity with the name of the principal: its home, no role but
-- its own, each of them "guest" or defined, and the limits of the delegate where the token names an actor.
pub record IsResolved (auth : AuthConfig) (p : AuthenticatedPrincipal)
    (policy : AuthorizationPolicy) : Type 0 where
  pub identity : AuthIdentity
  pub listed : In identity auth.identities
  pub named : identity.name ≡ p.identity_name
  pub same_name : policy.identity_name ≡ identity.name
  pub home : policy.home_docset ≡ identity.home
  pub roles : (role : Text) → In role policy.roles → In role identity.roles
  pub defined :
      (role : Text)
      → In role policy.roles
      → (role ≡ text "guest") ⊎ (is_some (lookup role auth.roles) ≡ true)
  pub delegated : actor p ≢ [] → IsDelegated identity (actor p) policy

check_defined_sound :
    (auth : AuthConfig) (roles : List Text)
    → check_defined auth roles ≡ ok tt
    → (role : Text) → In role roles
    → (role ≡ text "guest") ⊎ (is_some (lookup role auth.roles) ≡ true)
unfolding check_defined
check_defined_sound auth [] h role m = absurd m
check_defined_sound auth (r ∷ roles) h role (inl e) = rw e (ground (arith, eq_iff r (text "guest")))
check_defined_sound auth (r ∷ roles) h role (inr m) =
    check_defined_sound auth roles (ground arith) role m

find_delegate_sound :
    (ds : List DelegateEntry) (name : Text) (d : DelegateEntry)
    → find_delegate ds name ≡ some d
    → In d ds × (d.identity ≡ name)
unfolding find_delegate
find_delegate_sound [] name d h = cc
find_delegate_sound (x ∷ ds) name d h = elim (Bool-cases (x.identity == name)) [
  | inl e ↦
      let same : x ≡ d = injected (rw (e, find_delegate) at h) in
      (inl (sym same), rw (← same) ((eq_iff x.identity name).0 e))
  | inr e ↦ let (m, n) = find_delegate_sound ds name d (rw (e, find_delegate) at h) in (inr m, n)
]
  where
    injected : some x ≡ some d → x ≡ d
    injected q = cc

-- The intersection of two lists holds exactly the members that they share.
pub intersect_strings-In :
    (a b : List Text) (x : Text) → In x (intersect_strings a b) ↔ (In x a × In x b)
unfolding intersect_strings
intersect_strings-In a b x =
    let both = keep-In (λ value. contains b value) x a in
    (λ h. let (m, k) = both.0 h in (m, contains-In b x k), λ h. both.1 (h.0, In-contains b x h.1))

-- The policy that is built from the roles, once they are all defined.
IsBuilt :
    AuthConfig
    → AuthIdentity
    → (roles docsets capabilities : List Text) → AuthorizationPolicy
    → Type 0
IsBuilt auth identity roles docsets capabilities policy =
    (policy.identity_name ≡ identity.name)
    × (policy.roles ≡ roles)
    × (policy.home_docset ≡ identity.home)
    × (policy.deny_docsets ≡ docsets)
    × (policy.deny_capabilities ≡ capabilities)
    × (check_defined auth roles ≡ ok tt)

policy_of_sound :
    (auth : AuthConfig) (identity : AuthIdentity) (roles docsets capabilities : List Text)
    (policy : AuthorizationPolicy)
    → policy_of auth identity roles docsets capabilities ≡ ok policy
    → IsBuilt auth identity roles docsets capabilities policy
unfolding policy_of IsBuilt
policy_of_sound auth identity roles docsets capabilities policy h =
    let (u, defined, same) = >>=-eq-ok (check_defined auth roles) _ h in
    (
      ground (arith, same),
      ground (arith, same),
      ground (arith, same),
      ground (arith, same),
      ground (arith, same),
      defined,
    )

narrow-In :
    (roles : List Text) (o : Option (List Text)) (role : Text)
    → In role (narrow roles o)
    → In role roles
unfolding narrow
narrow-In roles none role m = m
narrow-In roles (some allowed) role m = ((intersect_strings-In roles allowed role).0 m).0

narrow-allowed :
    (roles : List Text) (o : Option (List Text)) (allowed : List Text) (role : Text)
    → o ≡ some allowed
    → In role (narrow roles o)
    → In role allowed
unfolding narrow
narrow-allowed roles none allowed role e m = cc
narrow-allowed roles (some x) allowed role e m =
    ((intersect_strings-In roles allowed role).0 (subst (λ y. In role (narrow roles y)) e m)).1

resolve_identity-IsResolved :
    (auth : AuthConfig) (p : AuthenticatedPrincipal) (identity : AuthIdentity)
    (policy : AuthorizationPolicy)
    → In identity auth.identities
    → identity.name ≡ p.identity_name
    → resolve_identity auth p identity ≡ ok policy
    → IsResolved auth p policy
unfolding resolve_identity IsBuilt
resolve_identity-IsResolved auth p identity policy m n h = elim (Bool-cases (actor p == [])) [
  | inl e ↦
      let (name, roles, home, docsets, capabilities, defined) =
        policy_of_sound auth identity identity.roles [] [] policy (rw e at h) in
      record {
        identity = identity;
        listed = m;
        named = n;
        same_name = name;
        home = home;
        roles = λ role k. rw roles at k;
        defined = λ role k. check_defined_sound auth identity.roles defined role (rw roles at k);
        delegated = λ ne. absurd (ne ((eq_iff (actor p) []).0 e));
      }
  | inr e ↦ go (find_delegate identity.delegates (actor p)) refl (rw e at h)
]
  where
    go :
        (o : Option DelegateEntry)
        → find_delegate identity.delegates (actor p) ≡ o
        → (let r : Result PolicyError AuthorizationPolicy = elim o [
          | none ↦ err unknown_identity
          | some delegate ↦
              policy_of auth identity
                (narrow identity.roles delegate.roles)
                delegate.deny_docsets
                delegate.deny_capabilities
        ] in
            r)
          ≡ ok policy
        → IsResolved auth p policy
    go none f k = cc
    go (some d) f k =
        let (name, roles, home, docsets, capabilities, defined) =
          policy_of_sound auth identity (narrow identity.roles d.roles) d.deny_docsets
            d.deny_capabilities policy k in
        let (listed, named) = find_delegate_sound identity.delegates (actor p) d f in
        record {
          identity = identity;
          listed = m;
          named = n;
          same_name = name;
          home = home;
          roles = λ role q. narrow-In identity.roles d.roles role (rw roles at q);
          defined = λ role q.
              check_defined_sound auth (narrow identity.roles d.roles) defined role (rw roles at q);
          delegated = λ ne. record {
            entry = d;
            listed = listed;
            named = named;
            narrowed = λ allowed e role q.
                narrow-allowed identity.roles d.roles allowed role e (rw roles at q);
            docsets = docsets;
            capabilities = capabilities;
          };
        }

find_identity-IsResolved :
    (auth : AuthConfig) (p : AuthenticatedPrincipal) (rest : List AuthIdentity)
    (policy : AuthorizationPolicy)
    → ((i : AuthIdentity) → In i rest → In i auth.identities)
    → find_identity auth p rest ≡ ok policy
    → IsResolved auth p policy
unfolding find_identity
find_identity-IsResolved auth p [] policy sub h = cc
find_identity-IsResolved auth p (identity ∷ rest) policy sub h =
    elim (Bool-cases (identity.name == p.identity_name)) [
      | inl e ↦
          resolve_identity-IsResolved auth p identity policy (sub identity (inl refl))
            ((eq_iff identity.name p.identity_name).0 e) (rw (e, find_identity) at h)
      | inr e ↦
          find_identity-IsResolved auth p rest policy (λ i m. sub i (inr m))
            (rw (e, find_identity) at h)
    ]

resolve_authorization_sound :
    (auth : AuthConfig) (p : AuthenticatedPrincipal) (policy : AuthorizationPolicy)
    → resolve_authorization auth p ≡ ok policy
    → (((p.identity_name ≡ text "guest") ⊎ (p.identity_name ≡ [])) × (policy ≡ guest_policy))
      ⊎ IsResolved auth p policy
unfolding resolve_authorization
resolve_authorization_sound auth p policy h =
    elim (Bool-cases (p.identity_name == text "guest" || p.identity_name == [])) [
      | inl e ↦ inl (
        ground (arith, e, eq_iff p.identity_name (text "guest"), eq_iff p.identity_name []),
        sym (let q : guest_policy ≡ policy = injected (rw (e, resolve_authorization) at h) in q),
      )
      | inr e ↦ inr (
          find_identity-IsResolved auth p auth.identities policy (λ i m. m)
            (rw (e, resolve_authorization) at h))
    ]
  where
    injected :
        ◌≡◌ {A = Result PolicyError AuthorizationPolicy} (ok guest_policy) (ok policy)
        → guest_policy ≡ policy
    injected q = cc

-- A role that a resolution is refused for is not "guest", and the configuration does not define it.
abbrev IsUndefined : AuthConfig → Text → Type 0
IsUndefined auth role = (role ≢ text "guest") × (lookup role auth.roles ≡ none)

check_defined-IsUndefined :
    (auth : AuthConfig) (roles : List Text) (role : Text)
    → check_defined auth roles ≡ err (unknown_role role)
    → IsUndefined auth role
unfolding check_defined
check_defined-IsUndefined auth [] role h = cc
check_defined-IsUndefined auth (r ∷ roles) role h = elim (Bool-cases (r == text "guest")) [
  | inl e ↦ check_defined-IsUndefined auth roles role (rw (e, check_defined) at h)
  | inr e ↦ elim (Option-cases (lookup r auth.roles)) [
    | inr (spec, f) ↦ check_defined-IsUndefined auth roles role (rw (e, f, check_defined) at h)
    | inl f ↦
        let same : r ≡ role = injected (rw (e, f, check_defined) at h) in
        (λ g. differ e ((eq_iff r (text "guest")).1 (same ∙ g)), rw (← same) f)
  ]
]
  where
    injected :
        ◌≡◌ {A = Result PolicyError (Unit {0})} (err (unknown_role r)) (err (unknown_role role))
        → r ≡ role
    injected q = cc

    differ : {b : Bool} → b ≡ false → b ≡ true → ⊥
    differ x y = cc

policy_of-IsUndefined :
    (auth : AuthConfig) (identity : AuthIdentity) (roles docsets capabilities : List Text)
    (role : Text)
    → policy_of auth identity roles docsets capabilities ≡ err (unknown_role role)
    → IsUndefined auth role
unfolding policy_of
policy_of-IsUndefined auth identity roles docsets capabilities role h =
    go (check_defined auth roles) refl
  where
    go : (r : Result PolicyError (Unit {0})) → check_defined auth roles ≡ r → IsUndefined auth role
    go (ok u) c = absurd (ok_not (rw (c, policy_of) at h))
      where
        ok_not : {policy : AuthorizationPolicy} → ok policy ≡ err (unknown_role role) → ⊥
        ok_not q = cc
    go (err e) c = check_defined-IsUndefined auth roles role (c ∙ same (rw (c, policy_of) at h))
      where
        same :
            ◌≡◌ {A = Result PolicyError AuthorizationPolicy} (err e) (err (unknown_role role))
            → ◌≡◌ {A = Result PolicyError (Unit {0})} (err e) (err (unknown_role role))
        same q = cc

resolve_identity-IsUndefined :
    (auth : AuthConfig) (p : AuthenticatedPrincipal) (identity : AuthIdentity) (role : Text)
    → resolve_identity auth p identity ≡ err (unknown_role role)
    → IsUndefined auth role
unfolding resolve_identity
resolve_identity-IsUndefined auth p identity role h = elim (Bool-cases (actor p == [])) [
  | inl e ↦ policy_of-IsUndefined auth identity identity.roles [] [] role (rw e at h)
  | inr e ↦ elim (Option-cases (find_delegate identity.delegates (actor p))) [
    | inl f ↦ absurd (unlisted (rw (e, f) at h))
    | inr (d, f) ↦
        policy_of-IsUndefined auth identity (narrow identity.roles d.roles) d.deny_docsets
          d.deny_capabilities role (rw (e, f) at h)
  ]
]
  where
    unlisted :
        ◌≡◌ {A = Result PolicyError AuthorizationPolicy}
          (err unknown_identity)
          (err (unknown_role role))
        → ⊥
    unlisted q = cc

find_identity-IsUndefined :
    (auth : AuthConfig) (p : AuthenticatedPrincipal) (rest : List AuthIdentity) (role : Text)
    → find_identity auth p rest ≡ err (unknown_role role)
    → IsUndefined auth role
unfolding find_identity
find_identity-IsUndefined auth p [] role h = cc
find_identity-IsUndefined auth p (identity ∷ rest) role h =
    elim (Bool-cases (identity.name == p.identity_name)) [
      | inl e ↦ resolve_identity-IsUndefined auth p identity role (rw (e, find_identity) at h)
      | inr e ↦ find_identity-IsUndefined auth p rest role (rw (e, find_identity) at h)
    ]

resolve_authorization-IsUndefined :
    (auth : AuthConfig) (p : AuthenticatedPrincipal) (role : Text)
    → resolve_authorization auth p ≡ err (unknown_role role)
    → IsUndefined auth role
unfolding resolve_authorization
resolve_authorization-IsUndefined auth p role h =
    elim (Bool-cases (p.identity_name == text "guest" || p.identity_name == [])) [
      | inl e ↦ absurd (resolved (rw (e, resolve_authorization) at h))
      | inr e ↦
          find_identity-IsUndefined auth p auth.identities role (rw (e, resolve_authorization) at h)
    ]
  where
    resolved : ok guest_policy ≡ err (unknown_role role) → ⊥
    resolved q = cc

-- What a resolution comes to: a policy of the guest or of a configured identity, or an error, which
-- names a role only if it is undefined.
abbrev pub IsOutcome :
    AuthConfig → AuthenticatedPrincipal → Result PolicyError AuthorizationPolicy → Type 0
IsOutcome auth p (ok policy) =
    (((p.identity_name ≡ text "guest") ⊎ (p.identity_name ≡ [])) × (policy ≡ guest_policy))
    ⊎ IsResolved auth p policy
IsOutcome auth p (err (unknown_role role)) = IsUndefined auth role
IsOutcome auth p (err _) = Unit

-- The policy that the file-backed store resolves is the guest's, for the guest or no identity name,
-- or is that of a configured identity of the principal's name: its home, no role but its own, each of
-- them "guest" or defined; and where the token names an actor, the identity lists that actor as a
-- delegate, no role is outside the delegate's list, and the delegate's deny lists are those of the
-- policy. A resolution is refused for an unknown role only for one that is neither "guest" nor
-- defined.
pub resolve_authorization-IsOutcome :
    (auth : AuthConfig) (p : AuthenticatedPrincipal)
    → IsOutcome auth p (resolve_authorization auth p)
resolve_authorization-IsOutcome auth p = go (resolve_authorization auth p) refl
  where
    go :
        (r : Result PolicyError AuthorizationPolicy)
        → resolve_authorization auth p ≡ r
        → IsOutcome auth p r
    go (ok policy) e = resolve_authorization_sound auth p policy e
    go (err (unknown_role role)) e = resolve_authorization-IsUndefined auth p role e
    go (err store_unavailable) e = tt
    go (err unknown_identity) e = tt
    go (err identity_mismatch) e = tt
    go (err invalid_guest) e = tt
    go (err empty_identity) e = tt
    go (err guest_role) e = tt
    go (err unknown_home) e = tt
    go (err (invalid_role s)) e = tt
    go (err (home_denied s)) e = tt
    go (err (store_error s)) e = tt
