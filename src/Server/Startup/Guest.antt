-- ===== src/Server/Startup/Guest.antt =====
-- A configuration that passes the check at startup lets the guest write nothing.
use open_lore.Prelude.{
  ℕ, ◌≡◌, sym, ap, ◌∙◌, ◌≢◌, inl, inr, true, false, ◌&&◌, Option, none, some, List, [], ◌∷◌, arith,
  ◌==◌, if◌then◌else◌, In, Text, text, eq_iff, Result, lookup, lookup-In, >>=-eq-ok, ok, err,
}
use mathlib.Core.Path.{subst}
use open_lore.Config.{AuthConfig, DocsetSpec}
use open_lore.AuthorizationStore.{AuthorizationPolicy}
use open_lore.Grants.{GrantType, GrantRegistry}
use open_lore.Vfs.{ChangeAction}
use open_lore.Identity.{Identity}
use open_lore.Server.{Server}
use open_lore.Server.Policy.{principal_of}
use open_lore.Server.Policy.Roles.{current_policy-IsAccepted, principal_of_fresh}
use open_lore.Server.Access.Sources.{
  Source, by_role, by_home, by_projection, effective_grant_names-HasGrant, policy_for_fresh,
}
use open_lore.Server.Governing.{canonical_path}
use open_lore.Server.Governing.Registered.{grants_for_path-registered}
use open_lore.Server.Writes.{identity_write_error}
use open_lore.Server.Writes.Gate.{fresh, Permits, identity_write_error-none_iff}
use open_lore.Server.Startup.{
  check_allow, check_access, validate_grants, StartupError, unregistered_grant, guest_writable,
}

-- The contract of a grant type: one that never permits writes permits none, and is not the one
-- named "rw".
abbrev pub IsHonest : GrantRegistry → Type 0
IsHonest types =
    (name : Text) (g : GrantType)
    → lookup name types ≡ some g
    → g.allows_write ≡ false
    → (g.name ≢ text "rw")
      × ((ds : DocsetSpec) (action : ChangeAction) (p : Text) → g.can_write ds action p ≡ false)

check_allow_guest :
    (types : GrantRegistry) (allow : List (Text × Text)) (grant : Text) (g : GrantType)
    → check_allow types allow ≡ ok tt
    → In (text "guest", grant) allow
    → lookup grant types ≡ some g
    → g.allows_write ≡ false
unfolding check_allow
check_allow_guest types [] grant g h m e = absurd m
check_allow_guest types ((role, name) ∷ allow) grant g h (inl same) e =
    here (lookup name types) (subst (λ n. lookup n types ≡ some g) (ap (λ x. x.1) same) e) h
  where
    here :
        (o : Option GrantType)
        → o ≡ some g
        → (let r : Result StartupError (Unit {0}) = elim o [
          | none ↦ err unregistered_grant
          | some x ↦
              if role == text "guest" && x.allows_write
              then err guest_writable
              else check_allow types allow
        ] in
            r)
          ≡ ok tt
        → g.allows_write ≡ false
    here none f k = cc
    here (some x) f k =
        let same_grant : x ≡ g = cc in
        rw (← same_grant)
          (ground (arith, (eq_iff role (text "guest")).1 (sym (ap (λ y. y.0) same))))
check_allow_guest types ((role, name) ∷ allow) grant g h (inr m) e =
    check_allow_guest types allow grant g (later (lookup name types) h) m e
  where
    later :
        (o : Option GrantType)
        → (let r : Result StartupError (Unit {0}) = elim o [
          | none ↦ err unregistered_grant
          | some x ↦
              if role == text "guest" && x.allows_write
              then err guest_writable
              else check_allow types allow
        ] in
            r)
          ≡ ok tt
        → check_allow types allow ≡ ok tt
    later none k = cc
    later (some x) k = ground arith

check_access_allow :
    (types : GrantRegistry) (docsets : List (Text × DocsetSpec)) (d : Text × DocsetSpec)
    → check_access types docsets ≡ ok tt
    → In d docsets
    → check_allow types d.1.access.allow ≡ ok tt
unfolding check_access
check_access_allow types [] d h m = absurd m
check_access_allow types ((name, ds) ∷ docsets) d h m =
    let (u, first, rest) =
      >>=-eq-ok (check_allow types ds.access.allow) (λ _. check_access types docsets) h in
    elim m [ inl e ↦ rw e first | inr k ↦ check_access_allow types docsets d rest k ]

validate_grants-access :
    (s : Server)
    → s.auth_enforced ≡ true
    → validate_grants s ≡ ok tt
    → check_access s.grants s.auth.docsets ≡ ok tt
unfolding validate_grants
validate_grants-access s on h =
    let (u, first, rest) = >>=-eq-ok (check_access s.grants s.auth.docsets) _ (rw on at h) in first

-- The grant that a source gives the guest is the one that the docset allows the role "guest".
guest-Source :
    (auth : AuthConfig) (policy : AuthorizationPolicy) (name : Text) (ds : DocsetSpec) (g : Text)
    → policy.identity_name ≡ text "guest"
    → policy.roles ≡ text "guest" ∷ []
    → Source auth policy name ds g
    → In (text "guest", g) ds.access.allow
guest-Source auth policy name ds g named roles (by_role role m e) = elim (subst (In role) roles m) [
  | inl same ↦ lookup-In (text "guest") g ds.access.allow (rw same at e)
  | inr n ↦ absurd n
]
guest-Source auth policy name ds g named roles (by_home ne h e) = absurd (ne named)
guest-Source auth policy name ds g named roles (by_projection ne h below e) = absurd (ne named)

not-Permits :
    (ds : DocsetSpec) (action : ChangeAction) (p : Text) (g : GrantType)
    → g.name ≢ text "rw"
    → g.can_write ds action p ≡ false
    → ¬ Permits ds action p g
not-Permits ds action p g ne no_write (inl (w, e)) = ne e
not-Permits ds action p g ne no_write (inr (w, e)) = cc

-- Where authorization is enforced, the configuration has passed the check at startup, and the grant
-- types keep their contract, no mutation of a caller whose identity is the guest is let through.
pub guest_cannot_write :
    (fuel : ℕ) (s : Server) (id : Identity) (action : ChangeAction) (path : Text)
    → s.auth_enforced ≡ true
    → validate_grants s ≡ ok tt
    → IsHonest s.grants
    → (principal_of id).identity_name ≡ text "guest"
    → identity_write_error fuel s id action path ≢ none
guest_cannot_write fuel s id action path on valid honest guest allowed =
    let may = (identity_write_error-none_iff fuel s id action path).0 allowed in
    let granted = may.granted in
    let p = canonical_path s path in
    let (docset, found, (name, listed, registered_as)) =
      grants_for_path-registered s (fresh id) p granted.docset granted.grants granted.grant
        granted.governed granted.granted in
    let has = effective_grant_names-HasGrant s (fresh id) docset name on listed in
    let accepted =
      current_policy-IsAccepted s (fresh id) has.policy
        (sym (policy_for_fresh s id) ∙ has.applies) in
    let roles = (accepted.guest (principal_of_fresh id ∙ guest)).0 in
    let entry =
      guest-Source s.auth has.policy docset has.docset name
        (accepted.same_identity ∙ principal_of_fresh id ∙ guest) roles has.source in
    let ok_allow =
      check_access_allow s.grants s.auth.docsets (docset, has.docset)
        (validate_grants-access s on valid)
        (lookup-In docset has.docset s.auth.docsets has.configured) in
    let no_write =
      check_allow_guest s.grants has.docset.access.allow name granted.grant ok_allow entry
        registered_as in
    let (other_name, no_can) = honest name granted.grant registered_as no_write in
    not-Permits granted.docset action p granted.grant other_name (no_can granted.docset action p)
      granted.permits
