-- ===== src/Server/Access/Sources.antt =====
-- Where the grants of a caller on a docset come from, and that a denial takes them all away.
use open_lore.Prelude.{
  ◌≡◌, refl, ◌≢◌, ◌⊎◌, inl, inr, Bool, true, false, not, ◌&&◌, Option, none, some, List, [], arith,
  ◌==◌, if◌then◌else◌, ltb, Bool-cases, is_some, length, In, In-any, Text, text, eq_iff, Result,
  lookup, contains, In-contains, ok, err,
}
use open_lore.Config.{AuthConfig, DocsetSpec}
use open_lore.AuthorizationStore.{AuthorizationPolicy, PolicyError}
use open_lore.Identity.{Identity}
use open_lore.Server.{Server}
use open_lore.Server.Policy.{current_policy}
use open_lore.Config.{primary_display_path}
use open_lore.Path.{path_within_root}
use open_lore.Server.Access.Names.{add_name-In, sort_strings-In, role_grants-In}
use open_lore.Server.Access.{
  add_name, sort_strings, policy_for, role_grants, projected_below_home, granted_names, is_denied,
  grant_names_for, effective_grant_names,
}

-- The first root of the docset is in the first root of the caller's home and is not that root.
abbrev pub IsBelowHome : AuthConfig → AuthorizationPolicy → DocsetSpec → Type 0
IsBelowHome auth policy ds =
    (home : DocsetSpec) × (lookup policy.home_docset auth.docsets ≡ some home)
    × (path_within_root (primary_display_path home) (primary_display_path ds) ≡ true)
    × (primary_display_path ds ≢ primary_display_path home)

-- The reason for one grant name: a role of the caller that the docset allows it, the caller's home,
-- or a projection, below the home of a caller that is not the guest.
pub data Source (auth : AuthConfig) (policy : AuthorizationPolicy) (name : Text) (ds : DocsetSpec)
    (g : Text) : Type 0 where
  by_role :
      (role : Text)
      → In role policy.roles
      → lookup role ds.access.allow ≡ some g
      → Source auth policy name ds g
  by_home :
      policy.identity_name ≢ text "guest"
      → policy.home_docset ≡ name
      → g ≡ text "rw"
      → Source auth policy name ds g
  by_projection :
      policy.identity_name ≢ text "guest"
      → ds.projection ≢ none
      → IsBelowHome auth policy ds
      → g ≡ text "ro"
      → Source auth policy name ds g

is_some-ne : {A : Type 0} (o : Option A) → is_some o ≡ true → o ≢ none
is_some-ne none h e = cc
is_some-ne (some a) h e = cc

ne_of_not : (a b : Text) → (a == b) ≡ false → a ≢ b
ne_of_not a b h e = cc ((eq_iff a b).1 e)

below_home :
    (auth : AuthConfig) (policy : AuthorizationPolicy) (ds : DocsetSpec) (o : Option DocsetSpec)
    → lookup policy.home_docset auth.docsets ≡ o
    → (let r : Bool = elim o [
      | none ↦ false
      | some home ↦
          let home_root = primary_display_path home in
          let root = primary_display_path ds in
          not (home_root == [])
          && not (root == [])
          && not (root == home_root)
          && path_within_root home_root root
    ] in
        r)
      ≡ true
    → IsBelowHome auth policy ds
below_home auth policy ds none e h = cc
below_home auth policy ds (some home) e h = (
  home,
  e,
  ground arith,
  ne_of_not (primary_display_path ds) (primary_display_path home) (ground arith),
)

projected_below_home-IsBelowHome :
    (auth : AuthConfig) (policy : AuthorizationPolicy) (ds : DocsetSpec)
    → projected_below_home auth policy ds ≡ true
    → IsBelowHome auth policy ds
unfolding projected_below_home
projected_below_home-IsBelowHome auth policy ds h =
    below_home auth policy ds (lookup policy.home_docset auth.docsets) refl (ground arith)

granted_names-Source :
    (auth : AuthConfig) (policy : AuthorizationPolicy) (name : Text) (ds : DocsetSpec) (g : Text)
    → In g (granted_names auth policy name ds)
    → Source auth policy name ds g
unfolding granted_names projected_below_home
granted_names-Source auth policy name ds g h =
    projection (Bool-cases (projected_below_home auth policy ds)) h
  where
    from_roles : List Text
    from_roles = role_grants ds.access.allow policy.roles []

    owns : Bool
    owns = not (policy.identity_name == text "guest") && policy.home_docset == name

    with_home : List Text
    with_home = if owns then add_name (text "rw") from_roles else from_roles

    roles : In g from_roles → Source auth policy name ds g
    roles m = elim (role_grants-In ds.access.allow policy.roles [] g m) [
      | inl (role, k, e) ↦ by_role role k e
      | inr n ↦ absurd n
    ]

    home : (owns ≡ true) ⊎ (owns ≡ false) → In g with_home → Source auth policy name ds g
    home (inr e) m = roles (rw e at m)
    home (inl e) m = elim (add_name-In g (text "rw") from_roles (rw e at m)) [
      | inl same ↦
          by_home (ne_of_not policy.identity_name (text "guest") (ground arith))
            ((eq_iff policy.home_docset name).0 (ground arith)) same
      | inr n ↦ roles n
    ]

    projection :
        (projected_below_home auth policy ds ≡ true) ⊎ (projected_below_home auth policy ds ≡ false)
        → In g (
            if projected_below_home auth policy ds
            then add_name (text "ro") with_home
            else with_home)
        → Source auth policy name ds g
    projection (inr e) m = home (Bool-cases owns) (rw e at m)
    projection (inl e) m = elim (add_name-In g (text "ro") with_home (rw e at m)) [
      | inl same ↦
          by_projection (ne_of_not policy.identity_name (text "guest") (ground (arith, e)))
            (is_some-ne ds.projection (ground (arith, e)))
            (projected_below_home-IsBelowHome auth policy ds e) same
      | inr n ↦ home (Bool-cases owns) n
    ]

-- The docset is not on the deny list of the policy, and denies none of its roles.
abbrev pub IsNotDenied : AuthorizationPolicy → Text → DocsetSpec → Type 0
IsNotDenied policy name ds =
    (¬ In name policy.deny_docsets)
    × ((role : Text) → In role ds.access.deny → In role policy.roles → ⊥)

IsNotDenied-of :
    (policy : AuthorizationPolicy) (name : Text) (ds : DocsetSpec)
    → is_denied policy name ds ≡ false
    → IsNotDenied policy name ds
unfolding is_denied
IsNotDenied-of policy name ds h = (
  λ m. ground (arith, In-contains policy.deny_docsets name m),
  λ role m k. ground (
    arith,
    In-contains policy.roles role k,
    In-any (contains policy.roles) ds.access.deny role m,
  ),
)

-- A caller has a grant on a docset only by the policy that applies to it, only if neither the
-- policy nor the docset denies it, and only from one of the three sources.
pub record HasGrant (s : Server) (id : Identity) (name g : Text) : Type 0 where
  pub policy : AuthorizationPolicy
  pub applies : policy_for s id ≡ ok policy
  pub docset : DocsetSpec
  pub configured : lookup name s.auth.docsets ≡ some docset
  pub not_denied : IsNotDenied policy name docset
  pub source : Source s.auth policy name docset g

grant_names_for-Source :
    (auth : AuthConfig) (policy : AuthorizationPolicy) (name g : Text)
    → In g (grant_names_for auth policy name).0
    → (ds : DocsetSpec) × (lookup name auth.docsets ≡ some ds)
      × (is_denied policy name ds ≡ false)
      × Source auth policy name ds g
unfolding grant_names_for
grant_names_for-Source auth policy name g h = go (lookup name auth.docsets) refl h
  where
    Found : Type 0
    Found =
        (ds : DocsetSpec) × (lookup name auth.docsets ≡ some ds)
        × (is_denied policy name ds ≡ false)
        × Source auth policy name ds g

    go :
        (o : Option DocsetSpec)
        → lookup name auth.docsets ≡ o
        → In g (
            let r : List Text × Bool = elim o [
              | none ↦ ([], false)
              | some ds ↦
                  if is_denied policy name ds
                  then ([], false)
                  else let names = granted_names auth policy name ds in
                    (sort_strings names, ltb 0 (length names))
            ] in
            r.0)
        → Found
    go none e m = absurd m
    go (some ds) e m = elim (Bool-cases (is_denied policy name ds)) [
      | inl d ↦ absurd (rw d at m)
      | inr d ↦
          (ds, e, d, granted_names-Source auth policy name ds g (sort_strings-In g _ (rw d at m)))
    ]

-- Where authorization is enforced, a caller has a grant on a docset only if the docset is
-- configured, a policy applies to the caller, neither the deny list of the policy nor the roles
-- that the docset denies exclude the caller, and the grant comes from a role that the docset allows
-- it, is "rw" on the caller's home, or is "ro" on a projection below the home of a caller other
-- than the guest.
pub effective_grant_names-HasGrant :
    (s : Server) (id : Identity) (name g : Text)
    → s.auth_enforced ≡ true
    → In g (effective_grant_names s id name).0
    → HasGrant s id name g
unfolding effective_grant_names
effective_grant_names-HasGrant s id name g on h = go (policy_for s id) refl (rw on at h)
  where
    go :
        (r : Result PolicyError AuthorizationPolicy)
        → policy_for s id ≡ r
        → In g (
            let q : List Text × Bool = elim r [
              | err e ↦ ([], false)
              | ok policy ↦ grant_names_for s.auth policy name
            ] in
            q.0)
        → HasGrant s id name g
    go (err e) p m = absurd m
    go (ok policy) p m =
        let (ds, configured, d, source) = grant_names_for-Source s.auth policy name g m in
        record {
          policy = policy;
          applies = p;
          docset = ds;
          configured = configured;
          not_denied = IsNotDenied-of policy name ds d;
          source = source;
        }

-- Without a snapshot the current policy applies.
pub policy_for_fresh :
    (s : Server) (id : Identity)
    → policy_for s (record id { policy_snapshot = none })
      ≡ current_policy s (record id { policy_snapshot = none })
unfolding policy_for
policy_for_fresh s id = refl
