-- ===== src/Server/Access.antt =====
-- `effectiveGrantNames` of pkg/openlore/authz.go: the grants of a caller on one docset.
pub mod Names
pub mod Sources
use open_lore.Prelude.{
  Bool, true, false, not, ◌&&◌, ◌||◌, none, some, List, [], ◌∷◌, ◌==◌, if◌then◌else◌, ltb, is_some,
  length, any, Text, text, text_lt, Result, lookup, contains, ok, err,
}
use open_lore.Config.{AuthConfig, DocsetSpec, primary_display_path}
use open_lore.Path.{path_within_root}
use open_lore.AuthorizationStore.{AuthorizationPolicy, PolicyError}
use open_lore.Identity.{Identity}
use open_lore.Server.{Server}
use open_lore.Server.Policy.{current_policy}

-- names[x] = true, for the map that serves as a set
pub add_name : Text → List Text → List Text
add_name x names = if contains names x then names else x ∷ names

-- sort.Strings
insert_text : Text → List Text → List Text
insert_text x [] = x ∷ []
insert_text x (y ∷ ys) = let rest = insert_text x ys in if text_lt y x then y ∷ rest else x ∷ y ∷ ys

pub sort_strings : List Text → List Text
unfolding insert_text
sort_strings [] = []
sort_strings (x ∷ xs) = insert_text x (sort_strings xs)

-- The policy of the caller: the snapshot that the session took, or the current one.
pub policy_for : Server → Identity → Result PolicyError AuthorizationPolicy
policy_for s id = elim id.policy_snapshot [ none ↦ current_policy s id | some policy ↦ ok policy ]

-- The grants that the roles are allowed on the docset; an empty or missing one counts for nothing.
pub role_grants : List (Text × Text) → List Text → List Text → List Text
unfolding add_name
role_grants allow [] names = names
role_grants allow (role ∷ roles) names = role_grants allow roles (elim (lookup role allow) [
  | none ↦ names
  | some grant ↦ if grant == [] then names else add_name grant names
])

-- A projection strictly below the home of the caller.
projected_below_home : AuthConfig → AuthorizationPolicy → DocsetSpec → Bool
projected_below_home auth policy ds =
    is_some ds.projection
    && not (policy.identity_name == text "guest")
    && not (policy.home_docset == [])
    && elim (lookup policy.home_docset auth.docsets) [
      | none ↦ false
      | some home ↦
          let home_root = primary_display_path home in
          let root = primary_display_path ds in
          not (home_root == [])
          && not (root == [])
          && not (root == home_root)
          && path_within_root home_root root
    ]

-- All that the loops and tests after the denials add.
granted_names : AuthConfig → AuthorizationPolicy → Text → DocsetSpec → List Text
unfolding role_grants projected_below_home
granted_names auth policy name ds =
    let from_roles = role_grants ds.access.allow policy.roles [] in
    let with_home =
      if not (policy.identity_name == text "guest") && policy.home_docset == name
      then add_name (text "rw") from_roles
      else from_roles in
    if projected_below_home auth policy ds then add_name (text "ro") with_home else with_home

-- The deny lists: of the delegate, by docset, and of the docset, by role.
is_denied : AuthorizationPolicy → Text → DocsetSpec → Bool
is_denied policy name ds =
    contains policy.deny_docsets name || any (contains policy.roles) ds.access.deny

grant_names_for : AuthConfig → AuthorizationPolicy → Text → List Text × Bool
unfolding granted_names is_denied sort_strings
grant_names_for auth policy name = elim (lookup name auth.docsets) [
  | none ↦ ([], false)
  | some ds ↦
      if is_denied policy name ds
      then ([], false)
      else let names = granted_names auth policy name ds in
        (sort_strings names, ltb 0 (length names))
]

-- The second part is Go's `ok`.
unfoldable pub effective_grant_names : Server → Identity → Text → List Text × Bool
unfolding grant_names_for policy_for
effective_grant_names s id name =
    if not s.auth_enforced
    then if name == text "public" then (text "rw" ∷ [], true) else ([], false)
    else elim (policy_for s id) [
      | err e ↦ ([], false)
      | ok policy ↦ grant_names_for s.auth policy name
    ]
