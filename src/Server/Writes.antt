-- ===== src/Server/Writes.antt =====
-- `identityWriteError` of pkg/openlore/authz.go and `mutationDeniedError` of
-- pkg/openlore/scoped_write_fs.go: the gate that every mutation of a session passes.
pub mod Tree
pub mod Gate
use open_lore.Prelude.{
  ℕ, Bool, true, false, not, ◌&&◌, ◌||◌, Option, none, some, List, ◌==◌, if◌then◌else◌, is_some,
  any, Text, text, Result, contains, ok, err,
}
use open_lore.Config.{DocsetSpec, PathMapping, display_path}
use open_lore.Path.{path_within_root, path_dir, is_dir_config_path}
use open_lore.Vfs.{
  Error, not_exist, read_only, permission, FileInfo, FileSystem, ChangeAction, write, mkdir,
  mkdir_all, remove, remove_all, set_xattr, remove_xattr, preserve_and_recreate_xattrs,
  migrate_xattrs, walk_dir,
}
use open_lore.Grants.{GrantType}
use open_lore.Identity.{Identity, scope_grants_write}
use open_lore.Server.{Server}
use open_lore.Server.Policy.{current_policy}
use open_lore.Server.Governing.{canonical_path, most_specific_docset, grants_for_path}

-- Why a mutation is denied, one constructor for each gate.
pub data Denial : Type 0 where
  server_readonly token_scope dir_config_role tree_config_role nested_boundary : Denial
  config_edit tree_config_edit no_grant projection docset_readonly xattr_grant grants_deny : Denial

-- The sentinel that the error wraps.
unfoldable pub sentinel : Denial → Error
sentinel dir_config_role = permission
sentinel tree_config_role = permission
sentinel config_edit = permission
sentinel tree_config_edit = permission
sentinel _ = read_only

abbrev pub is_remove_all : ChangeAction → Bool
is_remove_all remove_all = true
is_remove_all _ = false

-- The three actions that want an rw grant; `migrate_xattrs` is not among them.
abbrev pub wants_rw : ChangeAction → Bool
wants_rw set_xattr = true
wants_rw remove_xattr = true
wants_rw preserve_and_recreate_xattrs = true
wants_rw _ = false

-- identityHasDirConfigRole
unfoldable pub has_dir_config_role : Server → Identity → Text → Bool
has_dir_config_role s id target = elim (most_specific_docset s (path_dir (path_dir target))) [
  | none ↦ false
  | some (name, docset) ↦ elim docset.config [
    | none ↦ false
    | some config ↦ elim (current_policy s id) [
      | err e ↦ false
      | ok policy ↦ any (λ allowed. contains policy.roles allowed) config.edit
    ]
  ]
]

-- The callback of `canEditDirConfigsInTree`, over its variable `allowed`.
config_visit : Server → Identity → Bool → Text → Result Error FileInfo → Bool × Option Error
config_visit s id allowed candidate (err e) = (allowed, some e)
config_visit s id allowed candidate (ok info) = (
  if is_dir_config_path candidate && not (has_dir_config_role s id candidate)
      then false
      else allowed,
  none,
)

can_edit_result : Bool × Option Error → Bool
can_edit_result (allowed, none) = allowed
can_edit_result (allowed, some not_exist) = true
can_edit_result (allowed, some _) = false

-- canEditDirConfigsInTree, on fuel for the walk
unfoldable pub can_edit_dir_configs_in_tree : ℕ → Server → Identity → Text → Bool
unfolding config_visit can_edit_result
can_edit_dir_configs_in_tree fuel s id target =
    can_edit_result (walk_dir fuel s.merge (config_visit s id) target true)

-- treeContainsDirConfig: its callback never stops the walk
config_found : Bool → Text → Result Error FileInfo → Bool × Option Error
config_found found candidate (err e) = (found, none)
config_found found candidate (ok info) = (found || is_dir_config_path candidate, none)

unfoldable pub tree_contains_dir_config : ℕ → FileSystem → Text → Bool
unfolding config_found
tree_contains_dir_config fuel fsys target = (walk_dir fuel fsys config_found target false).0

-- mutationDeniedError
unfoldable pub mutation_denied_error : ℕ → FileSystem → ChangeAction → Text → Denial
unfolding tree_contains_dir_config
mutation_denied_error fuel fsys action target =
    if is_dir_config_path target
    then config_edit
    else if is_remove_all action && tree_contains_dir_config fuel fsys target
    then tree_config_edit
    else no_grant

-- Some docset root lies strictly below the path.
unfoldable pub crosses_boundary : Text → List (Text × DocsetSpec) → Bool
crosses_boundary p docsets =
    any
      (λ d.
        any (λ pm. let root = display_path pm in not (p == root) && path_within_root p root)
          d.1.paths)
      docsets

-- The tests on the docset and the grants that govern the path.
grant_denial : DocsetSpec → List GrantType → ChangeAction → Text → Option Denial
grant_denial ds grants action p =
    if is_some ds.projection
    then some projection
    else if elim ds.readonly [ none ↦ false | some b ↦ b ]
    then some docset_readonly
    else if wants_rw action
    then if any (λ grant. grant.name == text "rw") grants then none else some xattr_grant
    else if any (λ grant. grant.can_write ds action p) grants
    then none
    else some grants_deny

governed_denial : ℕ → Server → Identity → ChangeAction → Text → Option Denial
unfolding grant_denial
governed_denial fuel s id action p = elim (grants_for_path s id p) [
  | none ↦ some (mutation_denied_error fuel s.merge action p)
  | some (ds, grants) ↦ grant_denial ds grants action p
]

-- identityWriteError, none for nil. The session's policy snapshot is dropped first.
unfoldable pub identity_write_error : ℕ → Server → Identity → ChangeAction → Text → Option Denial
unfolding governed_denial
identity_write_error fuel s caller action path =
    let id = record caller { policy_snapshot = none } in
    let p = canonical_path s path in
    if s.readonly
    then some server_readonly
    else if not (scope_grants_write id.scopes)
    then some token_scope
    else if is_dir_config_path p && not (has_dir_config_role s id p)
    then some dir_config_role
    else if is_remove_all action && not (can_edit_dir_configs_in_tree fuel s id p)
    then some tree_config_role
    else if is_remove_all action && crosses_boundary p s.auth.docsets
    then some nested_boundary
    else governed_denial fuel s id action p

-- identityCanWrite
unfoldable pub identity_can_write : ℕ → Server → Identity → ChangeAction → Text → Bool
unfolding identity_write_error
identity_can_write fuel s id action p = not (is_some (identity_write_error fuel s id action p))
