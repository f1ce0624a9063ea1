-- ===== src/Server/Startup.antt =====
-- `validateGrantsFor` of pkg/openlore/authz.go: what a configuration must satisfy before it is served.
pub mod Guest
use open_lore.Prelude.{
  ℕ, suc, Bool, true, false, not, ◌&&◌, ◌||◌, none, some, List, [], ◌∷◌, ◌++◌, map, ◌==◌,
  if◌then◌else◌, ltb, nat_eq, is_some, length, Text, text, has_prefix, Result, ◌>>=◌, lookup, put,
  ◌>>◌, ok, err,
}
use open_lore.Config.{AuthConfig, DocsetSpec, PathMapping, display_path}
use open_lore.Path.{clean_path, path_within_root}
use open_lore.Grants.{GrantType, GrantRegistry}
use open_lore.Server.{Server}

pub data StartupError : Type 0 where
  unregistered_grant guest_writable shared_root alias_without_path alias_not_absolute : StartupError
  alias_not_normal alias_overlaps : StartupError

-- The grants of one access block.
check_allow : GrantRegistry → List (Text × Text) → Result StartupError (Unit {0})
check_allow types [] = ok tt
check_allow types ((role, grant) ∷ rest) = elim (lookup grant types) [
  | none ↦ err unregistered_grant
  | some g ↦
      if role == text "guest" && g.allows_write then err guest_writable else check_allow types rest
]

pub check_access : GrantRegistry → List (Text × DocsetSpec) → Result StartupError (Unit {0})
unfolding check_allow
check_access types [] = ok tt
check_access types ((name, ds) ∷ rest) =
    check_allow types ds.access.allow >> check_access types rest

-- The display roots in the order of the loops, each with its docset.
pub named_roots : List (Text × DocsetSpec) → List (Text × Text)
named_roots [] = []
named_roots ((name, ds) ∷ rest) = map (λ pm. (display_path pm, name)) ds.paths ++ named_roots rest

-- No display root occurs twice; `owner` is the map of those passed.
pub check_owners : List (Text × Text) → List (Text × Text) → Result StartupError (Unit {0})
check_owners owner [] = ok tt
check_owners owner ((root, name) ∷ rest) =
    if is_some (lookup root owner) then err shared_root else check_owners (put root name owner) rest

pub record RootSpec : Type 0 where
  pub docset : Text
  pub path : Text
  pub alias : Bool
  pub mount : Bool

-- The aliases of one docset.
alias_roots : Text → List Text → Result StartupError (List RootSpec)
alias_roots name [] = ok []
alias_roots name (raw ∷ aliases) =
    if not (has_prefix raw (text "/"))
    then err alias_not_absolute
    else if not (clean_path raw == raw)
    then err alias_not_normal
    else alias_roots name aliases >>= λ rest.
        ok (record { docset = name; path = clean_path raw; alias = true; mount = false } ∷ rest)

docset_root_specs : Text → DocsetSpec → Result StartupError (List RootSpec)
unfolding alias_roots
docset_root_specs name ds =
    if ltb 0 (length ds.aliases) && nat_eq (length ds.paths) 0
    then err alias_without_path
    else alias_roots name ds.aliases >>= λ aliases. ok (
        map (λ pm. record { docset = name; path = display_path pm; alias = false; mount = false })
          ds.paths
        ++ aliases)

pub root_specs : List (Text × DocsetSpec) → Result StartupError (List RootSpec)
unfolding docset_root_specs
root_specs [] = ok []
root_specs ((name, ds) ∷ rest) =
    docset_root_specs name ds >>= λ here. root_specs rest >>= λ later. ok (here ++ later)

mount_root : Text → RootSpec
mount_root mount = record { docset = text "<mount>"; path = mount; alias = false; mount = true }

-- The pair is refused: the two overlap, and the other root is no docset root strictly around the alias.
pub is_conflict : RootSpec → RootSpec → Bool
is_conflict candidate other =
    (path_within_root candidate.path other.path || path_within_root other.path candidate.path)
    && not (
        not other.alias
        && not other.mount
        && not (other.path == candidate.path)
        && path_within_root other.path candidate.path)

-- The inner loop, over the roots with their places from `j` on.
pub conflicts_from : ℕ → RootSpec → ℕ → List RootSpec → Bool
unfolding is_conflict
conflicts_from i candidate j [] = false
conflicts_from i candidate j (other ∷ rest) =
    (not (nat_eq i j) && is_conflict candidate other) || conflicts_from i candidate (suc j) rest

pub check_overlaps : List RootSpec → ℕ → List RootSpec → Result StartupError (Unit {0})
unfolding conflicts_from
check_overlaps roots i [] = ok tt
check_overlaps roots i (candidate ∷ rest) =
    if candidate.alias && conflicts_from i candidate 0 roots
    then err alias_overlaps
    else check_overlaps roots (suc i) rest

unfoldable pub validate_grants : Server → Result StartupError (Unit {0})
unfolding check_access named_roots check_owners root_specs mount_root check_overlaps
validate_grants s = if not s.auth_enforced then ok tt else (do
  check_access s.grants s.auth.docsets
  check_owners [] (named_roots s.auth.docsets)
  specs ← root_specs s.auth.docsets
  let roots = specs ++ map mount_root s.mount_paths
  check_overlaps roots 0 roots)
