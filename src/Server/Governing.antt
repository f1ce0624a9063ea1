-- ===== src/Server/Governing.antt =====
-- Which docset governs a path: `canonicalPath`, `mostSpecificDocset`, `grantsForPath`,
-- `allDocsetRoots` and `readableRoots` of pkg/openlore/authz.go.
pub mod Order
pub mod Root
pub mod Canonical
pub mod Boundary
pub mod Readable
pub mod Registered
use open_lore.Prelude.{
  ℕ, Bool, true, not, ◌&&◌, ◌||◌, Option, none, some, List, [], ◌∷◌, ◌++◌, map, ◌==◌, if◌then◌else◌,
  ltb, nat_eq, length, any, Text, text_lt, lookup,
}
use open_lore.Config.{DocsetSpec, PathMapping, display_path, primary_display_path}
use open_lore.Path.{clean_path, path_within_root, replace_path_root}
use open_lore.Grants.{GrantType, GrantRegistry}
use open_lore.Identity.{Identity}
use open_lore.Server.{Server}
use open_lore.Server.Access.{effective_grant_names}

-- The loops of `canonicalPath`, with `bestAlias` and `bestTarget` as one pair.
pub scan_aliases : Text → Text → Text × Text → List Text → Text × Text
scan_aliases clean target best [] = best
scan_aliases clean target best (raw ∷ aliases) =
    let alias = clean_path raw in
    scan_aliases clean target
      (if path_within_root alias clean && ltb (length best.0) (length alias)
        then (alias, target)
        else best)
      aliases

pub scan_docset_aliases : Text → Text × Text → List (Text × DocsetSpec) → Text × Text
unfolding scan_aliases
scan_docset_aliases clean best [] = best
scan_docset_aliases clean best ((name, ds) ∷ rest) =
    scan_docset_aliases clean (scan_aliases clean (primary_display_path ds) best ds.aliases) rest

unfoldable pub canonical_path : Server → Text → Text
unfolding scan_docset_aliases
canonical_path s p =
    let clean = clean_path p in
    let best = scan_docset_aliases clean ([], []) s.auth.docsets in
    if best.0 == [] then clean else replace_path_root clean best.0 best.1

-- `bestLen`, `bestName` and `bestDS`; none stands for the length -1.
pub record Best : Type 0 where
  pub len : ℕ
  pub name : Text
  pub docset : DocsetSpec

pub is_better : ℕ → Text → Option Best → Bool
is_better len name none = true
is_better len name (some best) = ltb best.len len || (nat_eq len best.len && text_lt name best.name)

pub scan_paths : Text → Text → DocsetSpec → Option Best → List PathMapping → Option Best
unfolding is_better
scan_paths clean name ds best [] = best
scan_paths clean name ds best (pm ∷ paths) =
    let root = display_path pm in
    scan_paths clean name ds
      (if path_within_root root clean && is_better (length root) name best
        then some (record { len = length root; name = name; docset = ds })
        else best)
      paths

pub scan_docsets : Text → Option Best → List (Text × DocsetSpec) → Option Best
unfolding scan_paths
scan_docsets clean best [] = best
scan_docsets clean best ((name, ds) ∷ rest) =
    scan_docsets clean (scan_paths clean name ds best ds.paths) rest

-- mostSpecificDocset, none where Go's `ok` is false
unfoldable pub most_specific_docset : Server → Text → Option (Text × DocsetSpec)
unfolding scan_docsets
most_specific_docset s p = elim (scan_docsets (canonical_path s p) none s.auth.docsets) [
  | none ↦ none
  | some best ↦ some (best.name, best.docset)
]

-- The registered grants among the names.
unfoldable pub registered : GrantRegistry → List Text → List GrantType
registered types [] = []
registered types (name ∷ names) =
    let rest = registered types names in
    elim (lookup name types) [ none ↦ rest | some grant ↦ grant ∷ rest ]

-- grantsForPath, none where Go's `ok` is false
unfoldable pub grants_for_path : Server → Identity → Text → Option (DocsetSpec × List GrantType)
unfolding registered
grants_for_path s id p = elim (most_specific_docset s p) [
  | none ↦ none
  | some (name, ds) ↦
      let (names, found) = effective_grant_names s id name in
      if not found
      then none
      else let grants = registered s.grants names in
        if ltb 0 (length grants) then some (ds, grants) else none
]

-- allDocsetRoots
unfoldable pub docset_roots : List (Text × DocsetSpec) → List Text
docset_roots [] = []
docset_roots ((name, ds) ∷ rest) = map display_path ds.paths ++ docset_roots rest

-- The roots of one docset that some grant lets the caller read.
pub readable_paths : List GrantType → DocsetSpec → List PathMapping → List Text
readable_paths grants ds [] = []
readable_paths grants ds (pm ∷ paths) =
    let root = display_path pm in
    let rest = readable_paths grants ds paths in
    if any (λ grant. grant.can_read ds root) grants then root ∷ rest else rest

pub readable_docsets : Server → Identity → List (Text × DocsetSpec) → List Text
unfolding readable_paths registered
readable_docsets s id [] = []
readable_docsets s id ((name, ds) ∷ rest) =
    let (names, found) = effective_grant_names s id name in
    (if found then readable_paths (registered s.grants names) ds ds.paths else [])
    ++ readable_docsets s id rest

-- readableRoots
unfoldable pub readable_roots : Server → Identity → List Text
unfolding readable_docsets
readable_roots s id = readable_docsets s id s.auth.docsets ++ s.system_mount_paths
