-- ===== src/ScopedRead.antt =====
-- `scopedReadFS` of pkg/openlore/authz.go: the reads of a session, confined to its readable roots. The
-- mutations of the type pass straight to the wrapped filesystem and are not repeated here.
pub mod Within
pub mod Session
mod Tests
use open_lore.Prelude.{
  ℕ, Bool, true, false, not, ◌&&◌, ◌||◌, List, [], ◌∷◌, ◌++◌, map, ◌==◌, if◌then◌else◌, ltb, length,
  any, keep, Text, text, has_prefix, Result, ◌>>=◌, ok, err,
}
use open_lore.Path.{slash, clean_path, path_within_root}
use open_lore.Vfs.{Error, not_exist, FileInfo, FileSystem}

pub record ScopedReadFs : Type 0 where
  pub base : FileSystem
  pub roots : List Text
  pub boundaries : List Text

-- newScopedReadFS
unfoldable pub new_scoped_read_fs : FileSystem → List Text → List Text → ScopedReadFs
new_scoped_read_fs base roots boundaries = record {
  base = base;
  roots = map clean_path roots;
  boundaries = map clean_path boundaries;
}

-- The loops that find `bestRoot` and `bestBoundary`, "" where no root contains the path.
pub longest_root : Text → Text → List Text → Text
longest_root clean best [] = best
longest_root clean best (root ∷ roots) =
    longest_root clean
      (if path_within_root root clean && (best == [] || ltb (length best) (length root))
        then root
        else best)
      roots

-- A boundary other than the path lies below it, so that the path is only a container.
leads_to_boundary : Text → List Text → Bool
leads_to_boundary clean [] = false
leads_to_boundary clean (boundary ∷ boundaries) =
    let rest = leads_to_boundary clean boundaries in
    if boundary == clean
    then rest
    else if clean == text "/" || has_prefix boundary (clean ++ text "/")
    then true
    else rest

-- within
unfoldable pub within : ScopedReadFs → Text → Bool
unfolding longest_root leads_to_boundary
within s p =
    let clean = clean_path p in
    let best_root = longest_root clean [] s.roots in
    if best_root == []
    then false
    else if best_root == text "/" && leads_to_boundary clean s.boundaries
    then false
    else not (ltb (length best_root) (length (longest_root clean [] s.boundaries)))

-- ancestor
unfoldable pub ancestor : ScopedReadFs → Text → Bool
ancestor s p =
    let clean = clean_path p in
    if clean == text "/" then true else any (λ root. has_prefix root (clean ++ text "/")) s.roots

-- readable
unfoldable pub readable : ScopedReadFs → Text → Bool
unfolding within ancestor
readable s p = within s p || ancestor s p

-- Stat
unfoldable pub stat : ScopedReadFs → Text → Result Error FileInfo
stat s p = if not (readable s p) then err not_exist else s.base.stat p

-- ReadFile
unfoldable pub read_file : ScopedReadFs → Text → Result Error (List ℕ)
read_file s p = if not (within s p) then err not_exist else s.base.read_file p

-- The path of an entry of the directory.
unfoldable pub child_path : Text → Text → Text
child_path clean name = if clean == text "/" then slash ∷ name else clean ++ slash ∷ name

-- ReadDir
unfoldable pub read_dir : ScopedReadFs → Text → Result Error (List FileInfo)
unfolding child_path
read_dir s p =
    if not (readable s p)
    then err not_exist
    else s.base.read_dir p >>= λ entries.
        ok (keep (λ e. readable s (child_path (clean_path p) e.file_name)) entries)
