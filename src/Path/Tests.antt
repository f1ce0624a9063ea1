-- ===== src/Path/Tests.antt =====
-- Paths as a client may send them, and the theorems on paths at some of them.
use open_lore.Prelude.{
  ◌≡◌, refl, ◌≢◌, ◌↔◌, true, List, [], ◌∷◌, ◌++◌, ◌==◌, All, Text, text, has_prefix,
}
use open_lore.Path.{slash, split_slash, clean_path, path_within_root, render}
use open_lore.Path.Clean.{
  IsPart, IsClean, elements, elements-All, clean_path-IsClean, GoesUp, clean_path_lem,
}
use open_lore.Path.Within.{Begins, path_within_root_iff}

dots_are_resolved : clean_path (text "/../docs//./x/../a.md") ≡ text "/docs/a.md"
unfolding clean_path ◌==◌
dots_are_resolved = refl

abbrev file_parts : List Text
file_parts = text "docs" ∷ text "a.md" ∷ []

file_parts-All : All IsPart file_parts
unfolding elements ◌==◌ split_slash
file_parts-All = elements-All (text "/docs/a.md")

docs-All : All IsPart (text "docs" ∷ [])
unfolding elements ◌==◌ split_slash
docs-All = elements-All (text "/docs")

clean_path_lem_example :
    ((clean_path (text "/x/..") ≡ text "/x/..") ↔ IsClean (text "/x/.."))
    × (clean_path [] ≡ text "/")
    × (clean_path (text "/x/.." ++ text "/") ≡ clean_path (text "/x/.."))
    × (clean_path (text "/x/.." ++ text "/.") ≡ clean_path (text "/x/.."))
    × GoesUp (text "/x/..")
    × ((ps : List Text) × All IsPart ps
        × (clean_path (text "/x/..") ≡ render ps)
        × (clean_path (text "/x/.." ++ slash ∷ text "docs") ≡ render (ps ++ text "docs" ∷ [])))
clean_path_lem_example = clean_path_lem (text "/x/..") (text "docs") docs-All.0

home-All : All IsPart (text "home" ∷ [])
unfolding elements ◌==◌ split_slash
home-All = elements-All (text "/home")

not_nothing : ◌≢◌ {A = List Text} (text "docs" ∷ []) []
not_nothing e = cc

path_within_root_iff_example :
    (path_within_root (render (text "docs" ∷ [])) (render file_parts) ≡ true)
    ↔ Begins (text "docs" ∷ []) file_parts
path_within_root_iff_example =
    path_within_root_iff (text "docs" ∷ []) file_parts docs-All file_parts-All

docs_IsClean : IsClean (text "/docs")
unfolding clean_path ◌==◌
docs_IsClean = clean_path-IsClean (text "/docs")

root_IsClean : IsClean (text "/")
unfolding clean_path ◌==◌
root_IsClean = clean_path-IsClean (text "/")

home_IsClean : IsClean (text "/home")
unfolding clean_path ◌==◌
home_IsClean = clean_path-IsClean (text "/home")

file_IsClean : IsClean (text "/docs/a.md")
unfolding clean_path ◌==◌
file_IsClean = clean_path-IsClean (text "/docs/a.md")

root_contains : path_within_root (text "/") (text "/docs/a.md") ≡ true
unfolding path_within_root has_prefix ◌==◌
root_contains = refl

docs_contains : path_within_root (text "/docs") (text "/docs/a.md") ≡ true
unfolding path_within_root has_prefix ◌==◌
docs_contains = refl

not_root : text "/docs" ≢ text "/"
not_root e = cc
