-- ===== src/AliasFs/Tests.antt =====
-- Two aliases, one of them below the other.
use open_lore.Prelude.{
  ◌≤◌, ◌≡◌, ◌⊎◌, true, false, none, some, List, [], ◌∷◌, length, In, All, Text, text, refl, ◌==◌,
  has_prefix,
}
use open_lore.Path.{clean_path, path_within_root, replace_path_root}
use open_lore.Path.Clean.{clean_path-IsClean}
use open_lore.AliasFs.{PathAlias, current_aliases, canonical}
use open_lore.AliasFs.Longest.{IsCleanAlias, canonical_longest}
use open_lore.Path.Replace.{IsMoved}

abbrev aliases : List PathAlias
aliases =
    record { alias = text "/d"; target = text "/docs" }
    ∷ record { alias = text "/d/old"; target = text "/archive" }
    ∷ []

abbrev request : Text
request = text "/d/old/../old/a.md"

aliases_clean : All IsCleanAlias aliases
unfolding clean_path ◌==◌
aliases_clean = (
  (clean_path-IsClean (text "/d"), clean_path-IsClean (text "/docs")),
  ((clean_path-IsClean (text "/d/old"), clean_path-IsClean (text "/archive")), tt),
)

-- The longer alias is the one taken.
rewritten : (canonical (current_aliases aliases) request).0 ≡ text "/archive/a.md"
unfolding canonical current_aliases clean_path ◌==◌ path_within_root replace_path_root has_prefix
rewritten = refl

canonical_longest_example :
    ((canonical (current_aliases aliases) request ≡ (clean_path request, none))
      × ((b : PathAlias)
          → In b (current_aliases aliases)
          → path_within_root b.alias (clean_path request) ≡ false))
    ⊎ ((a : PathAlias) × ((canonical (current_aliases aliases) request).1 ≡ some a)
        × In a (current_aliases aliases)
        × (path_within_root a.alias (clean_path request) ≡ true)
        × ((b : PathAlias)
            → In b (current_aliases aliases)
            → path_within_root b.alias (clean_path request) ≡ true
            → length b.alias ≤ length a.alias)
        × ((a.alias ≡ text "/")
            ⊎ IsMoved a.alias a.target
                (clean_path request)
                (canonical (current_aliases aliases) request).0))
canonical_longest_example = canonical_longest aliases request aliases_clean
