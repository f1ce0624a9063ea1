-- ===== src/Path.antt =====
-- Display paths: `CleanPath` (pkg/vfs/vfs.go), `pathWithinRoot` (pkg/openlore/server.go),
-- `replacePathRoot` (pkg/openlore/alias_fs.go), `IsDirConfigPath` (pkg/rules/engine.go), over Go's
-- package `path`, of which what the code uses is written out here for rooted paths.
mod Split
pub mod Clean
pub mod Within
pub mod Parent
pub mod Replace
mod Tests
unfoldable pub use Split.{split_slash}
pub use Split.{NoSlash}
use open_lore.Prelude.{
  ℕ, Bool, true, false, not, ◌&&◌, ◌||◌, List, [], ◌∷◌, ◌++◌, ◌==◌, if◌then◌else◌, nat_eq, length,
  any, Text, text, has_prefix, drop, has_byte,
}

abbrev pub slash : ℕ
slash = b'/'

-- All but the last element.
init {ℓ} : {A : Type ℓ} → List A → List A
init [] = []
init (x ∷ []) = []
init (x ∷ y ∷ xs) = x ∷ init (y ∷ xs)

-- One element of a rooted path under `path.Clean`: empty and "." elements are dropped, ".." takes
-- away the element before it, if there is one.
clean_step : List Text → Text → List Text
unfolding init
clean_step done part =
    if part == [] || part == text "."
    then done
    else if part == text ".."
    then init done
    else done ++ part ∷ []

pub clean_parts : List Text → List Text → List Text
unfolding clean_step
clean_parts done [] = done
clean_parts done (part ∷ parts) = clean_parts (clean_step done part) parts

-- Each element after a slash.
pub join : List Text → Text
join [] = []
join (part ∷ parts) = slash ∷ (part ++ join parts)

-- The rooted path with these elements.
unfoldable pub render : List Text → Text
unfolding join
render [] = text "/"
render (part ∷ parts) = join (part ∷ parts)

-- path.Clean on a path that begins with a slash
path_clean : Text → Text
unfolding clean_parts split_slash render
path_clean p = render (clean_parts [] (split_slash p))

-- vfs.CleanPath
unfoldable pub clean_path : Text → Text
unfolding path_clean
clean_path p = let c = path_clean (slash ∷ p) in if c == text "." then text "/" else c

-- pathWithinRoot
unfoldable pub path_within_root : Text → Text → Bool
path_within_root root p =
    if root == text "/" then true else p == root || has_prefix p (root ++ text "/")

-- replacePathRoot
unfoldable pub replace_path_root : Text → Text → Text → Text
unfolding clean_path
replace_path_root p from to = if p == from then to else clean_path (to ++ drop (length from) p)

-- path.Dir on a rooted path: what stands before the last slash, cleaned
before_last_slash : Text → Text
before_last_slash [] = []
before_last_slash (c ∷ s) =
    if has_byte slash s then c ∷ before_last_slash s else if nat_eq c slash then c ∷ [] else []

unfoldable pub path_dir : Text → Text
unfolding path_clean before_last_slash
path_dir p = path_clean (before_last_slash p)

-- path.Join(root, name) for a rooted path: an empty name is left out
unfoldable pub path_join : Text → Text → Text
unfolding path_clean
path_join root name = if name == [] then path_clean root else path_clean (root ++ slash ∷ name)

-- strings.Trim(s, "/")
unfoldable pub trim_right : Text → Text
trim_right [] = []
trim_right (c ∷ s) = let t = trim_right s in if nat_eq c slash && t == [] then [] else c ∷ t

unfoldable pub trim_left : Text → Text
trim_left [] = []
trim_left (c ∷ s) = let t = trim_left s in if nat_eq c slash then t else c ∷ s

-- path.Base: what stands after the last slash, trailing slashes apart
after_last_slash : Text → Text
after_last_slash [] = []
after_last_slash (c ∷ s) =
    let rest = after_last_slash s in
    if has_byte slash s then rest else if nat_eq c slash then s else c ∷ s

unfoldable pub path_base : Text → Text
unfolding trim_right after_last_slash
path_base p =
    if p == []
    then text "."
    else let b = after_last_slash (trim_right p) in if b == [] then text "/" else b

-- IsDirConfigPath of the rules package
unfoldable pub is_dir_config_path : Text → Bool
unfolding clean_path path_base path_dir trim_right trim_left split_slash
is_dir_config_path target =
    let clean = clean_path target in
    if not (path_base clean == text "config.yaml")
      || not (path_base (path_dir clean) == text ".lore")
    then false
    else not (
        any (λ segment. segment == text ".lore")
          (split_slash (trim_left (trim_right (path_dir (path_dir clean))))))
