-- ===== src/Config.antt =====
-- internal/config/config.go: the parts of `lore.json` that authorization reads. A map is an
-- association list in the order in which a `range` loop visits it. The fields that authorization
-- never reads (comments, rules, write sizes, conflict policies, keys) are left out.
use open_lore.Prelude.{◌≡◌, refl, Bool, Option, List, [], ◌∷◌, ◌==◌, if◌then◌else◌, Text}
use open_lore.Path.{clean_path}

pub record PathMapping : Type 0 where
  pub source : Text
  pub display : Text

pub record ProjectionSpec : Type 0 where
  pub store : Text

pub record DocsetAccess : Type 0 where
  pub allow : List (Text × Text)
  pub deny : List Text

pub record DirConfigPermission : Type 0 where
  pub edit : List Text

pub record DocsetSpec : Type 0 where
  pub paths : List PathMapping
  pub projection : Option ProjectionSpec
  pub access : DocsetAccess
  pub config : Option DirConfigPermission
  pub aliases : List Text
  pub inbox : Text
  pub readonly : Option Bool

pub record CapabilityRules : Type 0 where
  pub capabilities : List Text

pub record RoleSpec : Type 0 where
  pub allow : CapabilityRules
  pub deny : CapabilityRules

-- `roles` is none for an omitted list, which inherits all roles of the principal.
pub record DelegateEntry : Type 0 where
  pub identity : Text
  pub roles : Option (List Text)
  pub deny_docsets : List Text
  pub deny_capabilities : List Text

pub record AuthIdentity : Type 0 where
  pub name : Text
  pub roles : List Text
  pub home : Text
  pub delegates : List DelegateEntry

pub record AuthConfig : Type 0 where
  pub docsets : List (Text × DocsetSpec)
  pub roles : List (Text × RoleSpec)
  pub identities : List AuthIdentity

-- displayPath (pkg/openlore/authz.go)
unfoldable pub display_path : PathMapping → Text
display_path pm = clean_path (if pm.display == [] then pm.source else pm.display)

first_display : List PathMapping → Text
unfolding display_path
first_display [] = []
first_display (pm ∷ rest) = display_path pm

-- primaryDisplayPath
unfoldable pub primary_display_path : DocsetSpec → Text
unfolding first_display
primary_display_path ds = first_display ds.paths

pub primary_display_path-eq :
    (ds : DocsetSpec) (pm : PathMapping) (rest : List PathMapping)
    → ds.paths ≡ pm ∷ rest
    → primary_display_path ds ≡ display_path pm
unfolding primary_display_path
primary_display_path-eq ds pm rest e = rw e refl
