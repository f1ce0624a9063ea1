-- ===== src/Server/Writes/Tree.antt =====
-- `identityHasDirConfigRole` and `canEditDirConfigsInTree` of pkg/openlore/authz.go: who may change the
-- configuration of a folder, and who may remove a tree that holds such configurations.
use open_lore.Prelude.{
  ℕ, ◌≡◌, refl, sym, ◌↔◌, ◌⊎◌, inl, inr, Bool, true, false, Option, none, some, List, [], ◌∷◌,
  arith, Option-cases, In, any-In, In-any, All, Text, Result, contains, contains-In, In-contains,
  ok, err,
}
use open_lore.Config.{DocsetSpec, DirConfigPermission}
use open_lore.Path.{path_dir, is_dir_config_path}
use open_lore.Vfs.{
  Error, not_exist, read_only, permission, not_dir, not_sup, no_data, other, FileInfo, FileSystem,
  walk_dir,
}
use open_lore.Vfs.Walk.{Agree, walk_dir-Agree}
use open_lore.Identity.{Identity}
use open_lore.AuthorizationStore.{AuthorizationPolicy, PolicyError}
use open_lore.Server.{Server}
use open_lore.Server.Policy.{current_policy}
use open_lore.Server.Governing.{most_specific_docset}
use open_lore.Server.Writes.{
  has_dir_config_role, config_visit, can_edit_result, can_edit_dir_configs_in_tree,
}

-- The roles that may edit the configuration of the docset's folders.
pub edit_roles : DocsetSpec → List Text
edit_roles docset = elim docset.config [ none ↦ [] | some config ↦ config.edit ]

-- The caller has a role that edits the configuration of the folder: the docset that governs the folder
-- lists one of the caller's current roles.
pub record HasEditRole (s : Server) (id : Identity) (p : Text) : Type 0 where
  pub name : Text
  pub docset : DocsetSpec
  pub policy : AuthorizationPolicy
  pub role : Text
  pub governs : most_specific_docset s (path_dir (path_dir p)) ≡ some (name, docset)
  pub listed : In role (edit_roles docset)
  pub current : current_policy s id ≡ ok policy
  pub held : In role policy.roles

has_dir_config_role_sound :
    (s : Server) (id : Identity) (p : Text) → has_dir_config_role s id p ≡ true → HasEditRole s id p
unfolding has_dir_config_role edit_roles
has_dir_config_role_sound s id p h =
    elim (Option-cases (most_specific_docset s (path_dir (path_dir p)))) [
      | inl e ↦ absurd (no (rw (e, has_dir_config_role) at h))
      | inr ((name, docset), e) ↦ elim (Option-cases docset.config) [
        | inl c ↦ absurd (no (rw (e, c, has_dir_config_role) at h))
        | inr (config, c) ↦ at_policy name docset e config c (current_policy s id) refl
      ]
    ]
  where
    no : false ≡ true → ⊥
    no q = cc

    at_policy :
        (name : Text) (docset : DocsetSpec)
        → most_specific_docset s (path_dir (path_dir p)) ≡ some (name, docset)
        → (config : DirConfigPermission) → docset.config ≡ some config
        → (r : Result PolicyError AuthorizationPolicy) → current_policy s id ≡ r
        → HasEditRole s id p
    at_policy name docset e config c (err x) q =
        absurd (no (rw (e, c, q, has_dir_config_role) at h))
    at_policy name docset e config c (ok policy) q =
        let (role, m, k) =
          any-In (λ allowed. contains policy.roles allowed) config.edit
            (rw (e, c, q, has_dir_config_role) at h) in
        record {
          name = name;
          docset = docset;
          policy = policy;
          role = role;
          governs = e;
          listed = rw c m;
          current = q;
          held = contains-In policy.roles role k;
        }

has_dir_config_role_complete :
    (s : Server) (id : Identity) (p : Text) → HasEditRole s id p → has_dir_config_role s id p ≡ true
unfolding has_dir_config_role edit_roles
has_dir_config_role_complete s id p h = elim (Option-cases h.docset.config) [
  | inl c ↦ absurd (rw (c, edit_roles) at h.listed)
  | inr (config, c) ↦
      rw (h.governs, c, h.current, has_dir_config_role)
        (In-any (λ allowed. contains h.policy.roles allowed) config.edit h.role
          (rw (c, edit_roles) at h.listed) (In-contains h.policy.roles h.role h.held))
]

pub has_dir_config_role_iff :
    (s : Server) (id : Identity) (p : Text)
    → (has_dir_config_role s id p ≡ true) ↔ HasEditRole s id p
has_dir_config_role_iff s id p =
    (has_dir_config_role_sound s id p, has_dir_config_role_complete s id p)

-- The walk of a tree that only notes what it meets: the entries without an error, the last one
-- first, and the error that ends the walk.
note_visit : List Text → Text → Result Error FileInfo → List Text × Option Error
note_visit met p (err e) = (met, some e)
note_visit met p (ok info) = (p ∷ met, none)

pub tree_met : ℕ → FileSystem → Text → List Text × Option Error
unfolding note_visit
tree_met fuel fsys p = walk_dir fuel fsys note_visit p []

-- The caller has an editing role of every folder configuration met.
abbrev pub EditsAll : Server → Identity → List Text → Type 0
EditsAll s id met = All (λ c. is_dir_config_path c ≡ true → HasEditRole s id c) met

-- The walk of the tree ends at something that does not exist; or it meets no error, and the caller
-- may edit every folder configuration in the tree.
abbrev pub MayEditTree : ℕ → Server → Identity → Text → Type 0
MayEditTree fuel s id p =
    ((tree_met fuel s.merge p).1 ≡ some not_exist)
    ⊎ (((tree_met fuel s.merge p).1 ≡ none) × EditsAll s id (tree_met fuel s.merge p).0)

abbrev Told : Server → Identity → Bool → List Text → Type 0
Told s id allowed met = (allowed ≡ true) ↔ EditsAll s id met

config_visit-Told :
    (s : Server) (id : Identity) (allowed : Bool) (met : List Text) (p : Text)
    (i : Result Error FileInfo)
    → Told s id allowed met
    → Agree (Told s id) (config_visit s id allowed p i) (note_visit met p i)
unfolding config_visit note_visit
config_visit-Told s id allowed met p (err e) h = (h, refl)
config_visit-Told s id allowed met p (ok info) h = (
  (
    λ e. (λ k. (has_dir_config_role_iff s id p).0 (ground arith), h.0 (ground arith)),
    λ m.
        let all = h.1 m.1 in
        let role =
          λ (k : is_dir_config_path p ≡ true). (has_dir_config_role_iff s id p).1 (m.0 k) in
        ground (arith, all, role),
  ),
  refl,
)

can_edit_result_iff :
    (s : Server) (id : Identity) (allowed : Bool) (o : Option Error) (met : List Text)
    (e : Option Error)
    → Told s id allowed met
    → o ≡ e
    → (can_edit_result (allowed, o) ≡ true)
      ↔ ((e ≡ some not_exist) ⊎ ((e ≡ none) × EditsAll s id met))
unfolding can_edit_result
can_edit_result_iff s id allowed none met e told same =
    (λ h. inr (sym same, told.0 h), λ h. elim h [ inl k ↦ cc | inr (k, m) ↦ told.1 m ])
can_edit_result_iff s id allowed (some not_exist) met e told same = (λ h. inl (sym same), λ h. refl)
can_edit_result_iff s id allowed (some read_only) met e told same =
    (λ h. cc, λ h. elim h [ inl k ↦ cc | inr k ↦ cc ])
can_edit_result_iff s id allowed (some permission) met e told same =
    (λ h. cc, λ h. elim h [ inl k ↦ cc | inr k ↦ cc ])
can_edit_result_iff s id allowed (some not_dir) met e told same =
    (λ h. cc, λ h. elim h [ inl k ↦ cc | inr k ↦ cc ])
can_edit_result_iff s id allowed (some not_sup) met e told same =
    (λ h. cc, λ h. elim h [ inl k ↦ cc | inr k ↦ cc ])
can_edit_result_iff s id allowed (some no_data) met e told same =
    (λ h. cc, λ h. elim h [ inl k ↦ cc | inr k ↦ cc ])
can_edit_result_iff s id allowed (some (other m)) met e told same =
    (λ h. cc, λ h. elim h [ inl k ↦ cc | inr k ↦ cc ])

pub can_edit_dir_configs_in_tree_iff :
    (fuel : ℕ) (s : Server) (id : Identity) (p : Text)
    → (can_edit_dir_configs_in_tree fuel s id p ≡ true) ↔ MayEditTree fuel s id p
unfolding can_edit_dir_configs_in_tree tree_met
can_edit_dir_configs_in_tree_iff fuel s id p =
    let (told, same) =
      walk_dir-Agree (Told s id) s.merge (config_visit s id) note_visit (config_visit-Told s id)
        fuel p true [] (λ e. tt, λ e. refl) in
    can_edit_result_iff s id (walk_dir fuel s.merge (config_visit s id) p true).0
      (walk_dir fuel s.merge (config_visit s id) p true).1 (tree_met fuel s.merge p).0
      (tree_met fuel s.merge p).1 told same
