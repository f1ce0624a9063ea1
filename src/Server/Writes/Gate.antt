-- ===== src/Server/Writes/Gate.antt =====
-- When a mutation is let through.
use open_lore.Prelude.{
  ℕ, ◌≡◌, refl, sym, ap, ◌≢◌, ◌↔◌, ◌⊎◌, inl, inr, true, false, Option, none, some, List, [], ◌∷◌,
  arith, ◌==◌, Bool-cases, In, any-In, In-any, any-false, Text, text, eq_iff, eq_refl,
}
use open_lore.Config.{DocsetSpec, PathMapping, display_path}
use open_lore.Path.{path_within_root, is_dir_config_path}
use open_lore.Vfs.{ChangeAction}
use open_lore.Grants.{GrantType}
use open_lore.Identity.{Identity, scope_grants_write, scope_full}
use open_lore.Server.{Server}
use open_lore.Server.Governing.{canonical_path, grants_for_path}
use open_lore.Server.Writes.Tree.{
  HasEditRole, has_dir_config_role_iff, MayEditTree, can_edit_dir_configs_in_tree_iff,
}
use open_lore.Server.Writes.{
  is_remove_all, wants_rw, crosses_boundary, grant_denial, mutation_denied_error, governed_denial,
  identity_write_error,
}

-- The caller without the policy that its session took.
abbrev pub fresh : Identity → Identity
fresh id = record id { policy_snapshot = none }

-- Some grant lets the action through: for the three attribute actions one named "rw", for any other
-- one whose `CanWrite` says so.
abbrev pub Permits : DocsetSpec → ChangeAction → Text → GrantType → Type 0
Permits ds action p g =
    ((wants_rw action ≡ true) × (g.name ≡ text "rw"))
    ⊎ ((wants_rw action ≡ false) × (g.can_write ds action p ≡ true))

-- The docset that governs the path has grants for the caller, is no projection, is not marked
-- read-only, and one of the grants permits the action.
pub record IsGranted (s : Server) (id : Identity) (action : ChangeAction) (p : Text) : Type 0 where
  pub docset : DocsetSpec
  pub grants : List GrantType
  pub governed : grants_for_path s id p ≡ some (docset, grants)
  pub no_projection : docset.projection ≡ none
  pub writable : docset.readonly ≢ some true
  pub grant : GrantType
  pub granted : In grant grants
  pub permits : Permits docset action p grant

grant_denial_sound :
    (s : Server) (id : Identity) (ds : DocsetSpec) (grants : List GrantType) (action : ChangeAction)
    (p : Text)
    → grants_for_path s id p ≡ some (ds, grants)
    → grant_denial ds grants action p ≡ none
    → IsGranted s id action p
unfolding grant_denial
grant_denial_sound s id ds grants action p g e = elim (Bool-cases (wants_rw action)) [
  | inl w ↦
      let (grant, m, k) = any-In (λ x. x.name == text "rw") grants (ground arith) in
      record {
        docset = ds;
        grants = grants;
        governed = g;
        no_projection = ground arith;
        writable = ground arith;
        grant = grant;
        granted = m;
        permits = inl (w, (eq_iff grant.name (text "rw")).0 k);
      }
  | inr w ↦
      let (grant, m, k) = any-In (λ x. x.can_write ds action p) grants (ground arith) in
      record {
        docset = ds;
        grants = grants;
        governed = g;
        no_projection = ground arith;
        writable = ground arith;
        grant = grant;
        granted = m;
        permits = inr (w, k);
      }
]

governed_denial_sound :
    (fuel : ℕ) (s : Server) (id : Identity) (action : ChangeAction) (p : Text)
    → governed_denial fuel s id action p ≡ none
    → IsGranted s id action p
unfolding governed_denial
governed_denial_sound fuel s id action p e = go (grants_for_path s id p) refl e
  where
    go :
        (o : Option (DocsetSpec × List GrantType))
        → grants_for_path s id p ≡ o
        → elim o [
          | none ↦ some (mutation_denied_error fuel s.merge action p)
          | some (ds, grants) ↦ grant_denial ds grants action p
        ]
          ≡ none
        → IsGranted s id action p
    go none g h = cc
    go (some (ds, grants)) g h = grant_denial_sound s id ds grants action p g h

grant_denial_complete :
    (ds : DocsetSpec) (grants : List GrantType) (action : ChangeAction) (p : Text) (g : GrantType)
    → ds.projection ≡ none
    → ds.readonly ≢ some true
    → In g grants
    → Permits ds action p g
    → grant_denial ds grants action p ≡ none
unfolding grant_denial
grant_denial_complete ds grants action p g a b m (inl (w, n)) =
    ground (arith, In-any (λ x. x.name == text "rw") grants g m ((eq_iff g.name (text "rw")).1 n))
grant_denial_complete ds grants action p g a b m (inr (w, k)) =
    ground (arith, In-any (λ x. x.can_write ds action p) grants g m k)

scope-eq : (scopes : List Text) → scope_grants_write scopes ≡ true → scopes ≡ scope_full ∷ []
unfolding scope_grants_write
scope-eq [] h = cc
scope-eq (s ∷ []) h = ap (λ t. t ∷ []) ((eq_iff s scope_full).0 h)
scope-eq (s ∷ t ∷ scopes) h = cc

pub scope_full_grants : scope_grants_write (scope_full ∷ []) ≡ true
unfolding scope_grants_write ◌==◌
scope_full_grants = refl

-- No docset root lies strictly below the path.
abbrev pub HoldsNoRoot : Server → Text → Type 0
HoldsNoRoot s p =
    (d : Text × DocsetSpec) (pm : PathMapping)
    → In d s.auth.docsets
    → In pm d.1.paths
    → display_path pm ≢ p
    → path_within_root p (display_path pm) ≡ false

crosses_boundary-false :
    (s : Server) (p : Text) → crosses_boundary p s.auth.docsets ≡ false → HoldsNoRoot s p
unfolding crosses_boundary
crosses_boundary-false s p h d pm m k ne =
    let inner = any-false _ s.auth.docsets d h m in
    let at_root = any-false _ d.1.paths pm inner k in
    ground (arith, at_root, eq_iff p (display_path pm), λ (e : p ≡ display_path pm). ne (sym e))

crosses_boundary-true :
    (s : Server) (p : Text) → HoldsNoRoot s p → crosses_boundary p s.auth.docsets ≡ false
unfolding crosses_boundary
crosses_boundary-true s p h = elim (Bool-cases (crosses_boundary p s.auth.docsets)) [
  | inr e ↦ e
  | inl e ↦
      let (d, m, k) = any-In _ s.auth.docsets e in
      let (pm, n, w) = any-In _ d.1.paths k in
      absurd (ground (arith, w, eq_iff p (display_path pm), h d pm m n, eq_refl p))
]

-- All that `identityWriteError` asks of a mutation of the canonical path `p`.
pub record MayWrite (fuel : ℕ) (s : Server) (id : Identity) (action : ChangeAction) (p : Text)
    : Type 0 where
  pub unlocked : s.readonly ≡ false
  pub scope : id.scopes ≡ scope_full ∷ []
  pub config : is_dir_config_path p ≡ true → HasEditRole s id p
  pub tree : is_remove_all action ≡ true → MayEditTree fuel s id p
  pub inside : is_remove_all action ≡ true → HoldsNoRoot s p
  pub granted : IsGranted s id action p

identity_write_error_sound :
    (fuel : ℕ) (s : Server) (id : Identity) (action : ChangeAction) (path : Text)
    → identity_write_error fuel s id action path ≡ none
    → MayWrite fuel s (fresh id) action (canonical_path s path)
unfolding identity_write_error
identity_write_error_sound fuel s id action path e = record {
  unlocked = ground arith;
  scope = scope-eq id.scopes (ground arith);
  config = λ h. (has_dir_config_role_iff s (fresh id) (canonical_path s path)).0 (ground arith);
  tree = λ h.
      (can_edit_dir_configs_in_tree_iff fuel s (fresh id) (canonical_path s path)).0 (ground arith);
  inside = λ h. crosses_boundary-false s (canonical_path s path) (ground arith);
  granted = governed_denial_sound fuel s (fresh id) action (canonical_path s path) (ground arith);
}

governed_denial_complete :
    (fuel : ℕ) (s : Server) (id : Identity) (action : ChangeAction) (p : Text)
    → IsGranted s id action p
    → governed_denial fuel s id action p ≡ none
unfolding governed_denial
governed_denial_complete fuel s id action p g =
    rw (g.governed, governed_denial)
      (grant_denial_complete g.docset g.grants action p g.grant g.no_projection g.writable g.granted
        g.permits)

identity_write_error_complete :
    (fuel : ℕ) (s : Server) (id : Identity) (action : ChangeAction) (path : Text)
    → MayWrite fuel s (fresh id) action (canonical_path s path)
    → identity_write_error fuel s id action path ≡ none
unfolding identity_write_error
identity_write_error_complete fuel s id action path m =
    let p = canonical_path s path in
    let scope : scope_grants_write id.scopes ≡ true = rw m.scope scope_full_grants in
    ground (
      arith,
      governed_denial_complete fuel s (fresh id) action p m.granted,
      scope,
      m.unlocked,
      λ (h : is_dir_config_path p ≡ true). (has_dir_config_role_iff s (fresh id) p).1 (m.config h),
      λ (h : is_remove_all action ≡ true).
          (can_edit_dir_configs_in_tree_iff fuel s (fresh id) p).1 (m.tree h),
      λ (h : is_remove_all action ≡ true). crosses_boundary-true s p (m.inside h),
    )

-- A mutation is let through exactly when the server is not locked, the token has the scope "full",
-- the caller has an editing role where the path is a folder configuration, the docset that governs the
-- path is writable and has a grant of the caller that permits the action, and, for a whole-tree
-- removal, no docset root lies strictly below and the walk of the tree either meets no error and no
-- folder configuration that the caller may not edit, or ends at something that does not exist.
pub identity_write_error-none_iff :
    (fuel : ℕ) (s : Server) (id : Identity) (action : ChangeAction) (path : Text)
    → (identity_write_error fuel s id action path ≡ none)
      ↔ MayWrite fuel s (fresh id) action (canonical_path s path)
identity_write_error-none_iff fuel s id action path = (
  identity_write_error_sound fuel s id action path,
  identity_write_error_complete fuel s id action path,
)
