-- ===== src/Server/Governing/Readable.antt =====
-- The roots that `readableRoots` returns are those of docsets that the caller has a reading grant on.
use open_lore.Prelude.{
  ◌≡◌, refl, ◌⊎◌, inl, inr, true, false, List, [], ◌∷◌, map, if◌then◌else◌, Bool-cases, any, In,
  In-append_left, any-In, In-append, map-In, In-append_right, Text,
}
use open_lore.Config.{DocsetSpec, PathMapping, display_path}
use open_lore.Grants.{GrantType}
use open_lore.Identity.{Identity}
use open_lore.Server.{Server}
use open_lore.Server.Access.{effective_grant_names}
use open_lore.Server.Governing.{
  registered, readable_roots, readable_docsets, readable_paths, docset_roots,
}

-- Some docset that the caller has a grant on has this root, and the grant lets it be read.
pub record IsGrantedRoot (s : Server) (id : Identity) (root : Text) : Type 0 where
  pub docset : Text × DocsetSpec
  pub listed : In docset s.auth.docsets
  pub mapping : PathMapping
  pub has_root : In mapping docset.1.paths
  pub same : root ≡ display_path mapping
  pub allowed : (effective_grant_names s id docset.0).1 ≡ true
  pub grant : GrantType
  pub granted : In grant (registered s.grants (effective_grant_names s id docset.0).0)
  pub reads : grant.can_read docset.1 root ≡ true

readable_paths-In :
    (grants : List GrantType) (ds : DocsetSpec) (pms : List PathMapping) (root : Text)
    → In root (readable_paths grants ds pms)
    → (pm : PathMapping) × In pm pms
      × (root ≡ display_path pm)
      × (any (λ grant. grant.can_read ds root) grants ≡ true)
unfolding readable_paths
readable_paths-In grants ds [] root h = absurd h
readable_paths-In grants ds (pm ∷ pms) root h =
    go (Bool-cases (any (λ grant. grant.can_read ds (display_path pm)) grants))
      (readable_paths-In grants ds pms root)
  where
    Found : Type 0
    Found =
        (q : PathMapping) × In q (pm ∷ pms)
        × (root ≡ display_path q)
        × (any (λ grant. grant.can_read ds root) grants ≡ true)

    later :
        (q : PathMapping) × In q pms
          × (root ≡ display_path q)
          × (any (λ grant. grant.can_read ds root) grants ≡ true)
        → Found
    later (q, m, e, k) = (q, inr m, e, k)

    go :
        (any (λ grant. grant.can_read ds (display_path pm)) grants ≡ true)
          ⊎ (any (λ grant. grant.can_read ds (display_path pm)) grants ≡ false)
        → (In root (readable_paths grants ds pms)
            → (q : PathMapping) × In q pms
              × (root ≡ display_path q)
              × (any (λ grant. grant.can_read ds root) grants ≡ true))
        → Found
    go (inr e) ih = later (ih (rw (e, readable_paths) at h))
    go (inl e) ih =
        elim (let g : (root ≡ display_path pm) ⊎ In root (readable_paths grants ds pms) =
            rw (e, readable_paths) at h in
          g) [ inl same ↦ (pm, inl refl, same, rw same e) | inr m ↦ later (ih m) ]

readable_docsets-In :
    (s : Server) (id : Identity) (docsets : List (Text × DocsetSpec)) (root : Text)
    → ((d : Text × DocsetSpec) → In d docsets → In d s.auth.docsets)
    → In root (readable_docsets s id docsets)
    → IsGrantedRoot s id root
unfolding readable_docsets
readable_docsets-In s id [] root sub h = absurd h
readable_docsets-In s id ((name, ds) ∷ rest) root sub h =
    elim (In-append root _ (readable_docsets s id rest) h) [
      | inr m ↦ readable_docsets-In s id rest root (λ d k. sub d (inr k)) m
      | inl m ↦ here (Bool-cases (effective_grant_names s id name).1) m
    ]
  where
    here :
        ((effective_grant_names s id name).1 ≡ true) ⊎ ((effective_grant_names s id name).1 ≡ false)
        → In root (
            if (effective_grant_names s id name).1
            then readable_paths
                (registered s.grants (effective_grant_names s id name).0)
                ds
                ds.paths
            else [])
        → IsGrantedRoot s id root
    here (inr e) m = absurd (rw e at m)
    here (inl e) m =
        let (pm, k, same, found) =
          readable_paths-In (registered s.grants (effective_grant_names s id name).0) ds ds.paths
            root (rw e at m) in
        let (grant, granted, reads) = any-In _ _ found in
        record {
          docset = (name, ds);
          listed = sub (name, ds) (inl refl);
          mapping = pm;
          has_root = k;
          same = same;
          allowed = e;
          grant = grant;
          granted = granted;
          reads = reads;
        }

-- A readable root is a system mount, or a root of a docset with a grant of the caller to read it.
pub readable_roots_sound :
    (s : Server) (id : Identity) (root : Text)
    → In root (readable_roots s id)
    → IsGrantedRoot s id root ⊎ In root s.system_mount_paths
unfolding readable_roots
readable_roots_sound s id root h =
    elim (In-append root (readable_docsets s id s.auth.docsets) s.system_mount_paths h) [
      | inl m ↦ inl (readable_docsets-In s id s.auth.docsets root (λ d k. k) m)
      | inr m ↦ inr m
    ]

pub docset_roots-In :
    (docsets : List (Text × DocsetSpec)) (d : Text × DocsetSpec) (pm : PathMapping)
    → In d docsets
    → In pm d.1.paths
    → In (display_path pm) (docset_roots docsets)
unfolding docset_roots
docset_roots-In [] d pm m k = absurd m
docset_roots-In ((name, ds) ∷ rest) d pm (inl e) k =
    In-append_left (display_path pm) _ _ (map-In display_path pm ds.paths (rw e at k))
docset_roots-In ((name, ds) ∷ rest) d pm (inr m) k =
    In-append_right (display_path pm) (map display_path ds.paths) _ (docset_roots-In rest d pm m k)
