-- ===== src/Server/Governing/Registered.antt =====
-- Where the grants that govern a path come from.
use open_lore.Prelude.{
  ◌≡◌, refl, sym, ap, ◌∙◌, inl, inr, not, Option, none, some, List, [], ◌∷◌, arith, if◌then◌else◌,
  ltb, length, In, Text, lookup,
}
use open_lore.Config.{DocsetSpec}
use open_lore.Grants.{GrantType, GrantRegistry}
use open_lore.Identity.{Identity}
use open_lore.Server.{Server}
use open_lore.Server.Access.{effective_grant_names}
use open_lore.Server.Governing.{registered, most_specific_docset, grants_for_path}

pub registered-In :
    (types : GrantRegistry) (names : List Text) (g : GrantType)
    → In g (registered types names)
    → (name : Text) × In name names × (lookup name types ≡ some g)
unfolding registered
registered-In types [] g h = absurd h
registered-In types (n ∷ names) g h = go (lookup n types) refl (registered-In types names g) h
  where
    Found : Type 0
    Found = (name : Text) × In name (n ∷ names) × (lookup name types ≡ some g)

    go :
        (o : Option GrantType)
        → lookup n types ≡ o
        → (In g (registered types names)
            → (name : Text) × In name names × (lookup name types ≡ some g))
        → In g (
            let r : List GrantType = elim o [
              | none ↦ registered types names
              | some grant ↦ grant ∷ registered types names
            ] in
            r)
        → Found
    go none e ih m = let (name, k, f) = ih m in (name, inr k, f)
    go (some grant) e ih (inl same) = (n, inl refl, e ∙ ap some (sym same))
    go (some grant) e ih (inr m) = let (name, k, f) = ih m in (name, inr k, f)

-- The grants that govern a path are registered ones whose names the caller has on the docset that
-- governs the path.
pub grants_for_path-registered :
    (s : Server) (id : Identity) (p : Text) (ds : DocsetSpec) (grants : List GrantType)
    (g : GrantType)
    → grants_for_path s id p ≡ some (ds, grants)
    → In g grants
    → (docset : Text) × (most_specific_docset s p ≡ some (docset, ds))
      × ((name : Text) × In name (effective_grant_names s id docset).0
          × (lookup name s.grants ≡ some g))
unfolding grants_for_path
grants_for_path-registered s id p ds grants g e m = go (most_specific_docset s p) refl e
  where
    Found : Type 0
    Found =
        (docset : Text) × (most_specific_docset s p ≡ some (docset, ds))
        × ((name : Text) × In name (effective_grant_names s id docset).0
            × (lookup name s.grants ≡ some g))

    go :
        (o : Option (Text × DocsetSpec))
        → most_specific_docset s p ≡ o
        → (let r : Option (DocsetSpec × List GrantType) = elim o [
          | none ↦ none
          | some (name, d) ↦
              let (names, found) = effective_grant_names s id name in
              if not found
              then none
              else let found_grants = registered s.grants names in
                if ltb 0 (length found_grants) then some (d, found_grants) else none
        ] in
            r)
          ≡ some (ds, grants)
        → Found
    go none f h = cc
    go (some (name, d)) f h =
        let facts : (d ≡ ds) × (registered s.grants (effective_grant_names s id name).0 ≡ grants) =
          (ground arith, ground arith) in
        (
          name,
          f ∙ ap (λ (x : DocsetSpec). some (name, x)) facts.0,
          registered-In s.grants (effective_grant_names s id name).0 g (rw facts.1 m),
        )
