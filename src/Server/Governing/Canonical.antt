-- ===== src/Server/Governing/Canonical.antt =====
-- `canonicalPath` returns a path in normal form, unless a docset has aliases and no path of its own,
-- which the check at startup refuses.
use open_lore.Prelude.{
  ◌≡◌, refl, ◌≢◌, ◌⊎◌, inl, inr, true, ◌&&◌, List, [], ◌∷◌, ◌++◌, arith, ◌==◌, ltb, Bool-cases,
  length, All, Text, eq_iff, drop,
}
use open_lore.Config.{
  DocsetSpec, display_path, primary_display_path, primary_display_path-eq, PathMapping,
}
use open_lore.Path.{clean_path, path_within_root, replace_path_root}
use open_lore.Path.Clean.{IsClean, clean_path-IsClean}
use open_lore.Server.{Server}
use open_lore.Server.Governing.{scan_aliases, scan_docset_aliases, canonical_path}

-- Every docset with aliases has a path that they stand for.
abbrev pub HasTargets : List (Text × DocsetSpec) → Type 0
HasTargets docsets = All (λ d. (d.1.aliases ≡ []) ⊎ (d.1.paths ≢ [])) docsets

pub display_path-IsClean : (pm : PathMapping) → IsClean (display_path pm)
unfolding display_path
display_path-IsClean pm = clean_path-IsClean _

pub primary_display_path-IsClean :
    (ds : DocsetSpec) → ds.paths ≢ [] → IsClean (primary_display_path ds)
primary_display_path-IsClean ds h = go ds.paths refl
  where
    go : (pms : List PathMapping) → ds.paths ≡ pms → IsClean (primary_display_path ds)
    go [] e = absurd (h e)
    go (pm ∷ rest) e = rw (primary_display_path-eq ds pm rest e) (display_path-IsClean pm)

-- The alias on record is none, or is a normal form that contains the path, with a normal form as its
-- target.
abbrev pub IsRewrite : Text → Text × Text → Type 0
IsRewrite clean best =
    (best.0 ≡ []) ⊎ (IsClean best.0 × IsClean best.1 × (path_within_root best.0 clean ≡ true))

scan_aliases-IsRewrite :
    (clean target : Text) (best : Text × Text) (aliases : List Text)
    → IsClean target
    → IsRewrite clean best
    → IsRewrite clean (scan_aliases clean target best aliases)
unfolding scan_aliases
scan_aliases-IsRewrite clean target best [] t h = h
scan_aliases-IsRewrite clean target best (raw ∷ aliases) t h =
    elim (Bool-cases
      (path_within_root (clean_path raw) clean && ltb (length best.0) (length (clean_path raw)))) [
        | inr e ↦ rw (e, scan_aliases) (scan_aliases-IsRewrite clean target best aliases t h)
        | inl e ↦
            rw (e, scan_aliases)
              (scan_aliases-IsRewrite clean target (clean_path raw, target) aliases t
                (inr (clean_path-IsClean raw, t, ground arith)))
      ]

scan_aliases_none :
    (clean target : Text) (best : Text × Text) (aliases : List Text)
    → aliases ≡ []
    → scan_aliases clean target best aliases ≡ best
unfolding scan_aliases
scan_aliases_none clean target best [] e = refl
scan_aliases_none clean target best (raw ∷ aliases) e = cc

scan_docset_aliases-IsRewrite :
    (clean : Text) (best : Text × Text) (docsets : List (Text × DocsetSpec))
    → HasTargets docsets
    → IsRewrite clean best
    → IsRewrite clean (scan_docset_aliases clean best docsets)
unfolding scan_docset_aliases
scan_docset_aliases-IsRewrite clean best [] t h = h
scan_docset_aliases-IsRewrite clean best ((name, ds) ∷ rest) (inl no_alias, ts) h =
    rw
      (
        scan_aliases_none clean (primary_display_path ds) best ds.aliases no_alias,
        scan_docset_aliases,
      )
      (scan_docset_aliases-IsRewrite clean best rest ts h)
scan_docset_aliases-IsRewrite clean best ((name, ds) ∷ rest) (inr t, ts) h =
    scan_docset_aliases-IsRewrite clean
      (scan_aliases clean (primary_display_path ds) best ds.aliases) rest ts
      (scan_aliases-IsRewrite clean (primary_display_path ds) best ds.aliases
        (primary_display_path-IsClean ds t) h)

replace_path_root-IsClean : (p from to : Text) → IsClean to → IsClean (replace_path_root p from to)
unfolding replace_path_root
replace_path_root-IsClean p from to h = elim (Bool-cases (p == from)) [
  | inl e ↦ rw (e, replace_path_root) h
  | inr e ↦ rw (e, replace_path_root) (clean_path-IsClean (to ++ drop (length from) p))
]

-- If every docset with aliases has a path, `canonicalPath` returns a path in normal form.
pub canonical_path-IsClean :
    (s : Server) (p : Text) → HasTargets s.auth.docsets → IsClean (canonical_path s p)
unfolding canonical_path
canonical_path-IsClean s p h = elim (Bool-cases (best.0 == [])) [
  | inl e ↦ rw (e, canonical_path) (clean_path-IsClean p)
  | inr e ↦
      rw (e, canonical_path)
        (elim (scan_docset_aliases-IsRewrite (clean_path p) ([], []) s.auth.docsets h (inl refl)) [
          | inl none_found ↦ absurd (cc ((eq_iff best.0 []).1 none_found))
          | inr (a, t, w) ↦ replace_path_root-IsClean (clean_path p) best.0 best.1 t
        ])
]
  where
    best : Text × Text
    best = scan_docset_aliases (clean_path p) ([], []) s.auth.docsets
