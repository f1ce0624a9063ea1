-- ===== src/Server/Governing/Root.antt =====
-- What the loops of `mostSpecificDocset` compute: the longest root that contains the path, with
-- the least name among those of one length.
use open_lore.Prelude.{
  ◌≡◌, refl, inl, inr, true, false, ◌&&◌, Option, none, some, List, [], ◌∷◌, arith, if◌then◌else◌,
  Bool-cases, length, In, Text,
}
use open_lore.Config.{DocsetSpec, PathMapping, display_path}
use open_lore.Path.{path_within_root}
use open_lore.Server.Governing.{Best, is_better, scan_paths, scan_docsets}
use open_lore.Server.Governing.Order.{Kept, Kept-better, is_better_self}

module _ (clean : Text) where
  -- One round of the loop over the paths of a docset.
  next : Text → DocsetSpec → Option Best → PathMapping → Option Best
  next name ds best pm =
      let root = display_path pm in
      if path_within_root root clean && is_better (length root) name best
      then some (record { len = length root; name = name; docset = ds })
      else best

  next-Kept :
      (name : Text) (ds : DocsetSpec) (best : Option Best) (pm : PathMapping)
      → Kept best (next name ds best pm)
  unfolding next
  next-Kept name ds best pm =
      elim (Bool-cases (
        path_within_root (display_path pm) clean
        && is_better (length (display_path pm)) name best)) [
          | inr e ↦ rw e (λ l n h. h)
          | inl e ↦ rw e (
              Kept-better (record { len = length (display_path pm); name = name; docset = ds }) best
                (ground arith))
        ]

  next-covers :
      (name : Text) (ds : DocsetSpec) (best : Option Best) (pm : PathMapping)
      → path_within_root (display_path pm) clean ≡ true
      → is_better (length (display_path pm)) name (next name ds best pm) ≡ false
  unfolding next
  next-covers name ds best pm w =
      elim (Bool-cases (is_better (length (display_path pm)) name best)) [
        | inr e ↦ rw (w, e) e
        | inl e ↦
            rw (w, e)
              (is_better_self (record { len = length (display_path pm); name = name; docset = ds }))
      ]

  scan_paths-Kept :
      (name : Text) (ds : DocsetSpec) (best : Option Best) (pms : List PathMapping)
      → Kept best (scan_paths clean name ds best pms)
  unfolding scan_paths next
  scan_paths-Kept name ds best [] l n h = h
  scan_paths-Kept name ds best (pm ∷ pms) l n h =
      scan_paths-Kept name ds (next name ds best pm) pms l n (next-Kept name ds best pm l n h)

  scan_paths-covers :
      (name : Text) (ds : DocsetSpec) (best : Option Best) (pms : List PathMapping)
      (pm : PathMapping)
      → In pm pms
      → path_within_root (display_path pm) clean ≡ true
      → is_better (length (display_path pm)) name (scan_paths clean name ds best pms) ≡ false
  unfolding scan_paths next
  scan_paths-covers name ds best [] pm m w = absurd m
  scan_paths-covers name ds best (q ∷ pms) pm (inl e) w =
      scan_paths-Kept name ds (next name ds best q) pms (length (display_path pm)) name
        (rw e (next-covers name ds best q (rw e at w)))
  scan_paths-covers name ds best (q ∷ pms) pm (inr m) w =
      scan_paths-covers name ds (next name ds best q) pms pm m w

  scan_docsets-Kept :
      (best : Option Best) (docsets : List (Text × DocsetSpec))
      → Kept best (scan_docsets clean best docsets)
  unfolding scan_docsets
  scan_docsets-Kept best [] l n h = h
  scan_docsets-Kept best ((name, ds) ∷ rest) l n h =
      scan_docsets-Kept (scan_paths clean name ds best ds.paths) rest l n
        (scan_paths-Kept name ds best ds.paths l n h)

  pub scan_docsets-covers :
      (best : Option Best) (docsets : List (Text × DocsetSpec)) (d : Text × DocsetSpec)
      (pm : PathMapping)
      → In d docsets
      → In pm d.1.paths
      → path_within_root (display_path pm) clean ≡ true
      → is_better (length (display_path pm)) d.0 (scan_docsets clean best docsets) ≡ false
  unfolding scan_docsets
  scan_docsets-covers best [] d pm m k w = absurd m
  scan_docsets-covers best ((name, ds) ∷ rest) d pm (inl e) k w =
      scan_docsets-Kept (scan_paths clean name ds best ds.paths) rest (length (display_path pm)) d.0
        (rw e (scan_paths-covers name ds best ds.paths pm (rw e at k) w))
  scan_docsets-covers best ((name, ds) ∷ rest) d pm (inr m) k w =
      scan_docsets-covers (scan_paths clean name ds best ds.paths) rest d pm m k w

  -- The best root is one of a listed docset, contains the path, and has the length on record.
  abbrev pub From : List (Text × DocsetSpec) → Option Best → Type 0
  From docsets none = Unit
  From docsets (some b) =
      In (b.name, b.docset) docsets
      × ((pm : PathMapping) × In pm b.docset.paths
          × (path_within_root (display_path pm) clean ≡ true)
          × (length (display_path pm) ≡ b.len))

  scan_paths-From :
      (docsets : List (Text × DocsetSpec)) (name : Text) (ds : DocsetSpec) (best : Option Best)
      (pms : List PathMapping)
      → In (name, ds) docsets
      → ((pm : PathMapping) → In pm pms → In pm ds.paths)
      → From docsets best
      → From docsets (scan_paths clean name ds best pms)
  unfolding scan_paths
  scan_paths-From docsets name ds best [] m sub f = f
  scan_paths-From docsets name ds best (pm ∷ pms) m sub f =
      elim (Bool-cases (
        path_within_root (display_path pm) clean
        && is_better (length (display_path pm)) name best)) [
          | inl e ↦ rw e (
              scan_paths-From docsets name ds
                (some (record { len = length (display_path pm); name = name; docset = ds })) pms m
                (λ q k. sub q (inr k)) (m, (pm, sub pm (inl refl), ground arith, refl)))
          | inr e ↦ rw e (scan_paths-From docsets name ds best pms m (λ q k. sub q (inr k)) f)
        ]

  scan_docsets-From_rest :
      (docsets : List (Text × DocsetSpec)) (best : Option Best) (rest : List (Text × DocsetSpec))
      → ((d : Text × DocsetSpec) → In d rest → In d docsets)
      → From docsets best
      → From docsets (scan_docsets clean best rest)
  unfolding scan_docsets
  scan_docsets-From_rest docsets best [] sub f = f
  scan_docsets-From_rest docsets best ((name, ds) ∷ rest) sub f =
      scan_docsets-From_rest docsets (scan_paths clean name ds best ds.paths) rest
        (λ d k. sub d (inr k))
        (scan_paths-From docsets name ds best ds.paths (sub (name, ds) (inl refl)) (λ q k. k) f)

  pub scan_docsets-From :
      (docsets : List (Text × DocsetSpec)) → From docsets (scan_docsets clean none docsets)
  scan_docsets-From docsets = scan_docsets-From_rest docsets none docsets (λ d k. k) tt
