-- ===== src/ScopedRead/Within.antt =====
-- Which paths a session may read.
use open_lore.Prelude.{
  ◌≤◌, ◌≡◌, refl, ◌∙◌, ◌≢◌, ◌⊎◌, inl, inr, true, ◌&&◌, ◌||◌, List, [], ◌∷◌, arith, ◌==◌,
  if◌then◌else◌, ltb, length, In, Text, eq_iff,
}
use open_lore.Path.{clean_path, path_within_root}
use open_lore.Path.Clean.{IsClean, clean_path-IsClean}
use open_lore.Path.Within.{path_within_root_shorter}
use open_lore.ScopedRead.{ScopedReadFs, longest_root, within}

longest_root-ge :
    (clean best : Text) (roots : List Text) → length best ≤ length (longest_root clean best roots)
unfolding longest_root
longest_root-ge clean best [] = omega arith
longest_root-ge clean best (root ∷ roots) =
    ground
      (arith, longest_root-ge clean root roots, longest_root-ge clean best roots, eq_iff best [])

longest_root-max :
    (clean best : Text) (roots : List Text) (q : Text)
    → In q roots
    → path_within_root q clean ≡ true
    → length q ≤ length (longest_root clean best roots)
unfolding longest_root
longest_root-max clean best [] q m w = absurd m
longest_root-max clean best (root ∷ roots) q (inl e) w =
    ground
      (arith, longest_root-ge clean root roots, longest_root-ge clean best roots, eq_iff best [])
longest_root-max clean best (root ∷ roots) q (inr m) w =
    longest_root-max clean
      (if path_within_root root clean && (best == [] || ltb (length best) (length root))
        then root
        else best)
      roots q m w

-- The root that is on record after one round.
chosen : Text → Text → Text → Text
chosen clean best root =
    if path_within_root root clean && (best == [] || ltb (length best) (length root))
    then root
    else best

chosen-cases :
    (clean best root : Text)
    → (chosen clean best root ≡ best)
      ⊎ ((chosen clean best root ≡ root) × (path_within_root root clean ≡ true))
unfolding chosen
chosen-cases clean best root = ground arith

longest_root-In :
    (clean best : Text) (roots : List Text)
    → (longest_root clean best roots ≡ best)
      ⊎ (In (longest_root clean best roots) roots
          × (path_within_root (longest_root clean best roots) clean ≡ true))
unfolding longest_root chosen
longest_root-In clean best [] = inl refl
longest_root-In clean best (root ∷ roots) =
    go (longest_root clean (chosen clean best root) roots)
      (longest_root-In clean (chosen clean best root) roots) (chosen-cases clean best root)
  where
    go :
        (r : Text)
        → (r ≡ chosen clean best root) ⊎ (In r roots × (path_within_root r clean ≡ true))
        → (chosen clean best root ≡ best)
          ⊎ ((chosen clean best root ≡ root) × (path_within_root root clean ≡ true))
        → (r ≡ best) ⊎ (In r (root ∷ roots) × (path_within_root r clean ≡ true))
    go r (inr (m, w)) c = inr (inr m, w)
    go r (inl e) (inl k) = inl (e ∙ k)
    go r (inl e) (inr (k, w)) = inr (inl (e ∙ k), rw (e ∙ k) w)

-- What `within` compares: the longest readable root, and that no boundary is longer.
within-bounds :
    (s : ScopedReadFs) (p : Text)
    → within s p ≡ true
    → (longest_root (clean_path p) [] s.roots ≢ [])
      × (length (longest_root (clean_path p) [] s.boundaries)
          ≤ length (longest_root (clean_path p) [] s.roots))
unfolding within
within-bounds s p h =
    (ground (arith, eq_iff (longest_root (clean_path p) [] s.roots) []), ground arith)

abbrev pub AllClean : List Text → Type 0
AllClean roots = (r : Text) → In r roots → IsClean r

-- Where the roots and the boundaries are in normal form, a path that a session may read is in a
-- readable root, and every boundary that contains the path contains that root: no docset inside the
-- root carves the path out of it.
pub within_sound :
    (s : ScopedReadFs) (p : Text)
    → AllClean s.roots
    → AllClean s.boundaries
    → within s p ≡ true
    → (root : Text) × In root s.roots
      × (path_within_root root (clean_path p) ≡ true)
      × ((b : Text)
          → In b s.boundaries
          → path_within_root b (clean_path p) ≡ true
          → path_within_root b root ≡ true)
within_sound s p cr cb h =
    let (ne, le) = within-bounds s p h in
    elim (longest_root-In (clean_path p) [] s.roots) [
      | inl e ↦ absurd (ne e)
      | inr (m, w) ↦ (
        longest_root (clean_path p) [] s.roots,
        m,
        w,
        λ b k v.
            path_within_root_shorter b (longest_root (clean_path p) [] s.roots) (clean_path p)
              (cb b k) (cr (longest_root (clean_path p) [] s.roots) m) (clean_path-IsClean p) v w
              (omega (arith, longest_root-max (clean_path p) [] s.boundaries b k v)),
      )
    ]
