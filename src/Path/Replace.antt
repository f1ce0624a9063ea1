-- ===== src/Path/Replace.antt =====
-- `replacePathRoot` on paths in normal form: the elements of the old root are exchanged for those
-- of the new one, and the rest of the path is kept.
use open_lore.Prelude.{
  ℕ, ◌≡◌, refl, ap, ◌∙◌, ◌≢◌, true, false, List, [], ◌∷◌, ◌++◌, append-nil, arith, ◌==◌, length,
  length-append, All, All-append, Text, text, eq_iff, eq_refl, drop,
}
use open_lore.Path.Clean.{IsPart, IsClean, elements-render, elements-append, clean_path-eq-render}
use open_lore.Path.Within.{path_within_root_iff, render-append, All-rest}
use open_lore.Path.{slash, join, render, path_within_root, replace_path_root}

drop-append {ℓ} : {A : Type ℓ} (xs ys : List A) → drop (length xs) (xs ++ ys) ≡ ys
drop-append [] ys = refl
drop-append (x ∷ xs) ys = drop-append xs ys

ne_longer : (s t : Text) (c : ℕ) → (s ++ c ∷ t) ≢ s
ne_longer s t c e = omega (arith, ap length e, length-append s (c ∷ t))

-- For roots and a path in normal form, a path at or below the old root is moved to the same place
-- at or below the new root; only the old root "/" is excluded.
pub replace_path_root_lem :
    (from to rest : List Text)
    → All IsPart (from ++ rest)
    → All IsPart to
    → from ≢ []
    → replace_path_root (render (from ++ rest)) (render from) (render to) ≡ render (to ++ rest)
replace_path_root_lem from to [] h k n =
    unfold replace_path_root in rw (append-nil from, append-nil to, eq_refl) refl
replace_path_root_lem from to (r ∷ rs) h k n =
    unfold replace_path_root in
    rw (render-append from r rs n, drop-append)
      (rw different (
        clean_path-eq-render (render to ++ slash ∷ (r ++ join rs))
        ∙ ap render (
            elements-append (render to) r rs (All-rest from (r ∷ rs) h)
            ∙ ap (λ l. l ++ r ∷ rs) (elements-render to k))))
  where
    different : ((render from ++ slash ∷ (r ++ join rs)) == render from) ≡ false
    different = ground (
      arith,
      eq_iff (render from ++ slash ∷ (r ++ join rs)) (render from),
      ne_longer (render from) (r ++ join rs) slash,
    )

All-begin : (cs rest : List Text) → All IsPart (cs ++ rest) → All IsPart cs
All-begin [] rest h = tt
All-begin (c ∷ cs) rest h = (h.0, All-begin cs rest h.1)

-- The elements of `q` are those of the new root, followed by those that `p` has after the old root.
abbrev pub IsMoved : (from to p q : Text) → Type 0
IsMoved from to p q =
    (fs ts rest : List Text) × All IsPart (fs ++ rest)
    × All IsPart (ts ++ rest)
    × (from ≡ render fs)
    × (to ≡ render ts)
    × (p ≡ render (fs ++ rest))
    × (q ≡ render (ts ++ rest))

-- For roots and a path in normal form, a path within the old root, which is not "/", keeps its place
-- below the root.
pub replace_path_root-IsMoved :
    (p from to : Text)
    → IsClean p
    → IsClean from
    → IsClean to
    → from ≢ text "/"
    → path_within_root from p ≡ true
    → IsMoved from to p (replace_path_root p from to)
replace_path_root-IsMoved p from to (ps, hp, ep) (fs, hf, ef) (ts, ht, et) n w =
    let (rest, b) = (path_within_root_iff fs ps hf hp).0 (rw (ef, ep) at w) in
    (
      fs,
      ts,
      rest,
      rw b at hp,
      All-append IsPart ts rest ht (All-rest fs rest (rw b at hp)),
      ef,
      et,
      ep ∙ ap render b,
      rw (ep, ef, et, b) (replace_path_root_lem fs ts rest (rw b at hp) ht (nonroot ef n)),
    )
  where
    nonroot : {fs : List Text} → from ≡ render fs → from ≢ text "/" → fs ≢ []
    nonroot e n z = n (e ∙ ap render z ∙ unfold render in refl)

-- For roots and a path in normal form, a path within the old root, which is not "/", is moved to a
-- path within the new root, in normal form.
pub replace_path_root-within :
    (p from to : Text)
    → IsClean p
    → IsClean from
    → IsClean to
    → from ≢ text "/"
    → path_within_root from p ≡ true
    → (path_within_root to (replace_path_root p from to) ≡ true)
      × IsClean (replace_path_root p from to)
replace_path_root-within p from to cp cf ct n w =
    let (fs, ts, rest, hp, hq, ef, et, ep, eq) = replace_path_root-IsMoved p from to cp cf ct n w in
    rw (eq, et)
      (
        (path_within_root_iff ts (ts ++ rest) (All-begin ts rest hq) hq).1 (rest, refl),
        (ts ++ rest, hq, refl),
      )
