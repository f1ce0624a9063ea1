-- ===== src/Path/Within.antt =====
-- `pathWithinRoot` compares whole elements: a root contains a path exactly when its elements are
-- the first elements of the path. The roots of one path are told apart by their lengths.
use open_lore.Prelude.{
  ◌≤◌, ◌<◌, ◌≡◌, refl, sym, ap, ◌∙◌, ◌≢◌, ◌↔◌, ◌⊎◌, inl, inr, true, false, ◌||◌, List, [], ◌∷◌,
  ◌++◌, append-nil, append_assoc, arith, ◌==◌, Bool-cases, length, length-append, All, Text, text,
  eq_iff, eq_refl, has_prefix, has_prefix_iff,
}
use open_lore.Path.Split.{split_slash, split_slash-append}
use open_lore.Path.Clean.{IsPart, IsClean, render_injective, split_slash-render}
use open_lore.Path.{slash, join, render, path_within_root}

-- The elements `cs` begin the elements `ds`.
abbrev pub Begins : List Text → List Text → Type 0
Begins cs ds = (rest : List Text) × (ds ≡ cs ++ rest)

join-append : (cs ds : List Text) → join (cs ++ ds) ≡ join cs ++ join ds
unfolding join
join-append [] ds = refl
join-append (c ∷ cs) ds = rw (join-append cs ds, ← append_assoc c (join cs) (join ds)) refl

render-ne-root : (c : Text) (cs : List Text) → IsPart c → render (c ∷ cs) ≢ text "/"
unfolding render join
render-ne-root [] cs h e = h.0 refl
render-ne-root (b ∷ c) cs h e = cc

path_within_root_other :
    (root p : Text)
    → root ≢ text "/"
    → path_within_root root p ≡ (p == root || has_prefix p (root ++ text "/"))
unfolding path_within_root
path_within_root_other root p h = ground (arith, eq_iff root (text "/"))

pub render-append :
    (cs : List Text) (r : Text) (rs : List Text)
    → cs ≢ []
    → render (cs ++ r ∷ rs) ≡ render cs ++ slash ∷ (r ++ join rs)
unfolding render join
render-append [] r rs h = absurd (h refl)
render-append (c ∷ cs) r rs h = join-append (c ∷ cs) (r ∷ rs)

-- A root followed by a slash begins every path strictly below it.
has_prefix_below :
    (cs : List Text) (r : Text) (rs : List Text)
    → cs ≢ []
    → has_prefix (render (cs ++ r ∷ rs)) (render cs ++ text "/") ≡ true
has_prefix_below cs r rs h =
    (has_prefix_iff _ _).1
      (r ++ join rs, render-append cs r rs h ∙ sym (append_assoc (render cs) (text "/") _))

within_of_Begins :
    (cs ds : List Text)
    → All IsPart cs
    → Begins cs ds
    → path_within_root (render cs) (render ds) ≡ true
within_of_Begins [] ds h b = unfold path_within_root render ◌==◌ in refl
within_of_Begins (c ∷ cs) ds h ([], e) =
    rw (e, append-nil (c ∷ cs), path_within_root_other _ _ (render-ne-root c cs h.0), eq_refl) refl
within_of_Begins (c ∷ cs) ds h (r ∷ rs, e) =
    path_within_root_other _ _ (render-ne-root c cs h.0)
    ∙ rw e (ground (arith, has_prefix_below (c ∷ cs) r rs (cc)))

length-render-pos : (cs : List Text) → 1 ≤ length (render cs)
unfolding render join
length-render-pos [] = omega arith
length-render-pos (c ∷ cs) = omega arith

Begins-of_split :
    (c : Text) (cs ds : List Text) (rest : Text)
    → All IsPart (c ∷ cs)
    → All IsPart ds
    → render ds ≡ render (c ∷ cs) ++ slash ∷ rest
    → Begins (c ∷ cs) ds
Begins-of_split c cs [] rest h k e = absurd (
    unfold render in
    omega (
      arith,
      ap length e,
      length-append (render (c ∷ cs)) (slash ∷ rest),
      length-render-pos (c ∷ cs),
    ))
Begins-of_split c cs (d ∷ ds) rest h k e = (
  split_slash rest,
  cc (
    split_slash-render d ds k,
    split_slash-render c cs h,
    ap split_slash e,
    split_slash-append (render (c ∷ cs)) rest,
  ),
)

Begins-of_within :
    (cs ds : List Text)
    → All IsPart cs
    → All IsPart ds
    → path_within_root (render cs) (render ds) ≡ true
    → Begins cs ds
Begins-of_within [] ds h k w = (ds, refl)
Begins-of_within (c ∷ cs) ds h k w = go (Bool-cases (render ds == render (c ∷ cs)))
  where
    go :
        ((render ds == render (c ∷ cs)) ≡ true) ⊎ ((render ds == render (c ∷ cs)) ≡ false)
        → Begins (c ∷ cs) ds
    go (inl e) = ([], render_injective ds (c ∷ cs) k h ((eq_iff _ _).0 e) ∙ sym (append-nil _))
    go (inr n) =
        let (rest, e) = (has_prefix_iff _ _).0 (
          ground (
            arith,
            w,
            path_within_root_other (render (c ∷ cs)) (render ds) (render-ne-root c cs h.0),
          )) in
        Begins-of_split c cs ds rest h k (e ∙ append_assoc (render (c ∷ cs)) (text "/") rest)

-- For roots and paths in normal form, a root contains a path exactly when the elements of the
-- root are the first elements of the path: "/doc" does not contain "/docs".
pub path_within_root_iff :
    (cs ds : List Text)
    → All IsPart cs
    → All IsPart ds
    → (path_within_root (render cs) (render ds) ≡ true) ↔ Begins cs ds
path_within_root_iff cs ds h k = (Begins-of_within cs ds h k, within_of_Begins cs ds h)

Begins-chain : (cs es ds : List Text) → Begins cs ds → Begins es ds → Begins cs es ⊎ Begins es cs
Begins-chain [] es ds h k = inl (es, refl)
Begins-chain (c ∷ cs) [] ds h k = inr (c ∷ cs, refl)
Begins-chain (c ∷ cs) (e ∷ es) [] h k = absurd (cc (h.1))
Begins-chain (c ∷ cs) (e ∷ es) (d ∷ ds) (r, h) (s, k) =
    elim (Begins-chain cs es ds (r, cc) (s, cc)) [
      | inl (t, b) ↦ inl (t, cc)
      | inr (t, b) ↦ inr (t, cc)
    ]

-- A path strictly below another is longer.
length-render-lt :
    (cs : List Text) (r : Text) (rs : List Text)
    → All IsPart (r ∷ rs)
    → length (render cs) < length (render (cs ++ r ∷ rs))
length-render-lt [] [] rs h = absurd (h.0.0 refl)
length-render-lt [] (b ∷ r) rs h = unfold render join in omega arith
length-render-lt (c ∷ cs) r rs h =
    rw (render-append (c ∷ cs) r rs (cc))
      (omega (arith, length-append (render (c ∷ cs)) (slash ∷ (r ++ join rs))))

pub All-rest : (cs rest : List Text) → All IsPart (cs ++ rest) → All IsPart rest
All-rest [] rest h = h
All-rest (c ∷ cs) rest h = All-rest cs rest h.1

-- Of two beginnings of one path, the one that is not longer begins the other.
Begins-of_length :
    (cs es ds : List Text)
    → All IsPart cs
    → Begins cs ds
    → Begins es ds
    → length (render cs) ≤ length (render es)
    → Begins cs es
Begins-of_length cs es ds a h k l = elim (Begins-chain cs es ds h k) [
  | inl b ↦ b
  | inr ([], b) ↦ ([], sym (append-nil cs ∙ b ∙ append-nil es))
  | inr (r ∷ rs, b) ↦ absurd (
      omega (
        arith,
        length-render-lt es r rs (All-rest es (r ∷ rs) (rw b at a)),
        ap (λ x. length (render x)) b,
      ))
]

-- Of two roots that contain one path, all in normal form, the one that is not longer contains the
-- other: the roots of a path are linearly ordered, and their lengths tell the order.
pub path_within_root_shorter :
    (r s p : Text)
    → IsClean r
    → IsClean s
    → IsClean p
    → path_within_root r p ≡ true
    → path_within_root s p ≡ true
    → length r ≤ length s
    → path_within_root r s ≡ true
path_within_root_shorter r s p (rs, hr, er) (ss, hs, es) (ps, hp, ep) h k l =
    rw (er, es)
      (within_of_Begins rs ss hr (
        Begins-of_length rs ss ps hr (Begins-of_within rs ps hr hp (rw (er, ep) at h))
          (Begins-of_within ss ps hs hp (rw (es, ep) at k)) (rw (er, es) at l)))
