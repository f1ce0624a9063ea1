-- ===== src/Path/Clean.antt =====
-- The normal form of a display path: a slash before each element, no element empty, "." or "..".
use open_lore.Prelude.{
  ◌≡◌, refl, sym, ap, ◌∙◌, ◌≢◌, ◌↔◌, ◌⊎◌, inl, inr, false, List, [], ◌∷◌, ◌++◌, append-nil,
  append_assoc, arith, ◌==◌, All, All-append, Text, text, eq_iff,
}
use open_lore.Path.Split.{
  NoSlash, split_slash, split_slash-append, split_slash-NoSlash, split_slash-All-NoSlash,
}
use open_lore.Path.{slash, init, clean_step, clean_parts, join, render, clean_path}

abbrev pub IsPart : Text → Type 0
IsPart w = (w ≢ []) × (w ≢ text ".") × (w ≢ text "..") × NoSlash w

-- The elements of the path that `CleanPath` returns.
unfoldable pub elements : Text → List Text
unfolding clean_parts
elements p = clean_parts [] (split_slash (slash ∷ p))

pub IsPart-NoSlash : (ps : List Text) → All IsPart ps → All NoSlash ps
IsPart-NoSlash [] h = tt
IsPart-NoSlash (p ∷ ps) (k, h) = (k.3, IsPart-NoSlash ps h)

All-init : (ps : List Text) → All IsPart ps → All IsPart (init ps)
unfolding init
All-init [] h = tt
All-init (p ∷ []) h = tt
All-init (p ∷ q ∷ ps) (k, h) = (k, All-init (q ∷ ps) h)

clean_step-All :
    (done : List Text) (w : Text) → All IsPart done → NoSlash w → All IsPart (clean_step done w)
unfolding clean_step
clean_step-All done w h k = ground (
  arith,
  All-init done h,
  eq_iff w [],
  eq_iff w (text "."),
  eq_iff w (text ".."),
  λ (p : IsPart w). All-append IsPart done (w ∷ []) h (p, tt),
)

clean_parts-All :
    (done ps : List Text) → All IsPart done → All NoSlash ps → All IsPart (clean_parts done ps)
unfolding clean_parts
clean_parts-All done [] h k = h
clean_parts-All done (p ∷ ps) h (k, ks) =
    clean_parts-All (clean_step done p) ps (clean_step-All done p h k) ks

pub elements-All : (p : Text) → All IsPart (elements p)
unfolding elements
elements-All p = clean_parts-All [] _ tt (split_slash-All-NoSlash (slash ∷ p))

clean_step_of_IsPart : (done : List Text) (w : Text) → IsPart w → clean_step done w ≡ done ++ w ∷ []
unfolding clean_step
clean_step_of_IsPart done w h =
    ground (arith, eq_iff w [], eq_iff w (text "."), eq_iff w (text ".."))

pub clean_parts_of_All : (done ps : List Text) → All IsPart ps → clean_parts done ps ≡ done ++ ps
unfolding clean_parts
clean_parts_of_All done [] h = sym (append-nil done)
clean_parts_of_All done (p ∷ ps) (k, h) =
    rw (clean_step_of_IsPart done p k)
      (clean_parts_of_All (done ++ p ∷ []) ps h ∙ append_assoc done (p ∷ []) ps)

-- Splitting gives back the elements that were joined.
split_slash_tail :
    (p : Text) (ps : List Text) → NoSlash p → All NoSlash ps → split_slash (p ++ join ps) ≡ p ∷ ps
unfolding join
split_slash_tail p [] h k = rw (append-nil p) (split_slash-NoSlash p h)
split_slash_tail p (q ∷ ps) h (k, ks) =
    split_slash-append p (q ++ join ps)
    ∙ rw (split_slash-NoSlash p h, split_slash_tail q ps k ks) refl

split_slash-join : (ps : List Text) → All NoSlash ps → ps ≢ [] → split_slash (join ps) ≡ [] ∷ ps
unfolding join split_slash
split_slash-join [] h ne = absurd (ne refl)
split_slash-join (p ∷ ps) (h, hs) ne = ap (λ l. [] ∷ l) (split_slash_tail p ps h hs)

pub elements-render : (ps : List Text) → All IsPart ps → elements (render ps) ≡ ps
unfolding elements render clean_parts split_slash clean_step ◌==◌
elements-render [] h = refl
elements-render (p ∷ ps) h =
    rw (split_slash-join (p ∷ ps) (IsPart-NoSlash (p ∷ ps) h) (cc))
      (clean_parts_of_All [] (p ∷ ps) h)

render-ne-dot : (ps : List Text) → (render ps == text ".") ≡ false
unfolding render ◌==◌
render-ne-dot [] = refl
render-ne-dot (p ∷ ps) = refl

pub clean_path-eq-render : (p : Text) → clean_path p ≡ render (elements p)
unfolding clean_path elements
clean_path-eq-render p = rw (render-ne-dot (elements p)) refl

-- A display path in normal form, with its elements.
abbrev pub IsClean : Text → Type 0
IsClean p = (ps : List Text) × All IsPart ps × (p ≡ render ps)

pub clean_path_of_IsClean : (p : Text) → IsClean p → clean_path p ≡ p
clean_path_of_IsClean p (ps, h, e) =
    clean_path-eq-render p ∙ rw e (ap render (elements-render ps h))

-- Whatever the request, `CleanPath` returns a slash before each of a list of elements, none of
-- which is empty, "." or ".." or has a slash in it; "/" is the path with no elements.
pub clean_path-IsClean : (p : Text) → IsClean (clean_path p)
clean_path-IsClean p = (elements p, elements-All p, clean_path-eq-render p)

clean_path_fixed_iff : (p : Text) → (clean_path p ≡ p) ↔ IsClean p
clean_path_fixed_iff p = (λ e. rw e at (clean_path-IsClean p), clean_path_of_IsClean p)

pub split_slash-render :
    (c : Text) (cs : List Text) → All IsPart (c ∷ cs) → split_slash (render (c ∷ cs)) ≡ [] ∷ c ∷ cs
unfolding render
split_slash-render c cs h = split_slash-join (c ∷ cs) (IsPart-NoSlash (c ∷ cs) h) (cc)

pub render_injective :
    (cs ds : List Text) → All IsPart cs → All IsPart ds → render cs ≡ render ds → cs ≡ ds
render_injective cs ds h k e = sym (elements-render cs h) ∙ ap elements e ∙ elements-render ds k

pub clean_parts-append :
    (done ps qs : List Text) → clean_parts done (ps ++ qs) ≡ clean_parts (clean_parts done ps) qs
unfolding clean_parts
clean_parts-append done [] qs = refl
clean_parts-append done (p ∷ ps) qs = clean_parts-append (clean_step done p) ps qs

-- Elements of a root, then of what follows it.
pub elements-append :
    (a : Text) (p : Text) (ps : List Text)
    → All IsPart (p ∷ ps)
    → elements (a ++ slash ∷ (p ++ join ps)) ≡ elements a ++ p ∷ ps
unfolding elements
elements-append a p ps (k, h) =
    rw
      (
        split_slash-append (slash ∷ a) (p ++ join ps),
        split_slash_tail p ps k.3 (IsPart-NoSlash ps h),
        clean_parts-append,
      )
      (clean_parts_of_All (elements a) (p ∷ ps) (k, h))

-- The elements of a path that one more component follows.
elements-step : (p w : Text) → NoSlash w → elements (p ++ slash ∷ w) ≡ clean_step (elements p) w
unfolding elements clean_parts
elements-step p w k =
    rw
      (
        split_slash-append (slash ∷ p) w,
        clean_parts-append [] (split_slash (slash ∷ p)) (split_slash w),
        split_slash-NoSlash w k,
      )
      refl

clean_path-step :
    (p w : Text) → NoSlash w → clean_path (p ++ slash ∷ w) ≡ render (clean_step (elements p) w)
clean_path-step p w k = clean_path-eq-render (p ++ slash ∷ w) ∙ ap render (elements-step p w k)

dot-NoSlash : NoSlash (text ".")
dot-NoSlash = (λ e. omega (arith, e), tt)

dots-NoSlash : NoSlash (text "..")
dots-NoSlash = (λ e. omega (arith, e), dot-NoSlash)

init-cases : (ps : List Text) → (ps ≡ []) ⊎ ((q : Text) × (init ps ++ q ∷ [] ≡ ps))
unfolding init
init-cases [] = inl refl
init-cases (p ∷ []) = inr (p, refl)
init-cases (p ∷ q ∷ ps) = elim (init-cases (q ∷ ps)) [
  | inl e ↦ absurd (cc)
  | inr (r, e) ↦ inr (r, ap (λ l. p ∷ l) e)
]

-- What `CleanPath` makes of a path with ".." after it: the result for the path without its last
-- element, "/" where there is none.
abbrev pub GoesUp : Text → Type 0
GoesUp p =
    ((clean_path p ≡ text "/") × (clean_path (p ++ text "/..") ≡ text "/"))
    ⊎ ((ps : List Text) × (q : Text) × All IsPart (ps ++ q ∷ [])
        × (clean_path p ≡ render (ps ++ q ∷ []))
        × (clean_path (p ++ text "/..") ≡ render ps))

clean_path-GoesUp : (p : Text) → GoesUp p
unfolding clean_step ◌==◌
clean_path-GoesUp p = elim (init-cases (elements p)) [
  | inl e ↦ inl (
    clean_path-eq-render p ∙ ap render e ∙ unfold render in refl,
    clean_path-step p (text "..") dots-NoSlash
        ∙ ap (λ l. render (init l)) e
        ∙ unfold render init in refl,
  )
  | inr (q, e) ↦ inr (
    init (elements p),
    q,
    rw e (elements-All p),
    clean_path-eq-render p ∙ ap render (sym e),
    clean_path-step p (text "..") dots-NoSlash,
  )
]

-- `CleanPath` changes nothing exactly when the path is in normal form. The empty path is "/". One more
-- component after a slash leaves the result as it is if it is empty or "."; takes the last element
-- away if it is "..", where there is one; and is added as the last element otherwise.
pub clean_path_lem :
    (p w : Text)
    → IsPart w
    → ((clean_path p ≡ p) ↔ IsClean p)
      × (clean_path [] ≡ text "/")
      × (clean_path (p ++ text "/") ≡ clean_path p)
      × (clean_path (p ++ text "/.") ≡ clean_path p)
      × GoesUp p
      × ((ps : List Text) × All IsPart ps
          × (clean_path p ≡ render ps)
          × (clean_path (p ++ slash ∷ w) ≡ render (ps ++ w ∷ [])))
unfolding clean_step ◌==◌ split_slash
clean_path_lem p w k = (
  clean_path_fixed_iff p,
  unfold clean_path in refl,
  clean_path-step p [] tt ∙ sym (clean_path-eq-render p),
  clean_path-step p (text ".") dot-NoSlash ∙ sym (clean_path-eq-render p),
  clean_path-GoesUp p,
  (
    elements p,
    elements-All p,
    clean_path-eq-render p,
    clean_path-step p w k.3 ∙ ap render (clean_step_of_IsPart (elements p) w k),
  ),
)
