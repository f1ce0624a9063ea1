-- ===== src/Path/Parent.antt =====
-- Go's `path.Dir` on display paths in normal form.
use open_lore.Prelude.{
  ◌<◌, ◌≡◌, refl, ap, ◌∙◌, true, false, List, [], ◌∷◌, ◌++◌, append-nil, arith, ◌==◌, length,
  length-append, All, Text, has_byte,
}
use open_lore.Path.Split.{NoSlash, split_slash, split_slash-append, split_slash-NoSlash}
use open_lore.Path.Clean.{IsPart, clean_parts-append, clean_parts_of_All, split_slash-render}
use open_lore.Path.Within.{render-append}
use open_lore.Path.{
  slash, clean_parts, clean_step, render, join, path_clean, before_last_slash, path_dir,
}

has_byte-NoSlash : (d : Text) → NoSlash d → has_byte slash d ≡ false
unfolding has_byte
has_byte-NoSlash [] h = refl
has_byte-NoSlash (c ∷ d) (n, h) = ground (arith, has_byte-NoSlash d h)

has_byte-append : (a d : Text) → has_byte slash (a ++ slash ∷ d) ≡ true
unfolding has_byte
has_byte-append [] d = refl
has_byte-append (c ∷ a) d = ground (arith, has_byte-append a d)

before_last_slash-append :
    (a d : Text) → NoSlash d → before_last_slash (a ++ slash ∷ d) ≡ a ++ slash ∷ []
unfolding before_last_slash
before_last_slash-append [] d h = rw (has_byte-NoSlash d h) refl
before_last_slash-append (c ∷ a) d h = rw (has_byte-append a d, before_last_slash-append a d h) refl

clean_parts_trailing : (cs : List Text) → All IsPart cs → clean_parts [] (([] ∷ cs) ++ [] ∷ []) ≡ cs
unfolding clean_parts clean_step ◌==◌
clean_parts_trailing cs h = clean_parts-append [] cs ([] ∷ []) ∙ clean_parts_of_All [] cs h

split_slash_trailing :
    (c : Text) (cs : List Text)
    → All IsPart (c ∷ cs)
    → split_slash (render (c ∷ cs) ++ slash ∷ []) ≡ ([] ∷ c ∷ cs) ++ [] ∷ []
split_slash_trailing c cs h =
    split_slash-append (render (c ∷ cs)) []
    ∙ ap (λ l. l ++ split_slash []) (split_slash-render c cs h)
    ∙ ap (λ l. ([] ∷ c ∷ cs) ++ l) (split_slash-NoSlash [] tt)

path_clean_trailing :
    (c : Text) (cs : List Text)
    → All IsPart (c ∷ cs)
    → path_clean (render (c ∷ cs) ++ slash ∷ []) ≡ render (c ∷ cs)
unfolding path_clean
path_clean_trailing c cs h =
    ap (λ l. render (clean_parts [] l)) (split_slash_trailing c cs h)
    ∙ ap render (clean_parts_trailing (c ∷ cs) h)

path_clean-root : path_clean (slash ∷ []) ≡ render []
unfolding path_clean ◌==◌
path_clean-root = refl

render-snoc :
    (d : Text) (cs : List Text) (c : Text)
    → render ((d ∷ cs) ++ c ∷ []) ≡ render (d ∷ cs) ++ slash ∷ c
unfolding join
render-snoc d cs c =
    render-append (d ∷ cs) c [] (λ e. cc) ∙ ap (λ x. render (d ∷ cs) ++ slash ∷ x) (append-nil c)

render-one : (c : Text) → render (c ∷ []) ≡ slash ∷ c
unfolding render join
render-one c = ap (λ x. slash ∷ x) (append-nil c)

pub All-split : (cs ds : List Text) → All IsPart (cs ++ ds) → All IsPart cs × All IsPart ds
All-split [] ds h = (tt, h)
All-split (c ∷ cs) ds (k, h) = let (a, b) = All-split cs ds h in ((k, a), b)

pub path_dir-render :
    (cs : List Text) (c : Text)
    → All IsPart (cs ++ c ∷ [])
    → path_dir (render (cs ++ c ∷ [])) ≡ render cs
unfolding path_dir
path_dir-render [] c (h, u) =
    ap (λ x. path_clean (before_last_slash x)) (render-one c)
    ∙ ap path_clean (before_last_slash-append [] c h.3)
    ∙ path_clean-root
path_dir-render (d ∷ cs) c h =
    let (k, (p, u)) = All-split (d ∷ cs) (c ∷ []) h in
    ap (λ x. path_clean (before_last_slash x)) (render-snoc d cs c)
    ∙ ap path_clean (before_last_slash-append (render (d ∷ cs)) c p.3)
    ∙ path_clean_trailing d cs k

pub path_dir-root : path_dir (render []) ≡ render []
unfolding path_dir ◌==◌ has_byte
path_dir-root = refl

length-lt-render :
    (c : Text) (cs : List Text) → All IsPart (c ∷ cs) → length (c ∷ cs) < length (render (c ∷ cs))
unfolding render join
length-lt-render [] cs h = absurd (h.0.0 refl)
length-lt-render (b ∷ c) [] h = omega (arith, length-append (b ∷ c) [])
length-lt-render (b ∷ c) (d ∷ cs) h =
    omega (arith, length-append (b ∷ c) (join (d ∷ cs)), length-lt-render d cs h.1)

-- A path has more bytes than elements.
pub length-lt-length-render : (cs : List Text) → All IsPart cs → length cs < length (render cs)
unfolding render
length-lt-length-render [] h = omega arith
length-lt-length-render (c ∷ cs) h = length-lt-render c cs h
