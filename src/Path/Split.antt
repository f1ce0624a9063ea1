-- ===== src/Path/Split.antt =====
-- strings.Split(p, "/"), and its inverse on elements without a slash.
use open_lore.Prelude.{
  ℕ, ◌≡◌, refl, ◌≢◌, inl, inr, List, [], ◌∷◌, ◌++◌, arith, if◌then◌else◌, nat_eq, Bool-cases, All,
  Text,
}

cons_head : ℕ → List Text → List Text
cons_head c [] = (c ∷ []) ∷ []
cons_head c (w ∷ ws) = (c ∷ w) ∷ ws

unfoldable pub split_slash : Text → List Text
unfolding cons_head
split_slash [] = [] ∷ []
split_slash (c ∷ s) = if nat_eq c b'/' then [] ∷ split_slash s else cons_head c (split_slash s)

-- No byte is a slash.
abbrev pub NoSlash : Text → Type 0
NoSlash [] = Unit
NoSlash (c ∷ s) = (c ≢ b'/') × NoSlash s

cons_head-append :
    (c : ℕ) (s : Text) (ws : List Text)
    → cons_head c (split_slash s ++ ws) ≡ cons_head c (split_slash s) ++ ws
unfolding split_slash
cons_head-append c [] ws = refl
cons_head-append c (d ∷ s) ws = elim (Bool-cases (nat_eq d b'/')) [
  | inl e ↦ rw e refl
  | inr e ↦ rw e (h (split_slash s))
]
  where
    h : (l : List Text) → cons_head c (cons_head d l ++ ws) ≡ cons_head c (cons_head d l) ++ ws
    h [] = refl
    h (w ∷ l) = refl

-- A slash separates the elements of what stands on its two sides.
pub split_slash-append : (a b : Text) → split_slash (a ++ b'/' ∷ b) ≡ split_slash a ++ split_slash b
unfolding split_slash
split_slash-append [] b = refl
split_slash-append (c ∷ a) b = elim (Bool-cases (nat_eq c b'/')) [
  | inl e ↦ rw (e, split_slash-append a b) refl
  | inr e ↦ rw (e, split_slash-append a b) (cons_head-append c a (split_slash b))
]

pub split_slash-NoSlash : (w : Text) → NoSlash w → split_slash w ≡ w ∷ []
unfolding split_slash
split_slash-NoSlash [] h = refl
split_slash-NoSlash (c ∷ w) (p, h) = ground (arith, split_slash-NoSlash w h)

All-NoSlash-cons_head :
    (c : ℕ) (ws : List Text) → c ≢ b'/' → All NoSlash ws → All NoSlash (cons_head c ws)
unfolding cons_head
All-NoSlash-cons_head c [] p h = ((p, tt), tt)
All-NoSlash-cons_head c (w ∷ ws) p (q, h) = ((p, q), h)

pub split_slash-All-NoSlash : (s : Text) → All NoSlash (split_slash s)
unfolding split_slash
split_slash-All-NoSlash [] = (tt, tt)
split_slash-All-NoSlash (c ∷ s) = elim (Bool-cases (nat_eq c b'/')) [
  | inl e ↦ rw e (tt, split_slash-All-NoSlash s)
  | inr e ↦
      rw e (All-NoSlash-cons_head c (split_slash s) (ground arith) (split_slash-All-NoSlash s))
]
