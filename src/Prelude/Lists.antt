-- ===== src/Prelude/Lists.antt =====
-- Lists over the native numbers, membership and predicates by recursion, Boolean searches.
use Prim.Native.Nat.{ℕ, suc, ◌+◌}
use mathlib.Core.Path.{◌≡◌, refl, ap}
use mathlib.Core.Logic.{◌⊎◌, inl, inr, ◌↔◌}
use mathlib.Core.Bool.{Bool, true, false, ◌&&◌, ◌||◌}
use mathlib.Core.List.{List, [], ◌∷◌, ◌++◌, map}
use native.Mathlib.Omega.{arith}
use open_lore.Prelude.Tests.{if◌then◌else◌, Bool-cases}

module _ {ℓ} {A : Type ℓ} where
  abbrev pub length : List A → ℕ
  length [] = 0
  length (x ∷ xs) = suc (length xs)

  pub length-append : (xs ys : List A) → length (xs ++ ys) ≡ length xs + length ys
  length-append [] ys = omega arith
  length-append (x ∷ xs) ys = omega (arith, length-append xs ys)

  abbrev pub reverse : List A → List A
  reverse [] = []
  reverse (x ∷ xs) = reverse xs ++ x ∷ []

  -- A loop that sets a flag, or returns, when an element passes the test.
  abbrev pub any : (A → Bool) → List A → Bool
  any p [] = false
  any p (x ∷ xs) = p x || any p xs

  abbrev pub all : (A → Bool) → List A → Bool
  all p [] = true
  all p (x ∷ xs) = p x && all p xs

  -- The loop that appends the elements that pass the test.
  abbrev pub keep : (A → Bool) → List A → List A
  keep p [] = []
  keep p (x ∷ xs) = let rest = keep p xs in if p x then x ∷ rest else rest

-- `a` is an element of the list, with its place.
module _ {A : Type 0} where
  abbrev pub In : A → List A → Type 0
  In a [] = ⊥
  In a (x ∷ xs) = (a ≡ x) ⊎ In a xs

  pub In-append_left : (a : A) (xs ys : List A) → In a xs → In a (xs ++ ys)
  In-append_left a [] ys h = absurd h
  In-append_left a (x ∷ xs) ys (inl e) = inl e
  In-append_left a (x ∷ xs) ys (inr h) = inr (In-append_left a xs ys h)

module _ {ℓ κ} {A : Type ℓ} where
  abbrev pub All : (A → Type κ) → List A → Type κ
  All P [] = Unit
  All P (x ∷ xs) = P x × All P xs

module _ {ℓ κ} {A : Type ℓ} (P : A → Type κ) where
  pub All-append : (xs ys : List A) → All P xs → All P ys → All P (xs ++ ys)
  All-append [] ys hx hy = hy
  All-append (x ∷ xs) ys (p, hx) hy = (p, All-append xs ys hx hy)

pub any-In :
    {A : Type 0} (f : A → Bool) (xs : List A) → any f xs ≡ true → (a : A) × In a xs × (f a ≡ true)
any-In f [] h = cc
any-In f (x ∷ xs) h = elim (Bool-cases (f x)) [
  | inl e ↦ (x, inl refl, e)
  | inr e ↦ let (a, m, k) = any-In f xs (rw e at h) in (a, inr m, k)
]

pub In-any :
    {A : Type 0} (f : A → Bool) (xs : List A) (a : A) → In a xs → f a ≡ true → any f xs ≡ true
In-any f [] a m h = absurd m
In-any f (x ∷ xs) a (inl e) h = rw (rw e at h) refl
In-any f (x ∷ xs) a (inr m) h = ground (arith, In-any f xs a m h)

pub any-false :
    {A : Type 0} (f : A → Bool) (xs : List A) (a : A) → any f xs ≡ false → In a xs → f a ≡ false
any-false f [] a h m = absurd m
any-false f (x ∷ xs) a h (inl e) = rw e (ground arith)
any-false f (x ∷ xs) a h (inr m) = any-false f xs a (ground arith) m

pub In-append : {A : Type 0} (a : A) (xs ys : List A) → In a (xs ++ ys) → In a xs ⊎ In a ys
In-append a [] ys h = inr h
In-append a (x ∷ xs) ys (inl e) = inl (inl e)
In-append a (x ∷ xs) ys (inr h) = elim (In-append a xs ys h) [ inl m ↦ inl (inr m) | inr m ↦ inr m ]

pub In-map :
    {A B : Type 0} (f : A → B) (b : B) (xs : List A)
    → In b (map f xs)
    → (a : A) × In a xs × (b ≡ f a)
In-map f b [] h = absurd h
In-map f b (x ∷ xs) (inl e) = (x, inl refl, e)
In-map f b (x ∷ xs) (inr h) = let (a, m, e) = In-map f b xs h in (a, inr m, e)

pub map-In : {A B : Type 0} (f : A → B) (a : A) (xs : List A) → In a xs → In (f a) (map f xs)
map-In f a [] h = absurd h
map-In f a (x ∷ xs) (inl e) = inl (ap f e)
map-In f a (x ∷ xs) (inr h) = inr (map-In f a xs h)

keep-In_to :
    {A : Type 0} (p : A → Bool) (a : A) (xs : List A) → In a (keep p xs) → In a xs × (p a ≡ true)
keep-In_to p a [] h = absurd h
keep-In_to p a (x ∷ xs) h = go (Bool-cases (p x)) (keep-In_to p a xs)
  where
    go :
        (p x ≡ true) ⊎ (p x ≡ false)
        → (In a (keep p xs) → In a xs × (p a ≡ true))
        → In a (x ∷ xs) × (p a ≡ true)
    go (inr e) ih = let (m, k) = ih (rw e at h) in (inr m, k)
    go (inl e) ih = elim (let g : (a ≡ x) ⊎ In a (keep p xs) = rw e at h in g) [
      | inl same ↦ (inl same, rw same e)
      | inr m ↦ let (k, l) = ih m in (inr k, l)
    ]

keep-In_from :
    {A : Type 0} (p : A → Bool) (a : A) (xs : List A) → In a xs → p a ≡ true → In a (keep p xs)
keep-In_from p a [] h k = absurd h
keep-In_from p a (x ∷ xs) (inl e) k = rw (rw e at k) (inl e)
keep-In_from p a (x ∷ xs) (inr h) k = elim (Bool-cases (p x)) [
  | inl e ↦ rw e (inr (keep-In_from p a xs h k))
  | inr e ↦ rw e (keep-In_from p a xs h k)
]

-- `keep` holds exactly the elements that pass the test.
pub keep-In :
    {A : Type 0} (p : A → Bool) (a : A) (xs : List A) → In a (keep p xs) ↔ (In a xs × (p a ≡ true))
keep-In p a xs = (keep-In_to p a xs, λ h. keep-In_from p a xs h.0 h.1)

pub In-append_right : {A : Type 0} (a : A) (xs ys : List A) → In a ys → In a (xs ++ ys)
In-append_right a [] ys h = h
In-append_right a (x ∷ xs) ys h = inr (In-append_right a xs ys h)
