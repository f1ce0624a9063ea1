-- ===== src/Prelude/Maps.antt =====
-- Go maps with string keys, as association lists in the order in which `range` visits them, and the
-- results of fallible code.
use mathlib.Core.Path.{◌≡◌, refl, sym, subst}
use mathlib.Core.Logic.{inl, inr}
use mathlib.Core.Bool.{Bool, true}
use mathlib.Core.Logic.{inl, inr}
use mathlib.Core.Option.{Option, none, some}
use mathlib.Core.List.{List, [], ◌∷◌}
use native.Mathlib.Omega.{arith}
use open_lore.Prelude.Tests.{if◌then◌else◌, Bool-cases}
use open_lore.Prelude.Lists.{In, any, any-In, In-any}
use open_lore.Prelude.Bytes.{Text, ◌==◌, eq_iff}

pub data Result {ℓ} (E A : Type ℓ) : Type ℓ where
  err : E → Result E A
  ok : A → Result E A

infixl 5 ◌>>=◌
abbrev pub ◌>>=◌ {ℓ} :
    {Problem Value Next : Type ℓ}
    → Result Problem Value
    → (Value → Result Problem Next)
    → Result Problem Next
err problem >>= next = err problem
ok value >>= next = next value

module _ {ℓ} {V : Type ℓ} where
  -- m[k], none when the key is missing
  unfoldable pub lookup : Text → List (Text × V) → Option V
  lookup k [] = none
  lookup k ((j, v) ∷ m) = if j == k then some v else lookup k m

  -- m[k] = v
  unfoldable pub put : Text → V → List (Text × V) → List (Text × V)
  put k v [] = (k, v) ∷ []
  put k v ((j, w) ∷ m) = let rest = put k v m in if j == k then (k, v) ∷ m else (j, w) ∷ rest

  -- delete(m, k)
  unfoldable pub delete : Text → List (Text × V) → List (Text × V)
  delete k [] = []
  delete k ((j, v) ∷ m) = let rest = delete k m in if j == k then rest else (j, v) ∷ rest

  pub lookup-put :
      (k j : Text) (v : V) (m : List (Text × V))
      → lookup j (put k v m) ≡ (if k == j then some v else lookup j m)
  unfolding lookup put
  lookup-put k j v [] = refl
  lookup-put k j v ((i, w) ∷ m) =
      ground (arith, eq_iff k j, eq_iff i k, eq_iff i j, lookup-put k j v m)

  pub lookup-delete :
      (k j : Text) (m : List (Text × V))
      → lookup j (delete k m) ≡ (if k == j then none else lookup j m)
  unfolding lookup delete
  lookup-delete k j [] = ground arith
  lookup-delete k j ((i, w) ∷ m) =
      ground (arith, eq_iff k j, eq_iff i k, eq_iff i j, lookup-delete k j m)

-- s is an element of the list
abbrev pub contains : List Text → Text → Bool
contains xs s = any (λ x. x == s) xs

infixl 5 ◌>>◌
abbrev pub ◌>>◌ {ℓ} :
    {Problem Value Next : Type ℓ} → Result Problem Value → Result Problem Next → Result Problem Next
first >> second = first >>= λ unused. second

pub lookup-In :
    {V : Type 0} (k : Text) (v : V) (m : List (Text × V)) → lookup k m ≡ some v → In (k, v) m
unfolding lookup
lookup-In k v [] h = cc
lookup-In {V} k v ((j, w) ∷ m) h = elim (Bool-cases (j == k)) [
  | inl e ↦ inl (pair (sym ((eq_iff j k).0 e)) (injected (rw (e, lookup) at h)))
  | inr e ↦ inr (lookup-In k v m (rw (e, lookup) at h))
]
  where
    injected : some w ≡ some v → v ≡ w
    injected p = cc

    pair : k ≡ j → v ≡ w → ◌≡◌ {A = Text × V} (k, v) (j, w)
    pair p q = cc

-- The tests of `contains` and `any` as membership.
pub contains-In : (xs : List Text) (s : Text) → contains xs s ≡ true → In s xs
contains-In xs s h =
    let (x, m, e) = any-In (λ x. x == s) xs h in subst (λ t. In t xs) ((eq_iff x s).0 e) m

pub In-contains : (xs : List Text) (s : Text) → In s xs → contains xs s ≡ true
In-contains xs s m = In-any (λ x. x == s) xs s m ((eq_iff s s).1 refl)

-- A chain that succeeds has a first part that succeeds and passes its value on.
pub >>=-eq-ok {ℓ} :
    {Problem Value Next : Type ℓ} (first : Result Problem Value)
    (next : Value → Result Problem Next) {result : Next}
    → (first >>= next) ≡ ok result
    → (value : Value) × (first ≡ ok value) × (next value ≡ ok result)
>>=-eq-ok (err problem) next chain = cc
>>=-eq-ok (ok value) next chain = (value, refl, chain)
