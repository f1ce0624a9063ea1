-- ===== src/Server/Access/Names.antt =====
-- The grant names that the loops of `effectiveGrantNames` collect and sort, as lists.
use open_lore.Prelude.{
  ◌≡◌, refl, sym, ap, ◌∙◌, ◌⊎◌, inl, inr, true, false, Option, none, some, List, [], ◌∷◌, ◌==◌,
  if◌then◌else◌, Bool-cases, In, Text, text_lt, lookup, contains,
}
use open_lore.Server.Access.{add_name, insert_text, sort_strings, role_grants}

pub add_name-In : (g x : Text) (names : List Text) → In g (add_name x names) → (g ≡ x) ⊎ In g names
unfolding add_name
add_name-In g x names h = elim (Bool-cases (contains names x)) [
  | inl e ↦ inr (rw (e, add_name) at h)
  | inr e ↦ let k : (g ≡ x) ⊎ In g names = rw (e, add_name) at h in k
]

insert_text-In : (g x : Text) (ys : List Text) → In g (insert_text x ys) → (g ≡ x) ⊎ In g ys
unfolding insert_text
insert_text-In g x [] h = h
insert_text-In g x (y ∷ ys) h = go (Bool-cases (text_lt y x)) (insert_text-In g x ys)
  where
    go :
        (text_lt y x ≡ true) ⊎ (text_lt y x ≡ false)
        → (In g (insert_text x ys) → (g ≡ x) ⊎ In g ys)
        → (g ≡ x) ⊎ In g (y ∷ ys)
    go (inr e) ih = let k : (g ≡ x) ⊎ In g (y ∷ ys) = rw (e, insert_text) at h in k
    go (inl e) ih =
        elim (let k : (g ≡ y) ⊎ In g (insert_text x ys) = rw (e, insert_text) at h in k) [
          | inl same ↦ inr (inl same)
          | inr m ↦ elim (ih m) [ inl same ↦ inl same | inr n ↦ inr (inr n) ]
        ]

pub sort_strings-In : (g : Text) (xs : List Text) → In g (sort_strings xs) → In g xs
unfolding sort_strings
sort_strings-In g [] h = h
sort_strings-In g (x ∷ xs) h = elim (insert_text-In g x (sort_strings xs) h) [
  | inl e ↦ inl e
  | inr m ↦ inr (sort_strings-In g xs m)
]

abbrev pub ByRole : List (Text × Text) → List Text → Text → Type 0
ByRole allow roles g = (role : Text) × In role roles × (lookup role allow ≡ some g)

-- One role of the loop.
add_role : List (Text × Text) → Text → List Text → List Text
add_role allow role names = elim (lookup role allow) [
  | none ↦ names
  | some grant ↦ if grant == [] then names else add_name grant names
]

add_role-In :
    (allow : List (Text × Text)) (role g : Text) (names : List Text)
    → In g (add_role allow role names)
    → (lookup role allow ≡ some g) ⊎ In g names
unfolding add_role
add_role-In allow role g names h = go (lookup role allow) refl h
  where
    go :
        (o : Option Text)
        → lookup role allow ≡ o
        → In g (elim o [
          | none ↦ names
          | some grant ↦ if grant == [] then names else add_name grant names
        ])
        → (lookup role allow ≡ some g) ⊎ In g names
    go none e k = inr k
    go (some grant) e k = elim (Bool-cases (grant == [])) [
      | inl empty ↦ inr (rw empty at k)
      | inr full ↦ elim (add_name-In g grant names (rw full at k)) [
        | inl same ↦ inl (e ∙ ap some (sym same))
        | inr m ↦ inr m
      ]
    ]

pub role_grants-In :
    (allow : List (Text × Text)) (roles names : List Text) (g : Text)
    → In g (role_grants allow roles names)
    → ByRole allow roles g ⊎ In g names
unfolding role_grants add_role
role_grants-In allow [] names g h = inr h
role_grants-In allow (role ∷ roles) names g h =
    elim (role_grants-In allow roles (add_role allow role names) g h) [
      | inl (r, m, e) ↦ inl (r, inr m, e)
      | inr m ↦ elim (add_role-In allow role g names m) [
        | inl e ↦ inl (role, inl refl, e)
        | inr n ↦ inr n
      ]
    ]
