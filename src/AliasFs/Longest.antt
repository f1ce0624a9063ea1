-- ===== src/AliasFs/Longest.antt =====
-- The alias that a path is rewritten by.
use open_lore.Prelude.{
  ◌≤◌, ◌≡◌, refl, ap, ◌⊎◌, inl, inr, Bool, true, false, ◌==◌, eq_iff, none, some, List, [], ◌∷◌,
  arith, ltb, Bool-cases, Option-cases, length, In, All, Text, text,
}
use open_lore.Path.{clean_path, path_within_root}
use open_lore.Path.Clean.{IsClean, clean_path-IsClean}
use open_lore.Path.Replace.{IsMoved, replace_path_root-IsMoved}
use open_lore.AliasFs.{
  PathAlias, insert_alias, sort_aliases, current_aliases, find_alias, canonical,
}

-- No alias is longer than one before it.
IsSorted : List PathAlias → Type 0
IsSorted [] = Unit {0}
IsSorted (a ∷ aliases) = All (λ b. length b.alias ≤ length a.alias) aliases × IsSorted aliases

insert_alias-All :
    (P : PathAlias → Type 0) (a : PathAlias) (aliases : List PathAlias)
    → P a
    → All P aliases
    → All P (insert_alias a aliases)
unfolding insert_alias
insert_alias-All P a [] p h = (p, tt)
insert_alias-All P a (b ∷ rest) p (q, h) =
    elim (Bool-cases (ltb (length a.alias) (length b.alias))) [
      | inl e ↦ rw e (q, insert_alias-All P a rest p h)
      | inr e ↦ rw e (p, (q, h))
    ]

All-weaken :
    {P Q : PathAlias → Type 0} (aliases : List PathAlias)
    → ((b : PathAlias) → P b → Q b)
    → All P aliases
    → All Q aliases
All-weaken [] f h = tt
All-weaken (b ∷ aliases) f (p, h) = (f b p, All-weaken aliases f h)

insert_alias-IsSorted :
    (a : PathAlias) (aliases : List PathAlias)
    → IsSorted aliases
    → IsSorted (insert_alias a aliases)
unfolding insert_alias IsSorted
insert_alias-IsSorted a [] h = (tt, tt)
insert_alias-IsSorted a (b ∷ rest) (bounds, h) =
    elim (Bool-cases (ltb (length a.alias) (length b.alias))) [
      | inl e ↦ rw e (
        insert_alias-All (λ c. length c.alias ≤ length b.alias) a rest (ground arith) bounds,
        insert_alias-IsSorted a rest h,
      )
      | inr e ↦ rw e ((ground arith, All-weaken rest (longer (ground arith)) bounds), (bounds, h))
    ]
  where
    longer :
        length b.alias ≤ length a.alias
        → (c : PathAlias) → length c.alias ≤ length b.alias
        → length c.alias ≤ length a.alias
    longer k c l = omega arith

sort_aliases-IsSorted : (aliases : List PathAlias) → IsSorted (sort_aliases aliases)
unfolding sort_aliases IsSorted
sort_aliases-IsSorted [] = tt
sort_aliases-IsSorted (a ∷ aliases) =
    insert_alias-IsSorted a (sort_aliases aliases) (sort_aliases-IsSorted aliases)

find_alias_longest :
    (clean : Text) (aliases : List PathAlias) (a b : PathAlias)
    → IsSorted aliases
    → find_alias clean aliases ≡ some a
    → In b aliases
    → path_within_root b.alias clean ≡ true
    → length b.alias ≤ length a.alias
unfolding find_alias IsSorted
find_alias_longest clean (c ∷ rest) a b (bounds, s) h m w =
    elim (Bool-cases (path_within_root c.alias clean)) [
      | inl e ↦ first m (injected (rw (find_alias, e) at h))
      | inr e ↦ elim m [
        | inl same ↦ skipped e same
        | inr i ↦ find_alias_longest clean rest a b s (rw (find_alias, e) at h) i w
      ]
    ]
  where
    injected : some c ≡ some a → c ≡ a
    injected g = cc

    bounded :
        (xs : List PathAlias)
        → All (λ x. length x.alias ≤ length c.alias) xs
        → In b xs
        → length b.alias ≤ length c.alias
    bounded (x ∷ xs) (p, ps) (inl q) = rw q p
    bounded (x ∷ xs) (p, ps) (inr i) = bounded xs ps i
    bounded [] ps i = elim i [ ]

    first : In b (c ∷ rest) → c ≡ a → length b.alias ≤ length a.alias
    first (inl q) g = rw (q, g) (omega arith)
    first (inr i) g = rw (← g) (bounded rest bounds i)

    skipped : {X : Type 0} → path_within_root c.alias clean ≡ false → b ≡ c → X
    skipped e q = elim (apart e q) [ ]
      where
        apart : path_within_root c.alias clean ≡ false → b ≡ c → ⊥
        apart e q = cc (e, q, w)
find_alias_longest clean [] a b s h m w = elim m [ ]

find_alias-In :
    (clean : Text) (aliases : List PathAlias) (a : PathAlias)
    → find_alias clean aliases ≡ some a
    → In a aliases × (path_within_root a.alias clean ≡ true)
unfolding find_alias
find_alias-In clean [] a h = cc
find_alias-In clean (c ∷ rest) a h = elim (Bool-cases (path_within_root c.alias clean)) [
  | inl e ↦ first e (rw (find_alias, e) at h)
  | inr e ↦ let (i, w) = find_alias-In clean rest a (rw (find_alias, e) at h) in (inr i, w)
]
  where
    first :
        path_within_root c.alias clean ≡ true
        → some c ≡ some a
        → In a (c ∷ rest) × (path_within_root a.alias clean ≡ true)
    first e g =
        (inl (swap g), cc (ap (λ (x : PathAlias). path_within_root x.alias clean) (swap g), e))
      where
        swap : some c ≡ some a → a ≡ c
        swap g = cc

find_alias-none :
    (clean : Text) (aliases : List PathAlias) (b : PathAlias)
    → find_alias clean aliases ≡ none
    → In b aliases
    → path_within_root b.alias clean ≡ false
unfolding find_alias
find_alias-none clean [] b h m = elim m [ ]
find_alias-none clean (c ∷ rest) b h m = elim (Bool-cases (path_within_root c.alias clean)) [
  | inl e ↦ absurd (rw (find_alias, e) at h)
  | inr e ↦ elim m [
    | inl q ↦ rw q e
    | inr i ↦ find_alias-none clean rest b (rw (find_alias, e) at h) i
  ]
]
  where
    absurd : {X : Type 0} → some c ≡ none → X
    absurd g = cc

-- The roots of the aliases of a view are in normal form.
abbrev pub IsCleanAlias : PathAlias → Type 0
IsCleanAlias a = IsClean a.alias × IsClean a.target

sort_aliases-All :
    (P : PathAlias → Type 0) (aliases : List PathAlias)
    → All P aliases
    → All P (sort_aliases aliases)
unfolding sort_aliases
sort_aliases-All P [] h = tt
sort_aliases-All P (a ∷ aliases) (p, h) =
    insert_alias-All P a (sort_aliases aliases) p (sort_aliases-All P aliases h)

All-at :
    (P : PathAlias → Type 0) (aliases : List PathAlias) (a : PathAlias)
    → All P aliases
    → In a aliases
    → P a
All-at P (b ∷ aliases) a (p, h) (inl q) = rw q p
All-at P (b ∷ aliases) a (p, h) (inr i) = All-at P aliases a h i
All-at P [] a h i = elim i [ ]

-- Of a view whose aliases have roots and targets in normal form: either no alias contains the path,
-- which is then only cleaned; or the path is rewritten by an alias of the view that contains it, of
-- greatest length among those that do, and where that alias is not "/", the elements of the new path
-- are those of its target, followed by those that the old path has after the alias.
pub canonical_longest :
    (given : List PathAlias) (p : Text)
    → All IsCleanAlias given
    → ((canonical (current_aliases given) p ≡ (clean_path p, none))
        × ((b : PathAlias)
            → In b (current_aliases given)
            → path_within_root b.alias (clean_path p) ≡ false))
      ⊎ ((a : PathAlias) × ((canonical (current_aliases given) p).1 ≡ some a)
          × In a (current_aliases given)
          × (path_within_root a.alias (clean_path p) ≡ true)
          × ((b : PathAlias)
              → In b (current_aliases given)
              → path_within_root b.alias (clean_path p) ≡ true
              → length b.alias ≤ length a.alias)
          × ((a.alias ≡ text "/")
              ⊎ IsMoved a.alias a.target (clean_path p) (canonical (current_aliases given) p).0))
unfolding current_aliases canonical
canonical_longest given p cleans = elim (Option-cases (find_alias (clean_path p) sorted)) [
  | inl e ↦ inl (rw (canonical, e) refl, λ b m. find_alias-none (clean_path p) sorted b e m)
  | inr (a, e) ↦
      let (m, w) = find_alias-In (clean_path p) sorted a e in
      let (ca, ct) = All-at IsCleanAlias sorted a (sort_aliases-All IsCleanAlias given cleans) m in
      inr (
        a,
        rw (canonical, e) refl,
        m,
        w,
        λ b i v. find_alias_longest (clean_path p) sorted a b (sort_aliases-IsSorted given) e i v,
        elim (Bool-cases (a.alias == text "/")) [
          | inl k ↦ inl ((eq_iff a.alias (text "/")).0 k)
          | inr k ↦ inr (
              rw (canonical, e)
                (replace_path_root-IsMoved (clean_path p) a.alias a.target (clean_path-IsClean p) ca
                  ct (λ root. not_both k ((eq_iff a.alias (text "/")).1 root)) w))
        ],
      )
]
  where
    sorted : List PathAlias
    sorted = current_aliases given

    not_both : {b : Bool} → b ≡ false → b ≡ true → ⊥
    not_both x y = cc
