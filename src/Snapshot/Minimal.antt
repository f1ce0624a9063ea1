-- ===== src/Snapshot/Minimal.antt =====
-- pkg/vfs/changeset.go: the roots of `captureBatch`, and the names that the batch changes.
use open_lore.Prelude.{
  ℕ, ◌≡◌, refl, sym, ap, ◌∙◌, ◌⊎◌, inl, inr, Bool, true, false, Option, List, [], ◌∷◌, ◌++◌,
  append_assoc, arith, if◌then◌else◌, Bool-cases, Option-cases, is_some, In, In-append_left, All,
  All-append, any-In, In-append_right, Text, eq_refl, Result, >>=-eq-ok, err, ok,
}
use open_lore.Vfs.{Error, FileInfo, FileSystem, walk_dir}
use open_lore.Path.{clean_path, path_within_root}
use open_lore.Path.Clean.{IsClean, clean_path-IsClean}
use open_lore.Path.Within.{Begins, path_within_root_iff}
use open_lore.Changeset.{Change}
use open_lore.Snapshot.{
  XattrReader, Substrate, RollbackSnapshot, BatchSnapshot, missing_path, capture_visit,
  capture_root, is_before, insert_root, sort_roots, is_covered, minimal_from, minimal_roots,
  changes_names, highest_missing_root, target_roots, capture_roots, capture_targets, attr_targets,
  reader_at, capture_batch,
}
use open_lore.Snapshot.Climb.{IsHighest, highest_missing_root-IsHighest}

insert_root-In :
    (a r : Text) (roots : List Text) → (a ≡ r) ⊎ In a roots → In a (insert_root r roots)
unfolding insert_root
insert_root-In a r [] h = h
insert_root-In a r (q ∷ rest) h = go (Bool-cases (is_before q r)) h (insert_root-In a r rest)
  where
    go :
        (is_before q r ≡ true) ⊎ (is_before q r ≡ false)
        → (a ≡ r) ⊎ (a ≡ q) ⊎ In a rest
        → ((a ≡ r) ⊎ In a rest → In a (insert_root r rest))
        → In a (insert_root r (q ∷ rest))
    go (inl e) (inl k) ih = rw e (inr (ih (inl k)))
    go (inl e) (inr (inl k)) ih = rw e (inl k)
    go (inl e) (inr (inr k)) ih = rw e (inr (ih (inr k)))
    go (inr e) k ih = rw e k

insert_root-All :
    (P : Text → Type 0) (r : Text) (roots : List Text)
    → P r
    → All P roots
    → All P (insert_root r roots)
unfolding insert_root
insert_root-All P r [] p h = (p, tt)
insert_root-All P r (q ∷ rest) p (k, h) = elim (Bool-cases (is_before q r)) [
  | inl e ↦ rw e (k, insert_root-All P r rest p h)
  | inr e ↦ rw e (p, (k, h))
]

sort_roots-In : (a : Text) (roots : List Text) → In a roots → In a (sort_roots roots)
unfolding sort_roots
sort_roots-In a [] h = absurd h
sort_roots-In a (r ∷ roots) (inl e) = insert_root-In a r (sort_roots roots) (inl e)
sort_roots-In a (r ∷ roots) (inr h) =
    insert_root-In a r (sort_roots roots) (inr (sort_roots-In a roots h))

sort_roots-All : (P : Text → Type 0) (roots : List Text) → All P roots → All P (sort_roots roots)
unfolding sort_roots
sort_roots-All P [] h = tt
sort_roots-All P (r ∷ roots) (p, h) =
    insert_root-All P r (sort_roots roots) p (sort_roots-All P roots h)

-- Some root of the list contains the path.
abbrev pub Covers : List Text → Text → Type 0
Covers kept p = (k : Text) × In k kept × (path_within_root k p ≡ true)

is_covered-Covers :
    (kept : List Text) (root : Text) → is_covered kept root ≡ true → Covers kept root
unfolding is_covered path_within_root
is_covered-Covers kept root h = let (k, m, e) = any-In _ kept h in (k, m, ground arith)

minimal_from-keeps :
    (p : Text) (kept roots : List Text) → Covers kept p → Covers (minimal_from kept roots) p
unfolding minimal_from
minimal_from-keeps p kept [] h = h
minimal_from-keeps p kept (root ∷ roots) (k, m, e) = elim (Bool-cases (is_covered kept root)) [
  | inl c ↦ rw c (minimal_from-keeps p kept roots (k, m, e))
  | inr c ↦
      rw c
        (minimal_from-keeps p (kept ++ root ∷ []) roots (k, In-append_left k kept (root ∷ []) m, e))
]

covers_itself : (root : Text) → path_within_root root root ≡ true
unfolding path_within_root
covers_itself root = rw (eq_refl root) (ground arith)

minimal_from-Covers :
    (p : Text) (kept roots : List Text) → In p roots → Covers (minimal_from kept roots) p
unfolding minimal_from
minimal_from-Covers p kept [] m = absurd m
minimal_from-Covers p kept (root ∷ roots) (inr m) =
    minimal_from-Covers p (if is_covered kept root then kept else kept ++ root ∷ []) roots m
minimal_from-Covers p kept (root ∷ roots) (inl e) = rw e (elim (Bool-cases (is_covered kept root)) [
  | inl c ↦ rw c (minimal_from-keeps root kept roots (is_covered-Covers kept root c))
  | inr c ↦ rw c (
      minimal_from-keeps root (kept ++ root ∷ []) roots
        (root, In-append_right root kept (root ∷ []) (inl refl), covers_itself root))
])

minimal_from-All :
    (P : Text → Type 0) (kept roots : List Text)
    → All P kept
    → All P roots
    → All P (minimal_from kept roots)
unfolding minimal_from
minimal_from-All P kept [] k h = k
minimal_from-All P kept (root ∷ roots) k (p, h) = elim (Bool-cases (is_covered kept root)) [
  | inl c ↦ rw c (minimal_from-All P kept roots k h)
  | inr c ↦
      rw c
        (minimal_from-All P (kept ++ root ∷ []) roots (All-append P kept (root ∷ []) k (p, tt)) h)
]

minimal_roots-Covers : (p : Text) (roots : List Text) → In p roots → Covers (minimal_roots roots) p
unfolding minimal_roots
minimal_roots-Covers p roots m =
    minimal_from-Covers p [] (sort_roots roots) (sort_roots-In p roots m)

minimal_roots-All :
    (P : Text → Type 0) (roots : List Text) → All P roots → All P (minimal_roots roots)
unfolding minimal_roots
minimal_roots-All P roots h = minimal_from-All P [] (sort_roots roots) tt (sort_roots-All P roots h)

All-In : (P : Text → Type 0) (a : Text) (l : List Text) → All P l → In a l → P a
All-In P a [] h m = absurd m
All-In P a (x ∷ l) (p, h) (inl e) = rw e p
All-In P a (x ∷ l) (p, h) (inr m) = All-In P a l h m

module _ (fs : FileSystem) where
  target_roots-All :
      (changes : List Change) (roots : List Text)
      → target_roots fs changes ≡ ok roots
      → All IsClean roots
  unfolding target_roots
  target_roots-All [] roots h = let e : [] ≡ roots = cc in rw (← e) tt
  target_roots-All (c ∷ changes) roots h = elim (Bool-cases (changes_names c.action_name)) [
    | inr n ↦ target_roots-All changes roots (rw n at h)
    | inl y ↦
        let (r, k, h') = >>=-eq-ok (highest_missing_root fs (clean_path c.target)) _ (rw y at h) in
        let (rest, k', h'') = >>=-eq-ok (target_roots fs changes) _ h' in
        let e : r ∷ rest ≡ roots = cc in
        let found : IsHighest fs (clean_path c.target) (ok r) =
          rw k at (
            highest_missing_root-IsHighest fs (clean_path c.target)
              (clean_path-IsClean c.target)) in
        rw (← e) (found.0, target_roots-All changes rest k')
  ]

  target_roots-In :
      (changes : List Change) (roots : List Text) (c : Change)
      → target_roots fs changes ≡ ok roots
      → In c changes
      → changes_names c.action_name ≡ true
      → (r : Text) × In r roots × (highest_missing_root fs (clean_path c.target) ≡ ok r)
  unfolding target_roots
  target_roots-In [] roots c h m y = absurd m
  target_roots-In (d ∷ changes) roots c h m y = elim (Bool-cases (changes_names d.action_name)) [
    | inr n ↦ elim (let g : (c ≡ d) ⊎ In c changes = m in g) [
      | inl e ↦ absurd (let g : changes_names d.action_name ≡ true = rw e at y in cc)
      | inr m' ↦ target_roots-In changes roots c (rw n at h) m' y
    ]
    | inl z ↦
        let (r, k, h') = >>=-eq-ok (highest_missing_root fs (clean_path d.target)) _ (rw z at h) in
        let (rest, k', h'') = >>=-eq-ok (target_roots fs changes) _ h' in
        let e : r ∷ rest ≡ roots = cc in
        rw (← e) (elim (let g : (c ≡ d) ⊎ In c changes = m in g) [
          | inl same ↦ (r, inl refl, rw same k)
          | inr m' ↦ let (q, i, found) = target_roots-In changes rest c k' m' y in (q, inr i, found)
        ])
  ]

  module _ (fuel : ℕ) (can_write : Bool) (reader : Option XattrReader) where
    capture_root-root :
        (root : Text) (s : RollbackSnapshot)
        → capture_root fuel fs can_write reader root ≡ ok s
        → s.root ≡ root
    unfolding capture_root
    capture_root-root root s h = go (fs.stat root) refl
      where
        go : (found : Result Error FileInfo) → fs.stat root ≡ found → s.root ≡ root
        go (err e) k = elim (Bool-cases (missing_path e)) [
          | inl y ↦
              let g : ok (record { root = root; existed = false; entries = [] }) ≡ ok s =
                rw (k, capture_root, y) at h in
              cc
          | inr n ↦ let g : err e ≡ ok s = rw (k, capture_root, n) at h in cc
        ]
        go (ok info) k =
            elim (Option-cases (walk_dir fuel fs (capture_visit fs can_write reader) root []).1) [
              | inl n ↦
                  let g : ok (record {
                    root = root;
                    existed = true;
                    entries = (walk_dir fuel fs (capture_visit fs can_write reader) root []).0;
                  })
                      ≡ ok s =
                    rw (k, capture_root, n) at h in
                  cc
              | inr (e, n) ↦ let g : err e ≡ ok s = rw (k, capture_root, n) at h in cc
            ]

    capture_roots-In :
        (roots : List Text) (snapshots : List RollbackSnapshot) (k : Text)
        → capture_roots fuel fs can_write reader roots ≡ ok snapshots
        → In k roots
        → (s : RollbackSnapshot) × In s snapshots × (s.root ≡ k)
    unfolding capture_roots
    capture_roots-In [] snapshots k h m = absurd m
    capture_roots-In (root ∷ roots) snapshots k h m =
        let (s, e, h') = >>=-eq-ok (capture_root fuel fs can_write reader root) _ h in
        let (rest, e', h'') = >>=-eq-ok (capture_roots fuel fs can_write reader roots) _ h' in
        let same : s ∷ rest ≡ snapshots = cc in
        rw (← same) (elim (let g : (k ≡ root) ⊎ In k roots = m in g) [
          | inl i ↦ (s, inl refl, capture_root-root root s e ∙ sym i)
          | inr m' ↦ let (t, i, x) = capture_roots-In roots rest k e' m' in (t, inr i, x)
        ])

within_trans :
    (a b c : Text)
    → IsClean a
    → IsClean b
    → IsClean c
    → path_within_root a b ≡ true
    → path_within_root b c ≡ true
    → path_within_root a c ≡ true
within_trans a b c (xs, ha, ea) (ys, hb, eb) (zs, hc, ec) h k =
    let (r, e) : Begins xs ys = (path_within_root_iff xs ys ha hb).0 (rw (ea, eb) at h) in
    let (q, f) : Begins ys zs = (path_within_root_iff ys zs hb hc).0 (rw (eb, ec) at k) in
    rw (ea, ec)
      ((path_within_root_iff xs zs ha hc).1 (r ++ q, f ∙ ap (λ l. l ++ q) e ∙ append_assoc xs r q))

module _ {S : Type 0} (fuel : ℕ) (sub : Substrate S) where
  -- When the snapshot of a batch succeeds, it holds for every change of the tree of names in the batch
  -- a root that contains the change's cleaned target.
  pub capture_batch-Covers :
      (changes : List Change) (st : S) (snapshot : BatchSnapshot) (c : Change)
      → capture_batch fuel sub changes st ≡ ok snapshot
      → In c changes
      → changes_names c.action_name ≡ true
      → (s : RollbackSnapshot) × In s snapshot.roots
        × (path_within_root s.root (clean_path c.target) ≡ true)
  unfolding capture_batch
  capture_batch-Covers changes st snapshot c h m y =
      let fs = sub.view st in
      let (roots, a, h1) = >>=-eq-ok (target_roots fs changes) _ h in
      let (snapshots, b, h2) =
        >>=-eq-ok
          (capture_roots fuel fs (is_some sub.writer.xattr_writer) (reader_at sub st)
            (minimal_roots roots))
          _ h1 in
      let (attrs, d, h3) =
        >>=-eq-ok
          (capture_targets (is_some sub.writer.xattr_writer) (reader_at sub st)
            (attr_targets changes))
          _ h2 in
      let same : snapshots ≡ snapshot.roots = cc in
      let (r, i, found) = target_roots-In fs changes roots c a m y in
      let clean = target_roots-All fs changes roots a in
      let (k, j, over) = minimal_roots-Covers r roots i in
      let highest : IsHighest fs (clean_path c.target) (ok r) =
        rw found at
          (highest_missing_root-IsHighest fs (clean_path c.target) (clean_path-IsClean c.target)) in
      let (s, l, e) =
        capture_roots-In fs fuel (is_some sub.writer.xattr_writer) (reader_at sub st)
          (minimal_roots roots) snapshots k b j in
      (
        s,
        rw (← same) l,
        rw e (
            within_trans k r (clean_path c.target)
              (All-In IsClean k (minimal_roots roots) (minimal_roots-All IsClean roots clean) j)
              (All-In IsClean r roots clean i) (clean_path-IsClean c.target) over highest.1),
      )
