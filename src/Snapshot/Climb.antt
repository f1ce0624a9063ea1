-- ===== src/Snapshot/Climb.antt =====
-- pkg/vfs/changeset.go: the loop of `highestMissingRoot`.
use open_lore.Prelude.{
  ℕ, zero, suc, ◌<◌, ◌≡◌, refl, sym, ap, ◌∙◌, ◌≢◌, ◌⊎◌, inl, inr, true, false, List, [], ◌∷◌, ◌++◌,
  append-nil, append_assoc, arith, ◌==◌, Bool-cases, length, length-append, All, Text, text, eq_iff,
  eq_refl, Result, err, ok,
}
use open_lore.Vfs.{Error, FileInfo, FileSystem}
use open_lore.Path.{render, path_dir, path_within_root}
use open_lore.Path.Clean.{IsPart, IsClean, render_injective}
use open_lore.Path.Within.{Begins, path_within_root_iff}
use open_lore.Path.Parent.{path_dir-render, path_dir-root, All-split, length-lt-length-render}
use open_lore.Snapshot.{missing_path, climb, highest_missing_root}

-- `Stat` finds the path, or finds that it is missing.
abbrev pub IsThere : FileSystem → Text → Type 0
IsThere fs p = (info : FileInfo) × (fs.stat p ≡ ok info)

abbrev pub IsMissing : FileSystem → Text → Type 0
IsMissing fs p = (e : Error) × (fs.stat p ≡ err e) × (missing_path e ≡ true)

-- A root in normal form that contains the target and that is the target, or is missing below an
-- existing path or "/"; or the error of a `Stat`, other than that the path is missing.
abbrev pub IsHighest : FileSystem → Text → Result Error Text → Type 0
IsHighest fs target (ok r) =
    IsClean r
    × (path_within_root r target ≡ true)
    × (((r ≡ target) × IsThere fs target)
        ⊎ (IsMissing fs r × ((r ≡ text "/") ⊎ IsThere fs (path_dir r))))
IsHighest fs target (err e) = (p : Text) × (fs.stat p ≡ err e) × (missing_path e ≡ false)

module _ (fuel : ℕ) (fs : FileSystem) (root parent : Text) (d : path_dir root ≡ parent) where
  climb-top : parent ≡ root → climb (suc fuel) fs root ≡ ok root
  unfolding climb
  climb-top e = rw (d ∙ e, eq_refl root) refl

  climb-found : (info : FileInfo) → fs.stat parent ≡ ok info → climb (suc fuel) fs root ≡ ok root
  unfolding climb
  climb-found info e = elim (Bool-cases (parent == root)) [
    | inl k ↦ rw (d, k) refl
    | inr k ↦ rw (d, k, e) refl
  ]

  climb-stops :
      (e : Error)
      → (parent == root) ≡ false
      → fs.stat parent ≡ err e
      → missing_path e ≡ false
      → climb (suc fuel) fs root ≡ err e
  unfolding climb
  climb-stops e k s m = rw (d, k, s, m) refl

  climb-up :
      (e : Error)
      → (parent == root) ≡ false
      → fs.stat parent ≡ err e
      → missing_path e ≡ true
      → climb (suc fuel) fs root ≡ climb fuel fs parent
  unfolding climb
  climb-up e k s m = rw (d, k, s, m) (ap (climb fuel fs) d)

snoc-cases : (cs : List Text) → (cs ≡ []) ⊎ ((ds : List Text) × (d : Text) × (cs ≡ ds ++ d ∷ []))
snoc-cases [] = inl refl
snoc-cases (c ∷ cs) = elim (snoc-cases cs) [
  | inl e ↦ inr ([], c, ap (λ l. c ∷ l) e)
  | inr (ds, d, e) ↦ inr (c ∷ ds, d, ap (λ l. c ∷ l) e)
]

parent-ne :
    (ds : List Text) (d : Text) (cs : List Text)
    → cs ≡ ds ++ d ∷ []
    → All IsPart cs
    → render ds ≢ render cs
parent-ne ds d cs e h k =
    let k' : ds ≡ cs = render_injective ds cs (All-split ds (d ∷ []) (rw e at h)).0 h k in
    omega (arith, ap length k', ap length e, length-append ds (d ∷ []))

module _ (fs : FileSystem) (ts : List Text) (all : All IsPart ts) where
  -- The path that the loop ends at.
  IsHighest-top :
      (cs : List Text)
      → All IsPart cs
      → Begins cs ts
      → IsMissing fs (render cs)
      → (render cs ≡ text "/") ⊎ IsThere fs (path_dir (render cs))
      → IsHighest fs (render ts) (ok (render cs))
  IsHighest-top cs h b m top = ((cs, h, refl), (path_within_root_iff cs ts h all).1 b, inr (m, top))

  climb-IsHighest :
      (fuel : ℕ) (cs : List Text)
      → length cs < fuel
      → All IsPart cs
      → Begins cs ts
      → IsMissing fs (render cs)
      → IsHighest fs (render ts) (climb fuel fs (render cs))
  climb-IsHighest zero cs lt h b m = absurd (omega arith)
  climb-IsHighest (suc fuel) cs lt h (rest, b) m = elim (snoc-cases cs) [
    | inl e ↦
        let d : path_dir (render cs) ≡ render cs = rw e path_dir-root in
        rw (climb-top fuel fs (render cs) (render cs) d refl)
          (IsHighest-top cs h (rest, b) m (inl (ap render e ∙ unfold render in refl)))
    | inr (ds, d, e) ↦
        go ds (ap path_dir (ap render e) ∙ path_dir-render ds d (rw e at h)) (parent-ne ds d cs e h)
          (fs.stat (render ds)) refl
          (λ up.
            climb-IsHighest fuel ds (omega (arith, lt, ap length e, length-append ds (d ∷ [])))
              (All-split ds (d ∷ []) (rw e at h)).0
              (d ∷ rest, b ∙ ap (λ l. l ++ rest) e ∙ append_assoc ds (d ∷ []) rest) up)
  ]
    where
      go :
          (ds : List Text)
          → path_dir (render cs) ≡ render ds
          → render ds ≢ render cs
          → (found : Result Error FileInfo) → fs.stat (render ds) ≡ found
          → (IsMissing fs (render ds) → IsHighest fs (render ts) (climb fuel fs (render ds)))
          → IsHighest fs (render ts) (climb (suc fuel) fs (render cs))
      go ds p higher (ok info) s ih =
          rw (climb-found fuel fs (render cs) (render ds) p info s)
            (IsHighest-top cs h (rest, b) m (inr (info, ap fs.stat p ∙ s)))
      go ds p higher (err e) s ih = elim (Bool-cases (render ds == render cs)) [
        | inl k ↦ absurd (higher ((eq_iff _ _).0 k))
        | inr k ↦ elim (Bool-cases (missing_path e)) [
          | inl y ↦ rw (climb-up fuel fs (render cs) (render ds) p e k s y) (ih (e, s, y))
          | inr n ↦ rw (climb-stops fuel fs (render cs) (render ds) p e k s n) (render ds, s, n)
        ]
      ]

pub highest_missing_root-IsHighest :
    (fs : FileSystem) (target : Text)
    → IsClean target
    → IsHighest fs target (highest_missing_root fs target)
unfolding highest_missing_root
highest_missing_root-IsHighest fs target (ts, h, t) = rw t (go (fs.stat (render ts)) refl)
  where
    whole : Begins ts ts
    whole = ([], sym (append-nil ts))

    go :
        (found : Result Error FileInfo)
        → fs.stat (render ts) ≡ found
        → IsHighest fs (render ts) (highest_missing_root fs (render ts))
    go (ok info) s =
        rw (s, highest_missing_root)
          ((ts, h, refl), (path_within_root_iff ts ts h h).1 whole, inl (refl, (info, s)))
    go (err e) s = elim (Bool-cases (missing_path e)) [
      | inl y ↦
          rw (s, highest_missing_root, y)
            (climb-IsHighest fs ts h (length (render ts)) ts (length-lt-length-render ts h) h whole
              (e, s, y))
      | inr n ↦ rw (s, highest_missing_root, n) (render ts, s, n)
    ]
