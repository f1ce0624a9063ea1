-- ===== src/Vfs/Walk.antt =====
-- pkg/vfs/vfs.go: two walks of one tree whose callbacks agree on when to stop.
use open_lore.Prelude.{
  ℕ, zero, suc, ◌≡◌, refl, sym, ◌∙◌, inl, inr, true, Option, none, List, [], ◌∷◌, Bool-cases,
  Option-cases, Text, Result, ok, err,
}
use open_lore.Path.{clean_path, path_join}
use open_lore.Vfs.{Error, FileInfo, FileSystem, walk_entries, walk_dir}

module _ {A B : Type 0} (R : A → B → Type 0) where
  -- The states are related, and the errors are the same.
  abbrev pub Agree : A × Option Error → B × Option Error → Type 0
  Agree x y = R x.0 y.0 × (x.1 ≡ y.1)

  walk_entries-Agree :
      (f : Text → A → A × Option Error) (g : Text → B → B × Option Error)
      → ((p : Text) (a : A) (b : B) → R a b → Agree (f p a) (g p b))
      → (root : Text) (entries : List FileInfo) (a : A) (b : B) → R a b
      → Agree (walk_entries f root entries a) (walk_entries g root entries b)
  unfolding walk_entries
  walk_entries-Agree f g k root [] a b r = (r, refl)
  walk_entries-Agree f g k root (entry ∷ entries) a b r =
      let p = path_join root entry.file_name in
      let (r', same) = k p a b r in
      elim (Option-cases (f p a).1) [
        | inr (x, e) ↦ rw (walk_entries, e, sym same ∙ e) (r', refl)
        | inl e ↦
            rw (walk_entries, e, sym same ∙ e)
              (walk_entries-Agree f g k root entries (f p a).0 (g p b).0 r')
      ]

  pub walk_dir-Agree :
      (fsys : FileSystem) (f : A → Text → Result Error FileInfo → A × Option Error)
      (g : B → Text → Result Error FileInfo → B × Option Error)
      → ((a : A) (b : B) (p : Text) (i : Result Error FileInfo) → R a b → Agree (f a p i) (g b p i))
      → (fuel : ℕ) (root : Text) (a : A) (b : B) → R a b
      → Agree (walk_dir fuel fsys f root a) (walk_dir fuel fsys g root b)
  unfolding walk_dir
  walk_dir-Agree fsys f g k zero root a b r = (r, refl)
  walk_dir-Agree fsys f g k (suc fuel) root a b r =
      at_entry (λ p x y. walk_dir-Agree fsys f g k fuel p x y) (fsys.stat (clean_path root)) refl
    where
      Inner : Type 0
      Inner =
          (p : Text) (x : A) (y : B)
          → R x y
          → Agree (walk_dir fuel fsys f p x) (walk_dir fuel fsys g p y)

      at_entry :
          Inner
          → (s : Result Error FileInfo) → fsys.stat (clean_path root) ≡ s
          → Agree (walk_dir (suc fuel) fsys f root a) (walk_dir (suc fuel) fsys g root b)
      at_entry ih (err e) h = rw (walk_dir, h) (k a b (clean_path root) (err e) r)
      at_entry ih (ok info) h =
          let (r', same) = k a b (clean_path root) (ok info) r in
          elim (Option-cases (f a (clean_path root) (ok info)).1) [
            | inr (x, e) ↦ rw (walk_dir, h, e, sym same ∙ e) (r', refl)
            | inl e ↦ elim (Bool-cases info.dir) [
              | inr d ↦ rw (walk_dir, h, e, sym same ∙ e, d) (r', refl)
              | inl d ↦ below ih info h r' e (sym same ∙ e) d (fsys.read_dir (clean_path root)) refl
            ]
          ]
        where
          below :
              Inner
              → (info : FileInfo) → fsys.stat (clean_path root) ≡ ok info
              → R (f a (clean_path root) (ok info)).0 (g b (clean_path root) (ok info)).0
              → (f a (clean_path root) (ok info)).1 ≡ none
              → (g b (clean_path root) (ok info)).1 ≡ none
              → info.dir ≡ true
              → (x : Result Error (List FileInfo)) → fsys.read_dir (clean_path root) ≡ x
              → Agree (walk_dir (suc fuel) fsys f root a) (walk_dir (suc fuel) fsys g root b)
          below ih info h r' e e' d (err x) q =
              rw (walk_dir, h, e, e', d, q)
                (k (f a (clean_path root) (ok info)).0 (g b (clean_path root) (ok info)).0
                  (clean_path root) (err x) r')
          below ih info h r' e e' d (ok entries) q =
              rw (walk_dir, h, e, e', d, q)
                (walk_entries-Agree (λ p t. walk_dir fuel fsys f p t)
                  (λ p t. walk_dir fuel fsys g p t) ih (clean_path root) entries
                  (f a (clean_path root) (ok info)).0 (g b (clean_path root) (ok info)).0 r')
