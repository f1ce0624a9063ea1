-- ===== src/ScopedWrite/Gated.antt =====
-- No mutation gets past the authorizer.
use open_lore.Prelude.{
  ℕ, ◌≡◌, refl, ◌⊎◌, inl, inr, Bool, true, false, Option, none, some, List, [], ◌∷◌, if◌then◌else◌,
  Option-cases, any, All, Text, text, Result, err,
}
use open_lore.Vfs.{
  Error, read_only, permission, not_sup, ChangeAction, write, mkdir, mkdir_all, remove, remove_all,
  set_xattr, remove_xattr, preserve_and_recreate_xattrs, migrate_xattrs,
}
use open_lore.Changeset.{
  ChangeSetError, WriteOpts, RemoveOpts, XattrMigration, Change, ChangeSet, action, leaves,
  validate_change_set,
}
use open_lore.Writable.{Action, WritableFs}
use open_lore.ScopedWrite.{
  ScopedWriteFs, guarded, guarded_xattr, write_file_atomic, make_dir, make_dir_all, remove_one,
  remove_tree, put_xattr, drop_xattr, recreate_xattrs, migrate, some_denied, admit_change_set,
}

-- The result is an error and the state is as before.
abbrev pub IsRefused : {S A : Type 0} → S → Result Error A × S → Type 0
IsRefused st out = ((e : Error) × (out.0 ≡ err e)) × (out.1 ≡ st)

module _ {S : Type 0} where
  -- The authorizer allows the action on the path, or the call is refused.
  unfoldable pub IsGated :
      {A : Type 0} → ScopedWriteFs S → ChangeAction → Text → Action S A → S → Type 0
  IsGated s a p call st = (s.authorize (action a) p ≡ none) ⊎ IsRefused st (call st)

  guarded-IsGated :
      {A : Type 0} (s : ScopedWriteFs S) (a : ChangeAction) (p : Text)
      (call : WritableFs S → Action S A) (st : S)
      → IsGated s a p (guarded s a p call) st
  unfolding IsGated guarded
  guarded-IsGated {A} s a p call st = go s.inner (s.authorize (action a) p)
    where
      go :
          (inner : Option (WritableFs S)) (o : Option Error)
          → (o ≡ none)
            ⊎ IsRefused {A = A} st (elim inner [
              | none ↦ (err read_only, st)
              | some fs ↦ elim o [ some e ↦ (err e, st) | none ↦ call fs st ]
            ])
      go none o = inr ((read_only, refl), refl)
      go (some fs) none = inl refl
      go (some fs) (some e) = inr ((e, refl), refl)

  guarded_xattr-IsGated :
      {C : Type 0} (s : ScopedWriteFs S) (a : ChangeAction) (p : Text)
      (capability : WritableFs S → Option C) (call : C → Action S (Unit {0})) (st : S)
      → IsGated s a p (guarded_xattr s a p capability call) st
  unfolding IsGated guarded_xattr
  guarded_xattr-IsGated s a p capability call st = go s.inner (s.authorize (action a) p)
    where
      go :
          (inner : Option (WritableFs S)) (o : Option Error)
          → (o ≡ none)
            ⊎ IsRefused {A = Unit {0}} st (elim inner [
              | none ↦ (err permission, st)
              | some fs ↦ elim o [
                | some e ↦ (err permission, st)
                | none ↦ elim (capability fs) [ none ↦ (err not_sup, st) | some c ↦ call c st ]
              ]
            ])
      go none o = inr ((permission, refl), refl)
      go (some fs) none = inl refl
      go (some fs) (some e) = inr ((permission, refl), refl)

  -- Each of the nine mutations of a session is refused, with nothing changed, unless the authorizer
  -- allows its own action on its path.
  pub mutations-IsGated :
      (s : ScopedWriteFs S) (p name : Text) (bytes : List ℕ) (opts : WriteOpts)
      (removal : RemoveOpts) (flags : ℕ) (attrs : List (Text × List ℕ)) (m : XattrMigration)
      (st : S)
      → IsGated s write p (write_file_atomic s p bytes opts) st
        × IsGated s mkdir p (make_dir s p) st
        × IsGated s mkdir_all p (make_dir_all s p) st
        × IsGated s remove p (remove_one s p) st
        × IsGated s remove_all p (remove_tree s p removal) st
        × IsGated s set_xattr p (put_xattr s p name bytes flags) st
        × IsGated s remove_xattr p (drop_xattr s p name) st
        × IsGated s preserve_and_recreate_xattrs p (recreate_xattrs s p attrs) st
        × IsGated s migrate_xattrs p (migrate s p m) st
  unfolding write_file_atomic make_dir make_dir_all remove_one remove_tree put_xattr drop_xattr
      recreate_xattrs migrate
  mutations-IsGated s p name bytes opts removal flags attrs m st = (
    guarded-IsGated s write p (λ fs. fs.write_file_atomic p bytes opts) st,
    guarded-IsGated s mkdir p (λ fs. fs.mkdir p) st,
    guarded-IsGated s mkdir_all p (λ fs. fs.mkdir_all p) st,
    guarded-IsGated s remove p (λ fs. fs.remove p) st,
    guarded-IsGated s remove_all p (λ fs. fs.remove_all p removal) st,
    guarded_xattr-IsGated s set_xattr p (λ fs. fs.xattr_writer)
        (λ x. x.set_xattr p name bytes flags) st,
    guarded_xattr-IsGated s remove_xattr p (λ fs. fs.xattr_writer) (λ x. x.remove_xattr p name) st,
    guarded_xattr-IsGated s preserve_and_recreate_xattrs p (λ fs. fs.xattr_maintenance)
        (λ x. x.preserve_and_recreate_xattrs p attrs) st,
    guarded_xattr-IsGated s migrate_xattrs p (λ fs. fs.xattr_maintenance)
        (λ x. x.migrate_xattrs p m) st,
  )

  some_denied-false :
      (s : ScopedWriteFs S) (changes : List Change)
      → some_denied s changes ≡ false
      → All (λ c. s.authorize c.action_name c.target ≡ none) changes
  unfolding some_denied
  some_denied-false s [] h = tt
  some_denied-false s (c ∷ changes) h = elim (Option-cases (s.authorize c.action_name c.target)) [
    | inl e ↦ (e, some_denied-false s changes (rw (e, any) at h))
    | inr (x, e) ↦ absurd (rw (e, any) at h)
  ]
    where
      absurd : {X : Type 0} → true ≡ false → X
      absurd g = cc

  -- A batch or a single change is refused, with nothing changed, unless it is valid and the authorizer
  -- allows the action of every leaf on the target of the leaf.
  pub admit_change_set-IsAllowed :
      (sha256 : List ℕ → Text) (s : ScopedWriteFs S) (cs : ChangeSet) (st : S)
      → ((validate_change_set sha256 cs ≡ none)
          × All (λ c. s.authorize c.action_name c.target ≡ none) (leaves cs))
        ⊎ IsRefused st (admit_change_set sha256 s cs st)
  unfolding admit_change_set
  admit_change_set-IsAllowed sha256 s cs st =
      go (validate_change_set sha256 cs) s.inner (some_denied s (leaves cs)) refl
    where
      go :
          (v : Option ChangeSetError) (inner : Option (WritableFs S)) (denied : Bool)
          → some_denied s (leaves cs) ≡ denied
          → ((v ≡ none) × All (λ c. s.authorize c.action_name c.target ≡ none) (leaves cs))
            ⊎ IsRefused {A = Unit {0}} st (elim v [
              | some e ↦ (err (Error.other (text "changeset")), st)
              | none ↦ elim inner [
                | none ↦ (err read_only, st)
                | some fs ↦
                    if denied
                    then (err permission, st)
                    else elim fs.admitter [ none ↦ (err not_sup, st) | some admit ↦ admit cs st ]
              ]
            ])
      go (some e) inner denied h = inr ((_, refl), refl)
      go none none denied h = inr ((_, refl), refl)
      go none (some fs) true h = inr ((_, refl), refl)
      go none (some fs) false h = inl (refl, some_denied-false s (leaves cs) h)
