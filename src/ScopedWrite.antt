-- ===== src/ScopedWrite.antt =====
-- pkg/openlore/scoped_write_fs.go: the mutations of a session, each let through by the authorizer or
-- refused with nothing changed. An error is the sentinel that Go wraps; EPERM is `permission`.
pub mod Gated
pub mod Sample
mod Tests
use open_lore.Prelude.{
  ℕ, Bool, not, ◌&&◌, Option, none, some, List, if◌then◌else◌, is_some, any, Text, text, err,
}
use open_lore.Vfs.{
  Error, read_only, permission, not_sup, ChangeAction, write, mkdir, mkdir_all, remove, remove_all,
  set_xattr, remove_xattr, preserve_and_recreate_xattrs, migrate_xattrs,
}
use open_lore.Changeset.{
  WriteOpts, RemoveOpts, XattrMigration, Change, ChangeSet, ActionName, no_action, action,
  unknown_action, leaves, validate_change_set,
}
use open_lore.Writable.{Action, XattrWriter, XattrMaintenance, WritableFs}

-- `inner` is none when the wrapped filesystem cannot be written.
pub record ScopedWriteFs (S : Type 0) : Type 0 where
  pub inner : Option (WritableFs S)
  pub authorize : ActionName → Text → Option Error

module _ {S : Type 0} where
  -- The guards of the five operations of `WritableFS`, then the call of the wrapped filesystem.
  unfoldable pub guarded :
      {A : Type 0}
      → ScopedWriteFs S
      → ChangeAction
      → Text
      → (WritableFs S → Action S A)
      → Action S A
  guarded s a p call st = elim s.inner [
    | none ↦ (err read_only, st)
    | some fs ↦ elim (s.authorize (action a) p) [ some e ↦ (err e, st) | none ↦ call fs st ]
  ]

  -- WriteFileAtomic
  unfoldable pub write_file_atomic : ScopedWriteFs S → Text → List ℕ → WriteOpts → Action S Text
  unfolding guarded
  write_file_atomic s p bytes opts = guarded s write p (λ fs. fs.write_file_atomic p bytes opts)

  -- Mkdir
  unfoldable pub make_dir : ScopedWriteFs S → Text → Action S (Unit {0})
  unfolding guarded
  make_dir s p = guarded s mkdir p (λ fs. fs.mkdir p)

  -- MkdirAll
  unfoldable pub make_dir_all : ScopedWriteFs S → Text → Action S (Unit {0})
  unfolding guarded
  make_dir_all s p = guarded s mkdir_all p (λ fs. fs.mkdir_all p)

  -- Remove
  unfoldable pub remove_one : ScopedWriteFs S → Text → Action S (Unit {0})
  unfolding guarded
  remove_one s p = guarded s remove p (λ fs. fs.remove p)

  -- RemoveAll
  unfoldable pub remove_tree : ScopedWriteFs S → Text → RemoveOpts → Action S (Unit {0})
  unfolding guarded
  remove_tree s p opts = guarded s remove_all p (λ fs. fs.remove_all p opts)

  -- The guards of the operations on attributes, then the call if the wrapped filesystem has it.
  unfoldable pub guarded_xattr :
      {C : Type 0}
      → ScopedWriteFs S
      → ChangeAction
      → Text
      → (WritableFs S → Option C)
      → (C → Action S (Unit {0}))
      → Action S (Unit {0})
  guarded_xattr s a p capability call st = elim s.inner [
    | none ↦ (err permission, st)
    | some fs ↦ elim (s.authorize (action a) p) [
      | some e ↦ (err permission, st)
      | none ↦ elim (capability fs) [ none ↦ (err not_sup, st) | some c ↦ call c st ]
    ]
  ]

  -- SetXattr
  unfoldable pub put_xattr : ScopedWriteFs S → Text → Text → List ℕ → ℕ → Action S (Unit {0})
  unfolding guarded_xattr
  put_xattr s p name value flags =
      guarded_xattr s set_xattr p (λ fs. fs.xattr_writer) (λ x. x.set_xattr p name value flags)

  -- RemoveXattr
  unfoldable pub drop_xattr : ScopedWriteFs S → Text → Text → Action S (Unit {0})
  unfolding guarded_xattr
  drop_xattr s p name =
      guarded_xattr s remove_xattr p (λ fs. fs.xattr_writer) (λ x. x.remove_xattr p name)

  -- PreserveAndRecreateXattrs
  unfoldable pub recreate_xattrs :
      ScopedWriteFs S → Text → List (Text × List ℕ) → Action S (Unit {0})
  unfolding guarded_xattr
  recreate_xattrs s p attrs =
      guarded_xattr s preserve_and_recreate_xattrs p (λ fs. fs.xattr_maintenance)
        (λ x. x.preserve_and_recreate_xattrs p attrs)

  -- MigrateXattrs
  unfoldable pub migrate : ScopedWriteFs S → Text → XattrMigration → Action S (Unit {0})
  unfolding guarded_xattr
  migrate s p m =
      guarded_xattr s migrate_xattrs p (λ fs. fs.xattr_maintenance) (λ x. x.migrate_xattrs p m)

  -- CanWrite
  unfoldable pub can_write : ScopedWriteFs S → Text → Bool
  can_write s p = is_some s.inner && not (is_some (s.authorize (action write) p))

  -- Some leaf is denied; the error wraps os.ErrPermission too.
  unfoldable pub some_denied : ScopedWriteFs S → List Change → Bool
  some_denied s changes = any (λ c. is_some (s.authorize c.action_name c.target)) changes

  -- AdmitChangeSet, with the hash that the validation of moves uses
  unfoldable pub admit_change_set :
      (List ℕ → Text) → ScopedWriteFs S → ChangeSet → Action S (Unit {0})
  unfolding some_denied
  admit_change_set sha256 s cs st = elim (validate_change_set sha256 cs) [
    | some e ↦ (err (Error.other (text "changeset")), st)
    | none ↦ elim s.inner [
      | none ↦ (err read_only, st)
      | some fs ↦
          if some_denied s (leaves cs)
          then (err permission, st)
          else elim fs.admitter [ none ↦ (err not_sup, st) | some admit ↦ admit cs st ]
    ]
  ]
