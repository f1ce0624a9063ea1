-- ===== src/Writable.antt =====
-- The interface `WritableFS` of pkg/vfs/vfs.go with its optional capabilities, over a state `S` of
-- what is written: a call takes the state before and gives the state after. A capability that a
-- filesystem may lack is an Option.
use open_lore.Prelude.{ℕ, Bool, Option, List, Text, Result}
use open_lore.Vfs.{Error}
use open_lore.Changeset.{WriteOpts, RemoveOpts, XattrMigration, ChangeSet}

abbrev pub Action : Type 0 → Type 0 → Type 0
Action S A = S → Result Error A × S

pub record XattrWriter (S : Type 0) : Type 0 where
  pub set_xattr : Text → Text → List ℕ → ℕ → Action S (Unit {0})
  pub remove_xattr : Text → Text → Action S (Unit {0})

pub record XattrMaintenance (S : Type 0) : Type 0 where
  pub preserve_and_recreate_xattrs : Text → List (Text × List ℕ) → Action S (Unit {0})
  pub migrate_xattrs : Text → XattrMigration → Action S (Unit {0})

pub record WritableFs (S : Type 0) : Type 0 where
  pub write_file_atomic : Text → List ℕ → WriteOpts → Action S Text
  pub mkdir : Text → Action S (Unit {0})
  pub mkdir_all : Text → Action S (Unit {0})
  pub remove : Text → Action S (Unit {0})
  pub remove_all : Text → RemoveOpts → Action S (Unit {0})
  pub xattr_writer : Option (XattrWriter S)
  pub xattr_maintenance : Option (XattrMaintenance S)
  pub admitter : Option (ChangeSet → Action S (Unit {0}))
  pub write_scope : Option (Text → Bool)
