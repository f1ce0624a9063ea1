-- ===== src/Commit.antt =====
-- pkg/vfs/changeset.go: `CommitChangeSet`, which replays a change set on a filesystem, a batch with a
-- snapshot by which it is rolled back when a leaf fails.
pub mod Sequence
pub mod Sample
mod Tests
pub mod Committed
use open_lore.Prelude.{
  ℕ, Bool, true, false, not, ◌||◌, none, some, List, [], ◌∷◌, ◌==◌, ltb, length, Text, text, Result,
  err, ok,
}
use open_lore.Vfs.{
  Error, not_sup, other, FileSystem, ChangeAction, write, mkdir, mkdir_all, remove, remove_all,
  set_xattr, remove_xattr, preserve_and_recreate_xattrs, migrate_xattrs,
}
use open_lore.Changeset.{
  WriteOpts, RemoveOpts, Change, ChangeSet, ChangeSetError, ActionName, no_action, action,
  unknown_action, validate_change, validate_change_set,
}
use open_lore.Writable.{Action, WritableFs, XattrWriter}
use open_lore.Restore.{after, restore_batch}
use open_lore.Snapshot.{
  XattrReader, Substrate, RollbackEntry, RollbackSnapshot, RollbackAttrs, BatchSnapshot,
  missing_path, capture_batch,
}

-- The error of a commit: of the validation, of the snapshot, of a leaf, and a `RollbackError`.
pub data CommitError : Type 0 where
  invalid : ChangeSetError → CommitError
  no_snapshot failed : Error → CommitError
  not_rolled_back : CommitError → Error → CommitError

pub record CommitResult : Type 0 where
  pub hash : Text
  pub committed : ChangeSet

-- HasCommitted
unfoldable pub has_committed : CommitResult → Bool
has_committed r = not (r.committed.single.target == []) || ltb 0 (length r.committed.changes)

module _ {S : Type 0} where
  -- The call of the filesystem for one change. Validation has been passed, so that the payload is
  -- there; Go would panic on one that is missing.
  unfoldable pub apply_change : WritableFs S → Change → Action S Text
  apply_change fs c st = elim c.action_name [
    | no_action ↦ (err (other (text "unknown action")), st)
    | unknown_action name ↦ (err (other (text "unknown action")), st)
    | action a ↦ elim a [
      | write ↦ elim c.write_change [
        | none ↦ (err (other (text "missing write payload")), st)
        | some w ↦ fs.write_file_atomic c.target w.bytes w.opts st
      ]
      | mkdir ↦ after (fs.mkdir c.target) (λ u t. (ok [], t)) st
      | mkdir_all ↦ after (fs.mkdir_all c.target) (λ u t. (ok [], t)) st
      | remove ↦ after (fs.remove c.target) (λ u t. (ok [], t)) st
      | remove_all ↦ elim c.remove_all_change [
        | none ↦ (err (other (text "missing remove_all payload")), st)
        | some r ↦ after (fs.remove_all c.target r.opts) (λ u t. (ok [], t)) st
      ]
      | set_xattr ↦ elim fs.xattr_writer [
        | none ↦ (err not_sup, st)
        | some x ↦ elim c.xattr [
          | none ↦ (err (other (text "missing xattr payload")), st)
          | some p ↦ after (x.set_xattr c.target p.name p.value p.flags) (λ u t. (ok [], t)) st
        ]
      ]
      | remove_xattr ↦ elim fs.xattr_writer [
        | none ↦ (err not_sup, st)
        | some x ↦ elim c.xattr [
          | none ↦ (err (other (text "missing xattr payload")), st)
          | some p ↦ after (x.remove_xattr c.target p.name) (λ u t. (ok [], t)) st
        ]
      ]
      | preserve_and_recreate_xattrs ↦ elim fs.xattr_maintenance [
        | none ↦ (err not_sup, st)
        | some x ↦ elim c.xattr_repair [
          | none ↦ (err (other (text "missing repair payload")), st)
          | some p ↦
              after (x.preserve_and_recreate_xattrs c.target p.attributes) (λ u t. (ok [], t)) st
        ]
      ]
      | migrate_xattrs ↦ elim fs.xattr_maintenance [
        | none ↦ (err not_sup, st)
        | some x ↦ elim c.xattr_migration [
          | none ↦ (err (other (text "missing migration payload")), st)
          | some p ↦ after (x.migrate_xattrs c.target p) (λ u t. (ok [], t)) st
        ]
      ]
    ]
  ]

  -- The result of a call as that of a commit.
  as_failed : {A : Type 0} → Result Error A × S → Result CommitError A × S
  as_failed (ok a, st) = (ok a, st)
  as_failed (err e, st) = (err (failed e), st)

  -- `CommitChangeSet` of one change: the hash of what is written, "" for another action
  unfoldable pub commit_one : WritableFs S → Change → S → Result CommitError Text × S
  unfolding validate_change apply_change as_failed
  commit_one fs c st = elim (validate_change c) [
    | some e ↦ (err (invalid e), st)
    | none ↦ as_failed (apply_change fs c st)
  ]

  -- The error of a batch, by the result of its rollback.
  after_rollback : CommitError → Result Error (Unit {0}) × S → Result CommitError CommitResult × S
  after_rollback e (ok u, t) = (err e, t)
  after_rollback e (err r, t) = (err (not_rolled_back e r), t)

  -- The end of a batch of which a leaf failed after the first.
  roll_back : Substrate S → BatchSnapshot → CommitError → S → Result CommitError CommitResult × S
  unfolding after_rollback
  roll_back sub snapshot e st = after_rollback e (restore_batch sub snapshot st)

  -- What follows one leaf: the leaves after it, or the end of the batch. `first` is the test `i == 0`.
  next_leaf :
      Substrate S
      → BatchSnapshot
      → Bool
      → (S → Result CommitError CommitResult × S)
      → Result CommitError Text × S
      → Result CommitError CommitResult × S
  unfolding roll_back
  next_leaf sub snapshot first later (ok h, t) = later t
  next_leaf sub snapshot first later (err e, t) = elim first [
    | true ↦ (err e, t)
    | false ↦ roll_back sub snapshot e t
  ]

  -- The loop over the leaves.
  commit_leaves :
      Substrate S
      → ChangeSet
      → BatchSnapshot
      → Bool
      → List Change
      → S
      → Result CommitError CommitResult × S
  unfolding next_leaf
  commit_leaves sub cs snapshot first [] st = (ok (record { hash = []; committed = cs }), st)
  commit_leaves sub cs snapshot first (c ∷ changes) st =
      next_leaf sub snapshot first (commit_leaves sub cs snapshot false changes)
        (commit_one sub.writer c st)

  single_result : ChangeSet → Result Error Text × S → Result CommitError CommitResult × S
  single_result cs (ok h, t) = (ok (record { hash = h; committed = cs }), t)
  single_result cs (err e, t) = (err (failed e), t)

  -- CommitChangeSet
  unfoldable pub commit_change_set :
      (List ℕ → Text) → ℕ → Substrate S → ChangeSet → S → Result CommitError CommitResult × S
  unfolding commit_leaves single_result
  commit_change_set sha256 fuel sub cs st = elim (validate_change_set sha256 cs) [
    | some e ↦ (err (invalid e), st)
    | none ↦ elim cs.changes [
      | [] ↦ single_result cs (apply_change sub.writer cs.single st)
      | c ∷ changes ↦ elim (capture_batch fuel sub (c ∷ changes) st) [
        | err e ↦ (err (no_snapshot e), st)
        | ok snapshot ↦ commit_leaves sub cs snapshot true (c ∷ changes) st
      ]
    ]
  ]
