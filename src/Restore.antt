-- ===== src/Restore.antt =====
-- pkg/vfs/changeset.go: `restoreBatch` and `restoreXattrs`, which put back what a batch has changed.
use open_lore.Prelude.{
  ℕ, true, false, none, some, List, [], ◌∷◌, if◌then◌else◌, reverse, Text, text_lt, Result, lookup,
  err, ok,
}
use open_lore.Vfs.{Error, not_sup}
use open_lore.Writable.{Action, WritableFs, XattrWriter}
use open_lore.Snapshot.{
  Substrate, RollbackEntry, RollbackSnapshot, RollbackAttrs, BatchSnapshot, missing_path,
}

insert_name : Text × List ℕ → List (Text × List ℕ) → List (Text × List ℕ)
insert_name a [] = a ∷ []
insert_name a (b ∷ rest) =
    let later = insert_name a rest in if text_lt b.0 a.0 then b ∷ later else a ∷ b ∷ rest

sort_names : List (Text × List ℕ) → List (Text × List ℕ)
unfolding insert_name
sort_names [] = []
sort_names (a ∷ rest) = insert_name a (sort_names rest)

module _ {S : Type 0} where
  -- One call, then another if it succeeds.
  abbrev pub after : {A B : Type 0} → Action S A → (A → Action S B) → Action S B
  after {A} {B} m next st = go (m st)
    where
      go : Result Error A × S → Result Error B × S
      go (ok a, t) = next a t
      go (err e, t) = (err e, t)

  -- The first loop of `restoreBatch`, over the roots from the last to the first.
  remove_roots : Substrate S → List RollbackSnapshot → Action S (Unit {0})
  unfolding missing_path
  remove_roots sub [] st = (ok tt, st)
  remove_roots sub (r ∷ roots) st = elim ((sub.view st).stat r.root) [
    | err e ↦ elim (missing_path e) [ true ↦ remove_roots sub roots st | false ↦ (err e, st) ]
    | ok info ↦
        after
          (elim info.dir [
            | true ↦ sub.writer.remove_all r.root (record { expected = none })
            | false ↦ sub.writer.remove r.root
          ])
          (λ u t. remove_roots sub roots t) st
  ]

  -- The entries of one root, directories and files.
  write_entries : WritableFs S → List RollbackEntry → Action S (Unit {0})
  write_entries fs [] st = (ok tt, st)
  write_entries fs (e ∷ entries) st = elim e.is_dir [
    | true ↦ after (fs.mkdir_all e.path) (λ u t. write_entries fs entries t) st
    | false ↦
        after
          (fs.write_file_atomic e.path e.bytes
            (record { if_match = none; if_none_match = false; content_policy_validated = true }))
          (λ h t. write_entries fs entries t) st
  ]

  drop_new : XattrWriter S → Text → List (Text × List ℕ) → List Text → Action S (Unit {0})
  drop_new x target snapshot [] st = (ok tt, st)
  drop_new x target snapshot (name ∷ names) st = elim (lookup name snapshot) [
    | some value ↦ drop_new x target snapshot names st
    | none ↦ after (x.remove_xattr target name) (λ u t. drop_new x target snapshot names t) st
  ]

  set_old : XattrWriter S → Text → List (Text × List ℕ) → Action S (Unit {0})
  set_old x target [] st = (ok tt, st)
  set_old x target ((name, value) ∷ rest) st =
      after (x.set_xattr target name value 0) (λ u t. set_old x target rest t) st

  -- restoreXattrs. Go would panic without the two capabilities; the snapshot has attributes only of a
  -- filesystem with both.
  restore_xattrs : Substrate S → Text → List (Text × List ℕ) → Action S (Unit {0})
  unfolding drop_new set_old sort_names
  restore_xattrs sub target snapshot st = elim sub.xattr_reader [
    | none ↦ (err not_sup, st)
    | some read ↦ elim sub.writer.xattr_writer [
      | none ↦ (err not_sup, st)
      | some x ↦ elim ((read st).list_xattrs target) [
        | err e ↦ (err e, st)
        | ok names ↦
            after (drop_new x target snapshot names) (λ u. set_old x target (sort_names snapshot))
              st
      ]
    ]
  ]

  restore_entry_xattrs : Substrate S → List RollbackEntry → Action S (Unit {0})
  unfolding restore_xattrs
  restore_entry_xattrs sub [] st = (ok tt, st)
  restore_entry_xattrs sub (e ∷ entries) st = elim e.xattrs [
    | none ↦ restore_entry_xattrs sub entries st
    | some attrs ↦
        after (restore_xattrs sub e.path attrs) (λ u t. restore_entry_xattrs sub entries t) st
  ]

  -- The second loop, over the roots that existed.
  write_roots : Substrate S → List RollbackSnapshot → Action S (Unit {0})
  unfolding write_entries restore_entry_xattrs
  write_roots sub [] st = (ok tt, st)
  write_roots sub (r ∷ roots) st = elim r.existed [
    | false ↦ write_roots sub roots st
    | true ↦
        after (write_entries sub.writer r.entries)
          (λ u.
            after
              (elim sub.writer.xattr_writer [
                | none ↦ λ t. (ok tt, t)
                | some x ↦ restore_entry_xattrs sub r.entries
              ])
              (λ v t. write_roots sub roots t))
          st
  ]

  restore_attrs : Substrate S → List RollbackAttrs → Action S (Unit {0})
  unfolding restore_xattrs
  restore_attrs sub [] st = (ok tt, st)
  restore_attrs sub (a ∷ rest) st =
      after (restore_xattrs sub a.path a.attrs) (λ u t. restore_attrs sub rest t) st

  -- restoreBatch
  unfoldable pub restore_batch : Substrate S → BatchSnapshot → Action S (Unit {0})
  unfolding remove_roots write_roots restore_attrs
  restore_batch sub snapshot =
      after (remove_roots sub (reverse snapshot.roots))
        (λ u. after (write_roots sub snapshot.roots) (λ v. restore_attrs sub snapshot.attrs))
