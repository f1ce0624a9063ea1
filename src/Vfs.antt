-- ===== src/Vfs.antt =====
-- pkg/vfs/vfs.go and pkg/vfs/changeset.go: the filesystem contract, its errors, the kinds of
-- mutation, and `WalkDir`. A filesystem is what its read operations answer at one moment.
pub mod Walk
use open_lore.Prelude.{
  ℕ, zero, suc, Bool, true, false, Option, none, some, List, [], ◌∷◌, Text, text, Result, ok, err,
}
use open_lore.Path.{clean_path, path_join}

-- The errors that the code tells apart by `errors.Is`; any other is `other`.
pub data Error : Type 0 where
  not_exist read_only permission not_dir not_sup no_data : Error
  other : Text → Error

pub record FileInfo : Type 0 where
  pub file_name : Text
  pub file_path : Text
  pub content : List ℕ
  pub dir : Bool
  pub file_mod_time : ℕ
  pub file_size : ℕ
  pub link_target : Text

pub record FileSystem : Type 0 where
  pub stat : Text → Result Error FileInfo
  pub read_dir : Text → Result Error (List FileInfo)
  pub read_file : Text → Result Error (List ℕ)

pub data ChangeAction : Type 0 where
  write mkdir mkdir_all remove remove_all set_xattr remove_xattr : ChangeAction
  preserve_and_recreate_xattrs migrate_xattrs : ChangeAction

module _ {S : Type 0} where
  -- The loop over the entries of a directory, over the walk of one entry.
  pub walk_entries : (Text → S → S × Option Error) → Text → List FileInfo → S → S × Option Error
  walk_entries walk root [] s = (s, none)
  walk_entries walk root (entry ∷ entries) s =
      let (s', e) = walk (path_join root entry.file_name) s in
      elim e [ some x ↦ (s', some x) | none ↦ walk_entries walk root entries s' ]

  -- WalkDir. The fuel bounds the depth of the tree; the callback threads the variables that it
  -- captures, and gets the entry or the error of the call that failed.
  unfoldable pub walk_dir :
      ℕ
      → FileSystem
      → (S → Text → Result Error FileInfo → S × Option Error)
      → Text
      → S
      → S × Option Error
  unfolding walk_entries
  walk_dir zero fsys fn root s = (s, some (other (text "walk: out of fuel")))
  walk_dir (suc fuel) fsys fn root s =
      let root' = clean_path root in
      elim (fsys.stat root') [
        | err e ↦ fn s root' (err e)
        | ok info ↦
            let (s', stop) = fn s root' (ok info) in
            elim stop [
              | some e ↦ (s', some e)
              | none ↦ elim info.dir [
                | false ↦ (s', none)
                | true ↦ elim (fsys.read_dir root') [
                  | err e ↦ fn s' root' (err e)
                  | ok entries ↦ walk_entries (λ p t. walk_dir fuel fsys fn p t) root' entries s'
                ]
              ]
            ]
      ]
