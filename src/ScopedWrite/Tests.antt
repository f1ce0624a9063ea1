-- ===== src/ScopedWrite/Tests.antt =====
-- The theorems on change sets and on the mutations of a session, at files in memory.
use open_lore.Prelude.{◌≡◌, refl, ◌⊎◌, none, [], ◌==◌, All, Text, text}
use open_lore.Vfs.{
  write, mkdir, mkdir_all, remove, remove_all, set_xattr, remove_xattr,
  preserve_and_recreate_xattrs, migrate_xattrs,
}
use open_lore.Changeset.{XattrMigration, leaves, validate_change_set}
use open_lore.Changeset.Shape.{IsShaped, ArePaired, validate_change_set-IsShaped}
use open_lore.ScopedWrite.{
  write_file_atomic, make_dir, make_dir_all, remove_one, remove_tree, put_xattr, drop_xattr,
  recreate_xattrs, migrate, admit_change_set,
}
use open_lore.ScopedWrite.Gated.{IsGated, IsRefused, mutations-IsGated, admit_change_set-IsAllowed}
use open_lore.ScopedWrite.Sample.{Files, allows_named, plain, removal, moving, identity_hash}

moving_is_valid : validate_change_set identity_hash moving ≡ none
unfolding validate_change_set ◌==◌
moving_is_valid = refl

validate_change_set-IsShaped_example : All IsShaped (leaves moving) × ArePaired [] [] moving.moves
validate_change_set-IsShaped_example =
    validate_change_set-IsShaped identity_hash moving moving_is_valid

abbrev migration : XattrMigration
migration = record { namespace_prefix = text "user."; expected_envelope_sha256 = []; edits = [] }

abbrev note : Text
note = text "/home/ann/a.md"

mutations-IsGated_example :
    IsGated allows_named write note (write_file_atomic allows_named note (text "hi") plain) []
    × IsGated allows_named mkdir note (make_dir allows_named note) []
    × IsGated allows_named mkdir_all note (make_dir_all allows_named note) []
    × IsGated allows_named remove note (remove_one allows_named note) []
    × IsGated allows_named remove_all note (remove_tree allows_named note removal) []
    × IsGated allows_named set_xattr note (put_xattr allows_named note (text "k") (text "hi") 1) []
    × IsGated allows_named remove_xattr note (drop_xattr allows_named note (text "k")) []
    × IsGated allows_named preserve_and_recreate_xattrs note
        (recreate_xattrs allows_named note [])
        []
    × IsGated allows_named migrate_xattrs note (migrate allows_named note migration) []
mutations-IsGated_example =
    mutations-IsGated allows_named note (text "k") (text "hi") plain removal 1 [] migration []

admit_change_set-IsAllowed_example :
    ((validate_change_set identity_hash moving ≡ none)
      × All (λ c. allows_named.authorize c.action_name c.target ≡ none) (leaves moving))
    ⊎ IsRefused {S = Files} [] (admit_change_set identity_hash allows_named moving [])
admit_change_set-IsAllowed_example = admit_change_set-IsAllowed identity_hash allows_named moving []
