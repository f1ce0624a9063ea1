-- ===== src/Snapshot/Tests.antt =====
-- The snapshot of a batch in a home directory, and the theorems on snapshots there.
use open_lore.Prelude.{
  ◌≡◌, refl, inl, true, false, none, [], ◌∷◌, ◌==◌, if◌then◌else◌, In, text, has_byte, err, ok,
}
use open_lore.Vfs.{not_exist, FileSystem, mkdir_all, walk_dir}
use open_lore.Path.{clean_path, path_within_root, path_dir}
use open_lore.Changeset.{Change, action}
use open_lore.Snapshot.{
  Substrate, RollbackSnapshot, BatchSnapshot, highest_missing_root, changes_names, capture_batch,
}
use open_lore.Snapshot.Minimal.{capture_batch-Covers}

-- A tree with the directory "/home" and nothing else.
abbrev home_only : FileSystem
home_only = record {
  stat = λ p.
      if p == text "/home"
      then ok (record {
        file_name = text "home";
        file_path = p;
        content = [];
        dir = true;
        file_mod_time = 0;
        file_size = 0;
        link_target = [];
      })
      else err not_exist;
  read_dir = λ p. ok [];
  read_file = λ p. err not_exist;
}

abbrev disk : Substrate (Unit {0})
disk = record {
  writer = record {
    write_file_atomic = λ p bytes opts st. (ok bytes, st);
    mkdir = λ p st. (ok tt, st);
    mkdir_all = λ p st. (ok tt, st);
    remove = λ p st. (ok tt, st);
    remove_all = λ p opts st. (ok tt, st);
    xattr_writer = none;
    xattr_maintenance = none;
    admitter = none;
    write_scope = none;
  };
  view = λ st. home_only;
  xattr_reader = none;
}

abbrev new_directory : Change
new_directory = record {
  target = text "/home/ann/notes/today";
  action_name = action mkdir_all;
  write_change = none;
  remove_all_change = none;
  xattr = none;
  xattr_repair = none;
  xattr_migration = none;
}

highest : highest_missing_root home_only (text "/home/ann/notes/today") ≡ ok (text "/home/ann")
unfolding highest_missing_root path_dir ◌==◌ has_byte
highest = refl

abbrev of_home : BatchSnapshot
of_home = record {
  roots = record { root = text "/home/ann"; existed = false; entries = [] } ∷ [];
  attrs = [];
}

captured : capture_batch 5 disk (new_directory ∷ []) tt ≡ ok of_home
unfolding capture_batch highest_missing_root path_dir clean_path ◌==◌ has_byte walk_dir
captured = refl

capture_batch-Covers_example :
    (s : RollbackSnapshot) × In s of_home.roots
    × (path_within_root s.root (clean_path (text "/home/ann/notes/today")) ≡ true)
capture_batch-Covers_example =
    capture_batch-Covers 5 disk (new_directory ∷ []) tt of_home new_directory captured (inl refl)
      (unfold changes_names in refl)
