-- ===== src/Commit/Tests.antt =====
-- A move within a home directory, committed and rolled back, and the theorems on commits there.
use open_lore.Prelude.{
  ◌≡◌, refl, ◌↔◌, ◌⊎◌, true, false, none, some, [], ◌∷◌, ◌==◌, text, text_lt, has_prefix, has_byte,
  lookup, put, delete, err, ok,
}
use open_lore.Vfs.{Error, permission, write, remove_all, walk_dir}
use open_lore.Path.{trim_left, trim_right, clean_path, path_dir}
use open_lore.Changeset.{action, Change, ChangeSetError, validate_change_set}
use open_lore.Snapshot.{BatchSnapshot, capture_batch, path_depth}
use open_lore.Commit.{invalid, no_snapshot, failed, CommitResult, commit_one, commit_change_set}
use open_lore.Restore.{restore_batch}
use open_lore.Commit.Sequence.{
  Runs, Failure, Ends, commit_change_set-Runs, commit_change_set-Failure,
}
use open_lore.Commit.Sample.{readable_memory, refusing, one_file}
use open_lore.ScopedWrite.Sample.{moving, identity_hash, blank, plain, removal}

moved :
    commit_change_set identity_hash 9 readable_memory moving one_file
    ≡ (ok (record { hash = []; committed = moving }), (text "/home/ann/b.md", text "hi") ∷ [])
unfolding commit_change_set validate_change_set capture_batch commit_one restore_batch path_depth
    trim_left trim_right clean_path path_dir walk_dir text_lt has_prefix lookup put delete has_byte
    ◌==◌
moved = refl

rolled_back :
    commit_change_set identity_hash 9 refusing moving one_file ≡ (err (failed permission), one_file)
unfolding commit_change_set validate_change_set capture_batch commit_one restore_batch path_depth
    trim_left trim_right clean_path path_dir walk_dir text_lt has_prefix lookup put delete has_byte
    ◌==◌
rolled_back = refl

-- The two leaves of the move.
abbrev removed : Change
removed = record blank {
  target = text "/home/ann/a.md";
  action_name = action remove_all;
  remove_all_change = some (record { opts = removal });
}

abbrev written : Change
written = record blank {
  target = text "/home/ann/b.md";
  action_name = action write;
  write_change = some (record { bytes = text "hi"; opts = plain; generated = false });
}

commit_change_set-Runs_example :
    (commit_change_set identity_hash 9 readable_memory moving one_file
      ≡ (ok (record { hash = []; committed = moving }), (text "/home/ann/b.md", text "hi") ∷ []))
    ↔ (validate_change_set identity_hash moving ≡ none)
      × ((snapshot : BatchSnapshot) × (capture_batch 9 readable_memory
              (removed ∷ written ∷ [])
              one_file
            ≡ ok snapshot))
      × (◌≡◌ {A = CommitResult}
          (record { hash = []; committed = moving })
          (record { hash = []; committed = moving }))
      × Runs readable_memory.writer
          (removed ∷ written ∷ [])
          one_file
          ((text "/home/ann/b.md", text "hi") ∷ [])
commit_change_set-Runs_example =
    commit_change_set-Runs identity_hash 9 readable_memory moving removed (written ∷ []) one_file
      ((text "/home/ann/b.md", text "hi") ∷ []) (record { hash = []; committed = moving }) refl

commit_change_set-Failure_example :
    ((x : ChangeSetError) × (validate_change_set identity_hash moving ≡ some x)
      × (failed permission ≡ invalid x)
      × (one_file ≡ one_file))
    ⊎ ((x : Error) × (capture_batch 9 refusing (removed ∷ written ∷ []) one_file ≡ err x)
        × (failed permission ≡ no_snapshot x)
        × (one_file ≡ one_file))
    ⊎ (snapshot : BatchSnapshot) × (capture_batch 9 refusing (removed ∷ written ∷ []) one_file
        ≡ ok snapshot)
      × (f : Failure refusing (removed ∷ written ∷ []) one_file) × Ends refusing snapshot true
          f.before f.reason f.left
          (failed permission)
          one_file
commit_change_set-Failure_example =
    commit_change_set-Failure identity_hash 9 refusing moving removed (written ∷ []) one_file
      one_file (failed permission) refl rolled_back
