-- ===== src/ScopedWrite/Sample.antt =====
-- A filesystem of files in memory, and a change set for it, that the examples run on.
use open_lore.Prelude.{ℕ, false, none, some, List, [], ◌∷◌, Text, text, put, delete, ok}
use open_lore.Vfs.{permission, write, remove_all}
use open_lore.Changeset.{
  WriteOpts, RemoveOpts, Change, ChangeSet, ActionName, no_action, action, pos,
}
use open_lore.Writable.{WritableFs}
use open_lore.ScopedWrite.{ScopedWriteFs}

abbrev pub Files : Type 0
Files = List (Text × List ℕ)

abbrev pub memory : WritableFs Files
memory = record {
  write_file_atomic = λ p bytes opts st. (ok bytes, put p bytes st);
  mkdir = λ p st. (ok tt, st);
  mkdir_all = λ p st. (ok tt, st);
  remove = λ p st. (ok tt, delete p st);
  remove_all = λ p opts st. (ok tt, delete p st);
  xattr_writer = none;
  xattr_maintenance = none;
  admitter = some (λ cs st. (ok tt, []));
  write_scope = none;
}

-- Any of the nine actions is allowed on any path.
abbrev pub allows_named : ScopedWriteFs Files
allows_named = record {
  inner = some memory;
  authorize = λ n p. elim n [
    | ActionName.no_action ↦ some permission
    | ActionName.unknown_action s ↦ some permission
    | ActionName.action a ↦ none
  ];
}

abbrev pub plain : WriteOpts
plain = record { if_match = none; if_none_match = false; content_policy_validated = false }

abbrev pub blank : Change
blank = record {
  target = [];
  action_name = no_action;
  write_change = none;
  remove_all_change = none;
  xattr = none;
  xattr_repair = none;
  xattr_migration = none;
}

abbrev pub removal : RemoveOpts
removal = record {
  expected = some (record {
    root = text "/home/ann/a.md";
    ops = record { rel_path = text "."; kind = text "file"; hash = text "hi"; size = 2 } ∷ [];
  });
}

-- A file that is moved, with the identity for its hash.
abbrev pub moving : ChangeSet
moving = record {
  single = blank;
  changes =
      record blank {
        target = text "/home/ann/a.md";
        action_name = action remove_all;
        remove_all_change = some (record { opts = removal });
      }
      ∷ record blank {
        target = text "/home/ann/b.md";
        action_name = action write;
        write_change = some (record { bytes = text "hi"; opts = plain; generated = false });
      }
      ∷ [];
  moves = record { source = pos 0; destination = pos 1 } ∷ [];
}

abbrev pub identity_hash : List ℕ → Text
identity_hash bytes = bytes
