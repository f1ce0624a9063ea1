-- ===== src/History/Tests.antt =====
-- The records of a move, and the theorem on records there.
use open_lore.Prelude.{◌≡◌, refl, false, some, [], ◌∷◌, ◌==◌, text, ◌↔◌, List, length, keep}
use open_lore.Path.{clean_path}
use open_lore.Changeset.{Change, pos, leaf_at, action}
use open_lore.Vfs.{write, remove_all}
use open_lore.Commit.{CommitResult}
use open_lore.History.{Attribution, HistoryRecord}
use open_lore.History.Records.{record_change, record_index, history_records_with_commit_id}
use open_lore.History.Records.Moves.{is_like, IsNth, record_index_lem}
use open_lore.ScopedWrite.Sample.{moving, identity_hash, removal, blank, plain}

abbrev ann : Attribution
ann = record {
  principal = text "ann";
  actor = [];
  actor_kind = [];
  client_auth = [];
  extra = [];
  internal = false;
}

abbrev moved : CommitResult
moved = record { hash = []; committed = moving }

-- One record for the two leaves of the move.
one_record :
    history_records_with_commit_id identity_hash (text "id") 7 ann moved
    ≡ record {
      commit_id = text "id";
      time = 7;
      attribution = ann;
      file_key = text "/home/ann/b.md";
      action_text = text "move";
      content_hash = text "hi";
      from = text "/home/ann/a.md";
    }
      ∷ []
unfolding history_records_with_commit_id leaf_at clean_path ◌==◌
one_record = refl

abbrev from_leaf : Change
from_leaf = record blank {
  target = text "/home/ann/a.md";
  action_name = action remove_all;
  remove_all_change = some (record { opts = removal });
}

abbrev to_leaf : Change
to_leaf = record blank {
  target = text "/home/ann/b.md";
  action_name = action write;
  write_change = some (record { bytes = text "hi"; opts = plain; generated = false });
}

abbrev record_of : Change → HistoryRecord
record_of c = record_change identity_hash (text "id") 7 ann moved 2 c

-- The removal left two records.
abbrev three : List HistoryRecord
three =
    record_of from_leaf
    ∷ record_of (record from_leaf { target = text "/home/ann/a.md/x" })
    ∷ record_of to_leaf
    ∷ []

record_index_lem_example :
    (record_index three (from_leaf ∷ to_leaf ∷ []) (pos 1) ≡ some 2)
    ↔ IsNth to_leaf three (length (keep (is_like to_leaf) (from_leaf ∷ []))) 2
record_index_lem_example = record_index_lem three (from_leaf ∷ []) to_leaf [] 2
