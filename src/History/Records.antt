-- ===== src/History/Records.antt =====
-- pkg/openlore/writelog.go: the records of the history index for one commit, a move as one record.
pub mod Moves
use open_lore.Prelude.{
  ℕ, zero, suc, Bool, true, false, not, ◌&&◌, ◌||◌, Option, none, some, List, [], ◌∷◌, map, ◌==◌,
  if◌then◌else◌, nat_eq, length, Text, text,
}
use open_lore.Path.{clean_path}
use open_lore.Vfs.{
  write, mkdir, mkdir_all, remove, remove_all, set_xattr, remove_xattr,
  preserve_and_recreate_xattrs, migrate_xattrs,
}
use open_lore.Changeset.{
  Change, ChangeSet, ActionName, no_action, action, unknown_action, Move, ℤ, pos, negsuc, leaves,
  leaf_at,
}
use open_lore.Commit.{CommitResult}
use open_lore.History.{Attribution, LeafRecord, HistoryRecord}

-- string(leaf.Action)
unfoldable pub action_string : ActionName → Text
action_string no_action = []
action_string (unknown_action name) = name
action_string (action write) = text "write"
action_string (action mkdir) = text "mkdir"
action_string (action mkdir_all) = text "mkdir_all"
action_string (action remove) = text "remove"
action_string (action remove_all) = text "remove_all"
action_string (action set_xattr) = text "set_xattr"
action_string (action remove_xattr) = text "remove_xattr"
action_string (action preserve_and_recreate_xattrs) = text "preserve_and_recreate_xattrs"
action_string (action migrate_xattrs) = text "migrate_xattrs"

module _ (sha256 : List ℕ → Text) (id : Text) (at : ℕ) (attribution : Attribution) where
  -- The hash of what a leaf writes: that of the commit, if the leaf is all of it.
  leaf_hash : CommitResult → ℕ → Change → Text
  leaf_hash committed n leaf = elim leaf.write_change [
    | none ↦ []
    | some w ↦ if nat_eq n 1 && not (committed.hash == []) then committed.hash else sha256 w.bytes
  ]

  pub record_change : CommitResult → ℕ → Change → HistoryRecord
  unfolding leaf_hash action_string
  record_change committed n leaf = record {
    commit_id = id;
    time = at;
    attribution = attribution;
    file_key = clean_path leaf.target;
    action_text = action_string leaf.action_name;
    content_hash = leaf_hash committed n leaf;
    from = [];
  }

  record_image : LeafRecord → HistoryRecord
  unfolding action_string
  record_image leaf = record {
    commit_id = id;
    time = at;
    attribution = attribution;
    file_key = clean_path leaf.target;
    action_text = action_string leaf.action_name;
    content_hash = leaf.after_hash;
    from = [];
  }

-- prior.Target == leaf.Target && prior.Action == leaf.Action
same_leaf : Change → Change → Bool
unfolding action_string
same_leaf leaf prior =
    prior.target == leaf.target && action_string prior.action_name == action_string leaf.action_name

-- The number of the leaves before index `n` that are like the leaf.
ordinal : Change → ℕ → List Change → ℕ
ordinal leaf zero changes = 0
ordinal leaf (suc n) [] = 0
ordinal leaf (suc n) (prior ∷ rest) =
    let later = ordinal leaf n rest in if same_leaf leaf prior then suc later else later

is_record_of : Change → HistoryRecord → Bool
unfolding action_string
is_record_of leaf r =
    r.file_key == clean_path leaf.target && r.action_text == action_string leaf.action_name

-- The index of the record that is like the leaf, after `k` others; `i` is the index reached.
find_record : Change → ℕ → ℕ → List HistoryRecord → Option ℕ
find_record leaf k i [] = none
find_record leaf k i (r ∷ records) = elim (is_record_of leaf r) [
  | false ↦ find_record leaf k (suc i) records
  | true ↦ elim k [ zero ↦ some i | suc k' ↦ find_record leaf k' (suc i) records ]
]

-- recordIndex, none for -1. Go would panic on an index out of range, which validation excludes.
pub record_index : List HistoryRecord → List Change → ℤ → Option ℕ
record_index records changes (negsuc i) = none
record_index records changes (pos i) = elim (leaf_at changes (pos i)) [
  | none ↦ none
  | some leaf ↦ find_record leaf (ordinal leaf i changes) 0 records
]

record_at : List HistoryRecord → ℕ → Option HistoryRecord
record_at [] i = none
record_at (r ∷ records) zero = some r
record_at (r ∷ records) (suc i) = record_at records i

-- The record of a move, from that of its destination.
moved_record : (List ℕ → Text) → HistoryRecord → Change → Change → HistoryRecord
moved_record sha256 r from to = record r {
  action_text = text "move";
  from = clean_path from.target;
  content_hash = elim to.write_change [ none ↦ r.content_hash | some w ↦ sha256 w.bytes ];
}

replacement : (List ℕ → Text) → List HistoryRecord → List Change → Move → Option (ℕ × HistoryRecord)
unfolding record_index record_at moved_record
replacement sha256 records changes move = elim (record_index records changes move.destination) [
  | none ↦ none
  | some i ↦ elim (record_at records i) [
    | none ↦ none
    | some r ↦ elim (leaf_at changes move.source) [
      | none ↦ none
      | some from ↦ elim (leaf_at changes move.destination) [
        | none ↦ none
        | some to ↦ some (i, moved_record sha256 r from to)
      ]
    ]
  ]
]

-- moved[i]: the last move that set it
moved_at : (List ℕ → Text) → List HistoryRecord → List Change → List Move → ℕ → Option HistoryRecord
unfolding replacement
moved_at sha256 records changes [] i = none
moved_at sha256 records changes (move ∷ moves) i = elim (moved_at sha256 records changes moves i) [
  | some r ↦ some r
  | none ↦ elim (replacement sha256 records changes move) [
    | none ↦ none
    | some (j, r) ↦ if nat_eq j i then some r else none
  ]
]

-- sources[i]
is_source : List HistoryRecord → List Change → List Move → ℕ → Bool
unfolding record_index
is_source records changes [] i = false
is_source records changes (move ∷ moves) i =
    elim (record_index records changes move.source) [ none ↦ false | some j ↦ nat_eq j i ]
    || is_source records changes moves i

-- The loop that drops the sources and replaces the destinations; `i` is the index reached.
rebuild : (ℕ → Option HistoryRecord) → (ℕ → Bool) → ℕ → List HistoryRecord → List HistoryRecord
rebuild moved source i [] = []
rebuild moved source i (r ∷ records) =
    let rest = rebuild moved source (suc i) records in
    if source i then rest else (elim (moved i) [ some new ↦ new | none ↦ r ]) ∷ rest

-- moveHistoryRecords
unfoldable pub move_history_records :
    (List ℕ → Text) → List HistoryRecord → ChangeSet → List HistoryRecord
unfolding rebuild moved_at is_source record_index find_record ordinal same_leaf is_record_of leaves
move_history_records sha256 records cs = elim cs.moves [
  | [] ↦ records
  | move ∷ moves ↦
      rebuild (moved_at sha256 records (leaves cs) (move ∷ moves))
        (is_source records (leaves cs) (move ∷ moves)) 0 records
]

-- historyRecordsWithCommitID
unfoldable pub history_records_with_commit_id :
    (List ℕ → Text) → Text → ℕ → Attribution → CommitResult → List HistoryRecord
unfolding record_change move_history_records leaves
history_records_with_commit_id sha256 id at attribution committed =
    let changes = leaves committed.committed in
    move_history_records sha256
      (map (record_change sha256 id at attribution committed (length changes)) changes)
      committed.committed

-- indexedHistoryRecords
unfoldable pub indexed_history_records :
    (List ℕ → Text) → Text → ℕ → Attribution → CommitResult → List LeafRecord → List HistoryRecord
unfolding history_records_with_commit_id record_image move_history_records
indexed_history_records sha256 id at attribution committed [] =
    history_records_with_commit_id sha256 id at attribution committed
indexed_history_records sha256 id at attribution committed (r ∷ records) =
    move_history_records sha256 (map (record_image sha256 id at attribution) (r ∷ records))
      committed.committed
