-- ===== src/History.antt =====
-- What a commit leaves behind: attribution (pkg/openlore/middleware.go), the records of the commit
-- journal and the images taken before it (pkg/openlore/history_blobs.go), the records of the history
-- index (pkg/openlore/history.go, pkg/openlore/writelog.go). `sha256` is the hash in hexadecimal.
pub mod Records
mod Tests
use open_lore.Prelude.{
  ℕ, zero, suc, Bool, true, false, not, ◌&&◌, Option, none, some, List, [], ◌∷◌, ◌++◌, map, ◌==◌,
  if◌then◌else◌, length, Text, text, Result, lookup, contains, err, ok,
}
use open_lore.Path.{clean_path, path_join}
use open_lore.Vfs.{
  Error, not_exist, other, FileInfo, FileSystem, ChangeAction, write, mkdir, mkdir_all, remove,
  remove_all, set_xattr, remove_xattr, preserve_and_recreate_xattrs, migrate_xattrs,
}
use open_lore.Changeset.{
  WriteChange, Change, ChangeSet, ActionName, no_action, action, unknown_action, Move, ℤ, leaves,
  leaf_at,
}
use open_lore.Commit.{CommitResult}

pub record Attribution : Type 0 where
  pub principal : Text
  pub actor : Text
  pub actor_kind : Text
  pub client_auth : Text
  pub extra : List (Text × Text)
  pub internal : Bool

-- durableAttribution
unfoldable pub durable_attribution : Attribution → Attribution
durable_attribution attribution =
    if not (attribution.actor_kind == [])
    then attribution
    else elim (lookup (text "actor_kind") attribution.extra) [
      | some kind ↦ record attribution { actor_kind = kind }
      | none ↦
          if attribution.internal
          then record attribution { actor_kind = text "agent" }
          else attribution
    ]

pub record LeafRecord : Type 0 where
  pub target : Text
  pub action_name : ActionName
  pub before_exists : Bool
  pub before_hash : Text
  pub before_size : ℕ
  pub after_hash : Text
  pub after_size : ℕ
  pub before_unknown : Bool
  pub generated : Bool

pub record CommitInfo : Type 0 where
  pub id : Text
  pub change_set : ChangeSet
  pub hash : Text
  pub leaf_records : List LeafRecord
  pub attribution : Attribution

pub record CommitRecord : Type 0 where
  pub id : Text
  pub time : ℕ
  pub attribution : Attribution
  pub change_set : ChangeSet
  pub hash : Text
  pub leaf_records : List LeafRecord

pub record HistoryRecord : Type 0 where
  pub commit_id : Text
  pub time : ℕ
  pub attribution : Attribution
  pub file_key : Text
  pub action_text : Text
  pub content_hash : Text
  pub from : Text

-- `Put` of a BlobStore, over the state of the store: whether it succeeds.
abbrev pub BlobStore : Type 0 → Type 0
BlobStore B = Text → List ℕ → B → Bool × B

-- The test of capturePreImages for the entries of a directory that goes.
removes : ActionName → Bool
removes (action remove) = true
removes (action remove_all) = true
removes _ = false

is_not_exist : Error → Bool
is_not_exist not_exist = true
is_not_exist _ = false

is_generated : Option WriteChange → Bool
is_generated none = false
is_generated (some w) = w.generated

-- A record of a leaf before anything is known of what stood there.
fresh_record : Change → LeafRecord
unfolding is_generated
fresh_record leaf = record {
  target = clean_path leaf.target;
  action_name = leaf.action_name;
  before_exists = false;
  before_hash = [];
  before_size = 0;
  after_hash = [];
  after_size = 0;
  before_unknown = false;
  generated = is_generated leaf.write_change;
}

module _ {B : Type 0} (sha256 : List ℕ → Text) (fs : FileSystem) (blobs : Option (BlobStore B))
    (enabled : Bool) where
  -- The bytes of a file are kept in the blob store, if there is one and it is enabled.
  keep_blob : LeafRecord → Text → List ℕ → B → LeafRecord × B
  keep_blob r hash bytes st = elim blobs [
    | none ↦ (r, st)
    | some put_blob ↦
        if not enabled
        then (r, st)
        else (let (stored, st') = put_blob hash bytes st in
            (record r { before_unknown = not stored }, st'))
  ]

  -- The record of one leaf that is not a directory to be removed.
  record_leaf : Change → Result Error FileInfo → B → LeafRecord × B
  unfolding fresh_record is_not_exist keep_blob
  record_leaf leaf (err e) st =
      (record (fresh_record leaf) { before_unknown = not (is_not_exist e) }, st)
  record_leaf leaf (ok info) st =
      if info.dir then (fresh_record leaf, st) else elim (fs.read_file leaf.target) [
        | err e ↦ (record (fresh_record leaf) { before_exists = true; before_unknown = true }, st)
        | ok bytes ↦
            keep_blob
              (record (fresh_record leaf) {
                before_exists = true;
                before_hash = sha256 bytes;
                before_size = length bytes;
              })
              (sha256 bytes) bytes st
      ]

  abbrev pub Captured : Type 0
  Captured = List LeafRecord × B

  -- The loop over the entries of a directory, over the capture of one child.
  capture_entries :
      (Change → Captured → Captured × Option Error)
      → Change
      → List FileInfo
      → Captured
      → Captured × Option Error
  capture_entries capture_child leaf [] c = (c, none)
  capture_entries capture_child leaf (entry ∷ entries) c =
      let (c', e) =
        capture_child (record leaf { target = path_join leaf.target entry.file_name }) c in
      elim e [ some x ↦ (c', some x) | none ↦ capture_entries capture_child leaf entries c' ]

  record_one : Change → Result Error FileInfo → Captured → Captured × Option Error
  unfolding record_leaf
  record_one leaf found (out, st) =
      let (r, st') = record_leaf leaf found st in ((out ++ r ∷ [], st'), none)

  -- The closure `capture`, with fuel for the depth of the tree.
  pub capture : ℕ → Change → Captured → Captured × Option Error
  unfolding capture_entries record_one removes
  capture zero leaf c = (c, some (other (text "capture: out of fuel")))
  capture (suc fuel) leaf c = elim (fs.stat leaf.target) [
    | err e ↦ record_one leaf (err e) c
    | ok info ↦ elim (info.dir && removes leaf.action_name) [
      | false ↦ record_one leaf (ok info) c
      | true ↦ elim (fs.read_dir leaf.target) [
        | err e ↦ (c, some e)
        | ok entries ↦ capture_entries (capture fuel) leaf entries c
      ]
    ]
  ]

  capture_leaves : ℕ → List Change → Captured → Captured × Option Error
  unfolding capture
  capture_leaves fuel [] c = (c, none)
  capture_leaves fuel (leaf ∷ rest) c =
      let (c', e) = capture fuel leaf c in
      elim e [ some x ↦ (c', some x) | none ↦ capture_leaves fuel rest c' ]

  -- capturePreImages: the records taken before an error are given with it
  unfoldable pub capture_pre_images : ℕ → ChangeSet → B → Captured × Option Error
  unfolding capture_leaves leaves
  capture_pre_images fuel cs st = capture_leaves fuel (leaves cs) ([], st)

-- byPath, a later leaf of a path in place of an earlier
by_path : List Change → List (Text × Change)
by_path [] = []
by_path (leaf ∷ rest) =
    let later = by_path rest in
    if contains (map (λ (entry : Text × Change). entry.0) later) (clean_path leaf.target)
    then later
    else (clean_path leaf.target, leaf) ∷ later

fill_record : (List ℕ → Text) → List (Text × Change) → LeafRecord → LeafRecord
fill_record sha256 written r = elim (lookup r.target written) [
  | none ↦ r
  | some leaf ↦ elim leaf.write_change [
    | none ↦ r
    | some w ↦ record r { after_hash = sha256 w.bytes; after_size = length w.bytes }
  ]
]

-- fillAfter
unfoldable pub fill_after : (List ℕ → Text) → List LeafRecord → ChangeSet → List LeafRecord
unfolding by_path fill_record leaves
fill_after sha256 records committed = map (fill_record sha256 (by_path (leaves committed))) records
