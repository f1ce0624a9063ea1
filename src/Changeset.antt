-- ===== src/Changeset.antt =====
-- pkg/vfs/changeset.go: the description of one mutation or of an ordered batch, its leaves and its
-- validation; with the payload types of pkg/vfs/vfs.go. A pointer that may be nil is an Option, and
-- the copies that Go takes of a payload are the payload. `sha256` is the hash in hexadecimal.
pub mod Shape
use open_lore.Prelude.{
  ℕ, zero, suc, ◌+◌, Bool, true, false, not, ◌&&◌, ◌||◌, Option, none, some, List, [], ◌∷◌, ◌==◌,
  if◌then◌else◌, ltb, nat_eq, is_some, length, any, Text, text,
}
use open_lore.Vfs.{
  ChangeAction, write, mkdir, mkdir_all, remove, remove_all, set_xattr, remove_xattr,
  preserve_and_recreate_xattrs, migrate_xattrs,
}

pub record WriteOpts : Type 0 where
  pub if_match : Option Text
  pub if_none_match : Bool
  pub content_policy_validated : Bool

pub record TreeOp : Type 0 where
  pub rel_path : Text
  pub kind : Text
  pub hash : Text
  pub size : ℕ

pub record TreeSnapshot : Type 0 where
  pub root : Text
  pub ops : List TreeOp

pub record RemoveOpts : Type 0 where
  pub expected : Option TreeSnapshot

pub record XattrEdit : Type 0 where
  pub name : Text
  pub value : List ℕ
  pub remove : Bool

pub record XattrMigration : Type 0 where
  pub namespace_prefix : Text
  pub expected_envelope_sha256 : List ℕ
  pub edits : List XattrEdit

-- Of the 32 bits none but the lowest two, and not both.
unfoldable pub is_valid_flags : ℕ → Bool
is_valid_flags flags = ltb flags 4 && not (nat_eq flags 3)

pub record WriteChange : Type 0 where
  pub bytes : List ℕ
  pub opts : WriteOpts
  pub generated : Bool

pub record RemoveAllChange : Type 0 where
  pub opts : RemoveOpts

pub record XattrChange : Type 0 where
  pub name : Text
  pub value : List ℕ
  pub flags : ℕ

pub record XattrRepairChange : Type 0 where
  pub attributes : List (Text × List ℕ)

-- The string of an action: "", one of the nine, or another.
pub data ActionName : Type 0 where
  no_action : ActionName
  action : ChangeAction → ActionName
  unknown_action : Text → ActionName

pub record Change : Type 0 where
  pub target : Text
  pub action_name : ActionName
  pub write_change : Option WriteChange
  pub remove_all_change : Option RemoveAllChange
  pub xattr : Option XattrChange
  pub xattr_repair : Option XattrRepairChange
  pub xattr_migration : Option XattrMigration

-- A Go int that indexes the leaves.
pub data ℤ : Type 0 where
  pos negsuc : ℕ → ℤ

pub record Move : Type 0 where
  pub source : ℤ
  pub destination : ℤ

-- The fields of a single change, the leaves of a batch, its moves.
pub record ChangeSet : Type 0 where
  pub single : Change
  pub changes : List Change
  pub moves : List Move

-- Leaves
unfoldable pub leaves : ChangeSet → List Change
leaves cs = elim cs.changes [ [] ↦ cs.single ∷ [] | change ∷ changes ↦ change ∷ changes ]

pub data ChangeSetError : Type 0 where
  missing_target wrong_payload unknown_name singleton_fields singleton_moves : ChangeSetError
  invalid_indices wrong_actions content_differs paired_twice : ChangeSetError

count : {A : Type 0} → Option A → ℕ
count none = 0
count (some a) = 1

-- The number of payloads that are not nil.
unfoldable pub payloads : Change → ℕ
unfolding count
payloads c =
    count c.write_change
    + count c.remove_all_change
    + count c.xattr
    + count c.xattr_repair
    + count c.xattr_migration

-- The test of the payload for each action.
fits : Change → ChangeAction → Bool
unfolding is_valid_flags payloads
fits c write = is_some c.write_change && nat_eq (payloads c) 1
fits c remove_all = is_some c.remove_all_change && nat_eq (payloads c) 1
fits c mkdir = nat_eq (payloads c) 0
fits c mkdir_all = nat_eq (payloads c) 0
fits c remove = nat_eq (payloads c) 0
fits c set_xattr = elim c.xattr [
  | none ↦ false
  | some x ↦ not (x.name == []) && is_valid_flags x.flags && nat_eq (payloads c) 1
]
fits c remove_xattr = elim c.xattr [
  | none ↦ false
  | some x ↦ not (x.name == []) && x.value == [] && nat_eq x.flags 0 && nat_eq (payloads c) 1
]
fits c preserve_and_recreate_xattrs =
    is_some c.xattr_repair
    && not (is_some c.write_change)
    && not (is_some c.remove_all_change)
    && not (is_some c.xattr)
    && not (is_some c.xattr_migration)
fits c migrate_xattrs = elim c.xattr_migration [
  | none ↦ false
  | some m ↦
      not (m.namespace_prefix == [])
      && nat_eq (length m.expected_envelope_sha256) 32
      && ltb 0 (length m.edits)
      && not (is_some c.write_change)
      && not (is_some c.remove_all_change)
      && not (is_some c.xattr)
      && not (is_some c.xattr_repair)
]

-- validateChange, none for nil
unfoldable pub validate_change : Change → Option ChangeSetError
unfolding fits
validate_change c = if c.target == [] then some missing_target else elim c.action_name [
  | no_action ↦ some unknown_name
  | unknown_action name ↦ some unknown_name
  | action a ↦ if fits c a then none else some wrong_payload
]

validate_changes : List Change → Option ChangeSetError
unfolding validate_change
validate_changes [] = none
validate_changes (c ∷ changes) = elim (validate_change c) [
  | none ↦ validate_changes changes
  | some e ↦ some e
]

-- cs.Changes[i], none out of range
unfoldable pub leaf_at : List Change → ℤ → Option Change
leaf_at [] i = none
leaf_at (c ∷ changes) (negsuc i) = none
leaf_at (c ∷ changes) (pos zero) = some c
leaf_at (c ∷ changes) (pos (suc i)) = leaf_at changes (pos i)

unfoldable pub same_index : ℤ → ℤ → Bool
same_index (pos i) (pos j) = nat_eq i j
same_index (negsuc i) (negsuc j) = nat_eq i j
same_index (pos i) (negsuc j) = false
same_index (negsuc i) (pos j) = false

root_hash : List TreeOp → Text
root_hash [] = []
root_hash (op ∷ ops) =
    if op.rel_path == text "." && op.kind == text "file" then op.hash else root_hash ops

-- snapshotFileHash
unfoldable pub snapshot_file_hash : TreeSnapshot → Text
unfolding root_hash
snapshot_file_hash snapshot = root_hash snapshot.ops

-- Action == ChangeActionRemoveAll, Action == ChangeActionWrite
names_remove_all : ActionName → Bool
names_remove_all (action remove_all) = true
names_remove_all _ = false

names_write : ActionName → Bool
names_write (action write) = true
names_write _ = false

-- The tests on the two leaves of a move.
move_error : (List ℕ → Text) → Change → Change → Option ChangeSetError
unfolding names_remove_all names_write snapshot_file_hash
move_error sha256 from to = elim from.remove_all_change [
  | none ↦ some wrong_actions
  | some removal ↦ elim to.write_change [
    | none ↦ some wrong_actions
    | some written ↦
        if not (names_remove_all from.action_name) || not (names_write to.action_name)
        then some wrong_actions
        else elim removal.opts.expected [
          | none ↦ some content_differs
          | some snapshot ↦
              if snapshot_file_hash snapshot == sha256 written.bytes
              then none
              else some content_differs
        ]
  ]
]

-- seen[i]
unfoldable pub was_seen : List ℤ → ℤ → Bool
unfolding same_index
was_seen seen i = any (λ j. same_index j i) seen

-- The tests on one move, `seen_from` and `seen_to` the indices of those passed.
unfoldable pub check_move :
    (List ℕ → Text) → List Change → List ℤ → List ℤ → Move → Option ChangeSetError
unfolding leaf_at same_index move_error was_seen
check_move sha256 changes seen_from seen_to move = elim (leaf_at changes move.source) [
  | none ↦ some invalid_indices
  | some from ↦ elim (leaf_at changes move.destination) [
    | none ↦ some invalid_indices
    | some to ↦
        if same_index move.source move.destination
        then some invalid_indices
        else elim (move_error sha256 from to) [
          | some e ↦ some e
          | none ↦
              if was_seen seen_from move.source || was_seen seen_to move.destination
              then some paired_twice
              else none
        ]
  ]
]

unfoldable pub check_moves :
    (List ℕ → Text) → List Change → List ℤ → List ℤ → List Move → Option ChangeSetError
unfolding check_move
check_moves sha256 changes seen_from seen_to [] = none
check_moves sha256 changes seen_from seen_to (move ∷ moves) =
    elim (check_move sha256 changes seen_from seen_to move) [
      | some e ↦ some e
      | none ↦
          check_moves sha256 changes (move.source ∷ seen_from) (move.destination ∷ seen_to) moves
    ]

-- Every field of the single change is zero.
is_blank : Change → Bool
unfolding payloads
is_blank c =
    c.target == []
    && elim c.action_name [ no_action ↦ true | action a ↦ false | unknown_action n ↦ false ]
    && nat_eq (payloads c) 0

-- ValidateChangeSet, none for nil
unfoldable pub validate_change_set : (List ℕ → Text) → ChangeSet → Option ChangeSetError
unfolding is_blank validate_changes check_moves validate_change
validate_change_set sha256 cs = elim cs.changes [
  | [] ↦ if ltb 0 (length cs.moves) then some singleton_moves else validate_change cs.single
  | c ∷ changes ↦
      if not (is_blank cs.single)
      then some singleton_fields
      else elim (validate_changes (c ∷ changes)) [
        | some e ↦ some e
        | none ↦ check_moves sha256 (c ∷ changes) [] [] cs.moves
      ]
]
