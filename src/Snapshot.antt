-- ===== src/Snapshot.antt =====
-- pkg/vfs/changeset.go: what a batch copies of the filesystem before its first leaf (`captureBatch`).
-- Fuel bounds the depth of the trees that are walked.
pub mod Climb
pub mod Minimal
mod Tests
use open_lore.Prelude.{
  ℕ, zero, suc, Bool, true, false, not, ◌&&◌, ◌||◌, Option, none, some, List, [], ◌∷◌, ◌++◌, ◌==◌,
  if◌then◌else◌, ltb, nat_eq, is_some, length, any, Text, text, text_lt, has_prefix, Result, ◌>>=◌,
  put, contains, err, ok,
}
use open_lore.Path.{slash, clean_path, path_dir, trim_left, trim_right}
use open_lore.Vfs.{
  Error, not_exist, not_dir, not_sup, other, FileInfo, FileSystem, ChangeAction, write, mkdir,
  mkdir_all, remove, remove_all, set_xattr, remove_xattr, preserve_and_recreate_xattrs,
  migrate_xattrs, walk_dir,
}
use open_lore.Changeset.{Change, ActionName, no_action, action, unknown_action}
use open_lore.Writable.{WritableFs}

-- vfs.XattrReader
pub record XattrReader : Type 0 where
  pub get_xattr : Text → Text → Result Error (List ℕ)
  pub list_xattrs : Text → Result Error (List Text)

-- A filesystem that can be written, with what can be read of a state of it.
pub record Substrate (S : Type 0) : Type 0 where
  pub writer : WritableFs S
  pub view : S → FileSystem
  pub xattr_reader : Option (S → XattrReader)

pub record RollbackEntry : Type 0 where
  pub path : Text
  pub is_dir : Bool
  pub bytes : List ℕ
  pub xattrs : Option (List (Text × List ℕ))

pub record RollbackSnapshot : Type 0 where
  pub root : Text
  pub existed : Bool
  pub entries : List RollbackEntry

pub record RollbackAttrs : Type 0 where
  pub path : Text
  pub attrs : List (Text × List ℕ)

pub record BatchSnapshot : Type 0 where
  pub roots : List RollbackSnapshot
  pub attrs : List RollbackAttrs

-- missingPath: fs.ErrNotExist or ENOTDIR
unfoldable pub missing_path : Error → Bool
missing_path not_exist = true
missing_path not_dir = true
missing_path _ = false

-- The loop of `highestMissingRoot` over the parents, on fuel.
pub climb : ℕ → FileSystem → Text → Result Error Text
unfolding missing_path
climb zero fs root = err (other (text "climb: out of fuel"))
climb (suc fuel) fs root =
    let parent = path_dir root in
    if parent == root then ok root else elim (fs.stat parent) [
      | ok info ↦ ok root
      | err e ↦ elim (missing_path e) [ true ↦ climb fuel fs parent | false ↦ err e ]
    ]

-- highestMissingRoot: a parent is shorter, so that the length of the path is fuel enough
unfoldable pub highest_missing_root : FileSystem → Text → Result Error Text
unfolding climb missing_path
highest_missing_root fs target = elim (fs.stat target) [
  | ok info ↦ ok target
  | err e ↦ if missing_path e then climb (length target) fs target else err e
]

-- readXattrs
read_values : XattrReader → Text → List Text → Result Error (List (Text × List ℕ))
read_values reader target [] = ok []
read_values reader target (name ∷ names) = reader.get_xattr target name >>= λ value.
    read_values reader target names >>= λ attrs. ok (put name value attrs)

pub read_xattrs : XattrReader → Text → Result Error (List (Text × List ℕ))
unfolding read_values
read_xattrs reader target = reader.list_xattrs target >>= read_values reader target

-- errors.Is(err, ENOTSUP)
is_not_sup : Error → Bool
is_not_sup not_sup = true
is_not_sup _ = false

-- The attributes of an entry: none where the filesystem has none.
entry_xattrs : Bool → Option XattrReader → Text → Result Error (Option (List (Text × List ℕ)))
unfolding read_xattrs is_not_sup
entry_xattrs can_write none target = ok none
entry_xattrs can_write (some reader) target = elim (read_xattrs reader target) [
  | err e ↦ if is_not_sup e then ok none else err e
  | ok attrs ↦ if ltb 0 (length attrs) && not can_write then err not_sup else ok (some attrs)
]

entry_of : FileSystem → Bool → Option XattrReader → Text → FileInfo → Result Error RollbackEntry
unfolding entry_xattrs
entry_of fs can_write reader target info =
    (if info.dir then ok [] else fs.read_file target) >>= λ bytes.
    entry_xattrs can_write reader target >>= λ xattrs.
    ok (record { path = target; is_dir = info.dir; bytes = bytes; xattrs = xattrs })

-- The callback of `captureRoot`, over the entries that it has taken.
capture_visit :
    FileSystem
    → Bool
    → Option XattrReader
    → List RollbackEntry
    → Text
    → Result Error FileInfo
    → List RollbackEntry × Option Error
unfolding entry_of
capture_visit fs can_write reader entries target (err e) = (entries, some e)
capture_visit fs can_write reader entries target (ok info) =
    elim (entry_of fs can_write reader target info) [
      | err e ↦ (entries, some e)
      | ok entry ↦ (entries ++ entry ∷ [], none)
    ]

-- captureRoot
unfoldable pub capture_root :
    ℕ → FileSystem → Bool → Option XattrReader → Text → Result Error RollbackSnapshot
unfolding missing_path capture_visit
capture_root fuel fs can_write reader root = elim (fs.stat root) [
  | err e ↦
      if missing_path e then ok (record { root = root; existed = false; entries = [] }) else err e
  | ok info ↦
      let (entries, stop) = walk_dir fuel fs (capture_visit fs can_write reader) root [] in
      elim stop [
        | some e ↦ err e
        | none ↦ ok (record { root = root; existed = true; entries = entries })
      ]
]

count_slashes : Text → ℕ
count_slashes [] = 0
count_slashes (c ∷ s) = let n = count_slashes s in if nat_eq c slash then suc n else n

-- pathDepth
unfoldable pub path_depth : Text → ℕ
unfolding count_slashes
path_depth p = count_slashes (trim_left (trim_right p))

-- The order of the roots: by depth, then by name.
pub is_before : Text → Text → Bool
unfolding path_depth
is_before a b =
    if nat_eq (path_depth a) (path_depth b) then text_lt a b else ltb (path_depth a) (path_depth b)

pub insert_root : Text → List Text → List Text
unfolding is_before
insert_root r [] = r ∷ []
insert_root r (q ∷ rest) =
    let later = insert_root r rest in if is_before q r then q ∷ later else r ∷ q ∷ rest

pub sort_roots : List Text → List Text
unfolding insert_root
sort_roots [] = []
sort_roots (r ∷ roots) = insert_root r (sort_roots roots)

-- The test that a root is in one of those kept.
unfoldable pub is_covered : List Text → Text → Bool
is_covered kept root =
    any (λ parent. root == parent || parent == text "/" || has_prefix root (parent ++ text "/"))
      kept

-- The loop that keeps the roots which no root kept before covers.
pub minimal_from : List Text → List Text → List Text
unfolding is_covered
minimal_from kept [] = kept
minimal_from kept (root ∷ roots) =
    minimal_from (if is_covered kept root then kept else kept ++ root ∷ []) roots

unfoldable pub minimal_roots : List Text → List Text
unfolding minimal_from sort_roots
minimal_roots roots = minimal_from [] (sort_roots roots)

-- The five actions on the tree of names.
unfoldable pub changes_names : ActionName → Bool
changes_names (action write) = true
changes_names (action mkdir) = true
changes_names (action mkdir_all) = true
changes_names (action remove) = true
changes_names (action remove_all) = true
changes_names _ = false

unfoldable pub changes_xattrs : ActionName → Bool
changes_xattrs (action set_xattr) = true
changes_xattrs (action remove_xattr) = true
changes_xattrs (action preserve_and_recreate_xattrs) = true
changes_xattrs (action migrate_xattrs) = true
changes_xattrs _ = false

-- The roots of the leaves, in their order.
pub target_roots : FileSystem → List Change → Result Error (List Text)
unfolding changes_names highest_missing_root
target_roots fs [] = ok []
target_roots fs (c ∷ changes) =
    let rest = target_roots fs changes in
    if changes_names c.action_name
    then (highest_missing_root fs (clean_path c.target) >>= λ root.
        rest >>= λ roots. ok (root ∷ roots))
    else rest

-- attrTargets, as a list without repetition
attr_targets : List Change → List Text
unfolding changes_xattrs
attr_targets [] = []
attr_targets (c ∷ changes) =
    let rest = attr_targets changes in
    if changes_xattrs c.action_name && not (contains rest (clean_path c.target))
    then clean_path c.target ∷ rest
    else rest

capture_roots :
    ℕ → FileSystem → Bool → Option XattrReader → List Text → Result Error (List RollbackSnapshot)
unfolding capture_root
capture_roots fuel fs can_write reader [] = ok []
capture_roots fuel fs can_write reader (root ∷ roots) =
    capture_root fuel fs can_write reader root >>= λ snapshot.
    capture_roots fuel fs can_write reader roots >>= λ rest. ok (snapshot ∷ rest)

insert_attrs : RollbackAttrs → List RollbackAttrs → List RollbackAttrs
insert_attrs a [] = a ∷ []
insert_attrs a (b ∷ rest) =
    let later = insert_attrs a rest in if text_lt b.path a.path then b ∷ later else a ∷ b ∷ rest

-- The attributes of each target, sorted by path.
capture_attrs : XattrReader → List Text → Result Error (List RollbackAttrs)
unfolding read_xattrs insert_attrs
capture_attrs reader [] = ok []
capture_attrs reader (target ∷ targets) = read_xattrs reader target >>= λ attrs.
    capture_attrs reader targets >>= λ rest.
    ok (insert_attrs (record { path = target; attrs = attrs }) rest)

capture_targets : Bool → Option XattrReader → List Text → Result Error (List RollbackAttrs)
unfolding capture_attrs
capture_targets can_write reader [] = ok []
capture_targets can_write none (t ∷ targets) = err not_sup
capture_targets can_write (some reader) (t ∷ targets) =
    if can_write then capture_attrs reader (t ∷ targets) else err not_sup

module _ {S : Type 0} where
  reader_at : Substrate S → S → Option XattrReader
  reader_at sub st = elim sub.xattr_reader [ none ↦ none | some read ↦ some (read st) ]

  -- captureBatch
  unfoldable pub capture_batch : ℕ → Substrate S → List Change → S → Result Error BatchSnapshot
  unfolding target_roots minimal_roots capture_roots attr_targets capture_targets reader_at
  capture_batch fuel sub changes st =
      let fs = sub.view st in
      let can_write = is_some sub.writer.xattr_writer in
      target_roots fs changes >>= λ roots.
      capture_roots fuel fs can_write (reader_at sub st) (minimal_roots roots) >>= λ snapshots.
      capture_targets can_write (reader_at sub st) (attr_targets changes) >>= λ attrs.
      ok (record { roots = snapshots; attrs = attrs })
