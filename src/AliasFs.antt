-- ===== src/AliasFs.antt =====
-- pkg/openlore/alias_fs.go: a view of a filesystem in which each alias root shows what is at its
-- target. Every operation goes to the wrapped filesystem at the canonical path.
pub mod Longest
mod Tests
use open_lore.Prelude.{
  ℕ, Bool, true, false, not, ◌&&◌, ◌||◌, Option, none, some, List, [], ◌∷◌, map, ◌==◌,
  if◌then◌else◌, ltb, length, any, Text, text, Result, err, ok,
}
use open_lore.Path.{slash, clean_path, path_within_root, replace_path_root, path_base, path_join}
use open_lore.Vfs.{Error, not_exist, not_sup, FileInfo, FileSystem}
use open_lore.Changeset.{
  WriteOpts, RemoveOpts, TreeSnapshot, RemoveAllChange, XattrMigration, Change, ChangeSet,
}
use open_lore.Writable.{Action, WritableFs}

pub record PathAlias : Type 0 where
  pub alias : Text
  pub target : Text

-- The insertion that sort.Slice amounts to, up to the order of aliases of one length: longest first.
insert_alias : PathAlias → List PathAlias → List PathAlias
insert_alias a [] = a ∷ []
insert_alias a (b ∷ rest) =
    let later = insert_alias a rest in
    if ltb (length a.alias) (length b.alias) then b ∷ later else a ∷ b ∷ rest

sort_aliases : List PathAlias → List PathAlias
unfolding insert_alias
sort_aliases [] = []
sort_aliases (a ∷ aliases) = insert_alias a (sort_aliases aliases)

-- currentAliases of the view that `newLiveAliasFS` makes: what `liveAliases` gives, sorted. The
-- aliases of the operations below are these.
unfoldable pub current_aliases : List PathAlias → List PathAlias
unfolding sort_aliases
current_aliases aliases = sort_aliases aliases

-- The loop of `canonical` over the current aliases.
unfoldable pub find_alias : Text → List PathAlias → Option PathAlias
find_alias clean [] = none
find_alias clean (a ∷ aliases) =
    if path_within_root a.alias clean then some a else find_alias clean aliases

-- canonical
unfoldable pub canonical : List PathAlias → Text → Text × Option PathAlias
unfolding find_alias
canonical aliases p =
    let clean = clean_path p in
    elim (find_alias clean aliases) [
      | none ↦ (clean, none)
      | some a ↦ (replace_path_root clean a.alias a.target, some a)
    ]

-- hasAliasDescendant
unfoldable pub has_alias_descendant : List PathAlias → Text → Bool
has_alias_descendant aliases parent =
    let clean = clean_path parent in
    any (λ a. clean == text "/" || (path_within_root clean a.alias && not (clean == a.alias)))
      aliases

-- errors.Is(err, fs.ErrNotExist)
is_not_exist : Error → Bool
is_not_exist not_exist = true
is_not_exist _ = false

-- Stat
unfoldable pub stat : FileSystem → List PathAlias → Text → Result Error FileInfo
unfolding canonical has_alias_descendant is_not_exist
stat base aliases p =
    let requested = clean_path p in
    let (target, found) = canonical aliases p in
    elim found [
      | some a ↦ elim (base.stat target) [
        | err e ↦ err e
        | ok info ↦ ok (record info {
          file_name = path_base requested;
          file_path = requested;
          link_target = if requested == a.alias then a.target else info.link_target;
        })
      ]
      | none ↦ elim (base.stat target) [
        | ok info ↦ ok info
        | err e ↦
            if is_not_exist e && has_alias_descendant aliases target
            then ok (record {
              file_name = path_base target;
              file_path = target;
              content = [];
              dir = true;
              file_mod_time = 0;
              file_size = 0;
              link_target = [];
            })
            else err e
      ]
    ]

-- ReadFile
unfoldable pub read_file : FileSystem → List PathAlias → Text → Result Error (List ℕ)
unfolding canonical
read_file base aliases p = base.read_file (canonical aliases p).0

-- canonicalRemoveOpts
unfoldable pub canonical_remove_opts : List PathAlias → RemoveOpts → RemoveOpts
unfolding canonical
canonical_remove_opts aliases opts = elim opts.expected [
  | none ↦ opts
  | some snapshot ↦ record {
    expected = some (record snapshot { root = (canonical aliases snapshot.root).0 });
  }
]

-- The removal of a change, as AdmitChangeSet rewrites it.
canonical_removal : List PathAlias → Option RemoveAllChange → Option RemoveAllChange
unfolding canonical_remove_opts
canonical_removal aliases none = none
canonical_removal aliases (some removal) =
    some (record { opts = canonical_remove_opts aliases removal.opts })

canonical_leaf : List PathAlias → Change → Change
unfolding canonical canonical_removal
canonical_leaf aliases c = record c {
  target = (canonical aliases c.target).0;
  remove_all_change = canonical_removal aliases c.remove_all_change;
}

unfoldable pub canonical_change_set : List PathAlias → ChangeSet → ChangeSet
unfolding canonical canonical_removal canonical_leaf
canonical_change_set aliases cs = record {
  single = record (cs.single) {
    target = if cs.single.target == [] then [] else (canonical aliases cs.single.target).0;
    remove_all_change = canonical_removal aliases cs.single.remove_all_change;
  };
  changes = map (canonical_leaf aliases) cs.changes;
  moves = cs.moves;
}

module _ {S : Type 0} where
  -- AdmitChangeSet
  unfoldable pub admit_change_set : WritableFs S → List PathAlias → ChangeSet → Action S (Unit {0})
  unfolding canonical_change_set
  admit_change_set inner aliases cs st = elim inner.admitter [
    | none ↦ (err not_sup, st)
    | some admit ↦ admit (canonical_change_set aliases cs) st
  ]

  -- writableAliasFS: WriteFileAtomic, Mkdir, MkdirAll, Remove, RemoveAll, the attribute operations,
  -- AdmitChangeSet and CanWrite
  unfoldable pub writable_alias_fs : WritableFs S → List PathAlias → WritableFs S
  unfolding canonical canonical_remove_opts admit_change_set
  writable_alias_fs inner aliases = record {
    write_file_atomic = λ p bytes opts. inner.write_file_atomic (canonical aliases p).0 bytes opts;
    mkdir = λ p. inner.mkdir (canonical aliases p).0;
    mkdir_all = λ p. inner.mkdir_all (canonical aliases p).0;
    remove = λ p. inner.remove (canonical aliases p).0;
    remove_all =
        λ p opts. inner.remove_all (canonical aliases p).0 (canonical_remove_opts aliases opts);
    xattr_writer = elim inner.xattr_writer [
      | none ↦ none
      | some x ↦ some (record {
        set_xattr = λ p name bytes flags. x.set_xattr (canonical aliases p).0 name bytes flags;
        remove_xattr = λ p name. x.remove_xattr (canonical aliases p).0 name;
      })
    ];
    xattr_maintenance = elim inner.xattr_maintenance [
      | none ↦ none
      | some x ↦ some (record {
        preserve_and_recreate_xattrs =
            λ p attrs. x.preserve_and_recreate_xattrs (canonical aliases p).0 attrs;
        migrate_xattrs = λ p m. x.migrate_xattrs (canonical aliases p).0 m;
      })
    ];
    admitter = some (admit_change_set inner aliases);
    write_scope =
        some (λ p. elim inner.write_scope [
          | none ↦ true
          | some scope ↦ scope (canonical aliases p).0
        ]);
  }
