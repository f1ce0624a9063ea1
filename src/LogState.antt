-- ===== src/LogState.antt =====
-- pkg/openlore/writelog.go: the state of the write log's applier. The world is the substrate, the blob
-- store and the calls made so far; an outside handler, the clock and the source of ids may depend on all
-- of it. Handlers write to the substrate only through the log.
use open_lore.Prelude.{ℕ, Bool, Option, none, List, [], Text}
use open_lore.Vfs.{Error}
use open_lore.Identity.{Identity}
use open_lore.Changeset.{Change, ChangeSet, no_action}
use open_lore.Snapshot.{Substrate}
use open_lore.Commit.{CommitError, CommitResult}
use open_lore.History.{Attribution, LeafRecord, CommitInfo, CommitRecord, HistoryRecord, BlobStore}

-- An error of the preflight or of a handler, or of the commit.
pub data ApplyError : Type 0 where
  refused : Error → ApplyError
  not_committed : CommitError → ApplyError

-- applyResult
pub record ApplyResult : Type 0 where
  pub hash : Text
  pub failure : Option ApplyError

-- The calls of the applier to the outside, and what it logs.
pub data Call : Type 0 where
  state_called post_called : CommitInfo → Call
  journaled : CommitRecord → Call
  indexed : List HistoryRecord → Call
  logged : Text → Call

pub record World (S B : Type 0) : Type 0 where
  pub files : S
  pub blobs : B
  pub calls : List Call

-- What does not change while the log runs.
pub record Setting (S B : Type 0) : Type 0 where
  pub substrate : Substrate S
  pub preflight_change : Option (S → Change → Option Error)
  pub sha256 : List ℕ → Text
  pub new_id : World S B → Text
  pub now : World S B → ℕ
  pub fuel : ℕ

-- The fields that the setters replace.
pub record Handlers (S B : Type 0) : Type 0 where
  pub pre_apply : Option (Option Identity → Attribution → ChangeSet → World S B → Option Error)
  pub commit_state : Option (CommitInfo → World S B → Option Error)
  pub journal : Option (CommitRecord → World S B → Option Error)
  pub blob_store : Option (BlobStore B)
  pub blobs_enabled : Bool
  pub history : Option (List HistoryRecord → World S B → Option Error)
  pub post_commit : Option (CommitInfo → World S B → Option Error)

-- logEntry, less its reply channel.
pub data LogEntry (S B : Type 0) : Type 0 where
  change_entry : ChangeSet → Attribution → Option Identity → LogEntry S B
  task : (World S B → Option Error × World S B) → LogEntry S B

-- The variables of the loop's body. `journal` is read with the handlers of the first read.
pub record Attempt (S B : Type 0) : Type 0 where
  pub commit_id : Text
  pub attribution : Attribution
  pub leaf_records : List LeafRecord
  pub committed : CommitResult
  pub failure : Option ApplyError
  pub journal : Option (CommitRecord → World S B → Option Error)

-- CommitResult{}
abbrev pub no_commit : CommitResult
no_commit = record {
  hash = [];
  committed = record {
    single = record {
      target = [];
      action_name = no_action;
      write_change = none;
      remove_all_change = none;
      xattr = none;
      xattr_repair = none;
      xattr_migration = none;
    };
    changes = [];
    moves = [];
  };
}
