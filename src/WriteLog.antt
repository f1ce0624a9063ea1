-- ===== src/WriteLog.antt =====
-- pkg/openlore/writelog.go: what the applier of the write log does with one entry (`run`).
pub mod Outcome
pub mod System
mod Tests
use open_lore.Prelude.{
  Bool, true, false, not, ◌&&◌, Option, none, some, List, [], ◌∷◌, ◌++◌, is_some, Text, text,
  Result, err, ok,
}
use open_lore.Vfs.{Error, other}
use open_lore.Identity.{Identity}
use open_lore.Changeset.{Change, ChangeSet, no_action, leaves}
use open_lore.Snapshot.{Substrate}
use open_lore.Commit.{CommitError, CommitResult, has_committed, commit_change_set}
use open_lore.History.{
  Attribution, durable_attribution, LeafRecord, CommitInfo, CommitRecord, HistoryRecord, BlobStore,
  capture_pre_images, fill_after,
}
use open_lore.History.Records.{indexed_history_records}
pub use open_lore.LogState.{
  ApplyError, refused, not_committed, ApplyResult, Call, state_called, post_called, journaled,
  indexed, logged, World, Setting, Handlers, LogEntry, change_entry, task, Attempt, no_commit,
}

first_error : (Change → Option Error) → List Change → Option Error
first_error check [] = none
first_error check (c ∷ changes) = elim (check c) [
  | some e ↦ some e
  | none ↦ first_error check changes
]

module _ {S B : Type 0} where
  pub call : Call → World S B → World S B
  call c w = record w { calls = w.calls ++ c ∷ [] }

  -- A call of which an error is logged, and no more.
  notify :
      {A : Type 0}
      → Text
      → (A → Call)
      → Option (A → World S B → Option Error)
      → A
      → World S B
      → World S B
  unfolding call
  notify message named none a w = w
  notify message named (some handler) a w =
      let w' = call (named a) w in
      elim (handler a w) [ none ↦ w' | some e ↦ call (logged message) w' ]

  -- The preflight of the leaves, then the handler before the commit.
  pub refusal :
      Setting S B
      → Handlers S B
      → ChangeSet
      → Attribution
      → Option Identity
      → World S B
      → Option Error
  unfolding first_error
  refusal env h cs attribution identity w =
      let early : Option Error = elim env.preflight_change [
        | none ↦ none
        | some check ↦ first_error (check w.files) (leaves cs)
      ] in
      elim early [
        | some e ↦ some e
        | none ↦ elim h.pre_apply [ none ↦ none | some pre ↦ pre identity attribution cs w ]
      ]

  -- The attempt after its commit.
  commit_attempt :
      Setting S B
      → Handlers S B
      → ChangeSet
      → Attribution
      → Text
      → List LeafRecord
      → World S B
      → Result CommitError CommitResult × S
      → Attempt S B × World S B
  commit_attempt env h cs attribution id records w (ok r, files) = (
    record {
      commit_id = id;
      attribution = durable_attribution attribution;
      leaf_records = elim (has_committed r) [
        | true ↦ fill_after env.sha256 records r.committed
        | false ↦ records
      ];
      committed = r;
      failure = none;
      journal = h.journal;
    },
    record w { files = files },
  )
  commit_attempt env h cs attribution id records w (err e, files) = (
    record {
      commit_id = id;
      attribution = durable_attribution attribution;
      leaf_records = records;
      committed = no_commit;
      failure = some (not_committed e);
      journal = h.journal;
    },
    record w { files = files },
  )

  -- The images before the commit: an error that cuts them short is logged.
  pub capture_images :
      Setting S B → Handlers S B → ChangeSet → World S B → List LeafRecord × World S B
  unfolding call
  capture_images env h cs w =
      let ((records, blobs'), e) =
        capture_pre_images env.sha256 (env.substrate.view w.files) h.blob_store h.blobs_enabled
          env.fuel cs w.blobs in
      let w' = record w { blobs = blobs' } in
      (
        records,
        elim e [
          | none ↦ w'
          | some x ↦ call (logged (text "history pre-image capture incomplete")) w'
        ],
      )

  -- From the preflight to the commit.
  pub begin_entry :
      Setting S B
      → Handlers S B
      → ChangeSet
      → Attribution
      → Option Identity
      → World S B
      → Attempt S B × World S B
  begin_entry env h cs attribution identity w = elim (refusal env h cs attribution identity w) [
    | some e ↦ (
      record {
        commit_id = env.new_id w;
        attribution = durable_attribution attribution;
        leaf_records = [];
        committed = no_commit;
        failure = some (refused e);
        journal = h.journal;
      },
      w,
    )
    | none ↦
        let (records, w') = capture_images env h cs w in
        commit_attempt env h cs attribution (env.new_id w) records w'
          (commit_change_set env.sha256 env.fuel env.substrate cs w'.files)
  ]

  pub commit_info : Attempt S B → CommitInfo
  commit_info a = record {
    id = a.commit_id;
    change_set = a.committed.committed;
    hash = a.committed.hash;
    leaf_records = a.leaf_records;
    attribution = a.attribution;
  }

  commit_record : Setting S B → Attempt S B → World S B → CommitRecord
  commit_record env a w = record {
    id = a.commit_id;
    time = env.now w;
    attribution = a.attribution;
    change_set = a.committed.committed;
    hash = a.committed.hash;
    leaf_records = a.leaf_records;
  }

  -- The state handler, after a commit without error: its error is the entry's.
  run_state : Handlers S B → Attempt S B → World S B → Attempt S B × World S B
  run_state h a w = elim h.commit_state [
    | none ↦ (a, w)
    | some handler ↦ (
      record a {
        failure = elim (handler (commit_info a) w) [ none ↦ none | some e ↦ some (refused e) ];
      },
      call (state_called (commit_info a)) w,
    )
  ]

  -- err == nil && committed.HasCommitted()
  pub reads_state : Attempt S B → Bool
  reads_state a = not (is_some a.failure) && has_committed a.committed

  pub journal_entry : Setting S B → Attempt S B × World S B → Attempt S B × World S B
  journal_entry env p = elim (has_committed p.0.committed) [
    | false ↦ p
    | true ↦ (
      p.0,
      notify (text "commit journal recording failed after durable write") journaled p.0.journal
          (commit_record env p.0 p.1) p.1,
    )
  ]

  -- The state handler and the journal.
  pub settle : Setting S B → Handlers S B → Attempt S B → World S B → Attempt S B × World S B
  settle env h a w =
      journal_entry env (elim (reads_state a) [ true ↦ run_state h a w | false ↦ (a, w) ])

  -- The history index.
  pub index_entry : Setting S B → Handlers S B → Attempt S B → World S B → World S B
  index_entry env h a w = elim (has_committed a.committed) [
    | false ↦ w
    | true ↦
        notify (text "commit provenance recording failed after durable write") indexed h.history
          (indexed_history_records env.sha256 a.commit_id (env.now w) a.attribution a.committed
            a.leaf_records)
          w
  ]

  pub result_of : Attempt S B → ApplyResult
  result_of a = record { hash = a.committed.hash; failure = a.failure }

  -- The chain after the commit, which runs when the reply has been sent.
  pub post_entry : Handlers S B → Attempt S B → World S B → World S B
  post_entry h a w = elim (has_committed a.committed) [
    | false ↦ w
    | true ↦
        notify (text "post-commit chain failed; log continues") post_called h.post_commit
          (commit_info a) w
  ]

  pub run_task : (World S B → Option Error × World S B) → World S B → ApplyResult × World S B
  run_task fn w =
      let (e, w') = fn w in
      (record { hash = []; failure = elim e [ none ↦ none | some x ↦ some (refused x) ] }, w')

  -- The body of `run` for one entry, with the handlers of its four reads.
  unfoldable pub apply_entry :
      Setting S B
      → Handlers S B
      → Handlers S B
      → Handlers S B
      → Handlers S B
      → LogEntry S B
      → World S B
      → ApplyResult × World S B
  apply_entry env h1 h2 h3 h4 (task fn) w = run_task fn w
  apply_entry env h1 h2 h3 h4 (change_entry cs attribution identity) w =
      let (a, w1) = begin_entry env h1 cs attribution identity w in
      let (a', w2) = settle env h2 a w1 in
      (result_of a', post_entry h4 a' (index_entry env h3 a' w2))
