-- ===== src/WriteLog/Outcome.antt =====
-- pkg/openlore/writelog.go: what a submitter is told of its entry, and what became of the substrate.
use open_lore.Prelude.{
  ◌≡◌, refl, ap, ◌∙◌, ◌⊎◌, inl, inr, true, false, Option, none, some, [], arith, ◌==◌, Bool-cases,
  Option-cases, Text, Result, err, ok,
}
use open_lore.Vfs.{Error}
use open_lore.Identity.{Identity}
use open_lore.Changeset.{ChangeSet}
use open_lore.Commit.{CommitError, CommitResult, has_committed, commit_change_set}
use open_lore.Commit.Committed.{commit_change_set-committed}
use open_lore.History.{Attribution}
use open_lore.WriteLog.{
  ApplyError, refused, not_committed, ApplyResult, Call, World, Setting, Handlers, change_entry,
  no_commit, Attempt, call, refusal, capture_images, commit_attempt, begin_entry, commit_info,
  run_state, journal_entry, reads_state, settle, index_entry, result_of, post_entry, notify,
  apply_entry,
}

module _ {S B : Type 0} where
  notify-files :
      {A : Type 0} (message : Text) (named : A → Call) (h : Option (A → World S B → Option Error))
      (a : A) (w : World S B)
      → (notify message named h a w).files ≡ w.files
  unfolding notify call
  notify-files message named none a w = refl
  notify-files message named (some handler) a w = ground arith

  index_entry-files :
      (env : Setting S B) (h : Handlers S B) (a : Attempt S B) (w : World S B)
      → (index_entry env h a w).files ≡ w.files
  unfolding index_entry
  index_entry-files env h a w = elim (Bool-cases (has_committed a.committed)) [
    | inl e ↦ rw (e, index_entry) (notify-files _ _ h.history _ w)
    | inr e ↦ rw (e, index_entry) refl
  ]

  post_entry-files :
      (h : Handlers S B) (a : Attempt S B) (w : World S B) → (post_entry h a w).files ≡ w.files
  unfolding post_entry
  post_entry-files h a w = elim (Bool-cases (has_committed a.committed)) [
    | inl e ↦ rw (e, post_entry) (notify-files _ _ h.post_commit _ w)
    | inr e ↦ rw (e, post_entry) refl
  ]

  journal_entry-files :
      (env : Setting S B) (p : Attempt S B × World S B)
      → ((journal_entry env p).0 ≡ p.0) × ((journal_entry env p).1.files ≡ p.1.files)
  unfolding journal_entry
  journal_entry-files env p = elim (Bool-cases (has_committed p.0.committed)) [
    | inl e ↦ rw (e, journal_entry) (refl, notify-files _ _ p.0.journal _ p.1)
    | inr e ↦ rw (e, journal_entry) (refl, refl)
  ]

  -- The answer of the state handler, if there is one.
  abbrev pub state_answer : Handlers S B → Attempt S B → World S B → Option ApplyError
  state_answer h a w = elim h.commit_state [
    | none ↦ none
    | some handler ↦ elim (handler (commit_info a) w) [ none ↦ none | some e ↦ some (refused e) ]
  ]

  run_state-eq :
      (h : Handlers S B) (a : Attempt S B) (w : World S B)
      → a.failure ≡ none
      → ((run_state h a w).0.committed ≡ a.committed)
        × ((run_state h a w).0.failure ≡ state_answer h a w)
        × ((run_state h a w).1.files ≡ w.files)
  unfolding run_state call
  run_state-eq h a w e = elim (Option-cases h.commit_state) [
    | inl n ↦ rw (n, run_state) (refl, e, refl)
    | inr (f, n) ↦ rw (n, run_state) (refl, refl, refl)
  ]

  capture_images-files :
      (env : Setting S B) (h : Handlers S B) (cs : ChangeSet) (w : World S B)
      → (capture_images env h cs w).1.files ≡ w.files
  unfolding capture_images call
  capture_images-files env h cs w = ground arith

  reads_state-idle : (a : Attempt S B) → has_committed a.committed ≡ false → reads_state a ≡ false
  unfolding reads_state
  reads_state-idle a e = ground arith

  reads_state-committed :
      (a : Attempt S B) → a.failure ≡ none → has_committed a.committed ≡ true → reads_state a ≡ true
  unfolding reads_state
  reads_state-committed a n e = ground arith

  settle-idle :
      (env : Setting S B) (h : Handlers S B) (a : Attempt S B) (w : World S B)
      → has_committed a.committed ≡ false
      → settle env h a w ≡ (a, w)
  unfolding settle journal_entry
  settle-idle env h a w e = rw (reads_state-idle a e, settle) (rw (e, journal_entry) refl)

  index_entry-idle :
      (env : Setting S B) (h : Handlers S B) (a : Attempt S B) (w : World S B)
      → has_committed a.committed ≡ false
      → index_entry env h a w ≡ w
  unfolding index_entry
  index_entry-idle env h a w e = rw (e, index_entry) refl

  post_entry-idle :
      (h : Handlers S B) (a : Attempt S B) (w : World S B)
      → has_committed a.committed ≡ false
      → post_entry h a w ≡ w
  unfolding post_entry
  post_entry-idle h a w e = rw (e, post_entry) refl

  -- After a commit without error, the state handler's answer is that of the entry.
  settle-committed :
      (env : Setting S B) (h : Handlers S B) (a : Attempt S B) (w : World S B)
      → a.failure ≡ none
      → has_committed a.committed ≡ true
      → ((settle env h a w).0.committed ≡ a.committed)
        × ((settle env h a w).0.failure ≡ state_answer h a w)
        × ((settle env h a w).1.files ≡ w.files)
  unfolding settle
  settle-committed env h a w n c =
      let (same, answer, files) = run_state-eq h a w n in
      let (same', files') = journal_entry-files env (run_state h a w) in
      rw (reads_state-committed a n c, settle)
        (
          ap (λ (x : Attempt S B). x.committed) same' ∙ same,
          ap (λ (x : Attempt S B). x.failure) same' ∙ answer,
          files' ∙ files,
        )

module _ {S B : Type 0} (env : Setting S B) (h1 h2 h3 h4 : Handlers S B) (cs : ChangeSet)
    (attribution : Attribution) (identity : Option Identity) (w : World S B) where
  abbrev pub committed_result : Result CommitError CommitResult × S
  committed_result = commit_change_set env.sha256 env.fuel env.substrate cs w.files

  abbrev pub applied : ApplyResult × World S B
  applied = apply_entry env h1 h2 h3 h4 (change_entry cs attribution identity) w

  abbrev pub begun : Attempt S B × World S B
  begun = begin_entry env h1 cs attribution identity w

  apply_idle :
      (a : Attempt S B) (w' : World S B)
      → begun ≡ (a, w')
      → has_committed a.committed ≡ false
      → applied ≡ (result_of a, w')
  unfolding apply_entry
  apply_idle a w' b e =
      rw
        (
          b,
          apply_entry,
          settle-idle env h2 a w' e,
          index_entry-idle env h3 a w' e,
          post_entry-idle h4 a w' e,
        )
        refl

  apply_committed :
      (a : Attempt S B) (w' : World S B)
      → begun ≡ (a, w')
      → a.failure ≡ none
      → has_committed a.committed ≡ true
      → (applied.0.hash ≡ a.committed.hash)
        × (applied.0.failure ≡ state_answer h2 begun.0 begun.1)
        × (applied.1.files ≡ w'.files)
  unfolding apply_entry result_of
  apply_committed a w' b n c =
      let (same, answer, files) = settle-committed env h2 a w' n c in
      rw (b, apply_entry, result_of)
        (
          ap (λ (x : CommitResult). x.hash) same,
          answer,
          post_entry-files h4 _ _ ∙ index_entry-files env h3 _ _ ∙ files,
        )

  begun-refused :
      (e : Error)
      → refusal env h1 cs attribution identity w ≡ some e
      → (begun.0.committed ≡ no_commit) × (begun.0.failure ≡ some (refused e)) × (begun.1 ≡ w)
  unfolding begin_entry
  begun-refused e r = rw (r, begin_entry) (refl, refl, refl)

  begun-failed :
      (e : CommitError) (u : S)
      → refusal env h1 cs attribution identity w ≡ none
      → committed_result ≡ (err e, u)
      → (begun.0.committed ≡ no_commit)
        × (begun.0.failure ≡ some (not_committed e))
        × (begun.1.files ≡ u)
        × (begun.1.calls ≡ (capture_images env h1 cs w).1.calls)
  unfolding begin_entry commit_attempt
  begun-failed e u r c =
      rw (r, begin_entry, capture_images-files env h1 cs w, c, commit_attempt)
        (refl, refl, refl, refl)

  begun-committed :
      (r : CommitResult) (u : S)
      → refusal env h1 cs attribution identity w ≡ none
      → committed_result ≡ (ok r, u)
      → (begun.0.committed ≡ r) × (begun.0.failure ≡ none) × (begun.1.files ≡ u)
  unfolding begin_entry commit_attempt
  begun-committed r u n c =
      rw (n, begin_entry, capture_images-files env h1 cs w, c, commit_attempt) (refl, refl, refl)

  no_commit-idle : (r : CommitResult) → r ≡ no_commit → has_committed r ≡ false
  unfolding has_committed
  no_commit-idle r e = rw e (unfold ◌==◌ in refl)

  result_of-eq :
      (a : Attempt S B) (h : Text) (f : Option ApplyError)
      → a.committed.hash ≡ h
      → a.failure ≡ f
      → result_of a ≡ record { hash = h; failure = f }
  unfolding result_of
  result_of-eq a h f e k = cc

  -- The preflight or the handler before the commit refused the change set.
  abbrev pub WasRefused : Type 0
  WasRefused =
      (e : Error) × (refusal env h1 cs attribution identity w ≡ some e)
      × (applied ≡ (record { hash = []; failure = some (refused e) }, w))

  -- The commit failed.
  abbrev pub WasFailed : Type 0
  WasFailed =
      (e : CommitError) × (u : S) × (refusal env h1 cs attribution identity w ≡ none)
      × (committed_result ≡ (err e, u))
      × (applied.0 ≡ record { hash = []; failure = some (not_committed e) })
      × (applied.1.files ≡ u)
      × (applied.1.calls ≡ (capture_images env h1 cs w).1.calls)

  -- The commit succeeded.
  abbrev pub WasCommitted : Type 0
  WasCommitted =
      (r : CommitResult) × (u : S) × (refusal env h1 cs attribution identity w ≡ none)
      × (committed_result ≡ (ok r, u))
      × (applied.0.hash ≡ r.hash)
      × (applied.0.failure ≡ state_answer h2 begun.0 begun.1)
      × (applied.1.files ≡ u)

  -- What the applier does with one change set, the handlers being those of its four reads. Either the
  -- preflight or the handler before the commit refuses it: the submitter gets that error and nothing
  -- is touched, no call made. Or the commit fails: the submitter gets that error, the substrate is as
  -- the commit left it, and no handler after the commit is called. Or the commit succeeds: the
  -- substrate is as the commit left it, the submitter gets its hash, and the error, if any, is the
  -- answer of the state handler, by which nothing is undone.
  pub apply_entry-Outcome : WasRefused ⊎ WasFailed ⊎ WasCommitted
  apply_entry-Outcome = elim (Option-cases (refusal env h1 cs attribution identity w)) [
    | inr (e, n) ↦
        let (c, f, same) = begun-refused e n in
        let quiet = apply_idle begun.0 begun.1 refl (no_commit-idle _ c) in
        inl (
          e,
          n,
          quiet ∙ ap2 (result_of-eq begun.0 [] _ (ap (λ (x : CommitResult). x.hash) c) f) same,
        )
    | inl n ↦ go committed_result refl n
  ]
    where
      ap2 : {A C : Type 0} {a a' : A} {c c' : C} → a ≡ a' → c ≡ c' → ◌≡◌ {A = A × C} (a, c) (a', c')
      ap2 p q = cc

      go :
          (p : Result CommitError CommitResult × S)
          → committed_result ≡ p
          → refusal env h1 cs attribution identity w ≡ none
          → WasRefused ⊎ WasFailed ⊎ WasCommitted
      go (err e, u) k n =
          let (c, f, files, calls) = begun-failed e u n k in
          let quiet = apply_idle begun.0 begun.1 refl (no_commit-idle _ c) in
          inr (
            inl (
              e,
              u,
              n,
              k,
              ap (λ (x : ApplyResult × World S B). x.0) quiet
                  ∙ result_of-eq begun.0 [] _ (ap (λ (x : CommitResult). x.hash) c) f,
              ap (λ (x : ApplyResult × World S B). x.1.files) quiet ∙ files,
              ap (λ (x : ApplyResult × World S B). x.1.calls) quiet ∙ calls,
            ))
      go (ok r, u) k n =
          let (c, f, files) = begun-committed r u n k in
          let done =
            (commit_change_set-committed env.sha256 env.fuel env.substrate cs w.files u r k).1 in
          let (hash, answer, files') = apply_committed begun.0 begun.1 refl f (rw c done) in
          inr (inr (r, u, n, k, hash ∙ ap (λ (x : CommitResult). x.hash) c, answer, files' ∙ files))
