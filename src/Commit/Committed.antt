-- ===== src/Commit/Committed.antt =====
-- pkg/vfs/changeset.go: `HasCommitted` of what `CommitChangeSet` returns.
use open_lore.Prelude.{
  ℕ, ◌≡◌, refl, ap, true, false, Option, none, some, List, [], ◌∷◌, arith, ◌==◌, Text, Result, err,
  ok,
}
use open_lore.Vfs.{Error}
use open_lore.Changeset.{Change, ChangeSet, ChangeSetError, validate_change, validate_change_set}
use open_lore.Snapshot.{Substrate}
use open_lore.Commit.{
  invalid, CommitResult, apply_change, has_committed, commit_change_set, single_result,
}
use open_lore.Commit.Sequence.{commit_change_set-Runs}

validate_change-target : (c : Change) → validate_change c ≡ none → (c.target == []) ≡ false
unfolding validate_change
validate_change-target c h = ground arith

validate_single :
    (sha256 : List ℕ → Text) (cs : ChangeSet)
    → cs.changes ≡ []
    → validate_change_set sha256 cs ≡ none
    → (cs.single.target == []) ≡ false
unfolding validate_change_set
validate_single sha256 cs e h =
    validate_change-target cs.single (let k = rw (e, validate_change_set) at h in ground arith)

single_result-committed :
    {S : Type 0} (cs : ChangeSet) (p : Result Error Text × S) (r : CommitResult) (u : S)
    → single_result cs p ≡ (ok r, u)
    → r.committed ≡ cs
unfolding single_result
single_result-committed cs (ok h, t) r u e = cc
single_result-committed cs (err x, t) r u e = cc

module _ {S : Type 0} (sha256 : List ℕ → Text) (fuel : ℕ) (sub : Substrate S) where
  -- A commit without error is of the whole change set, and `HasCommitted` says so.
  pub commit_change_set-committed :
      (cs : ChangeSet) (s u : S) (r : CommitResult)
      → commit_change_set sha256 fuel sub cs s ≡ (ok r, u)
      → (r.committed ≡ cs) × (has_committed r ≡ true)
  unfolding commit_change_set has_committed
  commit_change_set-committed cs s u r h = go cs.changes (validate_change_set sha256 cs) refl refl
    where
      go :
          (l : List Change) (v : Option ChangeSetError)
          → cs.changes ≡ l
          → validate_change_set sha256 cs ≡ v
          → (r.committed ≡ cs) × (has_committed r ≡ true)
      go (c ∷ changes) v e k =
          let same = (commit_change_set-Runs sha256 fuel sub cs c changes s u r e).0 h in
          let whole : r.committed ≡ cs = ap (λ (x : CommitResult). x.committed) same.2 in
          (whole, rw (whole, e) (ground arith))
      go [] (some x) e k =
          absurd (let g : (err (invalid x), s) ≡ (ok r, u) = rw (k, commit_change_set) at h in cc)
      go [] none e k =
          let whole =
            single_result-committed cs (apply_change sub.writer cs.single s) r u
              (rw (k, e, commit_change_set) at h) in
          (whole, rw (whole, e, validate_single sha256 cs e k) refl)
