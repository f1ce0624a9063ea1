-- ===== src/Commit/Sequence.antt =====
-- pkg/vfs/changeset.go: what `CommitChangeSet` does to a batch, leaf by leaf.
use open_lore.Prelude.{
  ℕ, ◌≡◌, refl, ap, ◌≢◌, ◌↔◌, ◌⊎◌, inl, inr, Bool, true, false, Option, none, some, List, [], ◌∷◌,
  ◌++◌, arith, Text, Result, err, ok,
}
use open_lore.Changeset.{Change, ChangeSetError, ChangeSet, validate_change_set}
use open_lore.Writable.{WritableFs}
use mathlib.Core.Path.{subst}
use open_lore.Vfs.{Error}
use open_lore.Snapshot.{Substrate, BatchSnapshot, capture_batch}
use open_lore.Commit.{
  CommitError, invalid, no_snapshot, not_rolled_back, CommitResult, commit_one, roll_back,
  next_leaf, after_rollback, commit_leaves, commit_change_set,
}
use open_lore.Restore.{restore_batch}

-- Each change of the list succeeds in the state that the one before it left.
pub data Runs {S : Type 0} (fs : WritableFs S) : List Change → S → S → Type 0 where
  no_more : {s : S} → Runs fs [] s s
  leaf :
      {c : Change} {changes : List Change} {h : Text} {s t u : S}
      → commit_one fs c s ≡ (ok h, t)
      → Runs fs changes t u
      → Runs fs (c ∷ changes) s u

-- The rollback of a batch whose leaf failed with `e`: the tree is restored and the error is that of
-- the leaf, or the restoration failed and the error says both.
abbrev pub RollsBack :
    {S : Type 0} → Substrate S → BatchSnapshot → CommitError → S → CommitError → S → Type 0
RollsBack sub snapshot e t e' u =
    ((e' ≡ e) × (restore_batch sub snapshot t ≡ (ok tt, u)))
    ⊎ (r : Error) × (e' ≡ not_rolled_back e r) × (restore_batch sub snapshot t ≡ (err r, u))

-- Leaves of a batch ran, and the one after them failed.
pub record Failure {S : Type 0} (sub : Substrate S) (changes : List Change) (s : S) : Type 0 where
  pub before : List Change
  pub culprit : Change
  pub rest : List Change
  pub split : changes ≡ before ++ culprit ∷ rest
  pub reached : S
  pub ran : Runs sub.writer before s reached
  pub reason : CommitError
  pub left : S
  pub refused : commit_one sub.writer culprit reached ≡ (err reason, left)

-- How the batch ends: no rollback if no leaf came before the one that failed.
abbrev pub Ends :
    {S : Type 0}
    → Substrate S
    → BatchSnapshot
    → Bool
    → List Change
    → CommitError
    → S
    → CommitError
    → S
    → Type 0
Ends sub snapshot true [] e t e' u = (e' ≡ e) × (u ≡ t)
Ends sub snapshot true (c ∷ before) e t e' u = RollsBack sub snapshot e t e' u
Ends sub snapshot false before e t e' u = RollsBack sub snapshot e t e' u

module _ {S : Type 0} (sub : Substrate S) (cs : ChangeSet) (snapshot : BatchSnapshot) where
  roll_back-ne-ok :
      (e : CommitError) (t u : S) (r : CommitResult) → roll_back sub snapshot e t ≢ (ok r, u)
  unfolding roll_back
  roll_back-ne-ok e t u r h = ground (arith, h)

  roll_back-RollsBack :
      (e e' : CommitError) (t u : S)
      → roll_back sub snapshot e t ≡ (err e', u)
      → RollsBack sub snapshot e t e' u
  unfolding roll_back
  roll_back-RollsBack e e' t u h = go (restore_batch sub snapshot t) refl
    where
      go :
          (p : Result Error (Unit {0}) × S)
          → restore_batch sub snapshot t ≡ p
          → RollsBack sub snapshot e t e' u
      go (ok x, v) k = let g : after_rollback e (ok x, v) ≡ (err e', u) = rw k at h in inl (cc, cc)
      go (err r, v) k =
          let g : after_rollback e (err r, v) ≡ (err e', u) = rw k at h in inr (r, cc, cc)

  next_leaf-err :
      (first : Bool) (later : S → Result CommitError CommitResult × S) (e : CommitError) (t : S)
      (r : CommitResult) (u : S)
      → next_leaf sub snapshot first later (err e, t) ≢ (ok r, u)
  unfolding next_leaf
  next_leaf-err true later e t r u h = cc
  next_leaf-err false later e t r u h = roll_back-ne-ok e t u r h

  leaves_to :
      (first : Bool) (changes : List Change) (s u : S) (r : CommitResult)
      → commit_leaves sub cs snapshot first changes s ≡ (ok r, u)
      → (r ≡ record { hash = []; committed = cs }) × Runs sub.writer changes s u
  unfolding commit_leaves
  leaves_to first [] s u r h =
      let e : s ≡ u = cc in (cc, subst (λ x. Runs sub.writer [] s x) e no_more)
  leaves_to first (c ∷ changes) s u r h =
      go (commit_one sub.writer c s) refl (λ t. leaves_to false changes t u r)
    where
      go :
          (p : Result CommitError Text × S)
          → commit_one sub.writer c s ≡ p
          → ((t : S)
              → commit_leaves sub cs snapshot false changes t ≡ (ok r, u)
              → (r ≡ record { hash = []; committed = cs }) × Runs sub.writer changes t u)
          → (r ≡ record { hash = []; committed = cs }) × Runs sub.writer (c ∷ changes) s u
      go (ok x, t) e ih = let (same, ran) = ih t (rw e at h) in (same, leaf e ran)
      go (err x, t) e ih =
          absurd
            (next_leaf-err first (commit_leaves sub cs snapshot false changes) x t r u (rw e at h))

  leaves_from :
      (first : Bool) (changes : List Change) (s u : S)
      → Runs sub.writer changes s u
      → commit_leaves sub cs snapshot first changes s
        ≡ (ok (record { hash = []; committed = cs }), u)
  unfolding commit_leaves
  leaves_from first [] s u no_more = refl
  leaves_from first (c ∷ changes) s u (leaf {t = t} e ran) =
      rw e (leaves_from false changes t u ran)

  Ends-more :
      (first : Bool) (c : Change) (before : List Change) (e e' : CommitError) (t u : S)
      → Ends sub snapshot false before e t e' u
      → Ends sub snapshot first (c ∷ before) e t e' u
  Ends-more true c before e e' t u h = h
  Ends-more false c before e e' t u h = h

  Ends-now :
      (first : Bool) (later : S → Result CommitError CommitResult × S) (e e' : CommitError)
      (t u : S)
      → next_leaf sub snapshot first later (err e, t) ≡ (err e', u)
      → Ends sub snapshot first [] e t e' u
  unfolding next_leaf
  Ends-now true later e e' t u h = (cc, cc)
  Ends-now false later e e' t u h = roll_back-RollsBack e e' t u h

  leaves-Failure :
      (first : Bool) (changes : List Change) (s u : S) (e' : CommitError)
      → commit_leaves sub cs snapshot first changes s ≡ (err e', u)
      → (f : Failure sub changes s) × Ends sub snapshot first f.before f.reason f.left e' u
  unfolding commit_leaves
  leaves-Failure first [] s u e' h = absurd (cc)
  leaves-Failure first (c ∷ changes) s u e' h =
      go (commit_one sub.writer c s) refl (λ t. leaves-Failure false changes t u e')
    where
      go :
          (p : Result CommitError Text × S)
          → commit_one sub.writer c s ≡ p
          → ((t : S)
              → commit_leaves sub cs snapshot false changes t ≡ (err e', u)
              → (f : Failure sub changes t) × Ends sub snapshot false f.before f.reason f.left e' u)
          → (f : Failure sub (c ∷ changes) s) × Ends sub snapshot first f.before f.reason f.left e'
              u
      go (ok x, t) k ih =
          let (f, ends) = ih t (rw k at h) in
          (
            record {
              before = c ∷ f.before;
              culprit = f.culprit;
              rest = f.rest;
              split = ap (λ l. c ∷ l) f.split;
              reached = f.reached;
              ran = leaf k f.ran;
              reason = f.reason;
              left = f.left;
              refused = f.refused;
            },
            Ends-more first c f.before f.reason e' f.left u ends,
          )
      go (err x, t) k ih = (
        record {
          before = [];
          culprit = c;
          rest = changes;
          split = refl;
          reached = s;
          ran = no_more;
          reason = x;
          left = t;
          refused = k;
        },
        Ends-now first (commit_leaves sub cs snapshot false changes) x e' t u (rw k at h),
      )

module _ {S : Type 0} (sha256 : List ℕ → Text) (fuel : ℕ) (sub : Substrate S) where
  -- A batch with at least one leaf is committed exactly when `ValidateChangeSet` accepts
  -- it, the snapshot can be taken, and each leaf succeeds in the state that the leaf before it left:
  -- the state is then that of the last leaf, the hash is empty, and the result carries the batch.
  pub commit_change_set-Runs :
      (cs : ChangeSet) (c : Change) (changes : List Change) (s u : S) (r : CommitResult)
      → cs.changes ≡ c ∷ changes
      → (commit_change_set sha256 fuel sub cs s ≡ (ok r, u))
        ↔ (validate_change_set sha256 cs ≡ none)
          × ((snapshot : BatchSnapshot) × (capture_batch fuel sub (c ∷ changes) s ≡ ok snapshot))
          × (r ≡ record { hash = []; committed = cs })
          × Runs sub.writer (c ∷ changes) s u
  unfolding commit_change_set
  commit_change_set-Runs cs c changes s u r batch = (
    λ h. go (validate_change_set sha256 cs) (capture_batch fuel sub (c ∷ changes) s) refl refl h,
    λ (v, (snapshot, k), e, ran).
        rw (v, batch, k, e, commit_change_set)
          (leaves_from sub cs snapshot true (c ∷ changes) s u ran),
  )
    where
      go :
          (v : Option ChangeSetError) (k : Result Error BatchSnapshot)
          → validate_change_set sha256 cs ≡ v
          → capture_batch fuel sub (c ∷ changes) s ≡ k
          → commit_change_set sha256 fuel sub cs s ≡ (ok r, u)
          → (validate_change_set sha256 cs ≡ none)
            × ((snapshot : BatchSnapshot) × (capture_batch fuel sub (c ∷ changes) s ≡ ok snapshot))
            × (r ≡ record { hash = []; committed = cs })
            × Runs sub.writer (c ∷ changes) s u
      go (some e) k a b h =
          absurd (let g : (err (invalid e), s) ≡ (ok r, u) = rw (a, commit_change_set) at h in cc)
      go none (err e) a b h = absurd (
          let g : (err (no_snapshot e), s) ≡ (ok r, u) = rw (a, batch, b, commit_change_set) at h in
          cc)
      go none (ok snapshot) a b h =
          let (same, ran) =
            leaves_to sub cs snapshot true (c ∷ changes) s u r
              (rw (a, batch, b, commit_change_set) at h) in
          (a, (snapshot, b), same, ran)

  -- A batch that is not committed ends in one of three ways. `ValidateChangeSet` refused it, or the
  -- snapshot could not be taken: the state is as before. Or some leaf failed in the state that the
  -- leaves before it left, in their order. If that leaf is the first, its error is returned and
  -- nothing is rolled back; if not, the snapshot taken at the start is restored, and the error is the
  -- leaf's, or both errors if the restoration failed too.
  pub commit_change_set-Failure :
      (cs : ChangeSet) (c : Change) (changes : List Change) (s u : S) (e : CommitError)
      → cs.changes ≡ c ∷ changes
      → commit_change_set sha256 fuel sub cs s ≡ (err e, u)
      → ((x : ChangeSetError) × (validate_change_set sha256 cs ≡ some x)
          × (e ≡ invalid x)
          × (u ≡ s))
        ⊎ ((x : Error) × (capture_batch fuel sub (c ∷ changes) s ≡ err x)
            × (e ≡ no_snapshot x)
            × (u ≡ s))
        ⊎ (snapshot : BatchSnapshot) × (capture_batch fuel sub (c ∷ changes) s ≡ ok snapshot)
          × (f : Failure sub (c ∷ changes) s) × Ends sub snapshot true f.before f.reason f.left e u
  unfolding commit_change_set
  commit_change_set-Failure cs c changes s u e batch h =
      go (validate_change_set sha256 cs) (capture_batch fuel sub (c ∷ changes) s) refl refl
    where
      go :
          (v : Option ChangeSetError) (k : Result Error BatchSnapshot)
          → validate_change_set sha256 cs ≡ v
          → capture_batch fuel sub (c ∷ changes) s ≡ k
          → ((x : ChangeSetError) × (validate_change_set sha256 cs ≡ some x)
              × (e ≡ invalid x)
              × (u ≡ s))
            ⊎ ((x : Error) × (capture_batch fuel sub (c ∷ changes) s ≡ err x)
                × (e ≡ no_snapshot x)
                × (u ≡ s))
            ⊎ (snapshot : BatchSnapshot) × (capture_batch fuel sub (c ∷ changes) s ≡ ok snapshot)
              × (f : Failure sub (c ∷ changes) s) × Ends sub snapshot true f.before f.reason f.left
                  e u
      go (some x) k a b =
          let g : (err (invalid x), s) ≡ (err e, u) = rw (a, commit_change_set) at h in
          inl (x, a, cc, cc)
      go none (err x) a b =
          let g : (err (no_snapshot x), s) ≡ (err e, u) =
            rw (a, batch, b, commit_change_set) at h in
          inr (inl (x, b, cc, cc))
      go none (ok snapshot) a b =
          let (f, ends) =
            leaves-Failure sub cs snapshot true (c ∷ changes) s u e
              (rw (a, batch, b, commit_change_set) at h) in
          inr (inr (snapshot, b, f, ends))
