-- ===== src/WriteLog/System/Deadlock.antt =====
-- pkg/openlore/writelog.go: goroutines that wait for one another at the lock and the queue.
use open_lore.Prelude.{
  ℕ, zero, suc, ◌+◌, ◌≤◌, ◌<◌, ◌≡◌, refl, ap, false, Option, none, some, List, [], ◌∷◌, ◌++◌, arith,
  length, length-append,
}
use open_lore.Identity.{Identity}
use open_lore.Changeset.{ChangeSet}
use open_lore.History.{Attribution}
use open_lore.WriteLog.{World, Setting, Handlers, LogEntry, change_entry}
use open_lore.WriteLog.System.{
  taken, Writer, Log, new_write_log, enter, send, give_up, announce, take, Step, enters, sends,
  gives_up, announces, excludes, takes, stops, replies_task, attempts, settles, indexes, posts,
  Reach, here, next, Reach-trans,
}

-- The applier is before its first read of the handlers, a submitter holds the read lock and finds the
-- queue full, and a goroutine waits for the write lock.
pub record IsStuck {S B : Type 0} (s : Log S B) : Type 0 where
  pub at_hand :
      (cs : ChangeSet) × (attribution : Attribution) × (identity : Option Identity) × (s.stage
        ≡ taken (change_entry cs attribution identity))
  pub holder : (e : LogEntry S B) × (others : List (LogEntry S B)) × (s.sending ≡ e ∷ others)
  pub full : s.capacity ≤ length s.queue
  pub pending : (x : Writer S B) × (s.writer ≡ some x)

module _ {S B : Type 0} (env : Setting S B) where
  -- The one step from there: a submitter gives up.
  Step-IsStuck :
      {s t : Log S B}
      → Step env s t
      → IsStuck s
      → (before : List (LogEntry S B)) × (e : LogEntry S B) × (others : List (LogEntry S B))
        × (s.sending ≡ before ++ e ∷ others)
        × (t ≡ give_up (before ++ others) s)
  Step-IsStuck (enters s e w c) h = let (x, p) = h.pending in cc
  Step-IsStuck (sends s before e others k room) h = absurd (omega (arith, h.full))
  Step-IsStuck (gives_up s before e others k) h = (before, e, others, k, refl)
  Step-IsStuck (announces s x w) h = let (x, p) = h.pending in cc
  Step-IsStuck (excludes s x w n) h = let (e, others, k) = h.holder in cc
  Step-IsStuck (takes s e rest g q) h = let (c, a, i, k) = h.at_hand in cc
  Step-IsStuck (stops s g q c) h = let (c, a, i, k) = h.at_hand in cc
  Step-IsStuck (replies_task s fn g) h = let (c, a, i, k) = h.at_hand in cc
  Step-IsStuck (attempts s cs attribution identity g w) h = let (x, p) = h.pending in cc
  Step-IsStuck (settles s e a g w) h = let (c, b, i, k) = h.at_hand in cc
  Step-IsStuck (indexes s e a g w) h = let (c, b, i, k) = h.at_hand in cc
  Step-IsStuck (posts s a g w) h = let (c, b, i, k) = h.at_hand in cc

  module _ (e : LogEntry S B) where
    submit_one : (s : Log S B) → Log S B
    submit_one s = send e [] (enter e s)

    Reach-submit_one :
        (s : Log S B)
        → s.writer ≡ none
        → s.closed ≡ false
        → s.sending ≡ []
        → length s.queue < s.capacity
        → Reach env s (submit_one s)
    unfolding submit_one enter
    Reach-submit_one s n c k room =
        next (next here (enters s e n c)) (sends (enter e s) [] e [] (ap (λ l. e ∷ l) k) room)

    -- Submitters fill the queue, while the applier stays where it is.
    fill :
        (k : ℕ) (s : Log S B)
        → s.writer ≡ none
        → s.closed ≡ false
        → s.sending ≡ []
        → length s.queue + k ≡ s.capacity
        → (t : Log S B) × Reach env s t
          × (t.writer ≡ none)
          × (t.closed ≡ false)
          × (t.stage ≡ s.stage)
          × (t.replies ≡ s.replies)
          × (t.capacity ≤ length t.queue)
    unfolding submit_one enter send
    fill zero s n c k room = (s, here, n, c, refl, refl, omega arith)
    fill (suc j) s n c k room =
        let (t, r, n', c', g, a, full) =
          fill j (submit_one s) n c refl (omega (arith, length-append s.queue (e ∷ []))) in
        (t, Reach-trans env (Reach-submit_one s n c k (omega arith)) r, n', c', g, a, full)

  -- For every buffer, change set and writer: the log reaches a state in which nothing has been
  -- answered and from which the one kind of step is that a submitter gives up its send, because its
  -- context ends. Until then the applier, which holds an entry, waits for the goroutine that wants
  -- the write lock (`Close` or a setter), that goroutine for a submitter that holds the read lock,
  -- and that submitter for room in the queue, which only the applier can make.
  pub new_write_log-deadlock :
      (handlers : Handlers S B) (buffer : ℕ) (w : World S B) (x : Writer S B) (cs : ChangeSet)
      (attribution : Attribution) (identity : Option Identity)
      → (s : Log S B) × Reach env (new_write_log handlers buffer w) s
        × (s.stage ≡ taken (change_entry cs attribution identity))
        × (s.writer ≡ some x)
        × (s.replies ≡ [])
        × ((t : Log S B)
            → Step env s t
            → (before : List (LogEntry S B)) × (e : LogEntry S B) × (others : List (LogEntry S B))
              × (s.sending ≡ before ++ e ∷ others)
              × (t ≡ give_up (before ++ others) s))
  unfolding new_write_log submit_one enter send take announce
  new_write_log-deadlock handlers buffer w x cs attribution identity =
      let e : LogEntry S B = change_entry cs attribution identity in
      let start = new_write_log handlers buffer w in
      let first = submit_one e start in
      let busy_log = take e [] first in
      let r =
        next (Reach-submit_one e start refl refl refl (ground arith))
          (takes first e [] refl refl) in
      let (t, fills, n, c, g, a, full) =
        fill e start.capacity busy_log refl refl refl (omega arith) in
      let s = announce x (enter e t) in
      let stuck : IsStuck s = record {
        at_hand = (cs, attribution, identity, g);
        holder = (e, t.sending, refl);
        full = full;
        pending = (x, refl);
      } in
      (
        s,
        next (next (Reach-trans env r fills) (enters t e n c)) (announces (enter e t) x n),
        g,
        refl,
        a,
        λ u st. Step-IsStuck st stuck,
      )
