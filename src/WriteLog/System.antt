-- ===== src/WriteLog/System.antt =====
-- pkg/openlore/writelog.go: the write log with its goroutines, as steps on its state. Submitters hold
-- the read lock from their test of `closed` to the end of their send; `Close` and the setters take the
-- write lock; the applier takes the read lock for each read of the handlers. As with Go's RWMutex, a
-- goroutine that waits for the write lock keeps new readers out. A submitter that is turned away, or
-- that awaits its reply, is no part of the state.
pub mod Order
pub mod Serial
pub mod Drain
pub mod Deadlock
use open_lore.Prelude.{
  ℕ, ◌<◌, ◌≡◌, Bool, true, false, Option, none, some, List, [], ◌∷◌, ◌++◌, if◌then◌else◌, nat_eq,
  length,
}
use open_lore.Vfs.{Error}
use open_lore.Identity.{Identity}
use open_lore.Changeset.{ChangeSet}
use open_lore.Commit.{has_committed}
use open_lore.History.{Attribution}
use open_lore.WriteLog.{
  ApplyResult, World, Setting, Handlers, LogEntry, change_entry, task, Attempt, begin_entry,
  reads_state, settle, index_entry, result_of, post_entry, run_task,
}

-- Where the applier is: before the receive, or in the loop's body before each of its reads.
pub data Stage (S B : Type 0) : Type 0 where
  waiting exited : Stage S B
  taken : LogEntry S B → Stage S B
  attempted settled : LogEntry S B → Attempt S B → Stage S B
  replied : Attempt S B → Stage S B

-- A goroutine that wants the write lock: `Close`, or a setter with the handlers it leaves.
pub data Writer (S B : Type 0) : Type 0 where
  closer : Writer S B
  setter : (Handlers S B → Handlers S B) → Writer S B

-- `sending` are the entries of the submitters that hold the read lock, `writer` the goroutine that
-- waits for the write lock. `sent` and `replies` record the sends and the replies in their order.
pub record Log (S B : Type 0) : Type 0 where
  pub capacity : ℕ
  pub queue : List (LogEntry S B)
  pub closed : Bool
  pub handlers : Handlers S B
  pub sending : List (LogEntry S B)
  pub writer : Option (Writer S B)
  pub stage : Stage S B
  pub world : World S B
  pub sent : List (LogEntry S B)
  pub replies : List (LogEntry S B × ApplyResult)

module _ {S B : Type 0} where
  -- newWriteLog
  unfoldable pub new_write_log : Handlers S B → ℕ → World S B → Log S B
  new_write_log h buffer w = record {
    capacity = if nat_eq buffer 0 then 256 else buffer;
    queue = [];
    closed = false;
    handlers = h;
    sending = [];
    writer = none;
    stage = waiting;
    world = w;
    sent = [];
    replies = [];
  }

  -- submit and Do: the read lock is held
  unfoldable pub enter : LogEntry S B → Log S B → Log S B
  enter e s = record s { sending = e ∷ s.sending }

  -- submit and Do: the send, or the end of the context, lets go of the read lock
  unfoldable pub send : LogEntry S B → List (LogEntry S B) → Log S B → Log S B
  send e others s = record s {
    sending = others;
    queue = s.queue ++ e ∷ [];
    sent = s.sent ++ e ∷ [];
  }

  unfoldable pub give_up : List (LogEntry S B) → Log S B → Log S B
  give_up others s = record s { sending = others }

  unfoldable pub announce : Writer S B → Log S B → Log S B
  announce x s = record s { writer = some x }

  -- The critical section of `Close`, a second one included, or of a setter.
  unfoldable pub exclusive : Writer S B → Log S B → Log S B
  exclusive closer s = record s { closed = true; writer = none }
  exclusive (setter f) s = record s { handlers = f s.handlers; writer = none }

  -- The applier: its receive, its end, and the parts of the loop's body.
  unfoldable pub take : LogEntry S B → List (LogEntry S B) → Log S B → Log S B
  take e rest s = record s { queue = rest; stage = taken e }

  unfoldable pub stop : Log S B → Log S B
  stop s = record s { stage = exited }

  unfoldable pub reply_task : (World S B → Option Error × World S B) → Log S B → Log S B
  reply_task fn s =
      let (r, w) = run_task fn s.world in
      record s { stage = waiting; world = w; replies = s.replies ++ (task fn, r) ∷ [] }

module _ {S B : Type 0} (env : Setting S B) where
  unfoldable pub attempt : ChangeSet → Attribution → Option Identity → Log S B → Log S B
  attempt cs attribution identity s =
      let (a, w) = begin_entry env s.handlers cs attribution identity s.world in
      record s { stage = attempted (change_entry cs attribution identity) a; world = w }

  unfoldable pub settle_state : LogEntry S B → Attempt S B → Log S B → Log S B
  settle_state e a s =
      let (a', w) = settle env s.handlers a s.world in record s { stage = settled e a'; world = w }

  unfoldable pub index_and_reply : LogEntry S B → Attempt S B → Log S B → Log S B
  index_and_reply e a s = record s {
    stage = replied a;
    world = index_entry env s.handlers a s.world;
    replies = s.replies ++ (e, result_of a) ∷ [];
  }

  unfoldable pub post : Attempt S B → Log S B → Log S B
  post a s = record s { stage = waiting; world = post_entry s.handlers a s.world }

  pub data Step : Log S B → Log S B → Type 0 where
    enters :
        (s : Log S B) (e : LogEntry S B) → s.writer ≡ none → s.closed ≡ false → Step s (enter e s)
    sends :
        (s : Log S B) (before : List (LogEntry S B)) (e : LogEntry S B)
        (others : List (LogEntry S B))
        → s.sending ≡ before ++ e ∷ others
        → length s.queue < s.capacity
        → Step s (send e (before ++ others) s)
    gives_up :
        (s : Log S B) (before : List (LogEntry S B)) (e : LogEntry S B)
        (others : List (LogEntry S B))
        → s.sending ≡ before ++ e ∷ others
        → Step s (give_up (before ++ others) s)
    announces : (s : Log S B) (x : Writer S B) → s.writer ≡ none → Step s (announce x s)
    excludes :
        (s : Log S B) (x : Writer S B) → s.writer ≡ some x → s.sending ≡ [] → Step s (exclusive x s)
    takes :
        (s : Log S B) (e : LogEntry S B) (rest : List (LogEntry S B))
        → s.stage ≡ waiting
        → s.queue ≡ e ∷ rest
        → Step s (take e rest s)
    stops : (s : Log S B) → s.stage ≡ waiting → s.queue ≡ [] → s.closed ≡ true → Step s (stop s)
    replies_task :
        (s : Log S B) (fn : World S B → Option Error × World S B)
        → s.stage ≡ taken (task fn)
        → Step s (reply_task fn s)
    attempts :
        (s : Log S B) (cs : ChangeSet) (attribution : Attribution) (identity : Option Identity)
        → s.stage ≡ taken (change_entry cs attribution identity)
        → s.writer ≡ none
        → Step s (attempt cs attribution identity s)
    settles :
        (s : Log S B) (e : LogEntry S B) (a : Attempt S B)
        → s.stage ≡ attempted e a
        → (reads_state a ≡ true → s.writer ≡ none)
        → Step s (settle_state e a s)
    indexes :
        (s : Log S B) (e : LogEntry S B) (a : Attempt S B)
        → s.stage ≡ settled e a
        → (has_committed a.committed ≡ true → s.writer ≡ none)
        → Step s (index_and_reply e a s)
    posts :
        (s : Log S B) (a : Attempt S B)
        → s.stage ≡ replied a
        → (has_committed a.committed ≡ true → s.writer ≡ none)
        → Step s (post a s)

  pub data Reach (s : Log S B) : Log S B → Type 0 where
    here : Reach s s
    next : {t u : Log S B} → Reach s t → Step t u → Reach s u

  pub Reach-trans : {s t u : Log S B} → Reach s t → Reach t u → Reach s u
  Reach-trans r here = r
  Reach-trans r (next q st) = next (Reach-trans r q) st

-- The entry that the applier works on, before its reply.
unfoldable pub busy : {S B : Type 0} → Stage S B → List (LogEntry S B)
busy waiting = []
busy exited = []
busy (taken e) = e ∷ []
busy (attempted e a) = e ∷ []
busy (settled e a) = e ∷ []
busy (replied a) = []
