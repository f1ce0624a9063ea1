-- ===== src/WriteLog/Tests.antt =====
-- A log over a home directory in memory: one entry is sent and answered, then the log is closed.
use open_lore.Prelude.{
  ℕ, ◌≤◌, ◌≡◌, refl, ◌≢◌, ◌⊎◌, true, false, none, some, List, [], ◌∷◌, ◌++◌, arith, length, text,
}
use open_lore.History.{Attribution}
use open_lore.WriteLog.{
  World, Setting, Handlers, LogEntry, change_entry, Attempt, begin_entry, settle,
}
use open_lore.WriteLog.Outcome.{WasRefused, WasFailed, WasCommitted, apply_entry-Outcome}
use open_lore.WriteLog.System.{
  waiting, exited, taken, closer, Log, new_write_log, enter, send, give_up, announce, exclusive,
  take, stop, attempt, settle_state, index_and_reply, post, Step, enters, sends, announces,
  excludes, takes, stops, attempts, settles, indexes, posts, Reach, here, next, busy,
}
use open_lore.WriteLog.System.Order.{answered, Reach-in_order, Reach-drained}
use open_lore.WriteLog.System.Serial.{IsHeld, Serial, Reach-Serial}
use open_lore.WriteLog.System.Drain.{Reach-drains}
use open_lore.WriteLog.System.Deadlock.{new_write_log-deadlock}
use open_lore.Commit.Sample.{readable_memory, one_file}
use open_lore.ScopedWrite.Sample.{Files, moving, identity_hash}

abbrev setting : Setting Files ℕ
setting = record {
  substrate = readable_memory;
  preflight_change = none;
  sha256 = identity_hash;
  new_id = λ w. text "id";
  now = λ w. 7;
  fuel = 9;
}

abbrev no_handlers : Handlers Files ℕ
no_handlers = record {
  pre_apply = none;
  commit_state = none;
  journal = some (λ r w. none);
  blob_store = none;
  blobs_enabled = false;
  history = some (λ r w. none);
  post_commit = some (λ i w. none);
}

abbrev at_start : World Files ℕ
at_start = record { files = one_file; blobs = 0; calls = [] }

abbrev ann : Attribution
ann = record {
  principal = text "ann";
  actor = [];
  actor_kind = [];
  client_auth = [];
  extra = [];
  internal = false;
}

abbrev entry : LogEntry Files ℕ
entry = change_entry moving ann none

apply_entry-Outcome_example :
    WasRefused setting no_handlers no_handlers no_handlers no_handlers moving ann none at_start
    ⊎ WasFailed setting no_handlers no_handlers no_handlers no_handlers moving ann none at_start
    ⊎ WasCommitted setting no_handlers no_handlers no_handlers no_handlers moving ann none at_start
apply_entry-Outcome_example =
    apply_entry-Outcome setting no_handlers no_handlers no_handlers no_handlers moving ann none
      at_start

abbrev start : Log Files ℕ
start = new_write_log no_handlers 4 at_start

abbrev begun : Log Files ℕ
begun = attempt setting moving ann none (take entry [] (send entry [] (enter entry start)))

abbrev first_attempt : Attempt Files ℕ
first_attempt = (begin_entry setting no_handlers moving ann none at_start).0

abbrev second_attempt : Attempt Files ℕ
second_attempt = (settle setting no_handlers first_attempt begun.world).0

abbrev served : Log Files ℕ
served =
    post setting second_attempt (
      index_and_reply setting entry second_attempt (settle_state setting entry first_attempt begun))

Reach-served : Reach setting start served
unfolding new_write_log enter send take attempt settle_state index_and_reply post
Reach-served =
    next
      (next
        (next
          (next
            (next
              (next (next here (enters start entry refl refl))
                (sends (enter entry start) [] entry [] refl (omega arith)))
              (takes (send entry [] (enter entry start)) entry [] refl refl))
            (attempts (take entry [] (send entry [] (enter entry start))) moving ann none refl
              refl))
          (settles begun entry first_attempt refl (λ c. refl)))
        (indexes (settle_state setting entry first_attempt begun) entry second_attempt refl
          (λ c. refl)))
      (posts
        (index_and_reply setting entry second_attempt
          (settle_state setting entry first_attempt begun))
        second_attempt refl (λ c. refl))

served_waits : served.stage ≡ waiting
unfolding new_write_log enter send take attempt settle_state index_and_reply post
served_waits = refl

abbrev ended : Log Files ℕ
ended = stop (exclusive closer (announce closer served))

Reach-ended : Reach setting start ended
unfolding new_write_log enter send take attempt settle_state index_and_reply post announce exclusive
    stop
Reach-ended =
    next
      (next (next Reach-served (announces served closer refl))
        (excludes (announce closer served) closer refl refl))
      (stops (exclusive closer (announce closer served)) refl refl refl)

ended_exited : ended.stage ≡ exited
unfolding stop
ended_exited = refl

Reach-in_order_example :
    (answered served ++ busy served.stage ++ served.queue ≡ served.sent) × (length served.queue ≤ 4)
Reach-in_order_example = Reach-in_order setting no_handlers 4 at_start served Reach-served

Reach-drained_example : (ended.closed ≡ true) × (answered ended ≡ ended.sent) × (ended.sending ≡ [])
Reach-drained_example = Reach-drained setting no_handlers 4 at_start ended Reach-ended ended_exited

Reach-Serial_example :
    Serial setting (IsHeld Reach-served) at_start served.replies served.world
    × (served.sent ≡ answered served ++ served.queue)
Reach-Serial_example = Reach-Serial setting no_handlers 4 at_start served Reach-served served_waits

sent_one : Reach setting start (send entry [] (enter entry start))
unfolding new_write_log enter send
sent_one =
    next (next here (enters start entry refl refl))
      (sends (enter entry start) [] entry [] refl (omega arith))

sent_one-ne-exited : (send entry [] (enter entry start)).stage ≢ exited
unfolding new_write_log enter send
sent_one-ne-exited e = cc

sent_one_free : (send entry [] (enter entry start)).writer ≡ none
unfolding new_write_log enter send
sent_one_free = refl

Reach-drains_example :
    (t : Log Files ℕ) × Reach setting (send entry [] (enter entry start)) t
    × (t.stage ≡ waiting)
    × (t.queue ≡ [])
    × (t.sent ≡ (send entry [] (enter entry start)).sent)
    × (answered t ≡ (send entry [] (enter entry start)).sent)
Reach-drains_example =
    Reach-drains setting no_handlers 4 at_start (send entry [] (enter entry start)) sent_one
      sent_one_free sent_one-ne-exited

new_write_log-deadlock_example :
    (s : Log Files ℕ) × Reach setting (new_write_log no_handlers 0 at_start) s
    × (s.stage ≡ taken entry)
    × (s.writer ≡ some closer)
    × (s.replies ≡ [])
    × ((t : Log Files ℕ)
        → Step setting s t
        → (before : List (LogEntry Files ℕ)) × (e : LogEntry Files ℕ) × (others : List
            (LogEntry Files ℕ))
          × (s.sending ≡ before ++ e ∷ others)
          × (t ≡ give_up (before ++ others) s))
new_write_log-deadlock_example =
    new_write_log-deadlock setting no_handlers 0 at_start closer moving ann none
