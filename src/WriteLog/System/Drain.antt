-- ===== src/WriteLog/System/Drain.antt =====
-- pkg/openlore/writelog.go: the progress of the applier through the queue.
use open_lore.Prelude.{ℕ, ◌≡◌, refl, sym, ap, ◌∙◌, ◌≢◌, none, List, [], ◌∷◌, ◌++◌, append-nil}
use open_lore.WriteLog.{
  World, Setting, Handlers, LogEntry, change_entry, task, Attempt, begin_entry, settle,
}
use open_lore.WriteLog.System.{
  Stage, waiting, exited, taken, attempted, settled, replied, Log, new_write_log, take, reply_task,
  attempt, settle_state, index_and_reply, post, takes, replies_task, attempts, settles, indexes,
  posts, Reach, here, next, Reach-trans, busy,
}
use open_lore.WriteLog.System.Order.{answered}
use open_lore.WriteLog.System.Serial.{Reach-Serial}

module _ {S B : Type 0} (env : Setting S B) where
  -- The applier has brought `s` to `t`, in which it waits for an entry, with `queue` left.
  Served : Log S B → List (LogEntry S B) → Type 0
  Served s queue =
      (t : Log S B) × Reach env s t
      × (t.stage ≡ waiting)
      × (t.queue ≡ queue)
      × (t.writer ≡ none)
      × (t.sent ≡ s.sent)

  serve_replied :
      (s : Log S B) (a : Attempt S B) → s.writer ≡ none → s.stage ≡ replied a → Served s s.queue
  unfolding Served post
  serve_replied s a n g = (post env a s, next here (posts s a g (λ c. n)), refl, refl, n, refl)

  before :
      {s t : Log S B}
      → (queue : List (LogEntry S B)) → Reach env s t
      → t.sent ≡ s.sent
      → Served t queue
      → Served s queue
  unfolding Served
  before queue r same (u, q, g, e, n, k) = (u, Reach-trans env r q, g, e, n, k ∙ same)

  serve_settled :
      (s : Log S B) (e : LogEntry S B) (a : Attempt S B)
      → s.writer ≡ none
      → s.stage ≡ settled e a
      → Served s s.queue
  unfolding index_and_reply
  serve_settled s e a n g =
      before s.queue (next here (indexes s e a g (λ c. n))) refl
        (serve_replied (index_and_reply env e a s) a n refl)

  serve_attempted :
      (s : Log S B) (e : LogEntry S B) (a : Attempt S B)
      → s.writer ≡ none
      → s.stage ≡ attempted e a
      → Served s s.queue
  unfolding settle_state
  serve_attempted s e a n g =
      before s.queue (next here (settles s e a g (λ c. n))) refl
        (serve_settled (settle_state env e a s) e (settle env s.handlers a s.world).0 n refl)

  serve_taken :
      (s : Log S B) (e : LogEntry S B) → s.writer ≡ none → s.stage ≡ taken e → Served s s.queue
  unfolding attempt reply_task Served
  serve_taken s (change_entry cs attribution identity) n g =
      before s.queue (next here (attempts s cs attribution identity g n)) refl (
        serve_attempted (attempt env cs attribution identity s)
          (change_entry cs attribution identity)
          (begin_entry env s.handlers cs attribution identity s.world).0 n refl)
  serve_taken s (task fn) n g =
      (reply_task fn s, next here (replies_task s fn g), refl, refl, n, refl)

  serve_queue :
      (s : Log S B) (queue : List (LogEntry S B))
      → s.writer ≡ none
      → s.stage ≡ waiting
      → s.queue ≡ queue
      → Served s []
  unfolding Served take
  serve_queue s [] n g q = (s, here, g, q, n, refl)
  serve_queue s (e ∷ rest) n g q =
      let (t, r, g', q', n', k) = serve_taken (take e rest s) e n refl in
      before [] (Reach-trans env (next here (takes s e rest g q)) r) k (serve_queue t rest n' g' q')

  serve_stage :
      (s : Log S B) (x : Stage S B)
      → s.stage ≡ x
      → s.writer ≡ none
      → s.stage ≢ exited
      → Served s s.queue
  unfolding Served
  serve_stage s waiting g n unfinished = (s, here, g, refl, n, refl)
  serve_stage s exited g n unfinished = absurd (unfinished g)
  serve_stage s (taken e) g n unfinished = serve_taken s e n g
  serve_stage s (attempted e a) g n unfinished = serve_attempted s e a n g
  serve_stage s (settled e a) g n unfinished = serve_settled s e a n g
  serve_stage s (replied a) g n unfinished = serve_replied s a n g

  -- From every state that the log reaches, in which no goroutine waits for the write lock and the
  -- applier has not ended, there is a run in which nothing more is sent, to a state in which the
  -- applier waits, the queue is empty and every entry sent has its answer, in the order of the sends.
  pub Reach-drains :
      (handlers : Handlers S B) (buffer : ℕ) (w : World S B) (s : Log S B)
      → Reach env (new_write_log handlers buffer w) s
      → s.writer ≡ none
      → s.stage ≢ exited
      → (t : Log S B) × Reach env s t
        × (t.stage ≡ waiting)
        × (t.queue ≡ [])
        × (t.sent ≡ s.sent)
        × (answered t ≡ s.sent)
  unfolding Served busy
  Reach-drains handlers buffer w s r n g =
      let (u, r1, g1, q1, n1, k1) = serve_stage s s.stage refl n g in
      let (t, r2, g2, q2, n2, k2) = serve_queue u u.queue n1 g1 refl in
      let all = Reach-trans env r (Reach-trans env r1 r2) in
      let order = (Reach-Serial env handlers buffer w t all g2).1 in
      (
        t,
        Reach-trans env r1 r2,
        g2,
        q2,
        k2 ∙ k1,
        sym (append-nil (answered t)) ∙ ap (λ l. answered t ++ l) (sym q2) ∙ sym order ∙ k2 ∙ k1,
      )
