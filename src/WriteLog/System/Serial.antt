-- ===== src/WriteLog/System/Serial.antt =====
-- pkg/openlore/writelog.go: the steps of the goroutines, compared with the entries applied one after
-- the other.
use open_lore.Prelude.{
  ℕ, ◌≡◌, refl, sym, ap, ◌∙◌, ◌⊎◌, inl, inr, Option, List, [], ◌∷◌, ◌++◌, append-nil,
}
use mathlib.Core.Path.{subst}
use open_lore.WriteLog.System.Order.{answered, Reach-in_order}
use open_lore.Identity.{Identity}
use open_lore.Changeset.{ChangeSet}
use open_lore.History.{Attribution}
use open_lore.WriteLog.{
  ApplyResult, World, Setting, Handlers, LogEntry, change_entry, task, Attempt, begin_entry, settle,
  index_entry, result_of, post_entry, run_task, apply_entry,
}
use open_lore.WriteLog.System.{
  Stage, waiting, exited, taken, attempted, settled, replied, closer, setter, Log, new_write_log,
  enter, send, give_up, announce, exclusive, take, stop, reply_task, attempt, settle_state,
  index_and_reply, post, Step, enters, sends, gives_up, announces, excludes, takes, stops,
  replies_task, attempts, settles, indexes, posts, Reach, here, next, busy,
}

-- The handlers that the log has at some state of a run.
pub IsHeld :
    {S B : Type 0} {env : Setting S B} {s t : Log S B} → Reach env s t → Handlers S B → Type 0
IsHeld {t = t} here h = t.handlers ≡ h
IsHeld {t = t} (next r st) h = IsHeld r h ⊎ (t.handlers ≡ h)

module _ {S B : Type 0} (env : Setting S B) (P : Handlers S B → Type 0) where
  -- All the handlers of a run are of the property.
  Always : {s t : Log S B} → Reach env s t → Type 0
  Always {t = t} here = P t.handlers
  Always {t = t} (next r st) = Always r × P t.handlers

  Always-last : {s t : Log S B} (r : Reach env s t) → Always r → P t.handlers
  unfolding Always
  Always-last here h = h
  Always-last (next r st) h = h.1

Always-weaken :
    {S B : Type 0} {env : Setting S B} {P Q : Handlers S B → Type 0} {s t : Log S B}
    (r : Reach env s t)
    → ((h : Handlers S B) → P h → Q h)
    → Always env P r
    → Always env Q r
unfolding Always
Always-weaken {t = t} here f p = f t.handlers p
Always-weaken {t = t} (next r st) f (p, q) = (Always-weaken r f p, f t.handlers q)

Always-IsHeld :
    {S B : Type 0} {env : Setting S B} {s t : Log S B} (r : Reach env s t) → Always env (IsHeld r) r
unfolding Always IsHeld
Always-IsHeld here = refl
Always-IsHeld {t = t} (next r st) = (
  Always-weaken {P = IsHeld r} {Q = λ h. IsHeld r h ⊎ (t.handlers ≡ h)} r (λ h k. inl k)
      (Always-IsHeld r),
  inr refl,
)

module _ {S B : Type 0} (env : Setting S B) (P : Handlers S B → Type 0) where
  -- The entries, with their answers, applied one at a time to a world, each with handlers of the
  -- property.
  pub data Serial (w : World S B) : List (LogEntry S B × ApplyResult) → World S B → Type 0 where
    none_yet : Serial w [] w
    apply :
        {done more : List (LogEntry S B × ApplyResult)} {u v : World S B} (e : LogEntry S B)
        (r : ApplyResult)
        → Serial w done u
        → (h1 h2 h3 h4 : Handlers S B) → P h1 × P h2 × P h3 × P h4
        → apply_entry env h1 h2 h3 h4 e u ≡ (r, v)
        → more ≡ done ++ (e, r) ∷ []
        → Serial w more v

  -- How far the entry at hand has come, over the world in which it was begun.
  Begun : LogEntry S B → Attempt S B → World S B → World S B → Type 0
  Begun e a u v =
      (h : Handlers S B) × (cs : ChangeSet) × (attribution : Attribution) × (identity : Option
        Identity)
      × P h
      × (e ≡ change_entry cs attribution identity)
      × (begin_entry env h cs attribution identity u ≡ (a, v))

  Settled : LogEntry S B → Attempt S B → World S B → World S B → Type 0
  Settled e a u v =
      (b : Attempt S B) × (t : World S B) × (h : Handlers S B) × P h
      × Begun e b u t
      × (settle env h b t ≡ (a, v))

  -- The world at each stage.
  Midway : World S B → Stage S B → List (LogEntry S B × ApplyResult) → World S B → Type 0
  Midway w waiting replies v = Serial w replies v
  Midway w exited replies v = Serial w replies v
  Midway w (taken e) replies v = Serial w replies v
  Midway w (attempted e a) replies v = (u : World S B) × Serial w replies u × Begun e a u v
  Midway w (settled e a) replies v = (u : World S B) × Serial w replies u × Settled e a u v
  Midway w (replied a) replies v =
      (u t : World S B) × (e : LogEntry S B) × (done : List (LogEntry S B × ApplyResult))
      × (h : Handlers S B) × P h
      × Serial w done u
      × (replies ≡ done ++ (e, result_of a) ∷ [])
      × Settled e a u t
      × (index_entry env h a t ≡ v)

  apply_entry_of_parts :
      (h4 h3 : Handlers S B) (e : LogEntry S B) (a : Attempt S B) (u t v : World S B)
      → Settled e a u t
      → index_entry env h3 a t ≡ v
      → (h1 h2 : Handlers S B) × P h1
        × P h2
        × (apply_entry env h1 h2 h3 h4 e u ≡ (result_of a, post_entry h4 a v))
  unfolding apply_entry Settled Begun
  apply_entry_of_parts h4 h3 e a u t v
        (b, x, h2, p2, (h1, cs, attribution, identity, p1, same, begun), done) i =
      (h1, h2, p1, p2, rw (same, apply_entry, begun, done, i) refl)

  Step-Midway :
      (w : World S B) {s t : Log S B}
      → Step env s t
      → P s.handlers
      → Midway w s.stage s.replies s.world
      → Midway w t.stage t.replies t.world
  unfolding Midway Begun Settled enter send give_up announce exclusive take stop reply_task attempt
      settle_state index_and_reply post apply_entry
  Step-Midway w (enters s e x c) p h = h
  Step-Midway w (sends s before e others k room) p h = h
  Step-Midway w (gives_up s before e others k) p h = h
  Step-Midway w (announces s x n) p h = h
  Step-Midway w (excludes s closer x n) p h = h
  Step-Midway w (excludes s (setter f) x n) p h = h
  Step-Midway w (takes s e rest g q) p h = subst (λ x. Midway w x s.replies s.world) g h
  Step-Midway w (stops s g q c) p h = subst (λ x. Midway w x s.replies s.world) g h
  Step-Midway w (replies_task s fn g) p h =
      apply (task fn) (run_task fn s.world).0
        (let k : Serial w s.replies s.world = subst (λ x. Midway w x s.replies s.world) g h in k)
        s.handlers s.handlers s.handlers s.handlers (p, p, p, p) refl refl
  Step-Midway w (attempts s cs attribution identity g x) p h = (
    s.world,
    subst (λ x. Midway w x s.replies s.world) g h,
    (s.handlers, cs, attribution, identity, p, refl, refl),
  )
  Step-Midway w (settles s e a g x) p h =
      let (u, done, begun) = subst (λ x. Midway w x s.replies s.world) g h in
      (u, done, (a, s.world, s.handlers, p, begun, refl))
  Step-Midway w (indexes s e a g x) p h =
      let (u, done, begun) = subst (λ x. Midway w x s.replies s.world) g h in
      (u, s.world, e, s.replies, s.handlers, p, done, refl, begun, refl)
  Step-Midway w (posts s a g x) p h =
      let (u, t, e, done, h3, p3, serial, same, begun, i) =
        subst (λ x. Midway w x s.replies s.world) g h in
      let (h1, h2, p1, p2, k) = apply_entry_of_parts s.handlers h3 e a u t s.world begun i in
      apply e (result_of a) serial h1 h2 h3 s.handlers (p1, p2, p3, p) k same

  Reach-Midway :
      (w : World S B) {s t : Log S B} (r : Reach env s t)
      → Always env P r
      → Midway w s.stage s.replies s.world
      → Midway w t.stage t.replies t.world
  unfolding Always
  Reach-Midway w here p h = h
  Reach-Midway w (next r st) p h =
      Step-Midway w st (Always-last env P r p.0) (Reach-Midway w r p.0 h)

module _ {S B : Type 0} (env : Setting S B) where
  -- Whatever the interleaving of submitters, setters, `Close` and the applier, when the applier waits
  -- for an entry the world and the answers are those of a serial run: the answered entries, which are
  -- the first of those sent, in the order of the sends, applied one after the other to the world at
  -- the start, each with handlers that the log had at some state of the run; those not answered are in
  -- the queue.
  pub Reach-Serial :
      (handlers : Handlers S B) (buffer : ℕ) (w : World S B) (s : Log S B)
      (r : Reach env (new_write_log handlers buffer w) s)
      → s.stage ≡ waiting
      → Serial env (IsHeld r) w s.replies s.world × (s.sent ≡ answered s ++ s.queue)
  unfolding new_write_log Midway busy
  Reach-Serial handlers buffer w s r g = (
    subst (λ x. Midway env (IsHeld r) w x s.replies s.world) g
        (Reach-Midway env (IsHeld r) w r (Always-IsHeld r) none_yet),
    sym (
        ap (λ l. l ++ s.queue) (sym (append-nil (answered s)))
        ∙ ap (λ x. answered s ++ busy x ++ s.queue) (sym g)
        ∙ (Reach-in_order env handlers buffer w s r).0),
  )
