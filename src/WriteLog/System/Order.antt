-- ===== src/WriteLog/System/Order.antt =====
-- pkg/openlore/writelog.go: the order of sends and answers, the queue, and the end of the log.
use open_lore.Prelude.{
  ℕ, ◌≤◌, ◌≡◌, refl, sym, ap, ◌∙◌, ◌≢◌, true, List, [], ◌∷◌, ◌++◌, map, append-nil, append_assoc,
  arith, if◌then◌else◌, nat_eq, length, length-append,
}
use mathlib.Core.List.{map-append}
use open_lore.WriteLog.{
  ApplyResult, World, Setting, Handlers, LogEntry, change_entry, task, result_of, run_task,
}
use open_lore.WriteLog.System.{
  Stage, waiting, exited, taken, attempted, settled, replied, closer, setter, Log, new_write_log,
  enter, send, give_up, announce, exclusive, take, stop, reply_task, attempt, settle_state,
  index_and_reply, post, Step, enters, sends, gives_up, announces, excludes, takes, stops,
  replies_task, attempts, settles, indexes, posts, Reach, here, next, busy,
}

-- The entries that have been answered.
abbrev pub answered : {S B : Type 0} → Log S B → List (LogEntry S B)
answered s = map (λ (entry : LogEntry _ _ × ApplyResult). entry.0) s.replies

-- The invariant of the queue, the lock and the two records.
pub record IsOrdered {S B : Type 0} (s : Log S B) : Type 0 where
  pub order : answered s ++ busy s.stage ++ s.queue ≡ s.sent
  pub bounded : length s.queue ≤ s.capacity
  pub shut : s.closed ≡ true → s.sending ≡ []
  pub drained : s.stage ≡ exited → (s.queue ≡ []) × (s.closed ≡ true)

append_cons-ne-nil :
    {A : Type 0} (before : List A) (e : A) (others : List A) → before ++ e ∷ others ≢ []
append_cons-ne-nil [] e others h = cc
append_cons-ne-nil (x ∷ before) e others h = cc

module _ {S B : Type 0} {s : Log S B} (h : IsOrdered s) where
  order_at : (x : Stage S B) → s.stage ≡ x → answered s ++ busy x ++ s.queue ≡ s.sent
  order_at x g = ap (λ y. answered s ++ busy y ++ s.queue) (sym g) ∙ h.order

  -- An answer goes to the end of the answers.
  order_after :
      (e : LogEntry S B) (r : ApplyResult) (x : Stage S B)
      → s.stage ≡ x
      → busy x ≡ e ∷ []
      → map (λ (entry : LogEntry S B × ApplyResult). entry.0) (s.replies ++ (e, r) ∷ []) ++ s.queue
        ≡ s.sent
  order_after e r x g b =
      rw (map-append (λ (entry : LogEntry S B × ApplyResult). entry.0) s.replies ((e, r) ∷ []))
        (ap (λ l. answered s ++ l ++ s.queue) (sym b) ∙ order_at x g)

  no_send :
      (before : List (LogEntry S B)) (e : LogEntry S B) (others : List (LogEntry S B))
      → s.sending ≡ before ++ e ∷ others
      → s.closed ≡ true
      → ⊥
  no_send before e others k c = append_cons-ne-nil before e others (sym k ∙ h.shut c)

module _ {S B : Type 0} (env : Setting S B) where
  Step-IsOrdered : {s t : Log S B} → Step env s t → IsOrdered s → IsOrdered t
  unfolding enter send give_up announce exclusive take stop reply_task attempt settle_state
      index_and_reply post busy
  Step-IsOrdered (enters s e w c) h = record {
    order = h.order;
    bounded = h.bounded;
    shut = λ k. cc;
    drained = h.drained;
  }
  Step-IsOrdered (sends s before e others k room) h = record {
    order = sent_order (answered s) (busy s.stage) s.queue e s.sent h.order;
    bounded = omega (arith, length-append s.queue (e ∷ []));
    shut = λ c. absurd (no_send h before e others k c);
    drained = λ x. absurd (no_send h before e others k (h.drained x).1);
  }
    where
      sent_order :
          (done now queue : List (LogEntry S B)) (e : LogEntry S B) (sent : List (LogEntry S B))
          → done ++ now ++ queue ≡ sent
          → done ++ now ++ (queue ++ e ∷ []) ≡ sent ++ e ∷ []
      sent_order done now queue e sent o =
          sym (append_assoc (done ++ now) queue (e ∷ [])) ∙ ap (λ l. l ++ e ∷ []) o
  Step-IsOrdered (gives_up s before e others k) h = record {
    order = h.order;
    bounded = h.bounded;
    shut = λ c. absurd (no_send h before e others k c);
    drained = h.drained;
  }
  Step-IsOrdered (announces s x w) h = record {
    order = h.order;
    bounded = h.bounded;
    shut = h.shut;
    drained = h.drained;
  }
  Step-IsOrdered (excludes s closer w n) h = record {
    order = h.order;
    bounded = h.bounded;
    shut = λ c. n;
    drained = λ x. ((h.drained x).0, refl);
  }
  Step-IsOrdered (excludes s (setter f) w n) h = record {
    order = h.order;
    bounded = h.bounded;
    shut = h.shut;
    drained = h.drained;
  }
  Step-IsOrdered (takes s e rest g q) h = record {
    order =
        append_assoc (answered s) (e ∷ []) rest
        ∙ ap (λ l. answered s ++ l) (sym q)
        ∙ sym (append_assoc (answered s) [] s.queue)
        ∙ order_at h waiting g;
    bounded = omega (arith, h.bounded, ap length q);
    shut = h.shut;
    drained = λ x. cc;
  }
  Step-IsOrdered (stops s g q c) h = record {
    order = order_at h waiting g;
    bounded = h.bounded;
    shut = h.shut;
    drained = λ x. (q, c);
  }
  Step-IsOrdered (replies_task s fn g) h = record {
    order =
        rw append-nil (order_after h (task fn) (run_task fn s.world).0 (taken (task fn)) g refl);
    bounded = h.bounded;
    shut = h.shut;
    drained = λ x. cc;
  }
  Step-IsOrdered (attempts s cs attribution identity g w) h = record {
    order = order_at h (taken (change_entry cs attribution identity)) g;
    bounded = h.bounded;
    shut = h.shut;
    drained = λ x. cc;
  }
  Step-IsOrdered (settles s e a g w) h = record {
    order = order_at h (attempted e a) g;
    bounded = h.bounded;
    shut = h.shut;
    drained = λ x. cc;
  }
  Step-IsOrdered (indexes s e a g w) h = record {
    order = rw append-nil (order_after h e (result_of a) (settled e a) g refl);
    bounded = h.bounded;
    shut = h.shut;
    drained = λ x. cc;
  }
  Step-IsOrdered (posts s a g w) h = record {
    order = order_at h (replied a) g;
    bounded = h.bounded;
    shut = h.shut;
    drained = λ x. cc;
  }

  Step-capacity : {s t : Log S B} → Step env s t → t.capacity ≡ s.capacity
  unfolding enter send give_up announce exclusive take stop reply_task attempt settle_state
      index_and_reply post
  Step-capacity (enters s e w c) = refl
  Step-capacity (sends s before e others k room) = refl
  Step-capacity (gives_up s before e others k) = refl
  Step-capacity (announces s x w) = refl
  Step-capacity (excludes s closer w n) = refl
  Step-capacity (excludes s (setter f) w n) = refl
  Step-capacity (takes s e rest g q) = refl
  Step-capacity (stops s g q c) = refl
  Step-capacity (replies_task s fn g) = refl
  Step-capacity (attempts s cs attribution identity g w) = refl
  Step-capacity (settles s e a g w) = refl
  Step-capacity (indexes s e a g w) = refl
  Step-capacity (posts s a g w) = refl

  Reach-capacity : {s t : Log S B} → Reach env s t → t.capacity ≡ s.capacity
  Reach-capacity here = refl
  Reach-capacity (next r st) = Step-capacity st ∙ Reach-capacity r

  pub Reach-IsOrdered : {s t : Log S B} → Reach env s t → IsOrdered s → IsOrdered t
  Reach-IsOrdered here h = h
  Reach-IsOrdered (next r st) h = Step-IsOrdered st (Reach-IsOrdered r h)

  module _ (handlers : Handlers S B) (buffer : ℕ) (w : World S B) where
    pub new_write_log-IsOrdered : IsOrdered (new_write_log handlers buffer w)
    unfolding new_write_log busy
    new_write_log-IsOrdered = record {
      order = refl;
      bounded = ground arith;
      shut = λ c. refl;
      drained = λ x. absurd (cc);
    }

    -- In every state that the log reaches, by any interleaving of submitters, setters, `Close` and the
    -- applier: the entries that were answered, in the order of their answers, then the one that the
    -- applier holds, then those of the queue, are the entries that were sent, in the order of the
    -- sends; and the queue holds no more than the buffer asked for, 256 if that is 0.
    pub Reach-in_order :
        (s : Log S B)
        → Reach env (new_write_log handlers buffer w) s
        → (answered s ++ busy s.stage ++ s.queue ≡ s.sent)
          × (length s.queue ≤ (if nat_eq buffer 0 then 256 else buffer))
    unfolding new_write_log
    Reach-in_order s r =
        let h = Reach-IsOrdered r new_write_log-IsOrdered in
        (h.order, omega (arith, h.bounded, Reach-capacity r))

    -- Once the applier has ended, the log is closed, every entry that was ever sent has its answer, in
    -- the order of the sends, and no submitter is about to send.
    pub Reach-drained :
        (s : Log S B)
        → Reach env (new_write_log handlers buffer w) s
        → s.stage ≡ exited
        → (s.closed ≡ true) × (answered s ≡ s.sent) × (s.sending ≡ [])
    unfolding busy
    Reach-drained s r g =
        let h = Reach-IsOrdered r new_write_log-IsOrdered in
        let (q, c) = h.drained g in
        (
          c,
          sym (append-nil (answered s))
              ∙ ap (λ l. answered s ++ l) (sym q)
              ∙ ap (λ l. l ++ s.queue) (sym (append-nil (answered s)))
              ∙ order_at h exited g,
          h.shut c,
        )
