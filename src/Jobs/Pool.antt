-- ===== src/Jobs/Pool.antt =====
-- pkg/openlore/jobs.go: the slots of the pool, and the jobs once `Drain` has waited.
use open_lore.Prelude.{
  ℕ, zero, suc, ◌+◌, ◌≤◌, inl, inr, ◌≡◌, refl, sym, ap, ◌∙◌, ◌≢◌, Bool, true, false, Option, none,
  some, List, [], ◌∷◌, ◌++◌, arith, ltb, if◌then◌else◌, Text, All, All-append, ltb→lt, Option-cases,
  lookup,
}
use open_lore.Jobs.{
  JobState, job_running, job_done, job_failed, Job, JobSpec, Phase, registered, queued, holding,
  finished, released, ended, Goroutine, JobManager, new_job_manager, new_job, submit, finish,
  run_result, holds_slot, slots_used, is_live, wait_count, drain, goroutine_at, job_at, snapshot,
  with_goroutine, JobStep, submits, spawns, acquires, runs, releases, ends, JobReach, here, next,
}

is_running : JobState → Bool
is_running job_running = true
is_running job_done = false
is_running job_failed = false

before_finish : Phase → Bool
before_finish registered = true
before_finish queued = true
before_finish holding = true
before_finish finished = false
before_finish released = false
before_finish ended = false

-- A job runs as long as its goroutine has not called `finish`.
pub IsTold : Goroutine → Type 0
unfolding is_running before_finish
IsTold g = is_running g.job.state ≡ before_finish g.phase

slots_used-append : (xs ys : List Goroutine) → slots_used (xs ++ ys) ≡ slots_used xs + slots_used ys
unfolding slots_used
slots_used-append [] ys = omega arith
slots_used-append (x ∷ xs) ys = let ih = slots_used-append xs ys in ground arith

slots_used-moved :
    (before : List Goroutine) (g h : Goroutine) (others : List Goroutine)
    → holds_slot h.phase ≡ holds_slot g.phase
    → slots_used (before ++ h ∷ others) ≡ slots_used (before ++ g ∷ others)
unfolding slots_used
slots_used-moved [] g h others e = rw (e) refl
slots_used-moved (x ∷ before) g h others e = rw (slots_used-moved before g h others e) refl

slots_used-taken :
    (before : List Goroutine) (g h : Goroutine) (others : List Goroutine)
    → holds_slot g.phase ≡ false
    → slots_used (before ++ h ∷ others) ≤ suc (slots_used (before ++ g ∷ others))
unfolding slots_used
slots_used-taken [] g h others e = ground arith
slots_used-taken (x ∷ before) g h others e =
    let ih = slots_used-taken before g h others e in ground arith

slots_used-freed :
    (before : List Goroutine) (g h : Goroutine) (others : List Goroutine)
    → holds_slot h.phase ≡ false
    → slots_used (before ++ h ∷ others) ≤ slots_used (before ++ g ∷ others)
unfolding slots_used
slots_used-freed [] g h others e = ground arith
slots_used-freed (x ∷ before) g h others e =
    let ih = slots_used-freed before g h others e in ground arith

All-replaced :
    (before : List Goroutine) (g h : Goroutine) (others : List Goroutine)
    → All IsTold (before ++ g ∷ others)
    → (IsTold g → IsTold h)
    → All IsTold (before ++ h ∷ others)
All-replaced [] g h others (k, ks) f = (f k, ks)
All-replaced (x ∷ before) g h others (k, ks) f = (k, All-replaced before g h others ks f)

run_result-ends :
    (trim_space : Text → Text) (decimal : ℕ → Text) (spec : JobSpec) (failure : Option Text)
    (out : Text) (write_failure : Option Text) (now : ℕ) (job : Job)
    → is_running (run_result trim_space decimal spec failure out write_failure now job).state
      ≡ false
unfolding run_result finish is_running
run_result-ends trim_space decimal spec (some e) out write_failure now job = refl
run_result-ends trim_space decimal spec none out (some e) now job = refl
run_result-ends trim_space decimal spec none out none now job = refl

-- Past `wg.Done`, `finish` has been called.
is_live-false : (x : Phase) → is_live x ≡ false → x ≢ registered → before_finish x ≡ false
unfolding is_live before_finish
is_live-false registered e n = absurd (n refl)
is_live-false queued e n = cc
is_live-false holding e n = cc
is_live-false finished e n = refl
is_live-false released e n = refl
is_live-false ended e n = refl

goroutine_at-told :
    (gs : List Goroutine) (i : ℕ) (g : Goroutine)
    → All IsTold gs
    → All (λ h. h.phase ≢ registered) gs
    → wait_count gs ≡ 0
    → goroutine_at gs i ≡ some g
    → is_running g.job.state ≡ false
unfolding goroutine_at wait_count IsTold
goroutine_at-told [] i g ks ns w e = cc
goroutine_at-told (x ∷ gs) zero g (k, ks) (n, ns) w e =
    let same : x ≡ g = cc in
    let gone : is_live x.phase ≡ false = ground arith in
    ap (λ y. is_running y.job.state) (sym same) ∙ k ∙ is_live-false x.phase gone n
goroutine_at-told (x ∷ gs) (suc i) g (k, ks) (n, ns) w e =
    goroutine_at-told gs i g ks ns (ground arith) e

job_state-ne : (job : Job) → is_running job.state ≡ false → job.state ≢ job_running
unfolding is_running
job_state-ne job e h = absurd (Bool-ne (sym (ap is_running h) ∙ e))
  where
    Bool-ne : true ≡ false → ⊥
    Bool-ne k = cc

module _ (trim_space : Text → Text) (decimal : ℕ → Text) where
  JobStep-bounded :
      {m n : JobManager}
      → JobStep trim_space decimal m n
      → slots_used m.goroutines ≤ m.capacity
      → slots_used n.goroutines ≤ n.capacity
  unfolding with_goroutine submit slots_used holds_slot
  JobStep-bounded (submits m id spec now) h =
      let added =
        slots_used-append m.goroutines
          (record { job = new_job id spec now; spec = spec; phase = registered } ∷ []) in
      omega (arith, h, added)
  JobStep-bounded (spawns m before g others e w) h =
      let fewer = slots_used-freed before g (record g { phase = queued }) others refl in
      let same = ap slots_used e in omega (arith, h, fewer, same)
  JobStep-bounded (acquires m before g others e w l) h =
      let more =
        slots_used-taken before g (record g { phase = holding }) others (ap holds_slot w) in
      let free = ltb→lt (slots_used m.goroutines) m.capacity l in
      let same = ap slots_used e in omega (arith, more, free, same)
  JobStep-bounded (runs m before g others e w failure out write_failure now) h =
      let moved =
        slots_used-moved before g
          (record g {
            job = run_result trim_space decimal g.spec failure out write_failure now g.job;
            phase = finished;
          })
          others (sym (ap holds_slot w)) in
      let same = ap slots_used e in omega (arith, h, moved, same)
  JobStep-bounded (releases m before g others e w) h =
      let fewer = slots_used-freed before g (record g { phase = released }) others refl in
      let same = ap slots_used e in omega (arith, h, fewer, same)
  JobStep-bounded (ends m before g others e w) h =
      let fewer = slots_used-freed before g (record g { phase = ended }) others refl in
      let same = ap slots_used e in omega (arith, h, fewer, same)

  JobStep-IsTold :
      {m n : JobManager}
      → JobStep trim_space decimal m n
      → All IsTold m.goroutines
      → All IsTold n.goroutines
  unfolding with_goroutine submit new_job IsTold is_running before_finish
  JobStep-IsTold (submits m id spec now) h = All-append IsTold m.goroutines _ h (refl, tt)
  JobStep-IsTold (spawns m before g others e w) h =
      All-replaced before g _ others (rw (sym e) h) (λ k. k ∙ ap before_finish w)
  JobStep-IsTold (acquires m before g others e w l) h =
      All-replaced before g _ others (rw (sym e) h) (λ k. k ∙ ap before_finish w)
  JobStep-IsTold (runs m before g others e w failure out write_failure now) h =
      All-replaced before g _ others (rw (sym e) h)
        (λ k. run_result-ends trim_space decimal g.spec failure out write_failure now g.job)
  JobStep-IsTold (releases m before g others e w) h =
      All-replaced before g _ others (rw (sym e) h) (λ k. k ∙ ap before_finish w)
  JobStep-IsTold (ends m before g others e w) h =
      All-replaced before g _ others (rw (sym e) h) (λ k. k ∙ ap before_finish w)

  JobStep-capacity : {m n : JobManager} → JobStep trim_space decimal m n → n.capacity ≡ m.capacity
  unfolding with_goroutine submit
  JobStep-capacity (submits m id spec now) = refl
  JobStep-capacity (spawns m before g others e w) = refl
  JobStep-capacity (acquires m before g others e w l) = refl
  JobStep-capacity (runs m before g others e w failure out write_failure now) = refl
  JobStep-capacity (releases m before g others e w) = refl
  JobStep-capacity (ends m before g others e w) = refl

  JobReach-IsTold :
      {max : ℕ} {m : JobManager} → JobReach trim_space decimal max m → All IsTold m.goroutines
  unfolding new_job_manager
  JobReach-IsTold here = tt
  JobReach-IsTold (next r s) = JobStep-IsTold s (JobReach-IsTold r)

  JobReach-capacity :
      {max : ℕ} {m : JobManager}
      → JobReach trim_space decimal max m
      → m.capacity ≡ (new_job_manager max).capacity
  JobReach-capacity here = refl
  JobReach-capacity (next r s) = JobStep-capacity s ∙ JobReach-capacity r

  JobReach-within :
      {max : ℕ} {m : JobManager}
      → JobReach trim_space decimal max m
      → slots_used m.goroutines ≤ m.capacity
  unfolding new_job_manager slots_used
  JobReach-within here = omega arith
  JobReach-within (next r s) = JobStep-bounded s (JobReach-within r)

  -- In every reachable state of the job manager the jobs that hold a slot are at most the bound that
  -- it was made with, or one where that bound is 0.
  pub JobReach-bounded :
      {max : ℕ} {m : JobManager}
      → JobReach trim_space decimal max m
      → slots_used m.goroutines ≤ (if ltb max 1 then 1 else max)
  unfolding new_job_manager
  JobReach-bounded r =
      let within = JobReach-within r in let same = JobReach-capacity r in rw (sym same) within

  -- In every reachable state of the job manager where `Drain` has seen the end of all goroutines and no
  -- submission is between its registration and `wg.Add`, no job that the registry gives for an id is
  -- still running.
  pub drain-snapshot :
      {max : ℕ} {m : JobManager} (id : Text) (job : Job)
      → JobReach trim_space decimal max m
      → drain m ≡ true
      → All (λ g. g.phase ≢ registered) m.goroutines
      → snapshot id m ≡ some job
      → job.state ≢ job_running
  unfolding drain snapshot job_at
  drain-snapshot {m = m} id job r d n e =
      let gone : wait_count m.goroutines ≡ 0 = ground arith in
      elim (Option-cases (lookup id m.jobs)) [
        | inl k ↦ λ h. cc
        | inr (i, k) ↦ elim (Option-cases (goroutine_at m.goroutines i)) [
          | inl l ↦ λ h. cc
          | inr (g, l) ↦
              let same : g.job ≡ job = cc in
              job_state-ne job (
                ap (λ j. is_running j.state) (sym same)
                ∙ goroutine_at-told m.goroutines i g (JobReach-IsTold r) n gone l)
        ]
      ]
