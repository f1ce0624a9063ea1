-- ===== src/Jobs/Tests.antt =====
-- One job from its submission to the end of its goroutine, and the theorems on the pool there.
use open_lore.Prelude.{
  ℕ, ◌≤◌, ◌≡◌, refl, ◌≢◌, true, false, none, some, [], ◌∷◌, ◌++◌, Text, text, lookup, put, ◌==◌,
  All,
}
use open_lore.Jobs.{
  job_running, job_done, Job, JobSpec, registered, queued, holding, finished, released, ended,
  Goroutine, JobManager, new_job_manager, new_job, submit, run_result, slots_used, wait_count,
  drain, snapshot, list, with_goroutine, submits, spawns, acquires, runs, releases, ends, JobReach,
  here, next, finish, job_at, goroutine_at, list_from, holds_slot, is_live, job_env,
  truncate_output,
}
use open_lore.Jobs.Pool.{JobReach-bounded, drain-snapshot}

abbrev same_text : Text → Text
same_text s = s

abbrev in_unary : ℕ → Text
in_unary n = n ∷ []

abbrev echo : JobSpec
echo = record {
  command = text "echo";
  target = text "/a";
  append_to = false;
  attribution = record { principal = text "ann"; actor = []; client_auth = [] };
}

abbrev first_job : Text
first_job = text "job_1"

abbrev at_registered : Goroutine
at_registered = record { job = new_job first_job echo 5; spec = echo; phase = registered }

abbrev at_queued : Goroutine
at_queued = record at_registered { phase = queued }

abbrev at_holding : Goroutine
at_holding = record at_queued { phase = holding }

abbrev at_finished : Goroutine
at_finished = record at_holding {
  job = run_result same_text in_unary echo none (text "hi") none 9 at_holding.job;
  phase = finished;
}

abbrev submitted : JobManager
submitted = submit first_job echo 5 (new_job_manager 0)

abbrev spawned : JobManager
spawned = with_goroutine [] at_queued [] submitted

abbrev started : JobManager
started = with_goroutine [] at_holding [] spawned

abbrev written : JobManager
written = with_goroutine [] at_finished [] started

abbrev free_again : JobManager
free_again = with_goroutine [] (record at_finished { phase = released }) [] written

abbrev over : JobManager
over = with_goroutine [] (record at_finished { phase = ended }) [] free_again

started_reached : JobReach same_text in_unary 0 started
unfolding submit new_job_manager slots_used holds_slot with_goroutine
started_reached =
    next
      (next (next here (submits (new_job_manager 0) first_job echo 5))
        (spawns submitted [] at_registered [] refl refl))
      (acquires spawned [] at_queued [] refl refl refl)

over_reached : JobReach same_text in_unary 0 over
unfolding submit new_job_manager with_goroutine
over_reached =
    next
      (next (next started_reached (runs started [] at_holding [] refl refl none (text "hi") none 9))
        (releases written [] at_finished [] refl refl))
      (ends free_again [] (record at_finished { phase = released }) [] refl refl)

over_drained : drain over ≡ true
unfolding drain wait_count with_goroutine is_live
over_drained = refl

abbrev the_job : Job
the_job = record (new_job first_job echo 5) {
  state = job_done;
  note = text "wrote " ++ 2 ∷ text " bytes to /a";
  ended_at = some 9;
}

over_submitted : All (λ g. g.phase ≢ registered) over.goroutines
unfolding with_goroutine
over_submitted = ((λ e. cc), tt)

over_known : snapshot first_job over ≡ some the_job
unfolding snapshot with_goroutine submit new_job_manager run_result new_job finish job_at
    goroutine_at lookup put ◌==◌
over_known = refl

over_listed : list over ≡ the_job ∷ []
unfolding list list_from snapshot with_goroutine submit new_job_manager run_result new_job finish
    job_at goroutine_at lookup put ◌==◌
over_listed = refl

JobReach-bounded_example : slots_used started.goroutines ≤ 1
JobReach-bounded_example = JobReach-bounded same_text in_unary started_reached

drain-snapshot_example : the_job.state ≢ job_running
drain-snapshot_example =
    drain-snapshot same_text in_unary first_job the_job over_reached over_drained over_submitted
      over_known

-- The four variables that the command of a job finds.
echo_env :
    job_env echo
    ≡ text "OPENLORE_IDENTITY=ann"
      ∷ text "OPENLORE_ACTOR="
      ∷ text "OPENLORE_CLIENT_AUTH="
      ∷ text "OPENLORE_JOB_TARGET=/a"
      ∷ []
unfolding job_env
echo_env = refl

-- A command that fails reports its error and its output.
failed_note :
    (run_result same_text in_unary echo (some (text "exit 1")) (text "no") none 9 the_job).note
    ≡ text "command failed: exit 1 (no)"
unfolding run_result finish truncate_output
failed_note = refl
