-- ===== src/Jobs.antt =====
-- Background jobs (pkg/openlore/jobs.go): the registry, the goroutine of each job and the semaphore
-- that bounds how many run at once. A job is held where its goroutine stands, and the registry's map
-- holds that place, as the source's pointers do.
pub mod Pool
mod Tests
use open_lore.Prelude.{
  ℕ, zero, suc, ◌≡◌, Bool, true, false, Option, none, some, List, [], ◌∷◌, ◌++◌, ltb, if◌then◌else◌,
  length, Text, text, lookup, put, nat_eq,
}
use open_lore.History.{Attribution}

pub data JobState : Type 0 where
  job_running job_done job_failed : JobState

pub record Job : Type 0 where
  pub id : Text
  pub command : Text
  pub target : Text
  pub attribution : Attribution
  pub state : JobState
  pub note : Text
  pub started_at : ℕ
  pub ended_at : Option ℕ

pub record JobAttribution : Type 0 where
  pub principal : Text
  pub actor : Text
  pub client_auth : Text

-- cmds.JobSpec, less the context of the write-back, whose result is an argument of `run_result`.
pub record JobSpec : Type 0 where
  pub command : Text
  pub target : Text
  pub append_to : Bool
  pub attribution : JobAttribution

-- Where the goroutine of a job is: not begun, as `Submit` has yet to call `wg.Add`, before the semaphore, with a slot, past `finish`, past the slot's
-- release, past `wg.Done`.
pub data Phase : Type 0 where
  registered queued holding finished released ended : Phase

pub record Goroutine : Type 0 where
  pub job : Job
  pub spec : JobSpec
  pub phase : Phase

pub record JobManager : Type 0 where
  pub jobs : List (Text × ℕ)
  pub order : List Text
  pub capacity : ℕ
  pub goroutines : List Goroutine

-- NewJobManager
pub new_job_manager : ℕ → JobManager
new_job_manager max_concurrent = record {
  jobs = [];
  order = [];
  capacity = if ltb max_concurrent 1 then 1 else max_concurrent;
  goroutines = [];
}

pub new_job : Text → JobSpec → ℕ → Job
new_job id spec now = record {
  id = id;
  command = spec.command;
  target = spec.target;
  attribution = record {
    principal = spec.attribution.principal;
    actor = spec.attribution.actor;
    actor_kind = [];
    client_auth = spec.attribution.client_auth;
    extra = [];
    internal = false;
  };
  state = job_running;
  note = [];
  started_at = now;
  ended_at = none;
}

-- Submit under the mutex, after newJobID gave `id`.
pub submit : Text → JobSpec → ℕ → JobManager → JobManager
submit id spec now m = record m {
  jobs = put id (length m.goroutines) m.jobs;
  order = m.order ++ id ∷ [];
  goroutines =
      m.goroutines ++ record { job = new_job id spec now; spec = spec; phase = registered } ∷ [];
}

-- finish
finish : JobState → Text → ℕ → Job → Job
finish state note now job = record job { state = state; note = note; ended_at = some now }

take_bytes : ℕ → List ℕ → List ℕ
take_bytes zero s = []
take_bytes (suc n) [] = []
take_bytes (suc n) (b ∷ s) = b ∷ take_bytes n s

-- The bytes of a job's output in its note; `trim_space` is strings.TrimSpace.
truncate_output : (Text → Text) → Text → ℕ → Text
truncate_output trim_space b n =
    let s = trim_space b in if ltb n (length s) then take_bytes n s ++ 226 ∷ 128 ∷ 166 ∷ [] else s

-- run's body between the two ends of the slot: the result of the runner with the output, and that of
-- the write-back. `decimal` prints a number.
pub run_result :
    (Text → Text) → (ℕ → Text) → JobSpec → Option Text → Text → Option Text → ℕ → Job → Job
run_result trim_space decimal spec failure out write_failure now job = elim failure [
  | some e ↦
      finish job_failed
        (text "command failed: "
          ++ e
          ++ text " ("
          ++ truncate_output trim_space out 256
          ++ text ")")
        now job
  | none ↦ elim write_failure [
    | some e ↦ finish job_failed (text "write-back failed: " ++ e) now job
    | none ↦
        finish job_done (text "wrote " ++ decimal (length out) ++ text " bytes to " ++ spec.target)
          now job
  ]
]

-- jobEnv
job_env : JobSpec → List Text
job_env spec =
    (text "OPENLORE_IDENTITY=" ++ spec.attribution.principal)
    ∷ (text "OPENLORE_ACTOR=" ++ spec.attribution.actor)
    ∷ (text "OPENLORE_CLIENT_AUTH=" ++ spec.attribution.client_auth)
    ∷ (text "OPENLORE_JOB_TARGET=" ++ spec.target)
    ∷ []

holds_slot : Phase → Bool
holds_slot registered = false
holds_slot queued = false
holds_slot holding = true
holds_slot finished = true
holds_slot released = false
holds_slot ended = false

-- The elements in the channel `sem`.
pub slots_used : List Goroutine → ℕ
slots_used [] = 0
slots_used (g ∷ gs) = let rest = slots_used gs in if holds_slot g.phase then suc rest else rest

is_live : Phase → Bool
is_live registered = false
is_live queued = true
is_live holding = true
is_live finished = true
is_live released = true
is_live ended = false

-- The counter of `wg`.
pub wait_count : List Goroutine → ℕ
wait_count [] = 0
wait_count (g ∷ gs) = let rest = wait_count gs in if is_live g.phase then suc rest else rest

-- Drain's wait is over, where its timeout does not come first.
pub drain : JobManager → Bool
drain m = nat_eq (wait_count m.goroutines) 0

goroutine_at : List Goroutine → ℕ → Option Goroutine
goroutine_at [] i = none
goroutine_at (g ∷ gs) zero = some g
goroutine_at (g ∷ gs) (suc i) = goroutine_at gs i

job_at : Option Goroutine → Option Job
job_at none = none
job_at (some g) = some g.job

-- snapshot
pub snapshot : Text → JobManager → Option Job
snapshot id m = elim (lookup id m.jobs) [
  | none ↦ none
  | some i ↦ job_at (goroutine_at m.goroutines i)
]

-- list: the jobs named by `order`, from its end.
list_from : JobManager → List Text → List Job
list_from m [] = []
list_from m (id ∷ order) =
    let newer = list_from m order in
    elim (snapshot id m) [ none ↦ newer | some job ↦ newer ++ job ∷ [] ]

pub list : JobManager → List Job
list m = list_from m m.order

-- The same manager with the goroutine that stands after `before` replaced.
pub with_goroutine : List Goroutine → Goroutine → List Goroutine → JobManager → JobManager
with_goroutine before g others m = record m { goroutines = before ++ g ∷ others }

-- One step of the submitters or of a goroutine.
pub data JobStep (trim_space : Text → Text) (decimal : ℕ → Text)
    : JobManager → JobManager → Type 0 where
  submits :
      (m : JobManager) (id : Text) (spec : JobSpec) (now : ℕ)
      → JobStep trim_space decimal m (submit id spec now m)
  spawns :
      (m : JobManager) (before : List Goroutine) (g : Goroutine) (others : List Goroutine)
      → m.goroutines ≡ before ++ g ∷ others
      → g.phase ≡ registered
      → JobStep trim_space decimal m (with_goroutine before (record g { phase = queued }) others m)
  acquires :
      (m : JobManager) (before : List Goroutine) (g : Goroutine) (others : List Goroutine)
      → m.goroutines ≡ before ++ g ∷ others
      → g.phase ≡ queued
      → ltb (slots_used m.goroutines) m.capacity ≡ true
      → JobStep trim_space decimal m (with_goroutine before (record g { phase = holding }) others m)
  runs :
      (m : JobManager) (before : List Goroutine) (g : Goroutine) (others : List Goroutine)
      → m.goroutines ≡ before ++ g ∷ others
      → g.phase ≡ holding
      → (failure : Option Text) (out : Text) (write_failure : Option Text) (now : ℕ)
      → JobStep trim_space decimal m (
          with_goroutine before
            (record g {
              job = run_result trim_space decimal g.spec failure out write_failure now g.job;
              phase = finished;
            })
            others
            m)
  releases :
      (m : JobManager) (before : List Goroutine) (g : Goroutine) (others : List Goroutine)
      → m.goroutines ≡ before ++ g ∷ others
      → g.phase ≡ finished
      → JobStep trim_space decimal m
          (with_goroutine before (record g { phase = released }) others m)
  ends :
      (m : JobManager) (before : List Goroutine) (g : Goroutine) (others : List Goroutine)
      → m.goroutines ≡ before ++ g ∷ others
      → g.phase ≡ released
      → JobStep trim_space decimal m (with_goroutine before (record g { phase = ended }) others m)

-- The states of a manager made for `max_concurrent` jobs.
pub data JobReach (trim_space : Text → Text) (decimal : ℕ → Text) (max_concurrent : ℕ)
    : JobManager → Type 0 where
  here : JobReach trim_space decimal max_concurrent (new_job_manager max_concurrent)
  next :
      {m n : JobManager}
      → JobReach trim_space decimal max_concurrent m
      → JobStep trim_space decimal m n
      → JobReach trim_space decimal max_concurrent n
