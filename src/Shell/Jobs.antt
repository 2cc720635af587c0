-- ===== src/Shell/Jobs.antt =====
-- The job list of shlab_code/tsh.c: `struct job_t`, the global `jobs` and `nextjid`, and the
-- helper routines on them. A `struct job_t*` is the index of the entry; what is printed or sent to
-- another process is an entry of `trace`. Process ids come in as integers, since `atoi` may give a
-- negative one, and each routine tests `pid < 1` itself; a stored id is a natural number.
pub mod Search
pub mod Table
pub mod Views
pub mod Numbers
use csapp_lab_code.Base.{
  ℕ, ◌+◌, Bool, true, false, Option, none, some, List, [], ◌∷◌, ◌++◌, ltb, ◌==◌, ◌&&◌, ◌||◌,
  if◌then◌else◌, not, get_or, set, replicate, find_index,
}
use csapp_lab_code.Base.Int.{ℤ, pos, pos_part, ltb_ℤ}

abbrev pub maxjobs : ℕ
maxjobs = 16

pub data JobState : Type 0 where
  undef fg bg st : JobState

abbrev pub is_fg : JobState → Bool
is_fg fg = true
is_fg _ = false

abbrev pub is_bg : JobState → Bool
is_bg bg = true
is_bg _ = false

-- a C string, less its NUL
abbrev pub Text : Type 0
Text = List ℕ

pub record Job : Type 0 where
  pub pid : ℕ
  pub jid : ℕ
  pub state : JobState
  pub cmdline : Text

-- One constructor for each `printf` of the shell, and one for `kill`.
pub data Effect : Type 0 where
  added_job : (jid pid : ℕ) → Text → Effect
  job_line : (jid pid : ℕ) → Text → Effect
  listed : (jid pid : ℕ) → JobState → Text → Effect
  too_many_jobs : Effect
  needs_argument : Text → Effect
  bad_argument : Text → Effect
  no_such_job : Text → Effect
  no_such_process : Text → Effect
  terminated : (jid pid sig : ℕ) → Effect
  stopped : (jid pid sig : ℕ) → Effect
  sent : (pgid sig : ℕ) → Effect

pub record Shell : Type 0 where
  pub jobs : List Job
  pub nextjid : ℕ
  pub verbose : Bool
  pub trace : List Effect

abbrev pub emit : Effect → Shell → Shell
emit e s = record s { trace = s.trace ++ e ∷ [] }

-- what `clearjob` leaves behind
abbrev pub clearjob : Job → Job
clearjob j = record { pid = 0; jid = 0; state = undef; cmdline = [] }

abbrev pub cleared : Job
cleared = record { pid = 0; jid = 0; state = undef; cmdline = [] }

unfoldable pub initjobs : List Job → List Job
initjobs [] = []
initjobs (j ∷ js) = clearjob j ∷ initjobs js

unfoldable pub maxjid_loop : ℕ → List Job → ℕ
maxjid_loop max [] = max
maxjid_loop max (j ∷ js) = maxjid_loop (if ltb max j.jid then j.jid else max) js

unfoldable pub maxjid : List Job → ℕ
unfolding maxjid_loop
maxjid js = maxjid_loop 0 js

-- the search loop that `addjob` (for pid 0), `deletejob`, `getjobpid` and `pid2jid` share
abbrev pub find_pid : ℕ → List Job → Option ℕ
find_pid p = find_index (λ j. j.pid == p)

-- `job->field`, for an index that a search has found
abbrev pub job_at : List Job → ℕ → Job
job_at js i = get_or js i cleared

unfoldable pub printjob : ℕ → Shell → Shell
printjob i s = let j = job_at s.jobs i in emit (job_line j.jid j.pid j.cmdline) s

-- the body of the `if` in the loop of `addjob`, at entry `i`
unfoldable pub fill_entry : ℕ → ℕ → JobState → Text → Shell → Shell
unfolding printjob
fill_entry i pid state cmdline s =
    let j : Job = record { pid = pid; jid = s.nextjid; state = state; cmdline = cmdline } in
    let next = if ltb maxjobs (s.nextjid + 1) then 1 else s.nextjid + 1 in
    let s' : Shell = record s { jobs = set s.jobs i j; nextjid = next } in
    let s'' = if s.verbose then emit (added_job j.jid pid cmdline) s' else s' in
    if is_fg state then s'' else printjob i s''

unfoldable pub addjob : Shell → ℤ → JobState → Text → Bool × Shell
unfolding fill_entry
addjob s pid state cmdline = if ltb_ℤ pid (pos 1) then (false, s) else elim (find_pid 0 s.jobs) [
  | none ↦ (false, emit too_many_jobs s)
  | some i ↦ (true, fill_entry i (pos_part pid) state cmdline s)
]

unfoldable pub clear_entry : ℕ → Shell → Shell
unfolding maxjid
clear_entry i s =
    let js = set s.jobs i (clearjob (job_at s.jobs i)) in
    record s { jobs = js; nextjid = maxjid js + 1 }

unfoldable pub deletejob : Shell → ℤ → Bool × Shell
unfolding clear_entry
deletejob s pid = if ltb_ℤ pid (pos 1) then (false, s) else elim (find_pid (pos_part pid) s.jobs) [
  | none ↦ (false, s)
  | some i ↦ (true, clear_entry i s)
]

-- 0 if no job is in the foreground
unfoldable pub fgpid : List Job → ℕ
fgpid js = elim (find_index (λ j. is_fg j.state) js) [ none ↦ 0 | some i ↦ (job_at js i).pid ]

unfoldable pub getjobpid : List Job → ℤ → Option ℕ
getjobpid js pid = if ltb_ℤ pid (pos 1) then none else find_pid (pos_part pid) js

unfoldable pub getjobjid : List Job → ℤ → Option ℕ
getjobjid js jid = if ltb_ℤ jid (pos 1) then none else find_index (λ j. j.jid == pos_part jid) js

unfoldable pub pid2jid : List Job → ℤ → ℕ
pid2jid js pid =
    if ltb_ℤ pid (pos 1)
    then 0
    else elim (find_pid (pos_part pid) js) [ none ↦ 0 | some i ↦ (job_at js i).jid ]

list_lines : Bool → List Job → List Effect
list_lines all [] = []
list_lines all (j ∷ js) =
    if not (j.pid == 0) && (all || not (is_fg j.state))
    then listed j.jid j.pid j.state j.cmdline ∷ list_lines all js
    else list_lines all js

unfoldable pub listjobs : Shell → Shell
unfolding list_lines
listjobs s = record s { trace = s.trace ++ list_lines true s.jobs }

-- `listjobs` without the foreground job
unfoldable pub listbgjobs : Shell → Shell
unfolding list_lines
listbgjobs s = record s { trace = s.trace ++ list_lines false s.jobs }

-- the state in which `main` enters its loop
unfoldable pub start : Bool → List Job → Shell
unfolding initjobs
start verbose jobs = record { jobs = initjobs jobs; nextjid = 1; verbose = verbose; trace = [] }
