-- ===== src/Shell/Signals.antt =====
-- The signal handlers of tsh.c. `sigchld_handler` is run on the list of what its calls of `waitpid`
-- return, in order; it may leave by `siglongjmp`, and the part of the list that it has not read
-- stays with the kernel.
pub mod Reaping
pub mod Handler
use csapp_lab_code.Base.{
  ℕ, Bool, true, false, Option, none, some, List, [], ◌∷◌, ◌||◌, not, ◌==◌, if◌then◌else◌, get_or,
  set,
}
use csapp_lab_code.Base.Int.{ℤ, pos}
use csapp_lab_code.Shell.Jobs.{
  Job, JobState, undef, fg, bg, st, is_fg, is_bg, Text, Shell, Effect, terminated, stopped, sent,
  emit, job_at, printjob, deletejob, fgpid, getjobpid, cleared,
}

-- The `status` word of `waitpid`, as the W… macros read it.
pub data Status : Type 0 where
  exited : Status
  signaled : (sig : ℕ) → Status
  stopped_by : (sig : ℕ) → Status
  continued : Status

-- A child whose state has changed: its process id and its status.
pub record Change : Type 0 where
  pub pid : ℕ
  pub status : Status

-- How the handler ends: it returns, it jumps to `waitfg` with changes left unread, or it goes
-- through the null pointer that `getjobpid` gave it.
pub data Handled : Type 0 where
  returned : Shell → Handled
  jumped : Shell → List Change → Handled
  crashed : Handled

abbrev pub set_state : ℕ → JobState → Shell → Shell
set_state i state s = record s { jobs = set s.jobs i (record (job_at s.jobs i) { state = state }) }

-- One round of the handler's loop for the job at entry `i`: the new state, and whether it jumps.
unfoldable pub reap : Shell → ℕ → ℕ → Status → Shell × Bool
reap s i pid exited = ((deletejob s (pos pid)).1, is_fg (job_at s.jobs i).state)
reap s i pid (signaled sig) =
    let s' = emit (terminated (job_at s.jobs i).jid pid sig) s in
    ((deletejob s' (pos pid)).1, is_fg (job_at s.jobs i).state)
reap s i pid (stopped_by sig) =
    let s' = set_state i st s in
    (emit (stopped (job_at s'.jobs i).jid pid sig) s', is_fg (job_at s.jobs i).state)
reap s i pid continued =
    let j = job_at s.jobs i in
    (if is_fg j.state || is_bg j.state then s else printjob i (set_state i bg s), false)

unfoldable pub sigchld_handler : Shell → List Change → Handled
sigchld_handler s [] = returned s
sigchld_handler s (c ∷ cs) =
    if c.pid == 0 then returned s else elim (getjobpid s.jobs (pos c.pid)) [
      | none ↦ crashed
      | some i ↦
          let next = reap s i c.pid c.status in
          let rest = sigchld_handler next.0 cs in if next.1 then jumped next.0 cs else rest
    ]

-- `kill(-pid, sig)` to the foreground job, if there is one
unfoldable pub sigint_handler : Shell → ℕ → Shell
sigint_handler s sig = let pid = fgpid s.jobs in if pid == 0 then s else emit (sent pid sig) s

unfoldable pub sigtstp_handler : Shell → ℕ → Shell
sigtstp_handler s sig =
    let pid = fgpid s.jobs in
    if pid == 0
    then s
    else elim (getjobpid s.jobs (pos pid)) [ none ↦ s | some i ↦ emit (sent pid sig) s ]
