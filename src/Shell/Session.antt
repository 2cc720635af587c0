-- ===== src/Shell/Session.antt =====
-- The shell as a transition system: commands at the prompt, and signals at the prompt and in
-- `waitfg`. A command line overruns no buffer. Commands are atomic here: a signal comes between two of them, or while `waitfg` pauses.
pub mod Kept
pub mod Safety
pub mod Start
use csapp_lab_code.Base.{
  ℕ, zero, suc, ◌+◌, ◌<◌, ◌≡◌, refl, ◌≢◌, Bool, true, false, Option, none, some, List, [], ◌∷◌,
  ◌++◌, arith, ◌==◌, if◌then◌else◌, Bool-cases, Option-cases, inl, inr, ◌⊎◌, get_elem?, set,
  get_elem?-lt, length,
}
use csapp_lab_code.Base.Int.{ℤ, pos, negsuc, pos_part}
use csapp_lab_code.Shell.Jobs.{
  Text, Job, JobState, fg, bg, undef, Shell, job_at, fgpid, find_pid, addjob, getjobpid, getjobjid,
  maxjobs,
}
use csapp_lab_code.Shell.Jobs.Table.{IsTable, set-IsTable}
use csapp_lab_code.Shell.Jobs.Views.{entry, IsFresh}
use csapp_lab_code.Shell.Signals.{
  Change, Handled, returned, jumped, crashed, sigchld_handler, sigint_handler, sigtstp_handler,
}
use csapp_lab_code.Shell.Signals.Handler.{IsKnown, Reaps, sigchld_handler-Reaps}
use csapp_lab_code.Shell.Parse.{parseline, overrun}
use csapp_lab_code.Shell.Eval.{Next, prompt, waitfg, exits, child, broken, eval}

-- Where `main` stands when the handler returns to the prompt: a jump there has no live target.
abbrev pub resume_prompt : Handled → Next
resume_prompt (returned s) = prompt s
resume_prompt (jumped s rest) = broken
resume_prompt crashed = broken

-- In `waitfg` the jump ends the wait.
abbrev pub resume_wait : ℕ → Handled → Next
resume_wait p (returned s) = waitfg s p
resume_wait p (jumped s rest) = prompt s
resume_wait p crashed = broken

-- `fork` gives an id that no job has, and the job list has room.
abbrev pub CanFork : Shell → ℤ → Type 0
CanFork s (negsuc n) = Unit
CanFork s (pos p) = IsFresh p s.jobs × (find_pid 0 s.jobs ≢ none)

module _ (atoi : Text → ℤ) (sigcont : ℕ) where
  pub data Step : Next → Next → Type 0 where
    command :
        {s : Shell} (cmdline : Text) (fork : ℤ)
        → CanFork s fork
        → parseline cmdline ≢ overrun
        → Step (prompt s) (eval atoi sigcont s cmdline fork)
    chld_prompt :
        {s : Shell} (cs : List Change)
        → IsKnown s.jobs cs
        → Step (prompt s) (resume_prompt (sigchld_handler s cs))
    chld_wait :
        {s : Shell} {p : ℕ} (cs : List Change)
        → IsKnown s.jobs cs
        → Step (waitfg s p) (resume_wait p (sigchld_handler s cs))
    int_wait : {s : Shell} {p : ℕ} (sig : ℕ) → Step (waitfg s p) (waitfg (sigint_handler s sig) p)
    tstp_wait : {s : Shell} {p : ℕ} (sig : ℕ) → Step (waitfg s p) (waitfg (sigtstp_handler s sig) p)
    int_prompt : {s : Shell} (sig : ℕ) → Step (prompt s) (prompt (sigint_handler s sig))
    tstp_prompt : {s : Shell} (sig : ℕ) → Step (prompt s) (prompt (sigtstp_handler s sig))

  pub data Reach (from : Next) : Next → Type 0 where
    here : Reach from from
    then_step : {a b : Next} → Reach from a → Step a b → Reach from b
