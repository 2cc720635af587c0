-- ===== src/Shell/Eval.antt =====
-- `eval`, `builtin_cmd` and `do_bgfg` of tsh.c. Parameters are what libc and the kernel give:
-- `atoi`, the number of SIGCONT, and the return value of `fork`.
use csapp_lab_code.Base.{
  ℕ, Bool, true, false, Option, none, some, List, [], ◌∷◌, ◌||◌, ◌&&◌, ◌==◌, if◌then◌else◌,
}
use csapp_lab_code.Base.Int.{ℤ, pos, negsuc}
use csapp_lab_code.Shell.Jobs.{
  Text, fg, bg, Shell, emit, needs_argument, bad_argument, no_such_job, no_such_process, sent,
  job_at, printjob, addjob, getjobpid, getjobjid, listjobs,
}
use csapp_lab_code.Shell.Signals.{set_state}
use csapp_lab_code.Shell.Parse.{parsed, overrun, parseline}

-- Where control is after a command: back in the loop of `main`, in `waitfg`, ended with a status,
-- in the child (which calls `execve` with the arguments), or past the end of an array.
pub data Next : Type 0 where
  prompt : Shell → Next
  waitfg : Shell → ℕ → Next
  exits : ℕ → Next
  child : List Text → Next
  broken : Next

-- `strcmp(a, b) == 0`
abbrev pub same_text : Text → Text → Bool
same_text [] [] = true
same_text [] (d ∷ ds) = false
same_text (c ∷ cs) [] = false
same_text (c ∷ cs) (d ∷ ds) = (c == d) && same_text cs ds

abbrev pub text_bg : Text
text_bg = b'b' ∷ b'g' ∷ []

abbrev pub text_fg : Text
text_fg = b'f' ∷ b'g' ∷ []

abbrev pub text_quit : Text
text_quit = b'q' ∷ b'u' ∷ b'i' ∷ b't' ∷ []

abbrev pub text_jobs : Text
text_jobs = b'j' ∷ b'o' ∷ b'b' ∷ b's' ∷ []

abbrev pub is_zero : ℤ → Bool
is_zero (pos n) = n == 0
is_zero (negsuc n) = false

module _ (atoi : Text → ℤ) (sigcont : ℕ) where
  -- the last part of `do_bgfg`, with `job` at entry `i`
  unfoldable pub switch_job : Text → ℕ → Shell → Next
  switch_job name i s =
      let pid = (job_at s.jobs i).pid in
      let s' = emit (sent pid sigcont) s in
      if same_text name text_bg
      then prompt (printjob i (set_state i bg s'))
      else waitfg (set_state i fg s') pid

  -- `%jobid`
  unfoldable pub by_jid : Text → Text → Text → Shell → Next
  by_jid name arg digits s =
      let jid = atoi digits in
      if is_zero jid then prompt (emit (bad_argument name) s) else elim (getjobjid s.jobs jid) [
        | none ↦ prompt (emit (no_such_job arg) s)
        | some i ↦ switch_job name i s
      ]

  unfoldable pub by_pid : Text → Text → Shell → Next
  by_pid name arg s =
      let pid = atoi arg in
      if is_zero pid then prompt (emit (bad_argument name) s) else elim (getjobpid s.jobs pid) [
        | none ↦ prompt (emit (no_such_process arg) s)
        | some i ↦ switch_job name i s
      ]

  unfoldable pub do_bgfg : Text → List Text → Shell → Next
  unfolding by_jid by_pid switch_job
  do_bgfg name [] s = prompt (emit (needs_argument name) s)
  do_bgfg name ([] ∷ more) s = by_pid name [] s
  do_bgfg name ((c ∷ cs) ∷ more) s =
      if c == b'%' then by_jid name (c ∷ cs) cs s else by_pid name (c ∷ cs) s

  -- `none` if the command is not a built-in one
  unfoldable pub builtin_cmd : Text → List Text → Shell → Option Next
  unfolding do_bgfg
  builtin_cmd name args s =
      if same_text name text_quit
      then some (exits 0)
      else if same_text name text_bg || same_text name text_fg
      then some (do_bgfg name args s)
      else if same_text name text_jobs
      then some (prompt (listjobs s))
      else none

  -- `eval` behind its call of `fork`; SIGCHLD is blocked until the job is in the list
  unfoldable pub run_job : Shell → Text → Bool → List Text → ℤ → Next
  run_job s cmdline in_bg argv (negsuc n) = exits 1
  run_job s cmdline in_bg argv (pos p) =
      if p == 0
      then child argv
      else if in_bg
      then prompt (addjob s (pos p) bg cmdline).1
      else waitfg (addjob s (pos p) fg cmdline).1 p

  unfoldable pub eval_argv : Shell → Text → Bool → List Text → ℤ → Next
  eval_argv s cmdline in_bg [] fork = prompt s
  eval_argv s cmdline in_bg (name ∷ args) fork = elim (builtin_cmd name args s) [
    | some next ↦ next
    | none ↦ run_job s cmdline in_bg (name ∷ args) fork
  ]

  unfoldable pub eval : Shell → Text → ℤ → Next
  unfolding eval_argv
  eval s cmdline fork = elim (parseline cmdline) [
    | overrun ↦ broken
    | parsed in_bg argv ↦ eval_argv s cmdline in_bg argv fork
  ]
