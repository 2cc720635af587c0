-- ===== src/Shell/Session/Safety.antt =====
-- The invariant of the shell, over every sequence of commands and signals.
use csapp_lab_code.Base.{
  ℕ, zero, suc, ◌<◌, ◌≡◌, refl, ◌∙◌, ◌≢◌, Bool, true, false, Option, none, some, List, [], ◌∷◌,
  arith, ◌==◌, Bool-cases, Option-cases, inl, inr, get_elem?, find_index, find_index-some, ◌||◌,
}
use csapp_lab_code.Base.Int.{ℤ, pos, negsuc, pos_part}
use csapp_lab_code.Shell.Jobs.{
  Text, Job, fg, bg, Shell, find_pid, getjobpid, getjobjid, printjob, listjobs,
}
use csapp_lab_code.Shell.Jobs.Table.{IsTable}
use csapp_lab_code.Shell.Jobs.Search.{find_pid-some, job_at-get}
use csapp_lab_code.Shell.Signals.{
  Change, Handled, returned, jumped, crashed, sigint_handler, sigtstp_handler, set_state,
}
use csapp_lab_code.Shell.Signals.Handler.{
  Reaps, NextPos, sigchld_handler-Reaps, sigchld_handler-NextPos,
}
use csapp_lab_code.Shell.Parse.{parseline, parsed, overrun, Parsed}
use csapp_lab_code.Shell.Eval.{
  Next, prompt, waitfg, exits, child, broken, switch_job, by_jid, by_pid, do_bgfg, builtin_cmd,
  is_zero, run_job, eval_argv, eval, same_text, text_bg, text_fg, text_quit, text_jobs,
}
use csapp_lab_code.Shell.Session.{
  CanFork, Step, command, chld_prompt, chld_wait, int_wait, tstp_wait, int_prompt, tstp_prompt,
  Reach, here, then_step, resume_prompt, resume_wait,
}
use csapp_lab_code.Shell.Session.Kept.{
  AtPrompt, Waits, addjob-AtPrompt, addjob-Waits, set_state-AtPrompt, set_state-Waits,
}

-- At the prompt no job is in the foreground; in `waitfg` the awaited process is the foreground job;
-- and the shell never goes through a null pointer, a dead jump buffer or the end of an array.
abbrev pub IsSafe : Next → Type 0
IsSafe (prompt s) = AtPrompt s
IsSafe (waitfg s p) = Waits s p
IsSafe (exits n) = Unit
IsSafe (child argv) = Unit
IsSafe broken = ⊥

abbrev AllSafe : Option Next → Type 0
AllSafe none = Unit
AllSafe (some n) = IsSafe n

-- The handler returns to the prompt, since there is no foreground job to wait for.
chld_prompt-IsSafe :
    (s : Shell) (cs : List Change) (r : Handled)
    → AtPrompt s
    → Reaps s cs r
    → NextPos r
    → IsSafe (resume_prompt r)
chld_prompt-IsSafe s cs (returned u) v (t, kept, all) pos_next = record {
  table = t;
  next = pos_next;
  quiet = kept ∙ v.quiet;
}
chld_prompt-IsSafe s cs (jumped u rest) v (done, split, t, was, calm, all) pos_next =
    absurd (was v.quiet)
chld_prompt-IsSafe s cs crashed v bad pos_next = bad

chld_wait-IsSafe :
    (s : Shell) (p : ℕ) (cs : List Change) (r : Handled)
    → Waits s p
    → Reaps s cs r
    → NextPos r
    → IsSafe (resume_wait p r)
chld_wait-IsSafe s p cs (returned u) v (t, kept, all) pos_next = record {
  table = t;
  next = pos_next;
  front = kept ∙ v.front;
  live = v.live;
}
chld_wait-IsSafe s p cs (jumped u rest) v (done, split, t, was, calm, all) pos_next = record {
  table = t;
  next = pos_next;
  quiet = calm;
}
chld_wait-IsSafe s p cs crashed v bad pos_next = bad

-- Only `trace` differs.
traced-AtPrompt :
    (s s' : Shell) → s'.jobs ≡ s.jobs → s'.nextjid ≡ s.nextjid → AtPrompt s → AtPrompt s'
traced-AtPrompt s s' e f v = record {
  table = rw e v.table;
  next = rw f v.next;
  quiet = rw e v.quiet;
}

traced-Waits :
    (s s' : Shell) (p : ℕ) → s'.jobs ≡ s.jobs → s'.nextjid ≡ s.nextjid → Waits s p → Waits s' p
traced-Waits s s' p e f v = record {
  table = rw e v.table;
  next = rw f v.next;
  front = rw e v.front;
  live = v.live;
}

getjobjid-some :
    (js : List Job) (jid : ℤ) (i : ℕ)
    → IsTable js
    → getjobjid js jid ≡ some i
    → (j : Job) × (get_elem? js i ≡ some j) × (0 < j.pid)
unfolding getjobjid
getjobjid-some js jid i t e =
    let found : find_index (λ j. j.jid == pos_part jid) js ≡ some i = ground arith in
    let (j, h, same) = find_index-some (λ j. j.jid == pos_part jid) js i found in
    let ok = t.slots i j h in (j, h, ground (arith, ok.free_jid))

getjobpid-some :
    (js : List Job) (pid : ℤ) (i : ℕ)
    → getjobpid js pid ≡ some i
    → (j : Job) × (get_elem? js i ≡ some j) × (0 < j.pid)
unfolding getjobpid
getjobpid-some js pid i e =
    let found : find_pid (pos_part pid) js ≡ some i = ground arith in
    let (j, h, same) = find_pid-some (pos_part pid) js i found in (j, h, ground arith)

module _ (atoi : Text → ℤ) (sigcont : ℕ) where
  switch_job-IsSafe :
      (name : Text) (s : Shell) (i : ℕ) (j : Job)
      → AtPrompt s
      → get_elem? s.jobs i ≡ some j
      → 0 < j.pid
      → IsSafe (switch_job atoi sigcont name i s)
  unfolding switch_job printjob
  switch_job-IsSafe name s i j v h lt = elim (Bool-cases (same_text name text_bg)) [
    | inl back ↦
        rw back (traced-AtPrompt (set_state i bg s) _ refl refl (set_state-AtPrompt s i j v h lt))
    | inr front ↦
        rw (front, job_at-get s.jobs i h)
          (traced-Waits (set_state i fg s) _ j.pid (rw (job_at-get s.jobs i h)) refl
            (set_state-Waits s i j v h lt))
  ]

  by_jid-IsSafe :
      (name arg digits : Text) (s : Shell)
      → AtPrompt s
      → IsSafe (by_jid atoi sigcont name arg digits s)
  unfolding by_jid
  by_jid-IsSafe name arg digits s v = elim (Bool-cases (is_zero (atoi digits))) [
    | inl nil ↦ rw nil (traced-AtPrompt s _ refl refl v)
    | inr number ↦ rw number (elim (Option-cases (getjobjid s.jobs (atoi digits))) [
      | inl gone ↦ rw gone (traced-AtPrompt s _ refl refl v)
      | inr (i, found) ↦
          let (j, h, lt) = getjobjid-some s.jobs (atoi digits) i v.table found in
          rw found (switch_job-IsSafe name s i j v h lt)
    ])
  ]

  by_pid-IsSafe :
      (name arg : Text) (s : Shell) → AtPrompt s → IsSafe (by_pid atoi sigcont name arg s)
  unfolding by_pid
  by_pid-IsSafe name arg s v = elim (Bool-cases (is_zero (atoi arg))) [
    | inl nil ↦ rw nil (traced-AtPrompt s _ refl refl v)
    | inr number ↦ rw number (elim (Option-cases (getjobpid s.jobs (atoi arg))) [
      | inl gone ↦ rw gone (traced-AtPrompt s _ refl refl v)
      | inr (i, found) ↦
          let (j, h, lt) = getjobpid-some s.jobs (atoi arg) i found in
          rw found (switch_job-IsSafe name s i j v h lt)
    ])
  ]

  do_bgfg-IsSafe :
      (name : Text) (args : List Text) (s : Shell)
      → AtPrompt s
      → IsSafe (do_bgfg atoi sigcont name args s)
  unfolding do_bgfg
  do_bgfg-IsSafe name [] s v = traced-AtPrompt s _ refl refl v
  do_bgfg-IsSafe name ([] ∷ more) s v = by_pid-IsSafe name [] s v
  do_bgfg-IsSafe name ((c ∷ cs) ∷ more) s v = elim (Bool-cases (c == b'%')) [
    | inl jid ↦ rw jid (by_jid-IsSafe name (c ∷ cs) cs s v)
    | inr pid ↦ rw pid (by_pid-IsSafe name (c ∷ cs) s v)
  ]

  run_job-IsSafe :
      (s : Shell) (cmdline : Text) (in_bg : Bool) (argv : List Text) (fork : ℤ)
      → AtPrompt s
      → CanFork s fork
      → IsSafe (run_job atoi sigcont s cmdline in_bg argv fork)
  unfolding run_job
  run_job-IsSafe s cmdline in_bg argv (negsuc n) v can = tt
  run_job-IsSafe s cmdline in_bg argv (pos zero) v can = tt
  run_job-IsSafe s cmdline true argv (pos (suc p)) v can =
      let ne : (suc p == 0) ≡ false = ground arith in
      rw ne (addjob-AtPrompt s (suc p) cmdline v (omega arith) can.0 can.1)
  run_job-IsSafe s cmdline false argv (pos (suc p)) v can =
      let ne : (suc p == 0) ≡ false = ground arith in
      rw ne (addjob-Waits s (suc p) cmdline v (omega arith) can.0 can.1)

  builtin_cmd-IsSafe :
      (name : Text) (args : List Text) (s : Shell)
      → AtPrompt s
      → AllSafe (builtin_cmd atoi sigcont name args s)
  unfolding builtin_cmd
  builtin_cmd-IsSafe name args s v = elim (Bool-cases (same_text name text_quit)) [
    | inl quit ↦ rw quit tt
    | inr stay ↦ rw stay (elim (Bool-cases (same_text name text_bg || same_text name text_fg)) [
      | inl switch ↦ rw switch (do_bgfg-IsSafe name args s v)
      | inr other ↦ rw other (elim (Bool-cases (same_text name text_jobs)) [
        | inl jobs ↦ rw jobs (unfold listjobs in traced-AtPrompt s _ refl refl v)
        | inr none_of_them ↦ rw none_of_them tt
      ])
    ])
  ]

  eval_argv-IsSafe :
      (s : Shell) (cmdline : Text) (in_bg : Bool) (argv : List Text) (fork : ℤ)
      → AtPrompt s
      → CanFork s fork
      → IsSafe (eval_argv atoi sigcont s cmdline in_bg argv fork)
  unfolding eval_argv
  eval_argv-IsSafe s cmdline in_bg [] fork v can = v
  eval_argv-IsSafe s cmdline in_bg (name ∷ args) fork v can =
      let safe = builtin_cmd-IsSafe name args s v in
      elim (Option-cases (builtin_cmd atoi sigcont name args s)) [
        | inl gone ↦ rw (gone, IsSafe) (run_job-IsSafe s cmdline in_bg (name ∷ args) fork v can)
        | inr (n, e) ↦ rw (e, IsSafe) (rw e at safe)
      ]

  eval_parsed-IsSafe :
      (s : Shell) (cmdline : Text) (fork : ℤ) (r : Parsed)
      → AtPrompt s
      → CanFork s fork
      → parseline cmdline ≡ r
      → r ≢ overrun
      → IsSafe (eval atoi sigcont s cmdline fork)
  unfolding eval
  eval_parsed-IsSafe s cmdline fork overrun v can e short = absurd (short refl)
  eval_parsed-IsSafe s cmdline fork (parsed in_bg argv) v can e short =
      rw (e, IsSafe) (eval_argv-IsSafe s cmdline in_bg argv fork v can)

  -- At the prompt, a command line that overruns no buffer leaves the shell safe, if `fork` gives an
  -- id that no job has and the list has room: back at the prompt with no foreground job, in
  -- `waitfg` for the foreground job, ended, or in the child.
  pub eval-IsSafe :
      (s : Shell) (cmdline : Text) (fork : ℤ)
      → AtPrompt s
      → CanFork s fork
      → parseline cmdline ≢ overrun
      → IsSafe (eval atoi sigcont s cmdline fork)
  eval-IsSafe s cmdline fork v can short =
      eval_parsed-IsSafe s cmdline fork (parseline cmdline) v can refl short

  Step-IsSafe : {a b : Next} → Step atoi sigcont a b → IsSafe a → IsSafe b
  Step-IsSafe (command {s} cmdline fork can short) v = eval-IsSafe s cmdline fork v can short
  Step-IsSafe (chld_prompt {s} cs known) v =
      chld_prompt-IsSafe s cs _ v (sigchld_handler-Reaps s cs v.table known)
        (sigchld_handler-NextPos s cs v.next)
  Step-IsSafe (chld_wait {s} {p} cs known) v =
      chld_wait-IsSafe s p cs _ v (sigchld_handler-Reaps s cs v.table known)
        (sigchld_handler-NextPos s cs v.next)
  Step-IsSafe (int_wait {s} {p} sig) v =
      traced-Waits s _ p (unfold sigint_handler in ground arith)
        (unfold sigint_handler in ground arith) v
  Step-IsSafe (tstp_wait {s} {p} sig) v =
      traced-Waits s _ p (unfold sigtstp_handler in ground arith)
        (unfold sigtstp_handler in ground arith) v
  Step-IsSafe (int_prompt {s} sig) v =
      traced-AtPrompt s _ (unfold sigint_handler in ground arith)
        (unfold sigint_handler in ground arith) v
  Step-IsSafe (tstp_prompt {s} sig) v =
      traced-AtPrompt s _ (unfold sigtstp_handler in ground arith)
        (unfold sigtstp_handler in ground arith) v

  -- From a safe state the shell stays safe, whatever is typed and whatever signals come.
  pub Reach-IsSafe : {a b : Next} → Reach atoi sigcont a b → IsSafe a → IsSafe b
  Reach-IsSafe here v = v
  Reach-IsSafe (then_step r st) v = Step-IsSafe st (Reach-IsSafe r v)
