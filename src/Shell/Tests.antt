-- ===== src/Shell/Tests.antt =====
-- The theorems on shlab_code/tsh.c at concrete job lists, command lines and signals.
use csapp_lab_code.Base.{
  ℕ, zero, suc, ◌≡◌, refl, ◌≢◌, true, false, none, some, List, [], ◌∷◌, ◌++◌, arith, get_elem?,
  replicate, get_elem?-replicate, find_index,
}
use csapp_lab_code.Base.Int.{ℤ, pos}
use csapp_lab_code.Shell.Jobs.{
  Text, Job, fg, bg, Shell, cleared, addjob, deletejob, initjobs, start, find_pid, fill_entry,
  clear_entry, maxjid, maxjid_loop, printjob,
}
use csapp_lab_code.Shell.Jobs.Table.{IsTable}
use csapp_lab_code.Shell.Jobs.Views.{entry, IsFresh, addjob-entry, deletejob-entry}
use csapp_lab_code.Shell.Jobs.Numbers.{
  IsNumbered, addjob-IsNumbered, deletejob-IsNumbered, addjob-reuses_jid,
}
use csapp_lab_code.Shell.Signals.{exited, stopped_by, Change, crashed, reap, sigchld_handler}
use csapp_lab_code.Shell.Signals.Reaping.{Reaped, reap-entry}
use csapp_lab_code.Shell.Signals.Handler.{Reaps, IsKnown, sigchld_handler-Reaps}
use csapp_lab_code.Shell.Parse.{parseline, overrun}
use csapp_lab_code.Shell.Parse.Words.{parseline_short}
use csapp_lab_code.Shell.Eval.{eval}
use csapp_lab_code.Shell.Session.{here, then_step, command}
use csapp_lab_code.Shell.Session.Kept.{AtPrompt}
use csapp_lab_code.Shell.Session.Safety.{IsSafe}
use csapp_lab_code.Shell.Session.Start.{start-AtPrompt, addjob_full_crashes}
use csapp_lab_code.Shell.Main.{parse_options, enter_main, main-IsSafe}

-- `ls &` and a newline
abbrev ls_typed : Text
ls_typed = b'l' ∷ b's' ∷ b' ' ∷ b'&' ∷ []

abbrev ls_line : Text
ls_line = ls_typed ++ b'\n' ∷ []

abbrev fresh_shell : Shell
fresh_shell = record { jobs = replicate 16 cleared; nextjid = 1; verbose = false; trace = [] }

abbrev ls_job : Job
ls_job = record { pid = 100; jid = 1; state = fg; cmdline = ls_line }

-- one foreground job
abbrev busy_shell : Shell
busy_shell = record {
  jobs = ls_job ∷ replicate 15 cleared;
  nextjid = 2;
  verbose = false;
  trace = [];
}

abbrev full_shell : Shell
full_shell = record { jobs = replicate 16 ls_job; nextjid = 1; verbose = false; trace = [] }

abbrev no_atoi : Text → ℤ
no_atoi t = pos 0

fresh-AtPrompt : AtPrompt fresh_shell
unfolding start initjobs
fresh-AtPrompt = start-AtPrompt false (replicate 16 cleared) refl

no_job_yet : IsFresh 100 fresh_shell.jobs
no_job_yet i j h = ground (arith, get_elem?-replicate 16 cleared i j h)

busy-IsTable : IsTable busy_shell.jobs
unfolding addjob fill_entry find_index printjob
busy-IsTable =
    (addjob-entry fresh_shell 100 0 100 fg ls_line (fresh-AtPrompt.table) (fresh-AtPrompt.next)
      (omega arith) (omega arith) no_job_yet (λ e. fresh-AtPrompt.quiet) (λ e. cc) refl).1

addjob-entry_example :
    ((addjob fresh_shell (pos 100) fg ls_line).0 ≡ true)
    × IsTable (addjob fresh_shell (pos 100) fg ls_line).1.jobs
    × (entry 100 (addjob fresh_shell (pos 100) fg ls_line).1.jobs ≡ some ls_job)
unfolding find_index
addjob-entry_example =
    addjob-entry fresh_shell 100 0 100 fg ls_line (fresh-AtPrompt.table) (fresh-AtPrompt.next)
      (omega arith) (omega arith) no_job_yet (λ e. fresh-AtPrompt.quiet) (λ e. cc) refl

deletejob-entry_example :
    IsTable (deletejob busy_shell (pos 100)).1.jobs
    × (entry 100 (deletejob busy_shell (pos 100)).1.jobs ≡ none)
    × ((deletejob busy_shell (pos 100)).0 ≡ true)
unfolding entry find_index
deletejob-entry_example =
    deletejob-entry busy_shell 100 100 busy-IsTable (omega arith) (omega arith)

fresh-IsNumbered : IsNumbered fresh_shell
fresh-IsNumbered = record {
  below = λ i j h. ground (arith, get_elem?-replicate 16 cleared i j h);
  unique = λ i k j l h at lt e. ground (arith, get_elem?-replicate 16 cleared i j h);
}

busy-IsNumbered : IsNumbered busy_shell
unfolding addjob fill_entry find_index printjob
busy-IsNumbered =
    addjob-IsNumbered fresh_shell 100 fg ls_line fresh-IsNumbered (omega arith) (omega arith)
      (omega arith)

deletejob-IsNumbered_example : IsNumbered (deletejob busy_shell (pos 100)).1
unfolding find_index
deletejob-IsNumbered_example =
    deletejob-IsNumbered busy_shell 100 0 (omega arith) refl
      (λ a b j l h at lt e. busy-IsNumbered.unique a b j l h at lt e)

abbrev added_jobs : ℕ → Shell → Shell
added_jobs zero s = s
added_jobs (suc n) s = (addjob (added_jobs n s) (pos (suc n)) bg ls_line).1

-- Of sixteen jobs, two in the middle have ended.
abbrev two_ended : Shell
two_ended = (deletejob (deletejob (added_jobs 16 fresh_shell) (pos 5)).1 (pos 6)).1

addjob-reuses_jid_example :
    (j : Job) × (get_elem?
        (addjob (addjob two_ended (pos 17) bg ls_line).1 (pos 18) bg ls_line).1.jobs
        5
      ≡ some j)
    × (get_elem? (addjob (addjob two_ended (pos 17) bg ls_line).1 (pos 18) bg ls_line).1.jobs 0
        ≡ some (record { pid = 1; jid = 1; state = bg; cmdline = ls_line }))
    × (j.jid ≡ 1)
    × ◌≢◌ {A = ℕ} 5 0
unfolding addjob fill_entry find_index printjob deletejob clear_entry maxjid maxjid_loop
addjob-reuses_jid_example =
    addjob-reuses_jid two_ended 17 18 4 5 0
      (record { pid = 1; jid = 1; state = bg; cmdline = ls_line }) bg bg ls_line ls_line
      (omega arith) (omega arith) (omega arith) refl (omega arith) refl refl refl

abbrev ctrl_z : List Change
ctrl_z = record { pid = 100; status = stopped_by 20 } ∷ []

reap-entry_example :
    Reaped busy_shell 100 ls_job 100 (stopped_by 20) (reap busy_shell 0 100 (stopped_by 20))
reap-entry_example =
    reap-entry busy_shell 0 ls_job 100 (stopped_by 20) busy-IsTable refl (omega arith) (omega arith)

busy-IsKnown : IsKnown busy_shell.jobs ctrl_z
unfolding entry find_index
busy-IsKnown = (omega arith, λ e. cc, tt, tt)

sigchld_handler-Reaps_example : Reaps busy_shell ctrl_z (sigchld_handler busy_shell ctrl_z)
sigchld_handler-Reaps_example = sigchld_handler-Reaps busy_shell ctrl_z busy-IsTable busy-IsKnown

addjob_full_crashes_example :
    sigchld_handler
      (addjob full_shell (pos 200) bg ls_line).1
      (record { pid = 200; status = exited } ∷ [])
    ≡ crashed
unfolding find_index
addjob_full_crashes_example =
    addjob_full_crashes full_shell 200 bg ls_line exited [] refl
      (λ i j h. ground (arith, get_elem?-replicate 16 ls_job i j h)) (omega arith)

parseline_short_example : parseline ls_line ≢ overrun
parseline_short_example = parseline_short ls_line (λ e. cc) (omega arith)

fresh_room : find_pid 0 fresh_shell.jobs ≢ none
unfolding find_index
fresh_room e = cc

main-IsSafe_example : IsSafe (eval no_atoi 18 (start true (replicate 16 cleared)) ls_line (pos 100))
unfolding enter_main parse_options start initjobs
main-IsSafe_example = main-IsSafe no_atoi 18 (b'p' ∷ b'v' ∷ []) (replicate 16 cleared) refl (
    then_step here (
      command ls_line (pos 100) (no_job_yet, fresh_room)
        (parseline_short ls_line (λ e. cc) (omega arith))))
