-- ===== src/Shell/Session/Start.antt =====
-- The state in which `main` enters its loop, and what becomes of a child that no entry is left for.
use csapp_lab_code.Base.{
  ℕ, zero, suc, ◌<◌, ◌≡◌, refl, ap, Bool, none, some, List, [], ◌∷◌, arith, length, get_elem?,
  Option-cases, inl, inr, find_index, find_index-some,
}
use csapp_lab_code.Base.Int.{ℤ, pos}
use csapp_lab_code.Shell.Jobs.{
  Text, Job, JobState, Shell, maxjobs, cleared, initjobs, start, fgpid, find_pid, addjob, getjobpid,
  is_fg,
}
use csapp_lab_code.Shell.Jobs.Search.{find_pid-some}
use csapp_lab_code.Shell.Jobs.Views.{IsFresh, addjob-full}
use csapp_lab_code.Shell.Signals.{Status, Change, crashed, sigchld_handler}
use csapp_lab_code.Shell.Eval.{Next, prompt}
use csapp_lab_code.Shell.Session.{Reach}
use csapp_lab_code.Shell.Session.Kept.{AtPrompt}
use csapp_lab_code.Shell.Session.Safety.{IsSafe, Reach-IsSafe}

initjobs-length : (js : List Job) → length (initjobs js) ≡ length js
unfolding initjobs
initjobs-length [] = refl
initjobs-length (j ∷ js) = ap suc (initjobs-length js)

initjobs-get : (js : List Job) (i : ℕ) (j : Job) → get_elem? (initjobs js) i ≡ some j → j ≡ cleared
unfolding initjobs
initjobs-get [] i j h = absurd (cc)
initjobs-get (x ∷ js) zero j h = ground arith
initjobs-get (x ∷ js) (suc i) j h = initjobs-get js i j h

-- `initjobs` on an array of MAXJOBS entries, whatever they hold, sets up the invariant.
pub start-AtPrompt :
    (verbose : Bool) (js : List Job) → length js ≡ maxjobs → AtPrompt (start verbose js)
unfolding start fgpid
start-AtPrompt verbose js size = record {
  table = record {
    size = omega (arith, initjobs-length js);
    slots = λ i j h. ground (arith, initjobs-get js i j h);
    distinct = λ i k j l h h' lt e. ground (arith, initjobs-get js i j h);
    one_fg = λ i k j l h h' f g. ground (arith, initjobs-get js i j h);
  };
  next = omega arith;
  quiet = elim (Option-cases (find_index (λ j. is_fg j.state) (initjobs js))) [
    | inl gone ↦ rw (gone, fgpid)
    | inr (k, found) ↦
        let (l, at, tested) = find_index-some (λ j. is_fg j.state) (initjobs js) k found in
        ground (arith, initjobs-get js k l at)
  ];
}

-- From the state in which `main` enters its loop on an array of MAXJOBS entries, any sequence of
-- command lines that overrun no buffer, of calls of `fork` that give an id no job has while the
-- list has room, and of signals about known children leaves the shell safe: at the prompt no job is
-- in the foreground, in `waitfg` the awaited process is the foreground job, and no null pointer,
-- dead jump buffer or array end is passed.
pub session-IsSafe :
    (atoi : Text → ℤ) (sigcont : ℕ) (verbose : Bool) (js : List Job) {b : Next}
    → length js ≡ maxjobs
    → Reach atoi sigcont (prompt (start verbose js)) b
    → IsSafe b
session-IsSafe atoi sigcont verbose js size r =
    Reach-IsSafe atoi sigcont r (start-AtPrompt verbose js size)

-- Where no entry is free, a child with a fresh positive process id gets none from `addjob`, and the
-- first change of its state sends `sigchld_handler` through a null pointer.
pub addjob_full_crashes :
    (s : Shell) (p : ℕ) (state : JobState) (cmdline : Text) (status : Status) (cs : List Change)
    → find_pid 0 s.jobs ≡ none
    → IsFresh p s.jobs
    → 0 < p
    → sigchld_handler (addjob s (pos p) state cmdline).1 (record { pid = p; status = status } ∷ cs)
      ≡ crashed
unfolding sigchld_handler getjobpid
addjob_full_crashes s p state cmdline status cs full fresh lt =
    rw (addjob-full s p state cmdline full lt) (elim (Option-cases (find_pid p s.jobs)) [
      | inl gone ↦ ground arith
      | inr (i, found) ↦ let (j, h, e) = find_pid-some p s.jobs i found in absurd (fresh i j h e)
    ])
