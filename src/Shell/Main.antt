-- ===== src/Shell/Main.antt =====
-- `main` of tsh.c: the options, and one round of its read/eval loop. What `getopt` and `fgets` return
-- comes in as arguments; the text of the prompt is not in the trace.
use csapp_lab_code.Base.{
  ℕ, Bool, true, false, ◌&&◌, Option, none, some, List, [], ◌∷◌, ◌==◌, if◌then◌else◌, ◌≡◌, ◌≢◌,
  length, Bool-cases, Option-cases, inl, inr,
}
use csapp_lab_code.Base.Int.{ℤ}
use csapp_lab_code.Shell.Jobs.{Text, Job, Shell, maxjobs, start}
use csapp_lab_code.Shell.Parse.{parseline, overrun}
use csapp_lab_code.Shell.Eval.{Next, prompt, exits, eval}
use csapp_lab_code.Shell.Session.{CanFork, Reach}
use csapp_lab_code.Shell.Session.Kept.{AtPrompt}
use csapp_lab_code.Shell.Session.Safety.{IsSafe, Reach-IsSafe, eval-IsSafe}
use csapp_lab_code.Shell.Session.Start.{start-AtPrompt}

pub record Flags : Type 0 where
  pub verbose : Bool
  pub emit_prompt : Bool

-- The loop over the options; `none`: `usage` ends the shell.
unfoldable pub parse_options : Flags → List ℕ → Option Flags
parse_options f [] = some f
parse_options f (c ∷ cs) =
    let with_verbose = parse_options (record f { verbose = true }) cs in
    let without_prompt = parse_options (record f { emit_prompt = false }) cs in
    if c == b'h'
    then none
    else if c == b'v'
    then with_verbose
    else if c == b'p'
    then without_prompt
    else none

-- `main` up to its loop, on an array of jobs with any contents.
unfoldable pub enter_main : List ℕ → List Job → Next
unfolding parse_options
enter_main options js =
    elim (parse_options (record { verbose = false; emit_prompt = true }) options) [
      | none ↦ exits 1
      | some f ↦ prompt (start f.verbose js)
    ]

-- What a call of `fgets` leaves behind: a line or NULL, and the flags of the stream.
pub record Fgets : Type 0 where
  pub line : Option Text
  pub ferror : Bool
  pub feof : Bool

abbrev is_null : Option Text → Bool
is_null none = true
is_null (some t) = false

-- The array of the line behind the call; `buffer` is what it held before.
abbrev pub line_read : Text → Option Text → Text
line_read buffer none = buffer
line_read buffer (some t) = t

unfoldable pub read_eval : (Text → ℤ) → ℕ → Text → Fgets → Shell → ℤ → Next
unfolding eval
read_eval atoi sigcont buffer r s fork =
    if is_null r.line && r.ferror
    then exits 1
    else if r.feof
    then exits 0
    else eval atoi sigcont s (line_read buffer r.line) fork

enter_main-start :
    (options : List ℕ) (js : List Job) → length js ≡ maxjobs → IsSafe (enter_main options js)
unfolding enter_main
enter_main-start options js size =
    elim (Option-cases (parse_options (record { verbose = false; emit_prompt = true }) options)) [
      | inl usage ↦ rw (usage, IsSafe) tt
      | inr (f, flags) ↦ rw (flags, IsSafe) (start-AtPrompt f.verbose js size)
    ]

-- From `main`, with any options, on an array of MAXJOBS entries, any sequence of command lines that
-- overrun no buffer, of calls of `fork` that give an id no job has while the list has room, and of
-- signals about known children that come between two commands or while `waitfg` pauses leaves the
-- shell safe or ended: at the prompt no job is in the foreground, in `waitfg` the awaited process
-- is the foreground job, and no null pointer, dead jump buffer or array end is passed.
pub main-IsSafe :
    (atoi : Text → ℤ) (sigcont : ℕ) (options : List ℕ) (js : List Job) {b : Next}
    → length js ≡ maxjobs
    → Reach atoi sigcont (enter_main options js) b
    → IsSafe b
main-IsSafe atoi sigcont options js size r =
    Reach-IsSafe atoi sigcont r (enter_main-start options js size)

-- One round of the loop leaves the shell safe, whatever `fgets` returns, if the line overruns nothing.
pub read_eval-IsSafe :
    (atoi : Text → ℤ) (sigcont : ℕ) (buffer : Text) (r : Fgets) (s : Shell) (fork : ℤ)
    → AtPrompt s
    → CanFork s fork
    → parseline (line_read buffer r.line) ≢ overrun
    → IsSafe (read_eval atoi sigcont buffer r s fork)
unfolding read_eval
read_eval-IsSafe atoi sigcont buffer r s fork v can short =
    elim (Bool-cases (is_null r.line && r.ferror)) [
      | inl failed ↦ rw failed tt
      | inr ok ↦ rw ok (elim (Bool-cases r.feof) [
        | inl end ↦ rw end tt
        | inr more ↦ rw more (eval-IsSafe atoi sigcont s (line_read buffer r.line) fork v can short)
      ])
    ]
