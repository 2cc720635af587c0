-- ===== src/Shell/Signals/Reaping.antt =====
-- What one round of `sigchld_handler` does to the job list.
use csapp_lab_code.Base.{
  ℕ, ◌<◌, ◌≡◌, ◌≢◌, Bool, true, false, Option, none, some, List, arith, ◌==◌, ◌&&◌, ◌||◌,
  Bool-cases, inl, inr, if◌then◌else◌, get_elem?, get_elem?-lt, set,
}
use csapp_lab_code.Base.Int.{pos}
use csapp_lab_code.Shell.Jobs.{
  Job, JobState, undef, fg, bg, st, is_fg, is_bg, Shell, emit, terminated, job_at, printjob,
  clear_entry, deletejob,
}
use csapp_lab_code.Shell.Jobs.Table.{IsTable, set-IsTable}
use csapp_lab_code.Shell.Jobs.Search.{job_at-get}
use csapp_lab_code.Shell.Jobs.Views.{entry, entry-some, entry-set, deletejob-entry}
use csapp_lab_code.Shell.Signals.{Status, exited, signaled, stopped_by, continued, reap}

-- What a change of state makes of the job it is about.
abbrev pub after : Status → Job → Option Job
after exited j = none
after (signaled sig) j = none
after (stopped_by sig) j = some (record j { state = st })
after continued j = some (if is_fg j.state || is_bg j.state then j else record j { state = bg })

abbrev pub ends_wait : Status → Bool
ends_wait continued = false
ends_wait _ = true

pub state-IsTable :
    (js : List Job) (i : ℕ) (j : Job) (state : JobState)
    → IsTable js
    → get_elem? js i ≡ some j
    → 0 < j.pid
    → state ≢ fg
    → state ≢ undef
    → IsTable (set js i (record j { state = state }))
state-IsTable js i j state t h lt calm used =
    let ok = t.slots i j h in
    set-IsTable js i (record j { state = state }) t (omega (arith, get_elem?-lt js i h, t.size))
      (grind (arith, ok.used_jid)) (λ k l at ne lt'. ground (arith, t.distinct i k j l h at))
      (λ k l at ne f. absurd (calm f))

abbrev pub Reaped : Shell → ℕ → Job → ℕ → Status → Shell × Bool → Type 0
Reaped s p j q status (s', jumps) =
    IsTable s'.jobs
    × entry q s'.jobs ≡ (if p == q then after status j else entry q s.jobs)
    × jumps ≡ (is_fg j.state && ends_wait status)

-- One round of `sigchld_handler` for a job of a valid job list keeps the invariant: the job ends,
-- stops or continues as the status says, the job of every other positive process id stays as it is,
-- and the wait in `waitfg` is broken exactly if a foreground job has stopped or ended.
pub reap-entry :
    (s : Shell) (i : ℕ) (j : Job) (q : ℕ) (status : Status)
    → IsTable s.jobs
    → get_elem? s.jobs i ≡ some j
    → 0 < j.pid
    → 0 < q
    → Reaped s j.pid j q status (reap s i j.pid status)
unfolding reap printjob
reap-entry s i j q exited t h lt lt' =
    let (kept, same, done) = deletejob-entry s j.pid q t lt lt' in
    (kept, ground arith, ground (arith, job_at-get s.jobs i h))
reap-entry s i j q (signaled sig) t h lt lt' =
    let s' = emit (terminated (job_at s.jobs i).jid j.pid sig) s in
    let (kept, same, done) = deletejob-entry s' j.pid q t lt lt' in
    (kept, ground arith, ground (arith, job_at-get s.jobs i h))
reap-entry s i j q (stopped_by sig) t h lt lt' =
    let kept = state-IsTable s.jobs i j st t h lt (λ e. cc) (λ e. cc) in
    let at = job_at-get s.jobs i h in
    (
      rw at kept,
      rw at (ground (arith, entry-set s.jobs i q j (record j { state = st }) t kept h lt')),
      ground (arith, at),
    )
reap-entry s i j q continued t h lt lt' =
    let kept = state-IsTable s.jobs i j bg t h lt (λ e. cc) (λ e. cc) in
    let at = job_at-get s.jobs i h in
    elim (Bool-cases (is_fg j.state || is_bg j.state)) [
      | inl running ↦ (
        rw (at, running) t,
        rw (at, running) (ground (arith, entry-some s.jobs i j t h)),
        ground arith,
      )
      | inr idle ↦ (
        rw (at, idle) kept,
        rw (at, idle)
            (ground (arith, at, entry-set s.jobs i q j (record j { state = bg }) t kept h lt')),
        ground arith,
      )
    ]

deletejob-nextjid_pos : (s : Shell) (p : ℕ) → 0 < s.nextjid → 0 < (deletejob s (pos p)).1.nextjid
unfolding deletejob clear_entry
deletejob-nextjid_pos s p lt = ground arith

pub reap-nextjid_pos :
    (s : Shell) (i p : ℕ) (status : Status) → 0 < s.nextjid → 0 < (reap s i p status).0.nextjid
unfolding reap printjob
reap-nextjid_pos s i p exited lt = deletejob-nextjid_pos s p lt
reap-nextjid_pos s i p (signaled sig) lt = deletejob-nextjid_pos _ p lt
reap-nextjid_pos s i p (stopped_by sig) lt = lt
reap-nextjid_pos s i p continued lt = ground arith
