-- ===== src/Shell/Signals/Handler.antt =====
-- `sigchld_handler` as a whole: the loop over `waitpid`.
use csapp_lab_code.Base.{
  ℕ, ◌<◌, ap, ◌∙◌, ◌≡◌, refl, ◌≢◌, true, false, Option, none, some, List, [], ◌∷◌, ◌++◌, arith,
  ◌==◌, ◌&&◌, if◌then◌else◌, get_elem?, Bool-cases, inl, inr, Option-cases,
}
use mathlib.Core.Path.{subst}
use csapp_lab_code.Base.Int.{pos}
use csapp_lab_code.Shell.Jobs.{Job, fg, is_fg, Shell, find_pid, getjobpid, fgpid}
use csapp_lab_code.Shell.Jobs.Table.{IsTable}
use csapp_lab_code.Shell.Jobs.Search.{fgpid-fg, fgpid-zero, find_pid_unique}
use csapp_lab_code.Shell.Jobs.Views.{entry, entry-some, entry-get, fgpid-zero_of, fgpid-cases}
use csapp_lab_code.Shell.Signals.{
  Status, exited, signaled, stopped_by, continued, Change, reap, Handled, returned, jumped, crashed,
  sigchld_handler,
}
use csapp_lab_code.Shell.Signals.Reaping.{after, ends_wait, Reaped, reap-entry, reap-nextjid_pos}

-- The handler's view of one process id: the changes to it, in order.
abbrev pub after_all : ℕ → List Change → Option Job → Option Job
after_all q [] o = o
after_all q (c ∷ cs) o =
    after_all q cs (if c.pid == q then elim o [ none ↦ none | some j ↦ after c.status j ] else o)

abbrev pub IsOther : ℕ → List Change → Type 0
IsOther p [] = Unit
IsOther p (c ∷ cs) = (p ≢ c.pid) × IsOther p cs

-- What `waitpid` gives is about different children, each with an entry in the job list.
abbrev pub IsKnown : List Job → List Change → Type 0
IsKnown js [] = Unit
IsKnown js (c ∷ cs) = (0 < c.pid) × (entry c.pid js ≢ none) × IsOther c.pid cs × IsKnown js cs

IsKnown-same :
    (js js' : List Job) (p : ℕ) (cs : List Change)
    → ((q : ℕ) → 0 < q → p ≢ q → entry q js' ≡ entry q js)
    → IsOther p cs
    → IsKnown js cs
    → IsKnown js' cs
IsKnown-same js js' p [] same other known = tt
IsKnown-same js js' p (c ∷ cs) same (ne, other) (lt, there, apart, known) =
    (lt, rw (same c.pid lt ne) there, apart, IsKnown-same js js' p cs same other known)

-- What the whole handler promises: it never goes through a null pointer; if it returns, every
-- change has taken effect and the foreground job is the same; if it jumps, the changes before the
-- jump have taken effect, the rest is still unread, and the foreground job that there was is gone.
abbrev pub Reaps : Shell → List Change → Handled → Type 0
Reaps s cs (returned s') =
    IsTable s'.jobs
    × (fgpid s'.jobs ≡ fgpid s.jobs)
    × ((q : ℕ) → 0 < q → entry q s'.jobs ≡ after_all q cs (entry q s.jobs))
Reaps s cs (jumped s' rest) =
    (done : List Change) × (cs ≡ done ++ rest)
    × IsTable s'.jobs
    × (fgpid s.jobs ≢ 0)
    × (fgpid s'.jobs ≡ 0)
    × ((q : ℕ) → 0 < q → entry q s'.jobs ≡ after_all q done (entry q s.jobs))
Reaps s cs crashed = ⊥

after-calm :
    (status : Status) (j l : Job) → ends_wait status ≡ true → after status j ≡ some l → l.state ≢ fg
after-calm exited j l e h f = cc
after-calm (signaled sig) j l e h f = cc
after-calm (stopped_by sig) j l e h f = ground arith
after-calm continued j l e h f = cc

-- When the foreground job has stopped or ended, no job is in the foreground.
reap-fgpid :
    (s s' : Shell) (i p : ℕ) (j : Job) (status : Status)
    → j.pid ≡ p
    → IsTable s.jobs
    → IsTable s'.jobs
    → get_elem? s.jobs i ≡ some j
    → j.state ≡ fg
    → ends_wait status ≡ true
    → ((q : ℕ) → 0 < q → entry q s'.jobs ≡ (if p == q then after status j else entry q s.jobs))
    → fgpid s'.jobs ≡ 0
reap-fgpid s s' i p j status is t t' h front ends same = fgpid-zero_of s'.jobs t' λ q l lt e f.
    elim (Bool-cases (p == q)) [
      | inl hit ↦ after-calm status j l ends (ground (arith, same q lt)) f
      | inr miss ↦
          let (k, at, is') = entry-get q s.jobs {l = l} (ground (arith, same q lt)) in
          ground (arith, t.one_fg i k j l h at front f)
    ]

after-quiet : (status : Status) (j l : Job) → j.state ≢ fg → after status j ≡ some l → l.state ≢ fg
after-quiet exited j l calm e f = cc
after-quiet (signaled sig) j l calm e f = cc
after-quiet (stopped_by sig) j l calm e f = ground arith
after-quiet continued j l calm e f = ground arith

after-kept :
    (status : Status) (j : Job)
    → is_fg j.state ≡ true
    → ends_wait status ≡ false
    → after status j ≡ some j
after-kept continued j front stays = ground arith
after-kept exited j front stays = cc
after-kept (signaled sig) j front stays = cc
after-kept (stopped_by sig) j front stays = cc

-- A round that does not break the wait leaves the foreground job where it is.
reap-fgpid_kept :
    (s s' : Shell) (i p : ℕ) (j : Job) (status : Status)
    → j.pid ≡ p
    → IsTable s.jobs
    → IsTable s'.jobs
    → get_elem? s.jobs i ≡ some j
    → (is_fg j.state && ends_wait status) ≡ false
    → ((q : ℕ) → 0 < q → entry q s'.jobs ≡ (if p == q then after status j else entry q s.jobs))
    → fgpid s'.jobs ≡ fgpid s.jobs
reap-fgpid_kept s s' i p j status is t t' h stays same = elim (fgpid-cases s.jobs t) [
  | inl none_fg ↦
      let quiet = fgpid-zero_of s'.jobs t' λ q l lt e f. elim (Bool-cases (p == q)) [
        | inl hit ↦
            after-quiet status j l (fgpid-zero s.jobs t none_fg i j h) (ground (arith, same q lt)) f
        | inr miss ↦
            let (k, at, is') = entry-get q s.jobs {l = l} (ground (arith, same q lt)) in
            fgpid-zero s.jobs t none_fg k l at f
      ] in
      ground arith
  | inr (k, l, at, front, lt, e) ↦
      let seen : entry l.pid s'.jobs ≡ some l = ground (
        arith,
        same l.pid lt,
        entry-some s.jobs k l t at,
        t.distinct i k j l h at,
        after-kept status j,
      ) in
      let (k', at', is') = entry-get l.pid s'.jobs seen in
      ground (arith, fgpid-fg s'.jobs k' l t' at' front)
]

-- What one change makes of the view.
abbrev step_entry : ℕ → Change → Option Job → Option Job
step_entry q c o = if c.pid == q then elim o [ none ↦ none | some j ↦ after c.status j ] else o

Reaps-cons :
    (s s' : Shell) (c : Change) (cs : List Change) (r : Handled)
    → ((q : ℕ) → 0 < q → entry q s'.jobs ≡ step_entry q c (entry q s.jobs))
    → fgpid s'.jobs ≡ fgpid s.jobs
    → Reaps s' cs r
    → Reaps s (c ∷ cs) r
Reaps-cons s s' c cs (returned u) same front (t, kept, all) =
    (t, kept ∙ front, λ q lt. all q lt ∙ ap (after_all q cs) (same q lt))
Reaps-cons s s' c cs (jumped u rest) same front (done, split, t, was, calm, all) = (
  c ∷ done,
  ap (◌∷◌ c) split,
  t,
  rw (← front) was,
  calm,
  λ q lt. all q lt ∙ ap (after_all q done) (same q lt),
)
Reaps-cons s s' c cs crashed same front bad = bad

handler-cons :
    (s : Shell) (c : Change) (cs : List Change) (i : ℕ)
    → 0 < c.pid
    → find_pid c.pid s.jobs ≡ some i
    → sigchld_handler s (c ∷ cs) ≡ (
        if (reap s i c.pid c.status).1
        then jumped (reap s i c.pid c.status).0 cs
        else sigchld_handler (reap s i c.pid c.status).0 cs)
unfolding sigchld_handler getjobpid
handler-cons s c cs i lt found = ground arith

entry-found :
    (p : ℕ) (js : List Job)
    → entry p js ≢ none
    → (i : ℕ) × (j : Job) × (get_elem? js i ≡ some j) × (j.pid ≡ p)
entry-found p js there = elim (Option-cases (entry p js)) [
  | inl gone ↦ absurd (there gone)
  | inr (j, e) ↦ let (i, h, is) = entry-get p js e in (i, j, h, is)
]

-- On a valid job list and changes to different children that each have an entry, `sigchld_handler`
-- never goes through a null pointer; if it returns, every change has taken effect and the
-- foreground job is the same; if it jumps to `waitfg`, the changes before the jump have taken
-- effect, the rest is unread, and the foreground job that there was is gone.
pub sigchld_handler-Reaps :
    (s : Shell) (cs : List Change)
    → IsTable s.jobs
    → IsKnown s.jobs cs
    → Reaps s cs (sigchld_handler s cs)
unfolding sigchld_handler
sigchld_handler-Reaps s [] t known = (t, refl, λ q lt. refl)
sigchld_handler-Reaps s (c ∷ cs) t (lt, there, apart, known) =
    let (i, j, h, is) = entry-found c.pid s.jobs there in
    let s' = (reap s i c.pid c.status).0 in
    let found : find_pid c.pid s.jobs ≡ some i =
      subst (λ p. find_pid p s.jobs ≡ some i) is (find_pid_unique s.jobs i j t h (rw is lt)) in
    let round : (q : ℕ) → 0 < q → Reaped s c.pid j q c.status (reap s i c.pid c.status) = λ q lt'.
      subst (λ p. Reaped s p j q c.status (reap s i p c.status)) is
        (reap-entry s i j q c.status t h (rw is lt) lt') in
    let same : (q : ℕ) → 0 < q → entry q s'.jobs ≡ step_entry q c (entry q s.jobs) =
      λ q lt'. ground (arith, (round q lt').1, entry-some s.jobs i j t h) in
    let t' : IsTable s'.jobs = (round 1 (omega arith)).0 in
    let flag = (round 1 (omega arith)).2 in
    rw (handler-cons s c cs i lt found) (elim (Bool-cases (reap s i c.pid c.status).1) [
      | inl leaves ↦ rw leaves (
        c ∷ [],
        refl,
        t',
        ground (arith, fgpid-fg s.jobs i j t h),
        reap-fgpid s s' i c.pid j c.status is t t' h (ground arith) (ground arith)
            (λ q lt'. (round q lt').1),
        same,
      )
      | inr stays ↦ rw stays (
          Reaps-cons s s' c cs _ same
            (reap-fgpid_kept s s' i c.pid j c.status is t t' h (ground arith)
              (λ q lt'. (round q lt').1))
            (sigchld_handler-Reaps s' cs t' (
              IsKnown-same s.jobs s'.jobs c.pid cs (λ q lt' ne. ground (arith, same q lt')) apart
                known)))
    ])

abbrev pub NextPos : Handled → Type 0
NextPos (returned s) = 0 < s.nextjid
NextPos (jumped s rest) = 0 < s.nextjid
NextPos crashed = Unit

pub sigchld_handler-NextPos :
    (s : Shell) (cs : List Change) → 0 < s.nextjid → NextPos (sigchld_handler s cs)
unfolding sigchld_handler
sigchld_handler-NextPos s [] lt = lt
sigchld_handler-NextPos s (c ∷ cs) lt = elim (Bool-cases (c.pid == 0)) [
  | inl nil ↦ rw nil lt
  | inr some_pid ↦ rw some_pid (elim (Option-cases (getjobpid s.jobs (pos c.pid))) [
    | inl gone ↦ rw gone tt
    | inr (i, found) ↦
        let next = reap-nextjid_pos s i c.pid c.status lt in
        rw found (elim (Bool-cases (reap s i c.pid c.status).1) [
          | inl leaves ↦ rw leaves next
          | inr stays ↦ rw stays (sigchld_handler-NextPos (reap s i c.pid c.status).0 cs next)
        ])
  ])
]
