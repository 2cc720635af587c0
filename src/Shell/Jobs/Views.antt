-- ===== src/Shell/Jobs/Views.antt =====
-- The job list as a map from process ids to jobs, and what `addjob` and `deletejob` do to it.
use csapp_lab_code.Base.{
  ℕ, ◌<◌, ◌≡◌, ◌≢◌, Bool, true, false, Option, none, some, List, arith, ◌==◌, if◌then◌else◌, ◌⊎◌,
  find_index, find_index-some, Option-cases, inl, inr, get_elem?, set, get_elem?-set, get_elem?-lt,
}
use csapp_lab_code.Base.Int.{pos}
use csapp_lab_code.Shell.Jobs.{
  Job, JobState, undef, fg, is_fg, Text, Shell, cleared, emit, too_many_jobs, find_pid, fill_entry,
  addjob, clear_entry, deletejob, fgpid,
}
use csapp_lab_code.Shell.Jobs.Table.{IsTable, cleared-SlotOk, set-IsTable}
use csapp_lab_code.Shell.Jobs.Search.{
  find_pid-some, find_pid-none, find_pid_unique, fgpid-zero, fgpid-fg,
}

abbrev pub is_some : Option Job → Bool
is_some none = false
is_some (some j) = true

-- The job with process id `q`, if there is one.
unfoldable pub entry : ℕ → List Job → Option Job
entry q js = elim (find_pid q js) [ none ↦ none | some i ↦ get_elem? js i ]

pub entry-some :
    (js : List Job) (i : ℕ) (j : Job)
    → IsTable js
    → get_elem? js i ≡ some j
    → 0 < j.pid
    → entry j.pid js ≡ some j
unfolding entry
entry-some js i j t h lt = rw (find_pid_unique js i j t h lt, entry) h

pub entry-none :
    (q : ℕ) (js : List Job)
    → ((i : ℕ) (j : Job) → get_elem? js i ≡ some j → j.pid ≢ q)
    → entry q js ≡ none
unfolding entry
entry-none q js absent = elim (Option-cases (find_pid q js)) [
  | inl gone ↦ rw (gone, entry)
  | inr (i, found) ↦ let (j, h, e) = find_pid-some q js i found in absurd (absent i j h e)
]

-- A table seen through `entry`: either no entry has the id, or one does and is what is returned.
pub entry-cases :
    (q : ℕ) (js : List Job)
    → IsTable js
    → 0 < q
    → ((i : ℕ) (j : Job) → get_elem? js i ≡ some j → j.pid ≢ q)
      ⊎ ((i : ℕ) × (j : Job) × (get_elem? js i ≡ some j) × (j.pid ≡ q))
entry-cases q js t lt = elim (Option-cases (find_pid q js)) [
  | inl gone ↦ inl (find_pid-none q js gone)
  | inr (i, found) ↦ let (j, h, e) = find_pid-some q js i found in inr (i, j, h, e)
]

-- A write to entry `i`, where `o` stood, replaces the binding of `o` by that of `v`.
pub entry-set :
    (js : List Job) (i q : ℕ) (o v : Job)
    → IsTable js
    → IsTable (set js i v)
    → get_elem? js i ≡ some o
    → 0 < q
    → entry q (set js i v)
      ≡ (if v.pid == q then some v else if o.pid == q then none else entry q js)
entry-set js i q o v t u h lt = elim (entry-cases q (set js i v) u lt) [
  | inl absent ↦ elim (entry-cases q js t lt) [
    | inl gone ↦
        ground (arith, entry-none q (set js i v) absent, entry-none q js gone, read i, absent i v)
    | inr (k, j, at, e) ↦
        ground (arith, entry-none q (set js i v) absent, read i, read k, absent i v, absent k j)
  ]
  | inr (k, j, at, e) ↦ ground (
    arith,
    entry-some (set js i v) k j u at,
    entry-some js k j t,
    read i,
    read k,
    t.distinct i k o j,
    u.distinct i k v j,
  )
]
  where
    read : (k : ℕ) → get_elem? (set js i v) k ≡ (if i == k then some v else get_elem? js k)
    read k = get_elem?-set js i k v (get_elem?-lt js i h)

-- No entry in use has the id.
abbrev pub IsFresh : ℕ → List Job → Type 0
IsFresh p js = (i : ℕ) (j : Job) → get_elem? js i ≡ some j → j.pid ≢ p

abbrev pub new_job : Shell → ℕ → JobState → Text → Job
new_job s p state cmdline = record { pid = p; jid = s.nextjid; state = state; cmdline = cmdline }

-- `addjob` at a free entry: the table that it leaves, and the return value.
pub addjob-found :
    (s : Shell) (p i : ℕ) (state : JobState) (cmdline : Text)
    → 0 < p
    → find_pid 0 s.jobs ≡ some i
    → (addjob s (pos p) state cmdline).0 ≡ true
      × (addjob s (pos p) state cmdline).1.jobs ≡ set s.jobs i (new_job s p state cmdline)
unfolding addjob fill_entry
addjob-found s p i state cmdline lt found = (ground arith, ground arith)

pub fill-IsTable :
    (s : Shell) (p i : ℕ) (state : JobState) (cmdline : Text)
    → IsTable s.jobs
    → 0 < s.nextjid
    → 0 < p
    → IsFresh p s.jobs
    → (state ≡ fg → fgpid s.jobs ≡ 0)
    → state ≢ undef
    → find_pid 0 s.jobs ≡ some i
    → IsTable (set s.jobs i (new_job s p state cmdline))
fill-IsTable s p i state cmdline t next lt fresh front used found =
    let (o, h, e) = find_pid-some 0 s.jobs i found in
    set-IsTable s.jobs i (new_job s p state cmdline) t
      (omega (arith, get_elem?-lt s.jobs i h, t.size)) (ground arith)
      (λ k l at ne pos. ground (arith, fresh k l at))
      (λ k l at ne f. fgpid-zero s.jobs t (front f) k l at)

-- On a valid job list with `nextjid` not 0 and a free entry, `addjob` of a positive process id that
-- no job has, in a state other than UNDEF, and in the foreground only if no job is there, returns
-- 1, keeps the invariant, and binds the id to the new job, numbered `nextjid`; every other positive
-- process id keeps its job.
pub addjob-entry :
    (s : Shell) (p i q : ℕ) (state : JobState) (cmdline : Text)
    → IsTable s.jobs
    → 0 < s.nextjid
    → 0 < p
    → 0 < q
    → IsFresh p s.jobs
    → (state ≡ fg → fgpid s.jobs ≡ 0)
    → state ≢ undef
    → find_pid 0 s.jobs ≡ some i
    → (addjob s (pos p) state cmdline).0 ≡ true
      × IsTable (addjob s (pos p) state cmdline).1.jobs
      × entry q (addjob s (pos p) state cmdline).1.jobs
        ≡ (if p == q then some (new_job s p state cmdline) else entry q s.jobs)
addjob-entry s p i q state cmdline t next lt lt' fresh front used found =
    let (o, h, e) = find_pid-some 0 s.jobs i found in
    let (done, written) = addjob-found s p i state cmdline lt found in
    let kept = fill-IsTable s p i state cmdline t next lt fresh front used found in
    (
      done,
      rw written kept,
      rw written (ground (arith, entry-set s.jobs i q o (new_job s p state cmdline) t kept h lt')),
    )

-- Where no entry is free, `addjob` of a positive process id leaves the list as it is, returns 0 and
-- prints a message.
pub addjob-full :
    (s : Shell) (p : ℕ) (state : JobState) (cmdline : Text)
    → find_pid 0 s.jobs ≡ none
    → 0 < p
    → addjob s (pos p) state cmdline ≡ (false, emit too_many_jobs s)
unfolding addjob
addjob-full s p state cmdline full lt = ground arith

pub clear-IsTable :
    (js : List Job) (i : ℕ) (o : Job)
    → IsTable js
    → get_elem? js i ≡ some o
    → IsTable (set js i cleared)
clear-IsTable js i o t h =
    set-IsTable js i cleared t (omega (arith, get_elem?-lt js i h, t.size)) cleared-SlotOk
      (λ k l at ne pos. absurd (omega arith)) (λ k l at ne f. absurd (cc))

pub deletejob-found :
    (s : Shell) (p i : ℕ)
    → 0 < p
    → find_pid p s.jobs ≡ some i
    → (deletejob s (pos p)).0 ≡ true × (deletejob s (pos p)).1.jobs ≡ set s.jobs i cleared
unfolding deletejob clear_entry
deletejob-found s p i lt found = (ground arith, ground arith)

pub deletejob-missing :
    (s : Shell) (p : ℕ) → 0 < p → find_pid p s.jobs ≡ none → deletejob s (pos p) ≡ (false, s)
unfolding deletejob
deletejob-missing s p lt gone = ground arith

-- On a valid job list `deletejob` of a positive process id removes the job with the id and no
-- other, keeps the invariant, and returns whether there was one.
pub deletejob-entry :
    (s : Shell) (p q : ℕ)
    → IsTable s.jobs
    → 0 < p
    → 0 < q
    → IsTable (deletejob s (pos p)).1.jobs
      × entry q (deletejob s (pos p)).1.jobs ≡ (if p == q then none else entry q s.jobs)
      × ((deletejob s (pos p)).0 ≡ is_some (entry p s.jobs))
deletejob-entry s p q t lt lt' = elim (Option-cases (find_pid p s.jobs)) [
  | inl gone ↦
      let none_p = entry-none p s.jobs (find_pid-none p s.jobs gone) in
      let same = deletejob-missing s p lt gone in
      (rw same t, rw same (ground arith), rw same (ground arith))
  | inr (i, found) ↦
      let (o, h, e) = find_pid-some p s.jobs i found in
      let (done, written) = deletejob-found s p i lt found in
      let kept = clear-IsTable s.jobs i o t h in
      (
        rw written kept,
        rw written (ground (arith, entry-set s.jobs i q o cleared t kept h lt')),
        rw done (ground (arith, entry-some s.jobs i o t h)),
      )
]

-- What a view that answers has found.
pub entry-get :
    (q : ℕ) (js : List Job) {l : Job}
    → entry q js ≡ some l
    → (i : ℕ) × (get_elem? js i ≡ some l) × (l.pid ≡ q)
unfolding entry
entry-get q js {l} e = elim (Option-cases (find_pid q js)) [
  | inl gone ↦ absurd (ground (arith, gone))
  | inr (i, found) ↦
      let (j, h, is) = find_pid-some q js i found in
      (i, ground (arith, found), ground (arith, found))
]

-- No foreground process, told from the view.
pub fgpid-zero_of :
    (js : List Job)
    → IsTable js
    → ((q : ℕ) (l : Job) → 0 < q → entry q js ≡ some l → l.state ≢ fg)
    → fgpid js ≡ 0
unfolding fgpid
fgpid-zero_of js t calm = elim (Option-cases (find_index (λ j. is_fg j.state) js)) [
  | inl gone ↦ rw (gone, fgpid)
  | inr (k, found) ↦
      let (l, at, tested) = find_index-some (λ j. is_fg j.state) js k found in
      let ok = t.slots k l at in ground (arith, ok.free_state, calm l.pid l, entry-some js k l t at)
]

-- Either no job is in the foreground, or the one at some entry is, and `fgpid` says which.
pub fgpid-cases :
    (js : List Job)
    → IsTable js
    → (fgpid js ≡ 0)
      ⊎ ((i : ℕ) × (j : Job) × (get_elem? js i ≡ some j)
          × (j.state ≡ fg)
          × (0 < j.pid)
          × (fgpid js ≡ j.pid))
unfolding fgpid
fgpid-cases js t = elim (Option-cases (find_index (λ j. is_fg j.state) js)) [
  | inl gone ↦ inl (rw (gone, fgpid))
  | inr (k, found) ↦
      let (l, at, tested) = find_index-some (λ j. is_fg j.state) js k found in
      let ok = t.slots k l at in
      let front : l.state ≡ fg = ground arith in
      inr (k, l, at, front, ground (arith, ok.free_state), fgpid-fg js k l t at front)
]
