-- ===== src/Shell/Jobs/Search.antt =====
-- The searches of the job list, over a table that keeps the invariant.
use csapp_lab_code.Base.{
  ℕ, zero, suc, ◌<◌, ◌≡◌, ◌≢◌, [], ◌∷◌, none, some, List, arith, ◌==◌, Option-cases, inl, inr,
  get_elem?, find_index, find_index-some, find_index-none, find_index-hit,
}
use csapp_lab_code.Shell.Jobs.{Job, fg, is_fg, find_pid, job_at, fgpid}
use csapp_lab_code.Shell.Jobs.Table.{IsTable}

pub job_at-get : (js : List Job) (i : ℕ) {j : Job} → get_elem? js i ≡ some j → job_at js i ≡ j
job_at-get [] i h = absurd (cc)
job_at-get (x ∷ xs) zero h = ground arith
job_at-get (x ∷ xs) (suc i) h = job_at-get xs i h

-- What a successful search by process id has found.
pub find_pid-some :
    (p : ℕ) (js : List Job) (i : ℕ)
    → find_pid p js ≡ some i
    → (j : Job) × (get_elem? js i ≡ some j) × (j.pid ≡ p)
find_pid-some p js i e =
    let (j, h, t) = find_index-some (λ j. j.pid == p) js i e in (j, h, ground arith)

pub find_pid-none :
    (p : ℕ) (js : List Job)
    → find_pid p js ≡ none
    → (i : ℕ) (j : Job) → get_elem? js i ≡ some j
    → j.pid ≢ p
find_pid-none p js e i j h = ground (arith, find_index-none (λ j. j.pid == p) js e i j h)

-- The search finds the only entry with that id.
pub find_pid_unique :
    (js : List Job) (i : ℕ) (j : Job)
    → IsTable js
    → get_elem? js i ≡ some j
    → 0 < j.pid
    → find_pid j.pid js ≡ some i
find_pid_unique js i j t h pos =
    let (k, found, le) = find_index-hit (λ l. l.pid == j.pid) js i h (ground arith) in
    let (l, at, same) = find_pid-some j.pid js k found in
    ground (arith, t.distinct i k j l h at pos)

-- With no job in the foreground no entry has the state `fg`.
pub fgpid-zero :
    (js : List Job)
    → IsTable js
    → fgpid js ≡ 0
    → (i : ℕ) (j : Job) → get_elem? js i ≡ some j
    → j.state ≢ fg
unfolding fgpid
fgpid-zero js t e i j h f = elim (Option-cases (find_index (λ j. is_fg j.state) js)) [
  | inl gone ↦ ground (arith, find_index-none (λ j. is_fg j.state) js gone i j h)
  | inr (k, found) ↦
      let (l, at, tested) = find_index-some (λ j. is_fg j.state) js k found in
      let ok = t.slots k l at in ground (arith, job_at-get js k at, ok.free_state)
]

-- `fgpid` is the process id of the foreground job.
pub fgpid-fg :
    (js : List Job) (i : ℕ) (j : Job)
    → IsTable js
    → get_elem? js i ≡ some j
    → j.state ≡ fg
    → fgpid js ≡ j.pid
unfolding fgpid
fgpid-fg js i j t h f =
    let (k, found, le) = find_index-hit (λ j. is_fg j.state) js i h (ground arith) in
    let (l, at, tested) = find_index-some (λ j. is_fg j.state) js k found in
    let same = t.one_fg i k j l h at f (ground arith) in
    rw (found, fgpid) (ground (arith, job_at-get js k at, same))
