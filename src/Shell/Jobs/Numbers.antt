-- ===== src/Shell/Jobs/Numbers.antt =====
-- Job numbers: what `maxjid` and `nextjid` guarantee, and where the wrap at MAXJOBS breaks it.
use csapp_lab_code.Base.{
  ℕ, zero, suc, ◌+◌, ◌≤◌, ◌<◌, ◌≡◌, ◌≢◌, some, List, [], ◌∷◌, arith, ltb, if◌then◌else◌,
  Option-cases, inl, inr, get_elem?, set, get_elem?-set, get_elem?-lt,
}
use csapp_lab_code.Base.Int.{pos}
use csapp_lab_code.Shell.Jobs.{
  Job, JobState, Text, Shell, maxjobs, cleared, find_pid, fill_entry, addjob, clear_entry,
  deletejob, maxjid_loop, maxjid,
}
use csapp_lab_code.Shell.Jobs.Search.{find_pid-some}
use csapp_lab_code.Shell.Jobs.Views.{new_job, addjob-found, deletejob-found, addjob-full}

maxjid_loop_bounds :
    (m : ℕ) (js : List Job)
    → (m ≤ maxjid_loop m js)
      × ((i : ℕ) (j : Job) → get_elem? js i ≡ some j → j.jid ≤ maxjid_loop m js)
unfolding maxjid_loop
maxjid_loop_bounds m [] = (omega arith, λ i j h. absurd (cc))
maxjid_loop_bounds m (x ∷ js) =
    let m' = if ltb m x.jid then x.jid else m in
    let (grows, bounds) = maxjid_loop_bounds m' js in
    let above : (m ≤ m') × (x.jid ≤ m') = ground arith in
    (omega arith, λ i j h. go bounds above grows i j h)
  where
    go :
        ((i : ℕ) (j : Job)
          → get_elem? js i ≡ some j
          → j.jid ≤ maxjid_loop (if ltb m x.jid then x.jid else m) js)
        → (m ≤ (if ltb m x.jid then x.jid else m)) × (x.jid ≤ (if ltb m x.jid then x.jid else m))
        → (if ltb m x.jid then x.jid else m) ≤ maxjid_loop (if ltb m x.jid then x.jid else m) js
        → (i : ℕ) (j : Job) → get_elem? (x ∷ js) i ≡ some j
        → j.jid ≤ maxjid_loop (if ltb m x.jid then x.jid else m) js
    go bounds above grows zero j h = ground arith
    go bounds above grows (suc i) j h = bounds i j h

pub maxjid-ge : (js : List Job) (i : ℕ) (j : Job) → get_elem? js i ≡ some j → j.jid ≤ maxjid js
unfolding maxjid
maxjid-ge js = (maxjid_loop_bounds 0 js).1

-- Every job number is below `nextjid`, and no two jobs share one.
pub record IsNumbered (s : Shell) : Type 0 where
  pub below : (i : ℕ) (j : Job) → get_elem? s.jobs i ≡ some j → j.jid < s.nextjid
  pub unique :
      (i k : ℕ) (j l : Job)
      → get_elem? s.jobs i ≡ some j
      → get_elem? s.jobs k ≡ some l
      → 0 < j.jid
      → j.jid ≡ l.jid
      → i ≡ k

addjob-nextjid :
    (s : Shell) (p i : ℕ) (state : JobState) (cmdline : Text)
    → 0 < p
    → find_pid 0 s.jobs ≡ some i
    → (addjob s (pos p) state cmdline).1.nextjid
      ≡ (if ltb maxjobs (s.nextjid + 1) then 1 else s.nextjid + 1)
unfolding addjob fill_entry
addjob-nextjid s p i state cmdline lt found = ground arith

deletejob-nextjid :
    (s : Shell) (p i : ℕ)
    → 0 < p
    → find_pid p s.jobs ≡ some i
    → (deletejob s (pos p)).1.nextjid ≡ maxjid (set s.jobs i cleared) + 1
unfolding deletejob clear_entry
deletejob-nextjid s p i lt found = ground arith

pub addjob-IsNumbered :
    (s : Shell) (p : ℕ) (state : JobState) (cmdline : Text)
    → IsNumbered s
    → 0 < p
    → 0 < s.nextjid
    → s.nextjid < maxjobs
    → IsNumbered (addjob s (pos p) state cmdline).1
addjob-IsNumbered s p state cmdline v lt next small = elim (Option-cases (find_pid 0 s.jobs)) [
  | inl full ↦
      rw (addjob-full s p state cmdline full lt) (record { below = v.below; unique = v.unique })
  | inr (i, found) ↦
      let (o, h, e) = find_pid-some 0 s.jobs i found in
      let (done, written) = addjob-found s p i state cmdline lt found in
      let new = new_job s p state cmdline in
      let read = λ (k : ℕ). get_elem?-set s.jobs i k new (get_elem?-lt s.jobs i h) in
      let bump = addjob-nextjid s p i state cmdline lt found in
      record {
        below = λ k l at. ground (arith, bump, read k, v.below k l, rw written at at);
        unique = λ k n l m at at' lt0 e. ground (
          arith,
          read k,
          read n,
          v.below k l,
          v.below n m,
          v.unique k n l m,
          rw written at at,
          rw written at at',
        );
      }
]

-- Where the job numbers in use are different, a `deletejob` that finds its positive process id sets
-- `nextjid` above every job number, whatever it was before, and keeps the numbers different.
pub deletejob-IsNumbered :
    (s : Shell) (p i : ℕ)
    → 0 < p
    → find_pid p s.jobs ≡ some i
    → ((a b : ℕ) (j l : Job)
        → get_elem? s.jobs a ≡ some j
        → get_elem? s.jobs b ≡ some l
        → 0 < j.jid
        → j.jid ≡ l.jid
        → a ≡ b)
    → IsNumbered (deletejob s (pos p)).1
deletejob-IsNumbered s p i lt found unique =
    let (o, h, e) = find_pid-some p s.jobs i found in
    let (done, written) = deletejob-found s p i lt found in
    let read = λ (k : ℕ). get_elem?-set s.jobs i k cleared (get_elem?-lt s.jobs i h) in
    let next = deletejob-nextjid s p i lt found in
    record {
      below =
          λ k l at. ground (arith, next, maxjid-ge (set s.jobs i cleared) k l (rw written at at));
      unique = λ k n l m at at' lt0 e.
          ground (arith, read k, read n, unique k n l m, rw written at at, rw written at at');
    }

-- Where a job in another entry already has the number `nextjid`, the new job gets it as well.
addjob-same_jid :
    (s : Shell) (p i k : ℕ) (l : Job) (state : JobState) (cmdline : Text)
    → 0 < p
    → find_pid 0 s.jobs ≡ some i
    → get_elem? s.jobs k ≡ some l
    → 0 < l.pid
    → l.jid ≡ s.nextjid
    → (j : Job) × (get_elem? (addjob s (pos p) state cmdline).1.jobs i ≡ some j)
      × (get_elem? (addjob s (pos p) state cmdline).1.jobs k ≡ some l)
      × (j.jid ≡ l.jid)
      × (i ≢ k)
addjob-same_jid s p i k l state cmdline lt found at inuse same =
    let (o, h, e) = find_pid-some 0 s.jobs i found in
    let (done, written) = addjob-found s p i state cmdline lt found in
    let new = new_job s p state cmdline in
    let read = λ (k : ℕ). get_elem?-set s.jobs i k new (get_elem?-lt s.jobs i h) in
    let ne : i ≢ k = ground arith in
    (
      new,
      rw written (ground (arith, read i)),
      rw written (ground (arith, read k)),
      ground arith,
      ne,
    )

-- Job numbers are not always unique: with two free entries, where `nextjid` is MAXJOBS or more and
-- a job has the number 1, the second of two calls of `addjob` with positive process ids gives the
-- number 1 to its job as well.
pub addjob-reuses_jid :
    (s : Shell) (p q i i' k : ℕ) (l : Job) (state state' : JobState) (cmdline cmdline' : Text)
    → 0 < p
    → 0 < q
    → maxjobs ≤ s.nextjid
    → get_elem? s.jobs k ≡ some l
    → 0 < l.pid
    → l.jid ≡ 1
    → find_pid 0 s.jobs ≡ some i
    → find_pid 0 (addjob s (pos p) state cmdline).1.jobs ≡ some i'
    → let s' = (addjob (addjob s (pos p) state cmdline).1 (pos q) state' cmdline').1 in
      (j : Job) × (get_elem? s'.jobs i' ≡ some j)
      × (get_elem? s'.jobs k ≡ some l)
      × (j.jid ≡ l.jid)
      × (i' ≢ k)
addjob-reuses_jid s p q i i' k l state state' cmdline cmdline' lt lt' wraps at live one found
      again =
    let (o, h, e) = find_pid-some 0 s.jobs i found in
    let (done, written) = addjob-found s p i state cmdline lt found in
    let new = new_job s p state cmdline in
    let read = get_elem?-set s.jobs i k new (get_elem?-lt s.jobs i h) in
    let next = addjob-nextjid s p i state cmdline lt found in
    let ne : i ≢ k = ground arith in
    addjob-same_jid (addjob s (pos p) state cmdline).1 q i' k l state' cmdline' lt' again
      (rw written (ground (arith, read))) live (ground (arith, next))
