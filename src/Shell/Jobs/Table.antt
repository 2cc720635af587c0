-- ===== src/Shell/Jobs/Table.antt =====
-- The invariant of the job list of tsh.c, and what a write to one entry must respect to keep it.
use csapp_lab_code.Base.{
  ℕ, ◌<◌, ◌≡◌, ◌≢◌, some, List, [], arith, ◌==◌, if◌then◌else◌, length, get_elem?, set, length-set,
  get_elem?-set,
}
use csapp_lab_code.Shell.Jobs.{Job, undef, fg, cleared, maxjobs}

-- A free entry is cleared; one in use has a job number and a state.
pub record SlotOk (j : Job) : Type 0 where
  pub free_jid : j.pid ≡ 0 → j.jid ≡ 0
  pub free_state : j.pid ≡ 0 → j.state ≡ undef
  pub free_cmdline : j.pid ≡ 0 → j.cmdline ≡ []
  pub used_jid : 0 < j.pid → 0 < j.jid
  pub used_state : 0 < j.pid → j.state ≢ undef

-- No two entries in use share a process id, and at most one job is in the foreground.
pub record IsTable (js : List Job) : Type 0 where
  pub size : length js ≡ maxjobs
  pub slots : (i : ℕ) (j : Job) → get_elem? js i ≡ some j → SlotOk j
  pub distinct :
      (i k : ℕ) (j l : Job)
      → get_elem? js i ≡ some j
      → get_elem? js k ≡ some l
      → 0 < j.pid
      → j.pid ≡ l.pid
      → i ≡ k
  pub one_fg :
      (i k : ℕ) (j l : Job)
      → get_elem? js i ≡ some j
      → get_elem? js k ≡ some l
      → j.state ≡ fg
      → l.state ≡ fg
      → i ≡ k

pub cleared-SlotOk : SlotOk cleared
cleared-SlotOk = ground arith

pub set-IsTable :
    (js : List Job) (i : ℕ) (v : Job)
    → IsTable js
    → i < maxjobs
    → SlotOk v
    → ((k : ℕ) (l : Job) → get_elem? js k ≡ some l → k ≢ i → 0 < v.pid → v.pid ≢ l.pid)
    → ((k : ℕ) (l : Job) → get_elem? js k ≡ some l → k ≢ i → v.state ≡ fg → l.state ≢ fg)
    → IsTable (set js i v)
set-IsTable js i v t lt slot new_pid new_fg = record {
  size = omega (arith, length-set js i v, t.size);
  slots = λ k l h. ground (arith, read k, t.slots k l);
  distinct = λ a b j l p q pos e.
      ground (arith, read a, read b, t.distinct a b j l, new_pid a j, new_pid b l);
  one_fg =
      λ a b j l p q e f. ground (arith, read a, read b, t.one_fg a b j l, new_fg a j, new_fg b l);
}
  where
    read : (k : ℕ) → get_elem? (set js i v) k ≡ (if i == k then some v else get_elem? js k)
    read k = get_elem?-set js i k v (omega (arith, t.size))
