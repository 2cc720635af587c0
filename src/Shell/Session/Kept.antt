-- ===== src/Shell/Session/Kept.antt =====
-- What the commands of the shell keep: the job list's invariant and its foreground job.
use csapp_lab_code.Base.{
  ℕ, ◌<◌, ◌≡◌, refl, ◌≢◌, none, some, List, arith, ◌==◌, Bool-cases, Option-cases, inl, inr,
  get_elem?, set, get_elem?-lt, get_elem?-set_self,
}
use csapp_lab_code.Base.Int.{pos}
use csapp_lab_code.Shell.Jobs.{
  Text, Job, JobState, fg, bg, Shell, fgpid, find_pid, addjob, fill_entry,
}
use csapp_lab_code.Shell.Jobs.Table.{IsTable, set-IsTable}
use csapp_lab_code.Shell.Jobs.Search.{find_pid-some, fgpid-fg, fgpid-zero, job_at-get}
use csapp_lab_code.Shell.Jobs.Views.{
  IsFresh, addjob-found, fill-IsTable, entry-get, fgpid-zero_of, entry-set,
}
use csapp_lab_code.Shell.Signals.{set_state}
use csapp_lab_code.Shell.Signals.Reaping.{state-IsTable}

-- Between two commands no job is in the foreground.
pub record AtPrompt (s : Shell) : Type 0 where
  pub table : IsTable s.jobs
  pub next : 0 < s.nextjid
  pub quiet : fgpid s.jobs ≡ 0

-- In `waitfg` the awaited process is the foreground job.
pub record Waits (s : Shell) (p : ℕ) : Type 0 where
  pub table : IsTable s.jobs
  pub next : 0 < s.nextjid
  pub front : fgpid s.jobs ≡ p
  pub live : 0 < p

fgpid-set_quiet :
    (js : List Job) (i : ℕ) (o v : Job)
    → IsTable js
    → IsTable (set js i v)
    → get_elem? js i ≡ some o
    → fgpid js ≡ 0
    → v.state ≢ fg
    → fgpid (set js i v) ≡ 0
fgpid-set_quiet js i o v t u h quiet calm = fgpid-zero_of (set js i v) u λ q l lt e f.
    let seen = entry-set js i q o v t u h lt in
    elim (Bool-cases (v.pid == q)) [
      | inl hit ↦ ground (arith, seen)
      | inr miss ↦ elim (Bool-cases (o.pid == q)) [
        | inl old ↦ absurd (ground (arith, seen))
        | inr other ↦
            let (k, at, is) = entry-get q js {l = l} (ground (arith, seen)) in
            fgpid-zero js t quiet k l at f
      ]
    ]

fgpid-set_front :
    (js : List Job) (i : ℕ) (o v : Job)
    → IsTable (set js i v)
    → get_elem? js i ≡ some o
    → v.state ≡ fg
    → fgpid (set js i v) ≡ v.pid
fgpid-set_front js i o v u h front =
    fgpid-fg (set js i v) i v u (get_elem?-set_self js i v (get_elem?-lt js i h)) front

addjob-nextjid_pos :
    (s : Shell) (p : ℕ) (state : JobState) (cmdline : Text)
    → 0 < s.nextjid
    → 0 < (addjob s (pos p) state cmdline).1.nextjid
unfolding addjob fill_entry
addjob-nextjid_pos s p state cmdline lt = ground arith

module _ (s : Shell) (p : ℕ) (cmdline : Text) (v : AtPrompt s) (lt : 0 < p)
    (fresh : IsFresh p s.jobs) (room : find_pid 0 s.jobs ≢ none) where
  pub addjob-AtPrompt : AtPrompt (addjob s (pos p) bg cmdline).1
  addjob-AtPrompt = elim (Option-cases (find_pid 0 s.jobs)) [
    | inl full ↦ absurd (room full)
    | inr (i, found) ↦
        let (o, h, e) = find_pid-some 0 s.jobs i found in
        let (done, written) = addjob-found s p i bg cmdline lt found in
        let kept =
          fill-IsTable s p i bg cmdline v.table v.next lt fresh (λ f. cc) (λ u. cc) found in
        record {
          table = rw written kept;
          next = addjob-nextjid_pos s p bg cmdline v.next;
          quiet = rw written (fgpid-set_quiet s.jobs i o _ v.table kept h v.quiet (λ f. cc));
        }
  ]

  pub addjob-Waits : Waits (addjob s (pos p) fg cmdline).1 p
  addjob-Waits = elim (Option-cases (find_pid 0 s.jobs)) [
    | inl full ↦ absurd (room full)
    | inr (i, found) ↦
        let (o, h, e) = find_pid-some 0 s.jobs i found in
        let (done, written) = addjob-found s p i fg cmdline lt found in
        let kept =
          fill-IsTable s p i fg cmdline v.table v.next lt fresh (λ f. v.quiet) (λ u. cc) found in
        record {
          table = rw written kept;
          next = addjob-nextjid_pos s p fg cmdline v.next;
          front = rw written (fgpid-set_front s.jobs i o _ kept h refl);
          live = lt;
        }
  ]

module _ (s : Shell) (i : ℕ) (j : Job) (v : AtPrompt s) (h : get_elem? s.jobs i ≡ some j)
    (lt : 0 < j.pid) where
  pub set_state-AtPrompt : AtPrompt (set_state i bg s)
  set_state-AtPrompt =
      let kept = state-IsTable s.jobs i j bg v.table h lt (λ e. cc) (λ e. cc) in
      let at = job_at-get s.jobs i h in
      record {
        table = rw at kept;
        next = v.next;
        quiet = rw at (fgpid-set_quiet s.jobs i j _ v.table kept h v.quiet (λ f. cc));
      }

  front-IsTable : IsTable (set s.jobs i (record j { state = fg }))
  front-IsTable =
      let ok = v.table.slots i j h in
      set-IsTable s.jobs i (record j { state = fg }) v.table
        (omega (arith, get_elem?-lt s.jobs i h, v.table.size)) (grind (arith, ok.used_jid))
        (λ k l at ne lt'. ground (arith, v.table.distinct i k j l h at))
        (λ k l at ne f. fgpid-zero s.jobs v.table v.quiet k l at)

  pub set_state-Waits : Waits (set_state i fg s) j.pid
  set_state-Waits =
      let at = job_at-get s.jobs i h in
      record {
        table = rw at front-IsTable;
        next = v.next;
        front = rw at (fgpid-set_front s.jobs i j _ front-IsTable h refl);
        live = lt;
      }
