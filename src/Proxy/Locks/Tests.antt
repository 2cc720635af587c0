-- ===== src/Proxy/Locks/Tests.antt =====
-- The theorems on the locks of proxylab_code/cache.c at a run of two threads.
use csapp_lab_code.Base.{ℕ, ◌≡◌, refl, [], ◌∷◌, arith}
use csapp_lab_code.Proxy.Locks.{
  outside, entering, refreshing, inserting, storing, p_mutex, add_first, p_index, v_mutex, p_queue,
  p_writer, Threads, thread_at, run, runs, retrieves, inserts, at_start, Reached, starts, turns,
}
use csapp_lab_code.Proxy.Locks.Exclusion.{writer_excludes, refreshing-excludes}
use csapp_lab_code.Proxy.Locks.Progress.{Runnable, Later, AllOutside, no_deadlock, Reached-ends}

-- The first of two threads inserts an object.
one_stores : (s : Threads) × Reached 2 s × (s.places ≡ storing ∷ outside ∷ [])
one_stores =
    let called : Reached 2 (thread_at (at_start 2) 0 (at_start 2).locks inserting) =
      turns starts (inserts 0 refl) in
    (_, turns called (runs (run 0 refl (p_writer (omega arith)))), refl)

writer_excludes_example : ◌≡◌ {A = ℕ} 0 0
unfolding one_stores
writer_excludes_example = writer_excludes one_stores.1 0 0 storing refl refl refl

-- The first of two threads is the only reader and moves an object to the front of the queue.
one_refreshes : (s : Threads) × Reached 2 s × (s.places ≡ refreshing ∷ outside ∷ [])
one_refreshes =
    let called : Reached 2 (thread_at (at_start 2) 0 (at_start 2).locks entering) =
      turns starts (retrieves 0 refl) in
    let counts = turns called (runs (run 0 refl (p_mutex (omega arith)))) in
    let first = turns counts (runs (run 0 refl (add_first refl))) in
    let locked = turns first (runs (run 0 refl (p_index (omega arith)))) in
    let scans = turns locked (runs (run 0 refl v_mutex)) in
    (_, turns scans (runs (run 0 refl (p_queue (omega arith)))), refl)

refreshing-excludes_example : ◌≡◌ {A = ℕ} 0 0
unfolding one_refreshes
refreshing-excludes_example = refreshing-excludes one_refreshes.1 0 0 refl refl

no_deadlock_example : Runnable one_refreshes.0
unfolding one_refreshes
no_deadlock_example = no_deadlock one_refreshes.1 0 refreshing refl cc

Reached-ends_example : (t : Threads) × Later one_refreshes.0 t × AllOutside t.places
Reached-ends_example = Reached-ends one_refreshes.1
