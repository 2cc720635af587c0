-- ===== src/Proxy/Locks/Progress.antt =====
-- Every operation on the cache of proxylab_code/cache.c comes to an end: the threads inside never all
-- wait for each other, and each move brings the thread nearer to the end of its operation.
use csapp_lab_code.Base.{
  total, total-set, le-total, ℕ, zero, suc, ◌+◌, ◌≤◌, ◌<◌, ◌≡◌, ◌≢◌, refl, some, List, [], ◌∷◌,
  get_elem?, ◌==◌, ltb, ◌⊎◌, inl, inr, Bool-cases, arith,
}
use csapp_lab_code.Proxy.Locks.{
  Locks, Place, outside, entering, counting, first_reader, counted, scanning, refreshing, leaving,
  uncounting, last_reader, uncounted, inserting, storing, Move, p_mutex, add_first, add_reader,
  p_index, v_mutex, not_found, p_queue, v_queue, p_mutex_again, drop_last, drop_reader, v_index,
  v_mutex_again, p_writer, v_writer, Threads, Runs, run, runs, Reached, turns,
}
use csapp_lab_code.Proxy.Locks.Invariant.{
  at_mutex, at_first, at_last, at_reader, at_queue, at_writer, sums, IsLocked, Reached-IsLocked,
}

-- The moves that are left to the end of an operation, at most.
abbrev pub to_do : Place → ℕ
to_do outside = 0
to_do entering = 10
to_do counting = 9
to_do first_reader = 8
to_do counted = 7
to_do scanning = 6
to_do refreshing = 5
to_do leaving = 4
to_do uncounting = 3
to_do last_reader = 2
to_do uncounted = 1
to_do inserting = 2
to_do storing = 1

Move-to_do : {m m' : Locks} {p q : Place} → Move m p m' q → to_do q < to_do p
Move-to_do (p_mutex h) = omega arith
Move-to_do (add_first h) = omega arith
Move-to_do (add_reader h) = omega arith
Move-to_do (p_index h) = omega arith
Move-to_do v_mutex = omega arith
Move-to_do not_found = omega arith
Move-to_do (p_queue h) = omega arith
Move-to_do v_queue = omega arith
Move-to_do (p_mutex_again h) = omega arith
Move-to_do (drop_last h) = omega arith
Move-to_do (drop_reader h) = omega arith
Move-to_do v_index = omega arith
Move-to_do v_mutex_again = omega arith
Move-to_do (p_writer h) = omega arith
Move-to_do v_writer = omega arith

Runs-to_do : {s t : Threads} → Runs s t → total to_do t.places < total to_do s.places
Runs-to_do {s} (run i {p} {m} {q} e mv) =
    omega (arith, total-set to_do s.places i p q e, Move-to_do mv)

find :
    (w : Place → ℕ) (ps : List Place)
    → 0 < total w ps
    → (i : ℕ) × (p : Place) × (get_elem? ps i ≡ some p) × (0 < w p)
find w [] h = absurd (omega arith)
find w (p ∷ ps) h = elim (Bool-cases (ltb 0 (w p))) [
  | inl here ↦ (0, p, refl, ground arith)
  | inr more ↦ let (i, q, e, g) = find w ps (ground arith) in (suc i, q, e, g)
]

abbrev pub Runnable : Threads → Type 0
Runnable s = (t : Threads) × Runs s t

module _ (s : Threads) (v : IsLocked s.locks (sums s.places)) where
  -- Places where a thread waits for nothing.
  free_runs :
      (i : ℕ) (p : Place)
      → get_elem? s.places i ≡ some p
      → 0 < at_mutex p + at_last p + at_writer p + at_queue p
      → Runnable s
  free_runs i counting e h = elim (Bool-cases (s.locks.reader_cnt + 1 == 1)) [
    | inl first ↦ (_, run i e (add_first (ground arith)))
    | inr other ↦ (_, run i e (add_reader (ground arith)))
  ]
  free_runs i counted e h = (_, run i e v_mutex)
  free_runs i uncounting e h =
      let reads = le-total at_reader s.places i uncounting e in
      elim (Bool-cases (s.locks.reader_cnt == 1)) [
        | inl last ↦ (_, run i e (drop_last (ground arith)))
        | inr other ↦ (_, run i e (drop_reader (ground (arith, reads, v.count))))
      ]
  free_runs i uncounted e h = (_, run i e v_mutex_again)
  free_runs i last_reader e h = (_, run i e v_index)
  free_runs i storing e h = (_, run i e v_writer)
  free_runs i refreshing e h = (_, run i e v_queue)
  free_runs i _ e h = absurd (omega arith)

  -- One of two sums of places where a thread waits for nothing is not 0.
  found_runs :
      0 < total at_mutex s.places + total at_last s.places + total at_writer s.places → Runnable s
  found_runs h = elim (Bool-cases (ltb 0 (total at_mutex s.places))) [
    | inl holder ↦
        let (i, p, e, g) = find at_mutex s.places (ground arith) in free_runs i p e (omega arith)
    | inr none ↦ elim (Bool-cases (ltb 0 (total at_last s.places))) [
      | inl last ↦
          let (i, p, e, g) = find at_last s.places (ground arith) in free_runs i p e (omega arith)
      | inr neither ↦
          let (i, p, e, g) = find at_writer s.places (ground arith) in free_runs i p e (omega arith)
    ]
  ]

  held_runs : s.locks.mutex ≡ 0 → total at_first s.places ≡ 0 → Runnable s
  held_runs m f = found_runs (omega (arith, v.mutex))

  leaves : (i : ℕ) → get_elem? s.places i ≡ some leaving → total at_first s.places ≡ 0 → Runnable s
  leaves i e f = elim (Bool-cases (ltb 0 s.locks.mutex)) [
    | inl unlocked ↦ (_, run i e (p_mutex_again (ground arith)))
    | inr locked ↦ held_runs (ground arith) f
  ]

  a_reader_runs :
      (i : ℕ) (p : Place)
      → get_elem? s.places i ≡ some p
      → 0 < at_reader p
      → total at_first s.places ≡ 0
      → Runnable s
  a_reader_runs i counted e h f = free_runs i counted e (omega arith)
  a_reader_runs i scanning e h f = (_, run i e not_found)
  a_reader_runs i refreshing e h f = free_runs i refreshing e (omega arith)
  a_reader_runs i leaving e h f = leaves i e f
  a_reader_runs i uncounting e h f = free_runs i uncounting e (omega arith)
  a_reader_runs i _ e h f = absurd (omega arith)

  reader_runs : total at_first s.places ≡ 0 → 0 < total at_reader s.places → Runnable s
  reader_runs f h = let (i, p, e, g) = find at_reader s.places h in a_reader_runs i p e g f

  -- If `index_lock` is taken, some thread runs.
  index_runs : s.locks.index_lock ≡ 0 → Runnable s
  index_runs x = elim v.index [
    | inl (none, sum) ↦ found_runs (omega arith)
    | inr (readers, sum) ↦ elim (Bool-cases (ltb 0 (total at_first s.places))) [
      | inl first ↦ found_runs (ground arith)
      | inr other ↦
          let f : total at_first s.places ≡ 0 = ground arith in
          reader_runs f (omega (arith, v.count))
    ]
  ]

  waits_index :
      (i : ℕ)
      → get_elem? s.places i ≡ some first_reader ⊎ get_elem? s.places i ≡ some inserting
      → Runnable s
  waits_index i e = elim (Bool-cases (ltb 0 s.locks.index_lock)) [
    | inl unlocked ↦ elim e [
      | inl first ↦ (_, run i first (p_index (ground arith)))
      | inr writer ↦ (_, run i writer (p_writer (ground arith)))
    ]
    | inr locked ↦ index_runs (ground arith)
  ]

  a_first_runs : (i : ℕ) (p : Place) → get_elem? s.places i ≡ some p → 0 < at_first p → Runnable s
  a_first_runs i first_reader e h = waits_index i (inl e)
  a_first_runs i _ e h = absurd (omega arith)

  -- If `mutex` is taken, some thread runs.
  mutex_runs : s.locks.mutex ≡ 0 → Runnable s
  mutex_runs m = elim (Bool-cases (ltb 0 (total at_first s.places))) [
    | inl first ↦ let (i, p, e, g) = find at_first s.places (ground arith) in a_first_runs i p e g
    | inr none ↦ held_runs m (ground arith)
  ]

  waits_mutex :
      (i : ℕ)
      → get_elem? s.places i ≡ some entering ⊎ get_elem? s.places i ≡ some leaving
      → Runnable s
  waits_mutex i e = elim (Bool-cases (ltb 0 s.locks.mutex)) [
    | inl unlocked ↦ elim e [
      | inl enters ↦ (_, run i enters (p_mutex (ground arith)))
      | inr leaves ↦ (_, run i leaves (p_mutex_again (ground arith)))
    ]
    | inr locked ↦ mutex_runs (ground arith)
  ]

  some_runs : (i : ℕ) (p : Place) → get_elem? s.places i ≡ some p → 0 < to_do p → Runnable s
  some_runs i outside e h = absurd (omega arith)
  some_runs i entering e h = waits_mutex i (inl e)
  some_runs i first_reader e h = waits_index i (inl e)
  some_runs i leaving e h = waits_mutex i (inr e)
  some_runs i inserting e h = waits_index i (inr e)
  some_runs i scanning e h = (_, run i e not_found)
  some_runs i p e h = free_runs i p e (omega arith)

busy : (p : Place) → p ≢ outside → 0 < to_do p
busy outside ne = absurd (ne refl)
busy _ ne = omega arith

-- In every state that threads reach, if a thread is inside of an operation on the cache, some
-- thread can go on.
pub no_deadlock :
    {n : ℕ} {s : Threads}
    → Reached n s
    → (i : ℕ) (p : Place) → get_elem? s.places i ≡ some p
    → p ≢ outside
    → Runnable s
no_deadlock {s} r i p e ne = some_runs s (Reached-IsLocked r) i p e (busy p ne)

abbrev pub AllOutside : List Place → Type 0
AllOutside [] = Unit
AllOutside (p ∷ ps) = (p ≡ outside) × AllOutside ps

-- The state after some moves, without a call of another operation.
pub data Later : Threads → Threads → Type 0 where
  now : {s : Threads} → Later s s
  onward : {s t u : Threads} → Runs s t → Later t u → Later s u

nothing_to_do : (ps : List Place) → total to_do ps ≡ 0 → AllOutside ps
nothing_to_do [] e = tt
nothing_to_do (outside ∷ ps) e = (refl, nothing_to_do ps (omega arith))
nothing_to_do (_ ∷ ps) e = absurd (omega arith)

ends :
    (k n : ℕ) (s : Threads)
    → Reached n s
    → total to_do s.places ≤ k
    → (t : Threads) × Later s t × AllOutside t.places
ends zero n s r le = (s, now, nothing_to_do s.places (omega arith))
ends (suc k) n s r le = elim (Bool-cases (ltb 0 (total to_do s.places))) [
  | inl busy ↦
      let (i, p, e, g) = find to_do s.places (ground arith) in
      let (t, first) = some_runs s (Reached-IsLocked r) i p e g in
      let (u, rest, done) = ends k n t (turns r (runs first)) (omega (arith, Runs-to_do first)) in
      (u, onward first rest, done)
  | inr done ↦ (s, now, nothing_to_do s.places (ground arith))
]

-- From every state that threads reach, if no further operation is called, there is a sequence of
-- moves to a state where all threads are outside of the operations on the cache.
pub Reached-ends :
    {n : ℕ} {s : Threads} → Reached n s → (t : Threads) × Later s t × AllOutside t.places
Reached-ends {n} {s} r = ends (total to_do s.places) n s r (omega arith)
