-- ===== src/Proxy/Locks/Invariant.antt =====
-- What holds between the semaphores of proxylab_code/cache.c and the places of the threads.
use csapp_lab_code.Base.{
  total, total-set, le-total, total-replicate, ℕ, ◌+◌, ◌<◌, ◌≤◌, ◌≡◌, refl, some, List, get_elem?,
  set, ◌⊎◌, inl, arith,
}
use csapp_lab_code.Proxy.Locks.{
  Locks, Place, outside, entering, counting, first_reader, counted, scanning, refreshing, leaving,
  uncounting, last_reader, uncounted, inserting, storing, Move, p_mutex, add_first, add_reader,
  p_index, v_mutex, not_found, p_queue, v_queue, p_mutex_again, drop_last, drop_reader, v_index,
  v_mutex_again, p_writer, v_writer, Threads, run, Turn, runs, retrieves, inserts, Reached, starts,
  turns,
}

-- The places with the mutex, apart from the first and the last reader.
abbrev pub at_mutex : Place → ℕ
at_mutex counting = 1
at_mutex counted = 1
at_mutex uncounting = 1
at_mutex uncounted = 1
at_mutex _ = 0

abbrev pub at_first : Place → ℕ
at_first first_reader = 1
at_first _ = 0

abbrev pub at_last : Place → ℕ
at_last last_reader = 1
at_last _ = 0

-- The places of a reader that is counted, apart from the first.
abbrev pub at_reader : Place → ℕ
at_reader counted = 1
at_reader scanning = 1
at_reader refreshing = 1
at_reader leaving = 1
at_reader uncounting = 1
at_reader _ = 0

abbrev pub at_queue : Place → ℕ
at_queue refreshing = 1
at_queue _ = 0

abbrev pub at_writer : Place → ℕ
at_writer storing = 1
at_writer _ = 0

-- How many threads are at these places.
pub record Sums : Type 0 where
  pub holders : ℕ
  pub firsts : ℕ
  pub lasts : ℕ
  pub readers : ℕ
  pub movers : ℕ
  pub writers : ℕ

abbrev pub sums : List Place → Sums
sums ps = record {
  holders = total at_mutex ps;
  firsts = total at_first ps;
  lasts = total at_last ps;
  readers = total at_reader ps;
  movers = total at_queue ps;
  writers = total at_writer ps;
}

-- A first reader is the only one, and a last one leaves none behind.
pub record IsLocked (m : Locks) (k : Sums) : Type 0 where
  pub mutex : m.mutex + k.holders + k.firsts + k.lasts ≡ 1
  pub queue : m.queue_lock + k.movers ≡ 1
  pub count : m.reader_cnt ≡ k.firsts + k.readers
  pub index :
      ((m.reader_cnt ≡ 0) × (m.index_lock + k.writers + k.lasts ≡ 1))
      ⊎ ((0 < m.reader_cnt) × (m.index_lock + k.writers + k.lasts ≡ k.firsts))
  pub alone : (k.firsts ≡ 0) ⊎ (k.readers ≡ 0)
  pub left : (k.lasts ≡ 0) ⊎ (m.reader_cnt ≡ 0)

-- The sums after a move from `p` to `q`.
record Shifts (p q : Place) (k l : Sums) : Type 0 where
  pub holders : l.holders + at_mutex p ≡ k.holders + at_mutex q
  pub firsts : l.firsts + at_first p ≡ k.firsts + at_first q
  pub lasts : l.lasts + at_last p ≡ k.lasts + at_last q
  pub readers : l.readers + at_reader p ≡ k.readers + at_reader q
  pub movers : l.movers + at_queue p ≡ k.movers + at_queue q
  pub writers : l.writers + at_writer p ≡ k.writers + at_writer q
  pub holds : at_mutex p ≤ k.holders
  pub reads : at_reader p ≤ k.readers

set-Shifts :
    (ps : List Place) (i : ℕ) (p q : Place)
    → get_elem? ps i ≡ some p
    → Shifts p q (sums ps) (sums (set ps i q))
set-Shifts ps i p q e = record {
  holders = total-set at_mutex ps i p q e;
  firsts = total-set at_first ps i p q e;
  lasts = total-set at_last ps i p q e;
  readers = total-set at_reader ps i p q e;
  movers = total-set at_queue ps i p q e;
  writers = total-set at_writer ps i p q e;
  holds = le-total at_mutex ps i p e;
  reads = le-total at_reader ps i p e;
}

Move-IsLocked :
    {m m' : Locks} {p q : Place} {k l : Sums}
    → Move m p m' q
    → Shifts p q k l
    → IsLocked m k
    → IsLocked m' l
Move-IsLocked (p_mutex h) d v = ground arith
Move-IsLocked (add_first h) d v = ground arith
Move-IsLocked (add_reader h) d v = ground arith
Move-IsLocked (p_index h) d v = ground arith
Move-IsLocked v_mutex d v = ground arith
Move-IsLocked not_found d v = ground arith
Move-IsLocked (p_queue h) d v = ground arith
Move-IsLocked v_queue d v = ground arith
Move-IsLocked (p_mutex_again h) d v = ground arith
Move-IsLocked (drop_last h) d v = ground arith
Move-IsLocked (drop_reader h) d v = ground arith
Move-IsLocked v_index d v = ground arith
Move-IsLocked v_mutex_again d v = ground arith
Move-IsLocked (p_writer h) d v = ground arith
Move-IsLocked v_writer d v = ground arith

Turn-IsLocked :
    {s t : Threads} → Turn s t → IsLocked s.locks (sums s.places) → IsLocked t.locks (sums t.places)
Turn-IsLocked {s} (runs (run i {p} {m} {q} e mv)) v =
    Move-IsLocked mv (set-Shifts s.places i p q e) v
Turn-IsLocked {s} (retrieves i e) v =
    let d = set-Shifts s.places i outside entering e in ground arith
Turn-IsLocked {s} (inserts i e) v =
    let d = set-Shifts s.places i outside inserting e in ground arith

-- The semaphores and the counter agree with the places of the threads in every state that is reached.
pub Reached-IsLocked : {n : ℕ} {s : Threads} → Reached n s → IsLocked s.locks (sums s.places)
Reached-IsLocked {n} starts =
    let none = λ (w : Place → ℕ). λ (e : w outside ≡ 0). total-replicate w n outside e in
    record {
      mutex = omega (arith, none at_mutex refl, none at_first refl, none at_last refl);
      queue = omega (arith, none at_queue refl);
      count = omega (arith, none at_first refl, none at_reader refl);
      index = inl (refl, omega (arith, none at_writer refl, none at_last refl));
      alone = inl (none at_first refl);
      left = inl (none at_last refl);
    }
Reached-IsLocked (turns r t) = Turn-IsLocked t (Reached-IsLocked r)
