-- ===== src/Proxy/Locks.antt =====
-- The threads of the proxy between the semaphores of proxylab_code/cache.c: a thread is at one of the
-- places in `cache_insert_if_possible` or `cache_retrieve_if_possible` where it uses a semaphore or the
-- counter of readers, or is outside of both. What they do to the cache in between is in ObjectCache.
pub mod Invariant
pub mod Exclusion
pub mod Progress
pub mod Tests
use csapp_lab_code.Base.{ℕ, suc, ◌+◌, ◌-◌, ◌<◌, ◌≡◌, ◌≢◌, some, List, replicate, get_elem?, set}

pub record Locks : Type 0 where
  pub mutex : ℕ
  pub index_lock : ℕ
  pub queue_lock : ℕ
  pub reader_cnt : ℕ

-- In the order of the code: those of a retrieval, then those of an insertion. `entering` and `leaving`
-- wait for `mutex`, `first_reader` and `inserting` for `index_lock`; `scanning` reads the index,
-- `refreshing` has `queue_lock`, and `storing` changes the cache.
pub data Place : Type 0 where
  outside : Place
  entering : Place
  counting : Place
  first_reader : Place
  counted : Place
  scanning : Place
  refreshing : Place
  leaving : Place
  uncounting : Place
  last_reader : Place
  uncounted : Place
  inserting : Place
  storing : Place

-- One thread goes on, from one place to the next. The counter of readers is not 0 at `uncounting`, where
-- the thread itself is counted.
pub data Move (m : Locks) : Place → Locks → Place → Type 0 where
  p_mutex : 0 < m.mutex → Move m entering (record m { mutex = m.mutex - 1 }) counting
  add_first :
      m.reader_cnt + 1 ≡ 1
      → Move m counting (record m { reader_cnt = m.reader_cnt + 1 }) first_reader
  add_reader :
      m.reader_cnt + 1 ≢ 1 → Move m counting (record m { reader_cnt = m.reader_cnt + 1 }) counted
  p_index :
      0 < m.index_lock → Move m first_reader (record m { index_lock = m.index_lock - 1 }) counted
  v_mutex : Move m counted (record m { mutex = m.mutex + 1 }) scanning
  not_found : Move m scanning m leaving
  p_queue :
      0 < m.queue_lock → Move m scanning (record m { queue_lock = m.queue_lock - 1 }) refreshing
  v_queue : Move m refreshing (record m { queue_lock = m.queue_lock + 1 }) leaving
  p_mutex_again : 0 < m.mutex → Move m leaving (record m { mutex = m.mutex - 1 }) uncounting
  drop_last : m.reader_cnt ≡ 1 → Move m uncounting (record m { reader_cnt = 0 }) last_reader
  drop_reader :
      1 < m.reader_cnt → Move m uncounting (record m { reader_cnt = m.reader_cnt - 1 }) uncounted
  v_index : Move m last_reader (record m { index_lock = m.index_lock + 1 }) uncounted
  v_mutex_again : Move m uncounted (record m { mutex = m.mutex + 1 }) outside
  p_writer :
      0 < m.index_lock → Move m inserting (record m { index_lock = m.index_lock - 1 }) storing
  v_writer : Move m storing (record m { index_lock = m.index_lock + 1 }) outside

pub record Threads : Type 0 where
  pub locks : Locks
  pub places : List Place

abbrev pub thread_at : Threads → ℕ → Locks → Place → Threads
thread_at s i m q = record { locks = m; places = set s.places i q }

-- A thread goes on.
pub data Runs (s : Threads) : Threads → Type 0 where
  run :
      (i : ℕ) {p : Place} {m : Locks} {q : Place}
      → get_elem? s.places i ≡ some p
      → Move s.locks p m q
      → Runs s (thread_at s i m q)

-- A thread goes on, or calls one of the operations.
pub data Turn (s : Threads) : Threads → Type 0 where
  runs : {t : Threads} → Runs s t → Turn s t
  retrieves :
      (i : ℕ) → get_elem? s.places i ≡ some outside → Turn s (thread_at s i s.locks entering)
  inserts : (i : ℕ) → get_elem? s.places i ≡ some outside → Turn s (thread_at s i s.locks inserting)

-- `init_cache`, with `n` threads
abbrev pub at_start : ℕ → Threads
at_start n = record {
  locks = record { mutex = 1; index_lock = 1; queue_lock = 1; reader_cnt = 0 };
  places = replicate n outside;
}

pub data Reached (n : ℕ) : Threads → Type 0 where
  starts : Reached n (at_start n)
  turns : {s t : Threads} → Reached n s → Turn s t → Reached n t
