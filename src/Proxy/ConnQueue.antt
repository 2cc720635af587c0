-- ===== src/Proxy/ConnQueue.antt =====
-- The queue of connections in proxylab_code/server.c: a ring of QUEUE_CAPACITY entries behind three
-- semaphores. An operation here runs from its first P to its last V as one step, `none` where a P waits;
-- ConnQueue/Threads has the threads at each semaphore.
pub mod Fifo
pub mod Threads
pub mod Kept
pub mod Order
pub mod Tests
use csapp_lab_code.Base.{ℕ, zero, suc, ◌+◌, ◌%◌, Option, none, some, List, get_or, set, replicate}

abbrev pub queue_capacity : ℕ
queue_capacity = 32

pub record ConnQueue : Type 0 where
  pub connfds : List ℕ
  pub front : ℕ
  pub rear : ℕ
  pub mutex : ℕ
  pub slot_cnt : ℕ
  pub item_cnt : ℕ

-- `P` of a semaphore
abbrev pub p_sem : ℕ → Option ℕ
p_sem zero = none
p_sem (suc n) = some n

-- The array is left as it was.
unfoldable pub init_connection_queue : List ℕ → ConnQueue
init_connection_queue connfds = record {
  connfds = connfds;
  front = 0;
  rear = 0;
  mutex = 1;
  slot_cnt = queue_capacity;
  item_cnt = 0;
}

-- The body of `add_new_connection` between P and V of the mutex, and the two V.
unfoldable pub put_connection : ConnQueue → ℕ → ℕ → ℕ → ConnQueue
put_connection q slots mutex connfd = record q {
  connfds = set q.connfds q.rear connfd;
  rear = (q.rear + 1) % queue_capacity;
  mutex = suc mutex;
  slot_cnt = slots;
  item_cnt = suc q.item_cnt;
}

unfoldable pub add_new_connection : ConnQueue → ℕ → Option ConnQueue
add_new_connection q connfd = elim (p_sem q.slot_cnt) [
  | none ↦ none
  | some slots ↦ elim (p_sem q.mutex) [
    | none ↦ none
    | some mutex ↦ some (put_connection q slots mutex connfd)
  ]
]

unfoldable pub take_connection : ConnQueue → ℕ → ℕ → ℕ × ConnQueue
take_connection q items mutex = (
  get_or q.connfds q.front 0,
  record q {
    front = (q.front + 1) % queue_capacity;
    mutex = suc mutex;
    slot_cnt = suc q.slot_cnt;
    item_cnt = items;
  },
)

unfoldable pub get_new_connection : ConnQueue → Option (ℕ × ConnQueue)
get_new_connection q = elim (p_sem q.item_cnt) [
  | none ↦ none
  | some items ↦ elim (p_sem q.mutex) [
    | none ↦ none
    | some mutex ↦ some (take_connection q items mutex)
  ]
]
