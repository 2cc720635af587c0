-- ===== src/Proxy/ConnQueue/Threads.antt =====
-- The threads of proxylab_code/server.c between the semaphores of the queue of connections: the main
-- thread in `start` and `add_new_connection`, and the threads in `service_thread` and
-- `get_new_connection`. The connections put into the ring and taken from it are noted, in order.
use csapp_lab_code.Base.{
  ℕ, ◌+◌, ◌-◌, ◌%◌, ◌<◌, ◌≡◌, some, List, [], ◌∷◌, ◌++◌, replicate, get_elem?, get_or, set,
}
use csapp_lab_code.Proxy.ConnQueue.{ConnQueue, queue_capacity, init_connection_queue}

-- The main thread: before `Accept`, and then with a connection before P(slot_cnt), before P(mutex),
-- before the write to the ring, before V(mutex) and before V(item_cnt).
pub data MainPlace : Type 0 where
  accepting : MainPlace
  has_connection : ℕ → MainPlace
  has_slot : ℕ → MainPlace
  writing : ℕ → MainPlace
  written : MainPlace
  unlocked : MainPlace

-- A service thread: before P(item_cnt), before P(mutex), before the read of the ring, before V(mutex),
-- before V(slot_cnt), and in `doit`.
pub data ServicePlace : Type 0 where
  waiting_item : ServicePlace
  has_item : ServicePlace
  reading : ServicePlace
  read : ℕ → ServicePlace
  released : ℕ → ServicePlace
  serving : ℕ → ServicePlace

pub record Server : Type 0 where
  pub queue : ConnQueue
  pub main : MainPlace
  pub services : List ServicePlace
  pub accepted : List ℕ
  pub taken : List ℕ

-- A step of a service thread on the queue, with what it takes.
pub data ServiceMove (q : ConnQueue)
    : ServicePlace → ConnQueue → ServicePlace → List ℕ → Type 0 where
  p_item :
      0 < q.item_cnt
      → ServiceMove q waiting_item (record q { item_cnt = q.item_cnt - 1 }) has_item []
  p_mutex_read : 0 < q.mutex → ServiceMove q has_item (record q { mutex = q.mutex - 1 }) reading []
  take_first :
      ServiceMove q reading
        (record q { front = (q.front + 1) % queue_capacity })
        (read (get_or q.connfds q.front 0))
        (get_or q.connfds q.front 0 ∷ [])
  v_mutex_read :
      {fd : ℕ} → ServiceMove q (read fd) (record q { mutex = q.mutex + 1 }) (released fd) []
  v_slot :
      {fd : ℕ}
      → ServiceMove q (released fd) (record q { slot_cnt = q.slot_cnt + 1 }) (serving fd) []
  serves : {fd : ℕ} → ServiceMove q (serving fd) q waiting_item []

-- A step of the main thread on the queue, with what it puts there.
pub data MainMove (q : ConnQueue) : MainPlace → ConnQueue → MainPlace → List ℕ → Type 0 where
  accepts : (fd : ℕ) → MainMove q accepting q (has_connection fd) []
  p_slot :
      {fd : ℕ}
      → 0 < q.slot_cnt
      → MainMove q (has_connection fd) (record q { slot_cnt = q.slot_cnt - 1 }) (has_slot fd) []
  p_mutex_write :
      {fd : ℕ}
      → 0 < q.mutex
      → MainMove q (has_slot fd) (record q { mutex = q.mutex - 1 }) (writing fd) []
  put_last :
      {fd : ℕ}
      → MainMove q
          (writing fd)
          (record q { connfds = set q.connfds q.rear fd; rear = (q.rear + 1) % queue_capacity })
          written
          (fd ∷ [])
  v_mutex_write : MainMove q written (record q { mutex = q.mutex + 1 }) unlocked []
  v_item : MainMove q unlocked (record q { item_cnt = q.item_cnt + 1 }) accepting []

pub data ServerStep (s : Server) : Server → Type 0 where
  main_moves :
      {q : ConnQueue} {p : MainPlace} {fds : List ℕ}
      → MainMove s.queue s.main q p fds
      → ServerStep s (record s { queue = q; main = p; accepted = s.accepted ++ fds })
  service_moves :
      (i : ℕ) {p : ServicePlace} {q : ConnQueue} {p' : ServicePlace} {fds : List ℕ}
      → get_elem? s.services i ≡ some p
      → ServiceMove s.queue p q p' fds
      → ServerStep s
          (record s { queue = q; services = set s.services i p'; taken = s.taken ++ fds })

-- `start`, with `n` service threads and a ring with any contents
abbrev pub server_start : ℕ → List ℕ → Server
server_start n connfds = record {
  queue = init_connection_queue connfds;
  main = accepting;
  services = replicate n waiting_item;
  accepted = [];
  taken = [];
}

pub data ServerReach (n : ℕ) (connfds : List ℕ) : Server → Type 0 where
  started : ServerReach n connfds (server_start n connfds)
  stepped : {s t : Server} → ServerReach n connfds s → ServerStep s t → ServerReach n connfds t
