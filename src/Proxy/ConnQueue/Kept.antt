-- ===== src/Proxy/ConnQueue/Kept.antt =====
-- What all threads of proxylab_code/server.c together keep of the queue of connections.
use csapp_lab_code.Base.{
  ℕ, zero, suc, ◌+◌, ◌-◌, ◌%◌, ◌≤◌, ◌<◌, ◌≡◌, refl, sym, ap, ◌∙◌, some, List, [], ◌∷◌, ◌++◌, length,
  length-set, get_elem?, get_or, set, total, total-set, le-total, total-replicate, arith,
}
use mathlib.Core.List.{append_assoc, append-nil}
use csapp_lab_code.Proxy.ConnQueue.{ConnQueue, queue_capacity, init_connection_queue}
use csapp_lab_code.Proxy.ConnQueue.Fifo.{ring, ring-set}
use csapp_lab_code.Proxy.ConnQueue.Threads.{
  MainPlace, has_slot, writing, written, unlocked, ServicePlace, waiting_item, has_item, reading,
  read, released, Server, ServiceMove, p_item, p_mutex_read, take_first, v_mutex_read, v_slot,
  serves, MainMove, accepts, p_slot, p_mutex_write, put_last, v_mutex_write, v_item, ServerStep,
  main_moves, service_moves, server_start, ServerReach, started, stepped,
}

abbrev pub main_locks : MainPlace → ℕ
main_locks (writing fd) = 1
main_locks written = 1
main_locks _ = 0

-- The main thread has taken a slot and not yet counted the item.
abbrev pub main_holds : MainPlace → ℕ
main_holds (has_slot fd) = 1
main_holds (writing fd) = 1
main_holds written = 1
main_holds unlocked = 1
main_holds _ = 0

-- It has written the item.
abbrev pub main_put : MainPlace → ℕ
main_put written = 1
main_put unlocked = 1
main_put _ = 0

abbrev pub locks : ServicePlace → ℕ
locks reading = 1
locks (read fd) = 1
locks _ = 0

-- A service thread has read an item and not yet counted the slot.
abbrev pub returns : ServicePlace → ℕ
returns (read fd) = 1
returns (released fd) = 1
returns _ = 0

-- It has taken an item and not yet read it.
abbrev pub claims : ServicePlace → ℕ
claims has_item = 1
claims reading = 1
claims _ = 0

pub record Tally : Type 0 where
  pub lockers : ℕ
  pub returners : ℕ
  pub claimers : ℕ

abbrev pub tally : List ServicePlace → Tally
tally ps = record {
  lockers = total locks ps;
  returners = total returns ps;
  claimers = total claims ps;
}

-- The semaphores, with `n` connections in the ring.
pub record IsCounted (q : ConnQueue) (p : MainPlace) (k : Tally) (n : ℕ) : Type 0 where
  pub mutex : q.mutex + main_locks p + k.lockers ≡ 1
  pub places : q.slot_cnt + q.item_cnt + main_holds p + k.claimers + k.returners ≡ queue_capacity
  pub stored : n ≡ q.item_cnt + main_put p + k.claimers

-- The ring holds what was put into it and not yet taken, in order.
pub record IsHeld (q : ConnQueue) (accepted taken : List ℕ) (n : ℕ) : Type 0 where
  pub size : length q.connfds ≡ queue_capacity
  pub first : q.front < queue_capacity
  pub next : q.rear ≡ (q.front + n) % queue_capacity
  pub fifo : accepted ≡ taken ++ ring q.connfds n q.front

record Shift (p q : ServicePlace) (k l : Tally) : Type 0 where
  pub lockers : l.lockers + locks p ≡ k.lockers + locks q
  pub returners : l.returners + returns p ≡ k.returners + returns q
  pub claimers : l.claimers + claims p ≡ k.claimers + claims q
  pub claim : claims p ≤ k.claimers

set-Shift :
    (ps : List ServicePlace) (i : ℕ) (p q : ServicePlace)
    → get_elem? ps i ≡ some p
    → Shift p q (tally ps) (tally (set ps i q))
set-Shift ps i p q e = record {
  lockers = total-set locks ps i p q e;
  returners = total-set returns ps i p q e;
  claimers = total-set claims ps i p q e;
  claim = le-total claims ps i p e;
}

abbrev Keeps : ConnQueue → MainPlace → Tally → List ℕ → List ℕ → Type 0
Keeps q p k accepted taken = (n : ℕ) × IsCounted q p k n × IsHeld q accepted taken n

-- What the ring holds depends on three of the fields.
module _ (q : ConnQueue) (slots items mutex : ℕ) (accepted taken : List ℕ) (n : ℕ) where
  abbrev counted_anew : ConnQueue
  counted_anew = record q { slot_cnt = slots; item_cnt = items; mutex = mutex }

  none_put : IsHeld q accepted taken n → IsHeld counted_anew (accepted ++ []) taken n
  none_put h = record {
    size = h.size;
    first = h.first;
    next = h.next;
    fifo = append-nil accepted ∙ h.fifo;
  }

  none_taken : IsHeld q accepted taken n → IsHeld counted_anew accepted (taken ++ []) n
  none_taken h = record {
    size = h.size;
    first = h.first;
    next = h.next;
    fifo = h.fifo ∙ ap {A = List ℕ} (λ t. t ++ ring q.connfds n q.front) (sym (append-nil taken));
  }

put-IsHeld :
    (q : ConnQueue) (fd : ℕ) (accepted taken : List ℕ) (n : ℕ)
    → n < queue_capacity
    → IsHeld q accepted taken n
    → IsHeld
        (record q { connfds = set q.connfds q.rear fd; rear = (q.rear + 1) % queue_capacity })
        (accepted ++ fd ∷ [])
        taken
        (suc n)
put-IsHeld q fd accepted taken n room h = record {
  size = length-set q.connfds q.rear fd ∙ h.size;
  first = h.first;
  next = omega (arith, h.next);
  fifo =
      let appended = ring-set q.connfds n q.front fd h.size h.first room in
      let there = ap (λ (k : ℕ). ring (set q.connfds k fd) (suc n) q.front) h.next ∙ appended in
      ap {A = List ℕ} (λ t. t ++ fd ∷ []) h.fifo
      ∙ append_assoc taken (ring q.connfds n q.front) (fd ∷ [])
      ∙ ap {A = List ℕ} (λ t. taken ++ t) (sym there);
}

take-IsHeld :
    (q : ConnQueue) (accepted taken : List ℕ) (n : ℕ)
    → IsHeld q accepted taken (suc n)
    → IsHeld
        (record q { front = (q.front + 1) % queue_capacity })
        accepted
        (taken ++ get_or q.connfds q.front 0 ∷ [])
        n
take-IsHeld q accepted taken n h = record {
  size = h.size;
  first = omega arith;
  next = omega (arith, h.next);
  fifo =
      h.fifo
      ∙ sym (
          append_assoc taken (get_or q.connfds q.front 0 ∷ [])
            (ring q.connfds n ((q.front + 1) % queue_capacity)));
}

main-Keeps :
    {q q' : ConnQueue} {p p' : MainPlace} {fds : List ℕ} (k : Tally) (accepted taken : List ℕ)
    → MainMove q p q' p' fds
    → Keeps q p k accepted taken
    → Keeps q' p' k (accepted ++ fds) taken
main-Keeps {q} k accepted taken (accepts fd) (n, c, h) =
    (n, ground (arith, c), none_put q q.slot_cnt q.item_cnt q.mutex accepted taken n h)
main-Keeps {q} k accepted taken (p_slot free) (n, c, h) =
    (n, ground (arith, c), none_put q (q.slot_cnt - 1) q.item_cnt q.mutex accepted taken n h)
main-Keeps {q} k accepted taken (p_mutex_write free) (n, c, h) =
    (n, ground (arith, c), none_put q q.slot_cnt q.item_cnt (q.mutex - 1) accepted taken n h)
main-Keeps {q} k accepted taken (put_last {fd}) (n, c, h) = (
  suc n,
  ground (arith, c),
  put-IsHeld q fd accepted taken n (omega (arith, c.places, c.stored)) h,
)
main-Keeps {q} k accepted taken v_mutex_write (n, c, h) =
    (n, ground (arith, c), none_put q q.slot_cnt q.item_cnt (q.mutex + 1) accepted taken n h)
main-Keeps {q} k accepted taken v_item (n, c, h) =
    (n, ground (arith, c), none_put q q.slot_cnt (q.item_cnt + 1) q.mutex accepted taken n h)

service-Keeps :
    {q q' : ConnQueue} {p p' : ServicePlace} {fds : List ℕ} (m : MainPlace) (k l : Tally)
    (accepted taken : List ℕ)
    → ServiceMove q p q' p' fds
    → Shift p p' k l
    → Keeps q m k accepted taken
    → Keeps q' m l accepted (taken ++ fds)
service-Keeps {q} m k l accepted taken (p_item free) d (n, c, h) =
    (n, ground (arith, c, d), none_taken q q.slot_cnt (q.item_cnt - 1) q.mutex accepted taken n h)
service-Keeps {q} m k l accepted taken (p_mutex_read free) d (n, c, h) =
    (n, ground (arith, c, d), none_taken q q.slot_cnt q.item_cnt (q.mutex - 1) accepted taken n h)
service-Keeps {q} m k l accepted taken take_first d (zero, c, h) =
    absurd (omega (arith, c.stored, d.claim))
service-Keeps {q} m k l accepted taken take_first d (suc n, c, h) =
    (n, ground (arith, c, d), take-IsHeld q accepted taken n h)
service-Keeps {q} m k l accepted taken v_mutex_read d (n, c, h) =
    (n, ground (arith, c, d), none_taken q q.slot_cnt q.item_cnt (q.mutex + 1) accepted taken n h)
service-Keeps {q} m k l accepted taken v_slot d (n, c, h) =
    (n, ground (arith, c, d), none_taken q (q.slot_cnt + 1) q.item_cnt q.mutex accepted taken n h)
service-Keeps {q} m k l accepted taken serves d (n, c, h) =
    (n, ground (arith, c, d), none_taken q q.slot_cnt q.item_cnt q.mutex accepted taken n h)

abbrev pub IsServer : Server → Type 0
IsServer s = Keeps s.queue s.main (tally s.services) s.accepted s.taken

step-Keeps : {s t : Server} → ServerStep s t → IsServer s → IsServer t
step-Keeps {s} (main_moves mv) v = main-Keeps (tally s.services) s.accepted s.taken mv v
step-Keeps {s} (service_moves i {p} {q} {p'} e mv) v =
    service-Keeps s.main (tally s.services) (tally (set s.services i p')) s.accepted s.taken mv
      (set-Shift s.services i p p' e) v

start-Keeps :
    (n : ℕ) (connfds : List ℕ) → length connfds ≡ queue_capacity → IsServer (server_start n connfds)
unfolding init_connection_queue
start-Keeps n connfds size =
    let none =
      λ (w : ServicePlace → ℕ). λ (e : w waiting_item ≡ 0). total-replicate w n waiting_item e in
    (
      0,
      record {
        mutex = omega (arith, none locks refl);
        places = omega (arith, none claims refl, none returns refl);
        stored = omega (arith, none claims refl);
      },
      record { size = size; first = omega arith; next = refl; fifo = refl },
    )

-- The invariant holds in every state that the threads reach.
pub reach-Keeps :
    {n : ℕ} {connfds : List ℕ} {s : Server}
    → length connfds ≡ queue_capacity
    → ServerReach n connfds s
    → IsServer s
reach-Keeps {n} {connfds} size started = start-Keeps n connfds size
reach-Keeps size (stepped r st) = step-Keeps st (reach-Keeps size r)
