-- ===== src/Proxy/ConnQueue/Fifo.antt =====
-- The ring of proxylab_code/server.c as a queue: first in, first out.
use csapp_lab_code.Base.{
  ℕ, zero, suc, ◌+◌, ◌-◌, ◌%◌, ◌<◌, ◌≡◌, ◌≢◌, refl, ◌∙◌, ap, some, List, [], ◌∷◌, ◌++◌, length,
  get_or, set, length-set, get_or-set_self, arith,
}
use csapp_lab_code.Proxy.ConnQueue.{
  ConnQueue, queue_capacity, p_sem, put_connection, take_connection, add_new_connection,
  get_new_connection,
}

-- `n` connections of the ring from index `i` on
abbrev pub ring : List ℕ → ℕ → ℕ → List ℕ
ring fds zero i = []
ring fds (suc n) i = get_or fds i 0 ∷ ring fds n ((i + 1) % queue_capacity)

-- The connections that wait, the one to be served next first.
abbrev pub waiting : ConnQueue → List ℕ
waiting q = ring q.connfds q.item_cnt q.front

-- The semaphores count the free and the used entries, and nobody is between P and V.
pub record IsRing (q : ConnQueue) : Type 0 where
  pub size : length q.connfds ≡ queue_capacity
  pub first : q.front < queue_capacity
  pub next : q.rear ≡ (q.front + q.item_cnt) % queue_capacity
  pub counts : q.slot_cnt + q.item_cnt ≡ queue_capacity
  pub unlocked : q.mutex ≡ 1

get_or-set_ne : (xs : List ℕ) (i j d v : ℕ) → i ≢ j → get_or (set xs i v) j d ≡ get_or xs j d
get_or-set_ne [] i j d v ne = refl
get_or-set_ne (x ∷ xs) zero zero d v ne = absurd (ne refl)
get_or-set_ne (x ∷ xs) zero (suc j) d v ne = refl
get_or-set_ne (x ∷ xs) (suc i) zero d v ne = refl
get_or-set_ne (x ∷ xs) (suc i) (suc j) d v ne = get_or-set_ne xs i j d v (λ e. ne (ap suc e))

-- A write behind the last of `n` connections appends to them.
pub ring-set :
    (fds : List ℕ) (n i fd : ℕ)
    → length fds ≡ queue_capacity
    → i < queue_capacity
    → n < queue_capacity
    → ring (set fds ((i + n) % queue_capacity) fd) (suc n) i ≡ ring fds n i ++ fd ∷ []
ring-set fds zero i fd size lt few =
    let here : (i + 0) % queue_capacity ≡ i = omega (arith, lt) in
    rw here (ap (λ x. x ∷ []) (get_or-set_self fds i 0 fd (omega arith)))
ring-set fds (suc n) i fd size lt few =
    let moved : (i + suc n) % queue_capacity ≡ ((i + 1) % queue_capacity + n) % queue_capacity =
      omega (arith, lt) in
    let other : (i + suc n) % queue_capacity ≢ i = λ e. omega (arith, e) in
    let head = get_or-set_ne fds ((i + suc n) % queue_capacity) i 0 fd other in
    let rest = ring-set fds n ((i + 1) % queue_capacity) fd size (omega arith) (omega arith) in
    rw head (
      ap (λ xs. get_or fds i 0 ∷ xs)
        (ap (λ k. ring (set fds k fd) (suc n) ((i + 1) % queue_capacity)) moved ∙ rest))

take_one : (n : ℕ) → 0 < n → p_sem n ≡ some (n - 1)
take_one zero h = absurd (omega arith)
take_one (suc n) h = ap some (omega arith)

-- On a valid queue with a free entry, with nobody between P and V, `add_new_connection` does not
-- wait, keeps the queue valid and puts the connection behind those that wait.
pub add_new_connection-waiting :
    (q : ConnQueue) (fd : ℕ)
    → IsRing q
    → 0 < q.slot_cnt
    → (q' : ConnQueue) × (add_new_connection q fd ≡ some q')
      × IsRing q'
      × (waiting q' ≡ waiting q ++ fd ∷ [])
unfolding add_new_connection put_connection
add_new_connection-waiting q fd v free =
    let one_free : p_sem q.slot_cnt ≡ some (q.slot_cnt - 1) = take_one q.slot_cnt free in
    let lock : p_sem q.mutex ≡ some 0 = rw v.unlocked refl in
    let appended =
      ring-set q.connfds q.item_cnt q.front fd v.size v.first (omega (arith, v.counts)) in
    (
      put_connection q (q.slot_cnt - 1) 0 fd,
      rw (one_free, lock, add_new_connection) refl,
      record {
        size = length-set q.connfds q.rear fd ∙ v.size;
        first = v.first;
        next = omega (arith, v.next);
        counts = omega (arith, v.counts);
        unlocked = refl;
      },
      ap (λ k. ring (set q.connfds k fd) (suc q.item_cnt) q.front) v.next ∙ appended,
    )

-- On a valid queue that is not empty, with nobody between P and V, `get_new_connection` does not
-- wait, keeps the queue valid and returns the connection that has waited longest, with the others
-- left.
pub get_new_connection-waiting :
    (q : ConnQueue)
    → IsRing q
    → 0 < q.item_cnt
    → (fd : ℕ) × (q' : ConnQueue) × (get_new_connection q ≡ some (fd, q'))
      × IsRing q'
      × (waiting q ≡ fd ∷ waiting q')
unfolding get_new_connection take_connection
get_new_connection-waiting q v some_item =
    let one_there : p_sem q.item_cnt ≡ some (q.item_cnt - 1) = take_one q.item_cnt some_item in
    let lock : p_sem q.mutex ≡ some 0 = rw v.unlocked refl in
    let more : q.item_cnt ≡ suc (q.item_cnt - 1) = omega arith in
    (
      get_or q.connfds q.front 0,
      (take_connection q (q.item_cnt - 1) 0).1,
      rw (one_there, lock, get_new_connection) refl,
      record {
        size = v.size;
        first = omega arith;
        next = omega (arith, v.next);
        counts = omega (arith, v.counts);
        unlocked = refl;
      },
      ap (λ n. ring q.connfds n q.front) more,
    )
