-- ===== src/Proxy/ConnQueue/Order.antt =====
-- The order in which the threads of proxylab_code/server.c pass connections on, and that they do not wait
-- for each other for ever.
use csapp_lab_code.Base.{
  ℕ, zero, suc, ◌+◌, ◌%◌, ◌≤◌, ◌<◌, ◌≡◌, ◌≢◌, refl, sym, ap, ◌⊎◌, inl, inr, some, List, [], ◌∷◌,
  ◌++◌, length, get_elem?, get_elem?-some, ltb, Bool-cases, total, arith,
}
use mathlib.Core.Path.{subst}
use csapp_lab_code.Proxy.ConnQueue.{ConnQueue, queue_capacity}
use csapp_lab_code.Proxy.ConnQueue.Fifo.{ring}
use csapp_lab_code.Proxy.ConnQueue.Threads.{
  MainPlace, accepting, has_connection, has_slot, writing, written, unlocked, ServicePlace,
  waiting_item, has_item, reading, read, released, serving, Server, p_item, p_mutex_read,
  take_first, v_mutex_read, v_slot, serves, MainMove, p_slot, p_mutex_write, put_last,
  v_mutex_write, v_item, ServerStep, main_moves, service_moves, ServerReach,
}
use csapp_lab_code.Proxy.ConnQueue.Kept.{
  main_put, main_locks, main_holds, locks, claims, returns, tally, IsCounted, reach-Keeps,
}

ring-length : (fds : List ℕ) (n i : ℕ) → length (ring fds n i) ≡ n
ring-length fds zero i = refl
ring-length fds (suc n) i = ap suc (ring-length fds n ((i + 1) % queue_capacity))

-- In every state that the main thread and the service threads reach between the semaphores, from an
-- array of QUEUE_CAPACITY entries, the connections that were put into the ring are those that were
-- read from it, in the same order, and then at most QUEUE_CAPACITY others.
pub taken_in_order :
    {n : ℕ} {connfds : List ℕ} {s : Server}
    → length connfds ≡ queue_capacity
    → ServerReach n connfds s
    → (left : List ℕ) × (s.accepted ≡ s.taken ++ left) × (length left ≤ queue_capacity)
taken_in_order {s} size r =
    let (n, c, h) = reach-Keeps size r in
    (
      ring s.queue.connfds n s.queue.front,
      h.fifo,
      omega
          (arith, ring-length s.queue.connfds n s.queue.front, c.places, c.stored, put_held s.main),
    )
  where
    put_held : (p : MainPlace) → main_put p ≤ main_holds p
    put_held accepting = omega arith
    put_held _ = omega arith

-- Some thread can take its next step.
abbrev pub GoesOn : Server → Type 0
GoesOn s = (t : Server) × ServerStep s t

find :
    (w : ServicePlace → ℕ) (ps : List ServicePlace)
    → 0 < total w ps
    → (i : ℕ) × (p : ServicePlace) × (get_elem? ps i ≡ some p) × (0 < w p)
find w [] h = absurd (omega arith)
find w (p ∷ ps) h = elim (Bool-cases (ltb 0 (w p))) [
  | inl here ↦ (0, p, refl, ground arith)
  | inr more ↦ let (i, q, e, g) = find w ps (ground arith) in (suc i, q, e, g)
]

module _ (s : Server) where
  a_locker : (i : ℕ) (p : ServicePlace) → get_elem? s.services i ≡ some p → 0 < locks p → GoesOn s
  a_locker i reading e h = (_, service_moves i e take_first)
  a_locker i (read fd) e h = (_, service_moves i e v_mutex_read)
  a_locker i _ e h = absurd (omega arith)

  locked : 0 < total locks s.services → GoesOn s
  locked h = let (i, p, e, g) = find locks s.services h in a_locker i p e g

  -- While a service thread has the mutex it goes on, and if none has it the main thread does.
  needs_mutex :
      s.queue.mutex + total locks s.services ≡ 1 → (0 < s.queue.mutex → GoesOn s) → GoesOn s
  needs_mutex sum go = elim (Bool-cases (ltb 0 s.queue.mutex)) [
    | inl free ↦ go (ground arith)
    | inr taken ↦ locked (ground arith)
  ]

  service_goes :
      (i : ℕ) (p : ServicePlace)
      → get_elem? s.services i ≡ some p
      → s.queue.mutex + total locks s.services ≡ 1
      → (0 < s.queue.item_cnt) ⊎ (0 < total claims s.services + total returns s.services)
      → GoesOn s
  service_goes i has_item e sum some_item =
      needs_mutex sum (λ free. (_, service_moves i e (p_mutex_read free)))
  service_goes i reading e sum some_item = (_, service_moves i e take_first)
  service_goes i (read fd) e sum some_item = (_, service_moves i e v_mutex_read)
  service_goes i (released fd) e sum some_item = (_, service_moves i e v_slot)
  service_goes i (serving fd) e sum some_item = (_, service_moves i e serves)
  service_goes i waiting_item e sum (inl item) = (_, service_moves i e (p_item item))
  service_goes i waiting_item e sum (inr busy) =
      elim (Bool-cases (ltb 0 (total claims s.services))) [
        | inl claimed ↦
            let (j, p, f, g) = find claims s.services (ground arith) in claim_goes j p f g
        | inr none ↦
            let (j, p, f, g) = find returns s.services (ground arith) in return_goes j p f g
      ]
    where
      claim_goes :
          (j : ℕ) (p : ServicePlace) → get_elem? s.services j ≡ some p → 0 < claims p → GoesOn s
      claim_goes j has_item f g =
          needs_mutex sum (λ free. (_, service_moves j f (p_mutex_read free)))
      claim_goes j reading f g = (_, service_moves j f take_first)
      claim_goes j _ f g = absurd (omega arith)

      return_goes :
          (j : ℕ) (p : ServicePlace) → get_elem? s.services j ≡ some p → 0 < returns p → GoesOn s
      return_goes j (read fd) f g = (_, service_moves j f v_mutex_read)
      return_goes j (released fd) f g = (_, service_moves j f v_slot)
      return_goes j _ f g = absurd (omega arith)

-- In every state that the threads reach from an array of QUEUE_CAPACITY entries, if there is a
-- service thread and the main thread is within `add_new_connection`, some thread can take its next
-- step; the return of a call of `doit` is such a step.
pub server-GoesOn :
    {n : ℕ} {connfds : List ℕ} {s : Server}
    → length connfds ≡ queue_capacity
    → ServerReach n connfds s
    → 0 < length s.services
    → s.main ≢ accepting
    → GoesOn s
server-GoesOn {s} size r some_thread busy = main_goes s.main refl
  where
    m : ℕ
    m = (reach-Keeps size r).0

    c : IsCounted s.queue s.main (tally s.services) m
    c = (reach-Keeps size r).1

    some_item :
        s.queue.slot_cnt ≡ 0
        → main_holds s.main ≡ 0
        → (0 < s.queue.item_cnt) ⊎ (0 < total claims s.services + total returns s.services)
    some_item full idle = elim (Bool-cases (ltb 0 s.queue.item_cnt)) [
      | inl item ↦ inl (ground arith)
      | inr none ↦ inr (ground (arith, c.places))
    ]

    first_goes : s.queue.slot_cnt ≡ 0 → main_holds s.main ≡ 0 → main_locks s.main ≡ 0 → GoesOn s
    first_goes full idle outside =
        let (p, e) = get_elem?-some s.services 0 some_thread in
        service_goes s 0 p e (omega (arith, c.mutex, outside)) (some_item full idle)

    moves :
        {p p' : MainPlace} {q : ConnQueue} {fds : List ℕ}
        → s.main ≡ p
        → MainMove s.queue p q p' fds
        → GoesOn s
    moves {p} {p'} {q} {fds} e mv =
        (_, main_moves (subst (λ x. MainMove s.queue x q p' fds) (sym e) mv))

    main_goes : (p : MainPlace) → s.main ≡ p → GoesOn s
    main_goes accepting e = absurd (busy e)
    main_goes (has_connection fd) e = elim (Bool-cases (ltb 0 s.queue.slot_cnt)) [
      | inl free ↦ moves e (p_slot (ground arith))
      | inr full ↦ first_goes (ground arith) (ap main_holds e) (ap main_locks e)
    ]
    main_goes (has_slot fd) e =
        needs_mutex s (omega (arith, c.mutex, ap main_locks e))
          (λ free. moves e (p_mutex_write free))
    main_goes (writing fd) e = moves e put_last
    main_goes written e = moves e v_mutex_write
    main_goes unlocked e = moves e v_item
