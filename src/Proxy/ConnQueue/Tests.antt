-- ===== src/Proxy/ConnQueue/Tests.antt =====
-- The theorems on the threads of proxylab_code/server.c at a run of the main thread and one other.
use csapp_lab_code.Base.{ℕ, ◌≡◌, ◌≤◌, refl, List, [], ◌∷◌, ◌++◌, length, replicate, arith}
use csapp_lab_code.Proxy.ConnQueue.{queue_capacity, init_connection_queue}
use csapp_lab_code.Proxy.ConnQueue.Threads.{
  unlocked, accepts, p_slot, p_mutex_write, put_last, v_mutex_write, v_item, p_item, p_mutex_read,
  take_first, Server, main_moves, service_moves, server_start, ServerReach, started, stepped,
}
use csapp_lab_code.Proxy.ConnQueue.Order.{GoesOn, taken_in_order, server-GoesOn}

-- Connections 5 and 6 are put into the ring, and the service thread has read the first.
one_taken :
    (s : Server) × ServerReach 1 (replicate 32 7) s
    × (s.accepted ≡ 5 ∷ 6 ∷ [])
    × (s.taken ≡ 5 ∷ [])
    × (s.main ≡ unlocked)
    × (length s.services ≡ 1)
unfolding init_connection_queue
one_taken =
    let first : ServerReach 1 (replicate 32 7) (server_start 1 (replicate 32 7)) = started in
    let five = stepped first (main_moves (accepts 5)) in
    let slot = stepped five (main_moves (p_slot (omega arith))) in
    let locked = stepped slot (main_moves (p_mutex_write (omega arith))) in
    let put = stepped locked (main_moves put_last) in
    let free = stepped put (main_moves v_mutex_write) in
    let counted = stepped free (main_moves v_item) in
    let six = stepped counted (main_moves (accepts 6)) in
    let slot_six = stepped six (main_moves (p_slot (omega arith))) in
    let locked_six = stepped slot_six (main_moves (p_mutex_write (omega arith))) in
    let put_six = stepped locked_six (main_moves put_last) in
    let free_six = stepped put_six (main_moves v_mutex_write) in
    let claimed = stepped free_six (service_moves 0 refl (p_item (omega arith))) in
    let alone = stepped claimed (service_moves 0 refl (p_mutex_read (omega arith))) in
    (_, stepped alone (service_moves 0 refl take_first), refl, refl, refl, refl)

taken_in_order_example :
    (left : List ℕ) × (5 ∷ 6 ∷ [] ≡ 5 ∷ [] ++ left) × (length left ≤ queue_capacity)
unfolding one_taken init_connection_queue
taken_in_order_example = taken_in_order refl one_taken.1

server-GoesOn_example : GoesOn one_taken.0
unfolding one_taken init_connection_queue
server-GoesOn_example = server-GoesOn refl one_taken.1 (omega arith) (λ e. absurd (cc))
