-- ===== src/Proxy/ObjectCache/Lookup.antt =====
-- The operations on the cache of proxylab_code/cache.c as operations on its queue alone: what a retrieval
-- finds there, and what an insertion leaves there.
use csapp_lab_code.Base.{
  ℕ, ◌≤◌, ◌≡◌, ◌≢◌, refl, ap, ◌∙◌, ◌⊎◌, inl, inr, true, false, none, some, List, [], ◌∷◌, ◌++◌,
  length, ltb, Option-cases, arith,
}
use csapp_lab_code.Proxy.ObjectCache.{
  ObjectMeta, ObjectCache, max_object_size, group, list_remove, get_string_hash32, pack_object,
  push_front_metadata_queue_node, remove_metadata_queue_node, create_hash_index, add_object,
  cache_insert_if_possible, same_key, stored_text, find_key, cache_retrieve_if_possible,
}
use csapp_lab_code.Proxy.ObjectCache.Sizes.{
  IsSized, room_lem, added-IsSized, same_key_refl, stored_text-key,
}
use csapp_lab_code.Proxy.ObjectCache.Members.{In, Away, same_key-eq, find_key-some, find_key-none}
use csapp_lab_code.Proxy.ObjectCache.Index.{IsIndexed, In-eq, added-IsIndexed, refreshed-IsIndexed}
use csapp_lab_code.Proxy.ObjectCache.Rooms.{AllNeeded, room-Rooms}

-- Behind the key of each object with this key, if there is one, there is a byte that is not a NUL.
abbrev pub NoneRead : (ℕ → List ℕ) → List ℕ → List ObjectMeta → Type 0
NoneRead behind key [] = Unit
NoneRead behind key (m ∷ ms) = (m.key ≡ key → behind m.address ≢ []) × NoneRead behind key ms

NoneRead-of :
    (behind : ℕ → List ℕ) (key : List ℕ) (ms : List ObjectMeta)
    → ((m : ObjectMeta) → In m ms → m.key ≡ key → behind m.address ≢ [])
    → NoneRead behind key ms
NoneRead-of behind key [] h = tt
NoneRead-of behind key (m ∷ ms) h = (h m (inl refl), NoneRead-of behind key ms (λ x i. h x (inr i)))

abbrev pub refreshed : ObjectMeta → ObjectCache → ObjectCache
refreshed m c = push_front_metadata_queue_node m (remove_metadata_queue_node m c)

retrieve-hit :
    (behind : ℕ → List ℕ) (key : List ℕ) (c : ObjectCache) (m : ObjectMeta)
    → find_key behind key (group c (get_string_hash32 key)) ≡ some m
    → cache_retrieve_if_possible behind key c ≡ (some m.object, refreshed m c)
unfolding cache_retrieve_if_possible
retrieve-hit behind key c m e = rw (e, cache_retrieve_if_possible) refl

retrieve-miss :
    (behind : ℕ → List ℕ) (key : List ℕ) (c : ObjectCache)
    → find_key behind key (group c (get_string_hash32 key)) ≡ none
    → cache_retrieve_if_possible behind key c ≡ (none, c)
unfolding cache_retrieve_if_possible
retrieve-miss behind key c e = rw (e, cache_retrieve_if_possible) refl

refreshed-queue :
    (m : ObjectMeta) (c : ObjectCache) → (refreshed m c).queue ≡ m ∷ list_remove m.address c.queue
unfolding push_front_metadata_queue_node remove_metadata_queue_node
refreshed-queue m c = refl

-- What a retrieval does: it finds an object of the queue at whose key `strcmp` reads the key, and puts it at the
-- front; or it finds none, and nothing changes.
abbrev pub Looked : (ℕ → List ℕ) → List ℕ → ObjectCache → Type 0
Looked behind key c =
    ((m : ObjectMeta) × (c' : ObjectCache) × In m c.queue
      × (stored_text behind m ≡ key)
      × (cache_retrieve_if_possible behind key c ≡ (some m.object, c'))
      × (c'.queue ≡ m ∷ list_remove m.address c.queue)
      × IsIndexed c')
    ⊎ (NoneRead behind key c.queue × (cache_retrieve_if_possible behind key c ≡ (none, c)))

-- On a cache whose index and queue hold the same objects, each once and in the group of its key's
-- hash, a retrieval returns an object of the queue at whose copy of the key, which has no NUL,
-- `strcmp` reads the key, and moves it to the front of the queue, and the cache is again such a
-- cache; or the cache does not change, and no object of the queue has both the key and a NUL behind
-- its copy.
pub cache_retrieve-queue :
    (behind : ℕ → List ℕ) (key : List ℕ) (c : ObjectCache) → IsIndexed c → Looked behind key c
cache_retrieve-queue behind key c v =
    elim (Option-cases (find_key behind key (group c (get_string_hash32 key)))) [
      | inl miss ↦ inr (
        NoneRead-of behind key c.queue (λ m i e nul.
            let other =
              find_key-none behind key m (group c (get_string_hash32 key)) miss (home m i e) in
            let text : stored_text behind m ≡ key = stored_text-key behind m nul ∙ e in
            let same : same_key (stored_text behind m) key ≡ true = rw text (same_key_refl key) in
            absurd (ground arith)),
        retrieve-miss behind key c miss,
      )
      | inr (m, hit) ↦
          let (there, same) = find_key-some behind key m (group c (get_string_hash32 key)) hit in
          let queued = (v.queues _ m there).0 in
          inl (
            m,
            refreshed m c,
            queued,
            same_key-eq (stored_text behind m) key same,
            retrieve-hit behind key c m hit,
            refreshed-queue m c,
            refreshed-IsIndexed c m v queued,
          )
    ]
  where
    home : (m : ObjectMeta) → In m c.queue → m.key ≡ key → In m (group c (get_string_hash32 key))
    home m i e =
        let hash = v.hashes m i ∙ ap get_string_hash32 e in
        In-eq m (group c m.hash32) (group c (get_string_hash32 key)) (ap (group c) hash)
          (v.indexes m i)

added-queue : (m : ObjectMeta) (c : ObjectCache) → (add_object m c).queue ≡ m ∷ c.queue
unfolding add_object create_hash_index push_front_metadata_queue_node
added-queue m c = refl

-- On a cache of the right size whose index and queue hold the same objects, each once and in the
-- group of its key's hash, the insertion of an object of at most MAX_OBJECT_SIZE bytes at a new
-- address succeeds. The queue is then the object and what is left behind the objects evicted, from
-- the front on (where the objects used last are; cache.h says from the rear), each of them evicted
-- while there was no room for the new one. The cache is again such a cache.
pub cache_insert-queue :
    (address : ℕ) (key object : List ℕ) (c : ObjectCache)
    → IsIndexed c
    → IsSized c
    → Away address c.queue
    → length object ≤ max_object_size
    → (c' : ObjectCache) × (rest gone : List ObjectMeta) × (cache_insert_if_possible address key
          object c
        ≡ some (true, c'))
      × (c'.queue ≡ pack_object address key object ∷ rest)
      × (c.queue ≡ gone ++ rest)
      × AllNeeded (length object) gone rest
      × IsIndexed c'
      × IsSized c'
unfolding cache_insert_if_possible pack_object
cache_insert-queue address key object c v z fresh small =
    let m = pack_object address key object in
    let (c1, made, z1, fits) = room_lem c.queue (length object) c z refl small in
    let (v1, far, (gone, split, needed)) =
      room-Rooms (length c.queue) (length object) address c c1 v z small fresh made in
    let allowed : ltb max_object_size (length object) ≡ false = ground arith in
    (
      add_object m c1,
      c1.queue,
      gone,
      rw (allowed, made) refl,
      added-queue m c1,
      split,
      needed,
      added-IsIndexed c1 m v1 far refl,
      added-IsSized m c1 z1 fits,
    )
