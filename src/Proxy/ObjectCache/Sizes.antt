-- ===== src/Proxy/ObjectCache/Sizes.antt =====
-- What an insertion into the cache of proxylab_code/cache.c guarantees: the bound on its size, and that
-- the object can be retrieved.
use csapp_lab_code.Base.{
  ℕ, ◌+◌, ◌%◌, ◌^◌, ◌≤◌, ◌≡◌, refl, sym, ◌∙◌, ap, true, false, some, List, [], ◌∷◌, ◌++◌, length,
  length-set, get_or-set_self, ltb, Bool-cases, inl, inr, arith,
}
use csapp_lab_code.Proxy.ObjectCache.{
  ObjectMeta, ObjectCache, obj_len, max_cache_size, max_object_size, hash_table_group_count, group,
  evict_one_by_lru, make_room, create_hash_index, push_front_metadata_queue_node, add_object,
  pack_object, get_string_hash32, cache_insert_if_possible, cache_retrieve_if_possible, same_key,
  stored_text, find_key,
}
use mathlib.Core.List.{append-nil}

abbrev pub total : List ObjectMeta → ℕ
total [] = 0
total (m ∷ ms) = obj_len m + total ms

-- The size that is kept is the size of the objects in the queue, and within the bound.
pub record IsSized (c : ObjectCache) : Type 0 where
  pub sum : c.current_size ≡ total c.queue
  pub bound : c.current_size ≤ max_cache_size
  pub groups : length c.hash_table ≡ hash_table_group_count

-- An eviction takes the object that was put into the queue last, the one used most recently, and
-- leaves the rest of the queue.
pub evict-push :
    (m : ObjectMeta) (c : ObjectCache)
    → (c' : ObjectCache) × (evict_one_by_lru (push_front_metadata_queue_node m c) ≡ some c')
      × (c'.queue ≡ c.queue)
unfolding evict_one_by_lru push_front_metadata_queue_node
evict-push m c = (_, refl, refl)

pub evict-IsSized :
    (c : ObjectCache) (m : ObjectMeta) (ms : List ObjectMeta)
    → IsSized c
    → c.queue ≡ m ∷ ms
    → (c' : ObjectCache) × (evict_one_by_lru c ≡ some c') × IsSized c' × (c'.queue ≡ ms)
unfolding evict_one_by_lru
evict-IsSized c m ms v e =
    let all : c.current_size ≡ obj_len m + total ms = v.sum ∙ ap total e in
    rw e (
      _,
      refl,
      record {
        sum = omega (arith, all, v.bound);
        bound = omega (arith, all, v.bound);
        groups = length-set c.hash_table _ _ ∙ v.groups;
      },
      refl,
    )

pub room_lem :
    (ms : List ObjectMeta) (len : ℕ) (c : ObjectCache)
    → IsSized c
    → c.queue ≡ ms
    → len ≤ max_object_size
    → (c' : ObjectCache) × (make_room (length ms) len c ≡ some c')
      × IsSized c'
      × (c'.current_size + len ≤ max_cache_size)
unfolding make_room
room_lem [] len c v e small =
    let none_left : c.current_size ≡ 0 = v.sum ∙ ap total e in
    (c, ground (arith), v, omega (arith, none_left, small))
room_lem (m ∷ ms) len c v e small =
    elim (Bool-cases (ltb max_cache_size ((c.current_size + len) % 2 ^ 64))) [
      | inl over ↦
          let (c1, evicted, v1, rest) = evict-IsSized c m ms v e in
          let (c', made, v', fits) = room_lem ms len c1 v1 rest small in
          (c', rw (over, evicted) made, v', fits)
      | inr fits ↦ (c, rw fits refl, v, ground (arith, v.bound))
    ]

pub same_key_refl : (key : List ℕ) → same_key key key ≡ true
same_key_refl [] = refl
same_key_refl (c ∷ cs) = ground (arith, same_key_refl cs)

added-group :
    (m : ObjectMeta) (c : ObjectCache)
    → length c.hash_table ≡ hash_table_group_count
    → group (add_object m c) m.hash32 ≡ m ∷ group c m.hash32
unfolding add_object create_hash_index push_front_metadata_queue_node
added-group m c size =
    get_or-set_self c.hash_table (m.hash32 % hash_table_group_count) [] (m ∷ group c m.hash32)
      (omega (arith, size))

pub added-IsSized :
    (m : ObjectMeta) (c : ObjectCache)
    → IsSized c
    → c.current_size + obj_len m ≤ max_cache_size
    → IsSized (add_object m c)
unfolding add_object create_hash_index push_front_metadata_queue_node
added-IsSized m c v fits = record {
  sum = omega (arith, v.sum);
  bound = omega arith;
  groups = length-set c.hash_table _ _ ∙ v.groups;
}

pub stored_text-key :
    (behind : ℕ → List ℕ) (m : ObjectMeta) → behind m.address ≡ [] → stored_text behind m ≡ m.key
stored_text-key behind m nul = ap (λ (t : List ℕ). m.key ++ t) nul ∙ append-nil m.key

retrieve-added :
    (behind : ℕ → List ℕ) (key : List ℕ) (m : ObjectMeta) (c : ObjectCache)
    → m.key ≡ key
    → behind m.address ≡ []
    → m.hash32 ≡ get_string_hash32 key
    → length c.hash_table ≡ hash_table_group_count
    → (cache_retrieve_if_possible behind key (add_object m c)).0 ≡ some m.object
unfolding cache_retrieve_if_possible find_key
retrieve-added behind key m c k nul h size =
    let text : stored_text behind m ≡ key = stored_text-key behind m nul ∙ k in
    let same : same_key (stored_text behind m) key ≡ true = rw text (same_key_refl key) in
    let found_first : find_key behind key (m ∷ group c m.hash32) ≡ some m = rw same refl in
    let first = ap (group (add_object m c)) h in
    let found : find_key behind key (group (add_object m c) (get_string_hash32 key)) ≡ some m =
      ap (find_key behind key) (sym first ∙ added-group m c size) ∙ found_first in
    rw (found, cache_retrieve_if_possible) refl

-- On a cache with all its groups, whose size is the sum of its objects and within the bound, the
-- insertion of an object of at most MAX_OBJECT_SIZE bytes ends and returns 1, the cache is again
-- such a cache, and while the byte behind the copy of the key is a NUL a retrieval with the key returns
-- the object.
pub cache_insert-retrieve :
    (address : ℕ) (key object : List ℕ) (c : ObjectCache)
    → IsSized c
    → length object ≤ max_object_size
    → (c' : ObjectCache) × (cache_insert_if_possible address key object c ≡ some (true, c'))
      × IsSized c'
      × ((behind : ℕ → List ℕ)
          → behind address ≡ []
          → (cache_retrieve_if_possible behind key c').0 ≡ some object)
unfolding cache_insert_if_possible pack_object
cache_insert-retrieve address key object c v small =
    let m = pack_object address key object in
    let (c1, made, v1, fits) = room_lem c.queue (length object) c v refl small in
    let allowed : ltb max_object_size (length object) ≡ false = ground arith in
    (
      add_object m c1,
      rw (allowed, made) refl,
      added-IsSized m c1 v1 fits,
      λ behind nul. retrieve-added behind key m c1 refl nul refl (v1.groups),
    )
