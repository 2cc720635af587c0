-- ===== src/Proxy/ObjectCache.antt =====
-- The cache of responses in proxylab_code/cache.c, on the circular lists of util.c: a list is the list of
-- its elements from `head->pNext` on, and a node is known by the identity of the object in it, since an
-- object is in one list of the index and in the queue. A key that an operation gets is a text up to its NUL; the
-- copy in an object has no NUL, and `strcmp` reads on behind it. Every operation runs as one step; the
-- timestamps, which nothing reads, are left out.
pub mod Sizes
pub mod Members
pub mod Index
pub mod Rooms
pub mod Lookup
pub mod Unterminated
pub mod Tests
use csapp_lab_code.Base.{
  ℕ, zero, suc, ◌+◌, ◌-◌, ◌*◌, ◌%◌, ◌^◌, Bool, true, false, ◌&&◌, Option, none, some, List, [], ◌∷◌,
  ◌++◌, length, get_or, set, replicate, ltb, ◌==◌, if◌then◌else◌, not,
}

abbrev pub max_cache_size : ℕ
max_cache_size = 1049000

abbrev pub max_object_size : ℕ
max_object_size = 102400

abbrev pub hash_table_group_count : ℕ
hash_table_group_count = 128

-- An object with the address that `malloc` gave its record, and the bytes at `szKey`, as many as were copied.
pub record ObjectMeta : Type 0 where
  pub address : ℕ
  pub hash32 : ℕ
  pub key : List ℕ
  pub object : List ℕ

abbrev pub obj_len : ObjectMeta → ℕ
obj_len m = length m.object

pub record ObjectCache : Type 0 where
  pub current_size : ℕ
  pub hash_table : List (List ObjectMeta)
  pub queue : List ObjectMeta

-- A `char`, which is signed, as an `unsigned int`.
abbrev pub char_word : ℕ → ℕ
char_word c = if ltb c 128 then c else 2 ^ 32 - 256 + c

unfoldable pub hash_loop : ℕ → List ℕ → ℕ
hash_loop h [] = h
hash_loop h (c ∷ cs) = hash_loop ((31 * h + char_word c) % 2 ^ 32) cs

unfoldable pub get_string_hash32 : List ℕ → ℕ
unfolding hash_loop
get_string_hash32 s = hash_loop 0 s

-- The size is that of a global variable, which is 0.
unfoldable pub init_cache : ObjectCache
init_cache = record {
  current_size = 0;
  hash_table = replicate hash_table_group_count [];
  queue = [];
}

-- `list_remove` of the node of an object
unfoldable pub list_remove : ℕ → List ObjectMeta → List ObjectMeta
list_remove address [] = []
list_remove address (m ∷ ms) =
    let rest = list_remove address ms in if m.address == address then ms else m ∷ rest

abbrev pub group : ObjectCache → ℕ → List ObjectMeta
group c hash = get_or c.hash_table (hash % hash_table_group_count) []

abbrev pub put_group : ObjectCache → ℕ → List ObjectMeta → ObjectCache
put_group c hash ms = record c { hash_table = set c.hash_table (hash % hash_table_group_count) ms }

unfoldable pub create_hash_index : ObjectMeta → ObjectCache → ObjectCache
create_hash_index m c = put_group c m.hash32 (m ∷ group c m.hash32)

unfoldable pub push_front_metadata_queue_node : ObjectMeta → ObjectCache → ObjectCache
push_front_metadata_queue_node m c = record c { queue = m ∷ c.queue }

unfoldable pub remove_metadata_queue_node : ObjectMeta → ObjectCache → ObjectCache
unfolding list_remove
remove_metadata_queue_node m c = record c { queue = list_remove m.address c.queue }

unfoldable pub pack_object : ℕ → List ℕ → List ℕ → ObjectMeta
unfolding get_string_hash32
pack_object address key object = record {
  address = address;
  hash32 = get_string_hash32 key;
  key = key;
  object = object;
}

-- `none`: the queue is empty, and its head has no object.
unfoldable pub evict_one_by_lru : ObjectCache → Option ObjectCache
unfolding list_remove
evict_one_by_lru c = elim c.queue [
  | [] ↦ none
  | m ∷ ms ↦
      let unindexed = put_group c m.hash32 (list_remove m.address (group c m.hash32)) in
      some (record unindexed {
        queue = ms;
        current_size = (c.current_size + 2 ^ 64 - obj_len m) % 2 ^ 64;
      })
]

-- The `while` of an insertion. Each round takes an object from the queue, so its length is fuel enough.
unfoldable pub make_room : ℕ → ℕ → ObjectCache → Option ObjectCache
make_room zero len c = if ltb max_cache_size ((c.current_size + len) % 2 ^ 64) then none else some c
make_room (suc fuel) len c =
    let evicted : Option ObjectCache = elim (evict_one_by_lru c) [
      | none ↦ none
      | some c' ↦ make_room fuel len c'
    ] in
    if ltb max_cache_size ((c.current_size + len) % 2 ^ 64) then evicted else some c

unfoldable pub add_object : ObjectMeta → ObjectCache → ObjectCache
add_object m c =
    let c' = create_hash_index m (push_front_metadata_queue_node m c) in
    record c' { current_size = (c'.current_size + obj_len m) % 2 ^ 64 }

unfoldable pub cache_insert_if_possible :
    ℕ → List ℕ → List ℕ → ObjectCache → Option (Bool × ObjectCache)
cache_insert_if_possible address key object c =
    let m = pack_object address key object in
    if ltb max_object_size (length object)
    then some (false, c)
    else elim (make_room (length c.queue) (length object) c) [
      | none ↦ none
      | some c' ↦ some (true, add_object m c')
    ]

-- `strcmp(a, b) == 0`
abbrev pub same_key : List ℕ → List ℕ → Bool
same_key [] [] = true
same_key [] (d ∷ ds) = false
same_key (c ∷ cs) [] = false
same_key (c ∷ cs) (d ∷ ds) = (c == d) && same_key cs ds

-- The text that `strcmp` reads at `szKey`: the copy of the key, and what the memory has behind the copy of the
-- object at this address, up to the first NUL.
abbrev pub stored_text : (ℕ → List ℕ) → ObjectMeta → List ℕ
stored_text behind m = m.key ++ behind m.address

-- The loop over the nodes of a group.
unfoldable pub find_key : (ℕ → List ℕ) → List ℕ → List ObjectMeta → Option ObjectMeta
find_key behind key [] = none
find_key behind key (m ∷ ms) =
    let rest = find_key behind key ms in
    if same_key (stored_text behind m) key then some m else rest

-- The object that was found, if one was, and the cache with it at the front of the queue.
unfoldable pub cache_retrieve_if_possible :
    (ℕ → List ℕ) → List ℕ → ObjectCache → Option (List ℕ) × ObjectCache
cache_retrieve_if_possible behind key c =
    elim (find_key behind key (group c (get_string_hash32 key))) [
      | none ↦ (none, c)
      | some m ↦ (some m.object, push_front_metadata_queue_node m (remove_metadata_queue_node m c))
    ]
