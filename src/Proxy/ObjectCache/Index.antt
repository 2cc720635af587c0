-- ===== src/Proxy/ObjectCache/Index.antt =====
-- The index and the queue of the cache in proxylab_code/cache.c hold the same objects, after every
-- operation, and so a retrieval finds an object exactly if the queue has one with the key.
use csapp_lab_code.Base.{
  ℕ, ◌%◌, ◌<◌, ◌≡◌, ◌≢◌, refl, sym, ap, ◌∙◌, ◌⊎◌, inl, inr, some, List, [], ◌∷◌, length, length-set,
  get_or, get_or-set, ◌==◌, if◌then◌else◌, Bool-cases, arith,
}
use csapp_lab_code.Proxy.ObjectCache.{
  ObjectMeta, ObjectCache, hash_table_group_count, group, put_group, list_remove, get_string_hash32,
  create_hash_index, push_front_metadata_queue_node, remove_metadata_queue_node, add_object,
  evict_one_by_lru,
}
use csapp_lab_code.Proxy.ObjectCache.Members.{
  In, Away, Single, Away-In, Away-of, Single-eq, remove-In, remove-keeps, remove-Single,
  remove-gone,
}

abbrev pub nth_group : ObjectCache → ℕ → List ObjectMeta
nth_group c i = get_or c.hash_table i []

pub record IsIndexed (c : ObjectCache) : Type 0 where
  pub groups : length c.hash_table ≡ hash_table_group_count
  pub queue_single : Single c.queue
  pub group_single : (i : ℕ) → Single (nth_group c i)
  pub indexes : (m : ObjectMeta) → In m c.queue → In m (group c m.hash32)
  pub queues :
      (i : ℕ) (m : ObjectMeta)
      → In m (nth_group c i)
      → In m c.queue × (m.hash32 % hash_table_group_count ≡ i)
  pub hashes : (m : ObjectMeta) → In m c.queue → m.hash32 ≡ get_string_hash32 m.key

index-lt : (n : ℕ) → n % hash_table_group_count < hash_table_group_count
index-lt n = omega arith

-- A write to one group.
group-put :
    (c : ObjectCache) (hash i : ℕ) (ms : List ObjectMeta)
    → length c.hash_table ≡ hash_table_group_count
    → nth_group (put_group c hash ms) i
      ≡ (if hash % hash_table_group_count == i then ms else nth_group c i)
group-put c hash i ms size =
    get_or-set c.hash_table (hash % hash_table_group_count) i [] ms (omega (arith, size))

-- What changes in the index, as seen by the members of a group.
put-cases :
    (c : ObjectCache) (hash i : ℕ) (ms : List ObjectMeta)
    → length c.hash_table ≡ hash_table_group_count
    → ((hash % hash_table_group_count ≡ i) × (nth_group (put_group c hash ms) i ≡ ms))
      ⊎ ((hash % hash_table_group_count ≢ i) × (nth_group (put_group c hash ms) i ≡ nth_group c i))
put-cases c hash i ms size =
    let all = group-put c hash i ms size in
    elim (Bool-cases (hash % hash_table_group_count == i)) [
      | inl same ↦ inl (ground arith, all ∙ rw same refl)
      | inr other ↦ inr (ground arith, all ∙ rw other refl)
    ]

pub In-eq : (m : ObjectMeta) (xs ys : List ObjectMeta) → xs ≡ ys → In m xs → In m ys
In-eq m xs ys e i = rw e at i

pub refreshed-IsIndexed :
    (c : ObjectCache) (m : ObjectMeta)
    → IsIndexed c
    → In m c.queue
    → IsIndexed (push_front_metadata_queue_node m (remove_metadata_queue_node m c))
unfolding push_front_metadata_queue_node remove_metadata_queue_node
refreshed-IsIndexed c m v i = record {
  groups = v.groups;
  queue_single = (
    remove-gone m.address c.queue v.queue_single,
    remove-Single m.address c.queue v.queue_single,
  );
  group_single = v.group_single;
  indexes = λ x h. v.indexes x (was x h);
  queues = λ k x h. let (j, e) = v.queues k x h in (still x j, e);
  hashes = λ x h. v.hashes x (was x h);
}
  where
    was : (x : ObjectMeta) → In x (m ∷ list_remove m.address c.queue) → In x c.queue
    was x (inl e) = rw e i
    was x (inr h) = remove-In m.address x c.queue h

    still : (x : ObjectMeta) → In x c.queue → In x (m ∷ list_remove m.address c.queue)
    still x h = elim (Bool-cases (x.address == m.address)) [
      | inl same ↦ inl (Single-eq x m c.queue v.queue_single h i same)
      | inr other ↦ inr (remove-keeps m.address x c.queue h other)
    ]

module _ (c : ObjectCache) (m : ObjectMeta) (v : IsIndexed c) (fresh : Away m.address c.queue)
    (hash : m.hash32 ≡ get_string_hash32 m.key) where
  abbrev indexed : ObjectCache
  indexed = put_group c m.hash32 (m ∷ group c m.hash32)

  far : (i : ℕ) → Away m.address (nth_group c i)
  far i =
      Away-of m.address (nth_group c i)
        (λ x h. Away-In m.address x c.queue fresh (v.queues i x h).0)

  added-Single : (i : ℕ) → Single (nth_group indexed i)
  added-Single i = elim (put-cases c m.hash32 i (m ∷ group c m.hash32) v.groups) [
    | inl (same, e) ↦ rw e (
      far (m.hash32 % hash_table_group_count),
      v.group_single (m.hash32 % hash_table_group_count),
    )
    | inr (other, e) ↦ rw e (v.group_single i)
  ]

  added_indexes : (x : ObjectMeta) → In x (m ∷ c.queue) → In x (group indexed x.hash32)
  added_indexes x h =
      elim (put-cases c m.hash32 (x.hash32 % hash_table_group_count) (m ∷ group c m.hash32)
        v.groups) [
          | inl (same, e) ↦ rw e (elim h [
            | inl here ↦ inl here
            | inr more ↦ inr (
                In-eq x (group c x.hash32) (group c m.hash32) (ap (nth_group c) (sym same))
                  (v.indexes x more))
          ])
          | inr (other, e) ↦ rw e (elim h [
            | inl here ↦
                absurd
                  (other (ap (λ (y : ObjectMeta). y.hash32 % hash_table_group_count) (sym here)))
            | inr more ↦ v.indexes x more
          ])
        ]

  added_queues :
      (i : ℕ) (x : ObjectMeta)
      → In x (nth_group indexed i)
      → In x (m ∷ c.queue) × (x.hash32 % hash_table_group_count ≡ i)
  added_queues i x h = elim (put-cases c m.hash32 i (m ∷ group c m.hash32) v.groups) [
    | inl (same, e) ↦ elim (In-eq x (nth_group indexed i) (m ∷ group c m.hash32) e h) [
      | inl here ↦
          (inl here, ap (λ (y : ObjectMeta). y.hash32 % hash_table_group_count) here ∙ same)
      | inr more ↦
          let (j, f) = v.queues (m.hash32 % hash_table_group_count) x more in (inr j, f ∙ same)
    ]
    | inr (other, e) ↦
        let (j, f) = v.queues i x (In-eq x (nth_group indexed i) (nth_group c i) e h) in (inr j, f)
  ]

  -- An object with a new address, whose hash is that of its key, is added to both.
  pub added-IsIndexed : IsIndexed (add_object m c)
  unfolding add_object create_hash_index push_front_metadata_queue_node
  added-IsIndexed = record {
    groups = length-set c.hash_table _ _ ∙ v.groups;
    queue_single = (fresh, v.queue_single);
    group_single = added-Single;
    indexes = added_indexes;
    queues = added_queues;
    hashes = λ x h. elim h [
      | inl here ↦
          ap (λ (y : ObjectMeta). y.hash32) here
          ∙ hash
          ∙ ap (λ (y : ObjectMeta). get_string_hash32 y.key) (sym here)
      | inr more ↦ v.hashes x more
    ];
  }

module _ (c : ObjectCache) (m : ObjectMeta) (ms : List ObjectMeta) (v : IsIndexed c)
    (first : c.queue ≡ m ∷ ms) where
  abbrev unindexed : ObjectCache
  unindexed = put_group c m.hash32 (list_remove m.address (group c m.hash32))

  singles : Single (m ∷ ms)
  singles = rw first at (v.queue_single)

  evicted-Single : (i : ℕ) → Single (nth_group unindexed i)
  evicted-Single i =
      elim (put-cases c m.hash32 i (list_remove m.address (group c m.hash32)) v.groups) [
        | inl (same, e) ↦ rw e (
            remove-Single m.address (group c m.hash32)
              (v.group_single (m.hash32 % hash_table_group_count)))
        | inr (other, e) ↦ rw e (v.group_single i)
      ]

  evicted_indexes : (x : ObjectMeta) → In x ms → In x (group unindexed x.hash32)
  evicted_indexes x h =
      let old = v.indexes x (In-eq x (m ∷ ms) c.queue (sym first) (inr h)) in
      elim (put-cases c m.hash32 (x.hash32 % hash_table_group_count)
        (list_remove m.address (group c m.hash32)) v.groups) [
          | inl (same, e) ↦ rw e (
              remove-keeps m.address x (group c m.hash32)
                (In-eq x (group c x.hash32) (group c m.hash32) (ap (nth_group c) (sym same)) old)
                (Away-In m.address x ms singles.0 h))
          | inr (other, e) ↦ rw e old
        ]

  behind : (i : ℕ) (x : ObjectMeta) → In x (nth_group c i) → m ≢ x → In x ms
  behind i x h ne = elim (In-eq x c.queue (m ∷ ms) first (v.queues i x h).0) [
    | inl here ↦ absurd (ne (sym here))
    | inr more ↦ more
  ]

  evicted_queues :
      (i : ℕ) (x : ObjectMeta)
      → In x (nth_group unindexed i)
      → In x ms × (x.hash32 % hash_table_group_count ≡ i)
  evicted_queues i x h =
      let rest = list_remove m.address (group c m.hash32) in
      elim (put-cases c m.hash32 i rest v.groups) [
        | inl (same, e) ↦
            let left = In-eq x (nth_group unindexed i) rest e h in
            let home = m.hash32 % hash_table_group_count in
            let gone =
              Away-In m.address x rest
                (remove-gone m.address (group c m.hash32) (v.group_single home)) left in
            let old = remove-In m.address x (group c m.hash32) left in
            (
              behind home x old
                  (λ f. let here = ap (λ (y : ObjectMeta). y.address) f in absurd (ground arith)),
              (v.queues home x old).1 ∙ same,
            )
        | inr (other, e) ↦
            let old = In-eq x (nth_group unindexed i) (nth_group c i) e h in
            let place = (v.queues i x old).1 in
            (
              behind i x old (λ f.
                  other (ap (λ (y : ObjectMeta). y.hash32 % hash_table_group_count) f ∙ place)),
              place,
            )
      ]

  -- An eviction takes the first object of the queue from both.
  pub evicted-IsIndexed :
      (c' : ObjectCache) × (evict_one_by_lru c ≡ some c') × IsIndexed c' × (c'.queue ≡ ms)
  unfolding evict_one_by_lru
  evicted-IsIndexed = rw first (
    _,
    refl,
    record {
      groups = length-set c.hash_table _ _ ∙ v.groups;
      queue_single = singles.1;
      group_single = evicted-Single;
      indexes = evicted_indexes;
      queues = evicted_queues;
      hashes = λ x h. v.hashes x (In-eq x (m ∷ ms) c.queue (sym first) (inr h));
    },
    refl,
  )
