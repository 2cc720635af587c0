-- ===== src/Proxy/ObjectCache/Tests.antt =====
-- The theorems on the cache of proxylab_code/cache.c at a cache with one object.
use csapp_lab_code.Base.{
  ℕ, zero, suc, ◌≡◌, refl, true, none, some, List, [], ◌∷◌, ◌++◌, replicate, get_or, arith,
}
use csapp_lab_code.Proxy.ObjectCache.{
  ObjectMeta, ObjectCache, pack_object, init_cache, cache_insert_if_possible,
  cache_retrieve_if_possible,
}
use csapp_lab_code.Proxy.ObjectCache.Sizes.{IsSized}
use csapp_lab_code.Proxy.ObjectCache.Index.{IsIndexed}
use csapp_lab_code.Proxy.ObjectCache.Unterminated.{cache_insert-lost}
use csapp_lab_code.Proxy.ObjectCache.Rooms.{AllNeeded}
use csapp_lab_code.Proxy.ObjectCache.Lookup.{Looked, cache_insert-queue, cache_retrieve-queue}

init-IsSized : IsSized init_cache
unfolding init_cache
init-IsSized = record { sum = refl; bound = omega arith; groups = refl }

empty_groups : (n i : ℕ) → get_or {A = List ObjectMeta} (replicate n []) i [] ≡ []
empty_groups zero i = refl
empty_groups (suc n) zero = refl
empty_groups (suc n) (suc i) = empty_groups n i

init-IsIndexed : IsIndexed init_cache
unfolding init_cache
init-IsIndexed = record {
  groups = refl;
  queue_single = tt;
  group_single = λ i. rw (empty_groups 128 i) tt;
  indexes = λ m h. absurd h;
  queues = λ i m h. absurd (rw (empty_groups 128 i) at h);
  hashes = λ m h. absurd h;
}

init-none : init_cache.queue ≡ []
unfolding init_cache
init-none = refl

cache_insert-queue_example :
    (c' : ObjectCache) × (rest gone : List ObjectMeta) × (cache_insert_if_possible 1
        (b'G' ∷ [])
        (5 ∷ 6 ∷ [])
        init_cache
      ≡ some (true, c'))
    × (c'.queue ≡ pack_object 1 (b'G' ∷ []) (5 ∷ 6 ∷ []) ∷ rest)
    × (init_cache.queue ≡ gone ++ rest)
    × AllNeeded 2 gone rest
    × IsIndexed c'
    × IsSized c'
cache_insert-queue_example =
    cache_insert-queue 1 (b'G' ∷ []) (5 ∷ 6 ∷ []) init_cache init-IsIndexed init-IsSized
      (rw init-none tt) (omega arith)

one_object : (c : ObjectCache) × IsIndexed c
one_object =
    let out =
      cache_insert-queue 1 (b'G' ∷ []) (5 ∷ 6 ∷ []) init_cache init-IsIndexed init-IsSized
        (rw init-none tt) (omega arith) in
    (out.0, out.7)

cache_retrieve-queue_example : Looked (λ address. []) (b'G' ∷ []) one_object.0
cache_retrieve-queue_example =
    cache_retrieve-queue (λ address. []) (b'G' ∷ []) one_object.0 one_object.1

cache_insert-lost_example :
    (c' : ObjectCache) × (cache_insert_if_possible 1 (b'G' ∷ []) (5 ∷ 6 ∷ []) init_cache
      ≡ some (true, c'))
    × (cache_retrieve_if_possible (λ address. 7 ∷ []) (b'G' ∷ []) c' ≡ (none, c'))
cache_insert-lost_example =
    cache_insert-lost (λ address. 7 ∷ []) 1 (b'G' ∷ []) (5 ∷ 6 ∷ []) init_cache init-IsIndexed
      init-IsSized (rw init-none tt) (omega arith) (λ m i. absurd (rw init-none at i)) (λ e. cc)
