-- ===== src/Proxy/ObjectCache/Rooms.antt =====
-- How an insertion into the cache of proxylab_code/cache.c makes room: the objects that it evicts.
use csapp_lab_code.Base.{
  ℕ, zero, suc, ◌+◌, ◌%◌, ◌^◌, ◌≤◌, ◌<◌, ◌≡◌, refl, sym, ap, ◌∙◌, ◌⊎◌, inl, inr, true, false, none,
  some, List, [], ◌∷◌, ◌++◌, ltb, Bool-cases, arith,
}
use csapp_lab_code.Proxy.ObjectCache.{
  ObjectMeta, ObjectCache, max_cache_size, max_object_size, evict_one_by_lru, make_room,
}
use csapp_lab_code.Proxy.ObjectCache.Sizes.{total, IsSized, evict-IsSized}
use csapp_lab_code.Proxy.ObjectCache.Members.{Away}
use csapp_lab_code.Proxy.ObjectCache.Index.{IsIndexed, evicted-IsIndexed}

Away-suffix :
    (a : ℕ) (m : ObjectMeta) (ms : List ObjectMeta) (xs : List ObjectMeta)
    → xs ≡ m ∷ ms
    → Away a xs
    → Away a ms
Away-suffix a m ms xs e d = (rw e at d).1

queue-cases :
    (ms : List ObjectMeta)
    → (ms ≡ []) ⊎ ((m : ObjectMeta) × (rest : List ObjectMeta) × (ms ≡ m ∷ rest))
queue-cases [] = inl refl
queue-cases (m ∷ rest) = inr (m, rest, refl)

evict-empty : (c : ObjectCache) → c.queue ≡ [] → evict_one_by_lru c ≡ none
unfolding evict_one_by_lru
evict-empty c e = rw (e, evict_one_by_lru) refl

room-done :
    (fuel len : ℕ) (c : ObjectCache)
    → ltb max_cache_size ((c.current_size + len) % 2 ^ 64) ≡ false
    → make_room fuel len c ≡ some c
unfolding make_room
room-done zero len c e = rw e refl
room-done (suc fuel) len c e = rw e refl

room-empty :
    (fuel len : ℕ) (c : ObjectCache)
    → ltb max_cache_size ((c.current_size + len) % 2 ^ 64) ≡ true
    → c.queue ≡ []
    → make_room fuel len c ≡ none
unfolding make_room
room-empty zero len c e q = rw e refl
room-empty (suc fuel) len c e q = rw (e, evict-empty c q) refl

room-more :
    (fuel len : ℕ) (c c1 : ObjectCache)
    → ltb max_cache_size ((c.current_size + len) % 2 ^ 64) ≡ true
    → evict_one_by_lru c ≡ some c1
    → make_room (suc fuel) len c ≡ make_room fuel len c1
unfolding make_room
room-more fuel len c c1 e f = rw (e, f) refl

room-zero :
    (len : ℕ) (c : ObjectCache)
    → ltb max_cache_size ((c.current_size + len) % 2 ^ 64) ≡ true
    → make_room zero len c ≡ none
unfolding make_room
room-zero len c e = rw e refl

-- When each of these objects was taken from the front, it and what was behind it left no room for `len` bytes.
abbrev pub AllNeeded : ℕ → List ObjectMeta → List ObjectMeta → Type 0
AllNeeded len [] rest = Unit
AllNeeded len (m ∷ gone) rest =
    (max_cache_size < total (m ∷ gone ++ rest) + len) × AllNeeded len gone rest

abbrev pub Rooms : ℕ → ℕ → ObjectCache → ObjectCache → Type 0
Rooms len a c c' =
    IsIndexed c'
    × Away a c'.queue
    × ((gone : List ObjectMeta) × (c.queue ≡ gone ++ c'.queue) × AllNeeded len gone c'.queue)

room-same :
    (fuel len a : ℕ) (c c' : ObjectCache)
    → IsIndexed c
    → Away a c.queue
    → make_room fuel len c ≡ some c'
    → ltb max_cache_size ((c.current_size + len) % 2 ^ 64) ≡ false
    → Rooms len a c c'
room-same fuel len a c c' v d e fits =
    let found : some c ≡ some c' = sym (room-done fuel len c fits) ∙ e in
    let same : c ≡ c' = cc in rw (sym same) (v, d, ([], refl, tt))

evicted-IsSized :
    (c c1 : ObjectCache) (m : ObjectMeta) (ms : List ObjectMeta)
    → IsSized c
    → c.queue ≡ m ∷ ms
    → evict_one_by_lru c ≡ some c1
    → IsSized c1
evicted-IsSized c c1 m ms z first evicts =
    let (c2, evicts', z2, left) = evict-IsSized c m ms z first in
    let found : some c2 ≡ some c1 = sym evicts' ∙ evicts in
    let same : c2 ≡ c1 = cc in rw (sym same) z2

-- The rounds of the loop that makes room: they take objects from the front of the queue.
pub room-Rooms :
    (fuel len a : ℕ) (c c' : ObjectCache)
    → IsIndexed c
    → IsSized c
    → len ≤ max_object_size
    → Away a c.queue
    → make_room fuel len c ≡ some c'
    → Rooms len a c c'
room-Rooms zero len a c c' v z few d e =
    elim (Bool-cases (ltb max_cache_size ((c.current_size + len) % 2 ^ 64))) [
      | inr fits ↦ room-same zero len a c c' v d e fits
      | inl over ↦ let gone : none ≡ some c' = sym (room-zero len c over) ∙ e in absurd (cc)
    ]
room-Rooms (suc fuel) len a c c' v z few d e =
    elim (Bool-cases (ltb max_cache_size ((c.current_size + len) % 2 ^ 64))) [
      | inr fits ↦ room-same (suc fuel) len a c c' v d e fits
      | inl over ↦ elim (queue-cases c.queue) [
        | inl nil ↦
            let gone : none ≡ some c' = sym (room-empty (suc fuel) len c over nil) ∙ e in
            absurd (cc)
        | inr (m, rest, first) ↦
            let (c1, evicts, v1, left) = evicted-IsIndexed c m rest v first in
            let away : Away a c1.queue = rw left (Away-suffix a m rest c.queue first d) in
            let z1 = evicted-IsSized c c1 m rest z first evicts in
            let (v2, d2, (gone, split, needed)) =
              room-Rooms fuel len a c1 c' v1 z1 few away
                (sym (room-more fuel len c c1 over evicts) ∙ e) in
            let whole : c.queue ≡ m ∷ gone ++ c'.queue =
              first ∙ ap (λ ms. m ∷ ms) (sym left ∙ split) in
            let large : max_cache_size < total (m ∷ gone ++ c'.queue) + len =
              ground (arith, z.sum ∙ ap total whole, z.bound) in
            (v2, d2, (m ∷ gone, whole, (large, needed)))
      ]
    ]
