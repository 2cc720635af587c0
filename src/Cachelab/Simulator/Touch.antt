-- ===== src/Cachelab/Simulator/Touch.antt =====
-- One access with the treatment of its miss, in `operate` of cachelab_code/simulator.c: the three ways
-- a set changes.
use csapp_lab_code.Base.{
  ℕ, zero, suc, ◌+◌, ◌%◌, ◌^◌, ◌<◌, ◌≡◌, refl, ◌∙◌, Bool, true, false, none, some, List, [], ◌∷◌,
  length, get_or-set_self, set, set-set, find_index, arith, ap,
}
use csapp_lab_code.Cachelab.Cache.{CacheLine, Cache}
use csapp_lab_code.Cachelab.OpParser.{OpInfo}
use csapp_lab_code.Cachelab.Simulator.{
  read, eviction, Machine, set_at, put_line, access_cache, load_to_cache, evict_cache,
}
use csapp_lab_code.Cachelab.Simulator.Search.{matches}
use csapp_lab_code.Cachelab.Simulator.Access.{IsFresh, access-hit}

module _ {ℓ} {A : Type ℓ} where
  -- The one element that passes the test is the one written.
  find_index-set :
      (p : A → Bool) (xs : List A) (j : ℕ) (v : A)
      → find_index p xs ≡ none
      → j < length xs
      → p v ≡ true
      → find_index p (set xs j v) ≡ some j
  unfolding find_index
  find_index-set p [] j v e h t = absurd (omega arith)
  find_index-set p (x ∷ xs) zero v e h t = rw t refl
  find_index-set p (x ∷ xs) (suc j) v e h t =
      ground (arith, find_index-set p xs j v (ground arith) (omega arith) t)

  pub find_index-set-none :
      (p : A → Bool) (xs : List A) (j : ℕ) (v : A)
      → find_index p xs ≡ none
      → p v ≡ false
      → find_index p (set xs j v) ≡ none
  unfolding find_index
  find_index-set-none p [] j v e t = refl
  find_index-set-none p (x ∷ xs) zero v e t = ground arith
  find_index-set-none p (x ∷ xs) (suc j) v e t =
      ground (arith, find_index-set-none p xs j v (ground arith) t)

pub set_at-put :
    (c : Cache) (i j : ℕ) (line : CacheLine)
    → i < length (c.cache_set)
    → set_at (put_line c i j line) i ≡ set (set_at c i) j line
set_at-put c i j line h = get_or-set_self (c.cache_set) i [] (set (set_at c i) j line) h

pub put_line-put :
    (c : Cache) (i j : ℕ) (a b : CacheLine)
    → i < length (c.cache_set)
    → put_line (put_line c i j a) i j b ≡ put_line c i j b
put_line-put c i j a b h =
    let sets =
      ap (λ ls. set (set (c.cache_set) i (set (set_at c i) j a)) i (set ls j b))
        (set_at-put c i j a h)
      ∙ set-set (c.cache_set) i _ _
      ∙ ap (λ ls. set (c.cache_set) i ls) (set-set (set_at c i) j a b) in
    ap (λ ss. record c { cache_set = ss }) sets

load_lem :
    (op : OpInfo) (id : ℕ) (m : Machine)
    → let m' = load_to_cache op id m in
      (line : CacheLine) × (m'.cache ≡ put_line (m.cache) (op.set_index) id line)
      × IsFresh (op.tag) (m'.sim.access_order) line
      × (m'.sim.state_cnt ≡ m.sim.state_cnt)
      × (m'.sim.access_order ≡ (m.sim.access_order + 1) % 2 ^ 64)
unfolding load_to_cache
load_lem op id m = (_, refl, (refl, refl, refl), refl, refl)

pub evict_lem :
    (op : OpInfo) (id : ℕ) (m : Machine)
    → let m' = evict_cache op id m in
      (line : CacheLine) × (m'.cache ≡ put_line (m.cache) (op.set_index) id line)
      × (line.is_valid ≡ false)
      × (m'.sim.last_state ≡ eviction)
      × (m'.sim.line_for_use ≡ m.sim.line_for_use)
      × (m'.sim.state_cnt ≡ m.sim.state_cnt)
      × (m'.sim.access_order ≡ m.sim.access_order)
unfolding evict_cache
evict_lem op id m = (_, refl, refl, refl, refl, refl, refl)

-- A load into a line of a set without the block, and the access that follows it.
pub fill_lem :
    (op : OpInfo) (id : ℕ) (m : Machine)
    → op.set_index < length (m.cache.cache_set)
    → id < length (set_at (m.cache) (op.set_index))
    → find_index (matches (op.tag)) (set_at (m.cache) (op.set_index)) ≡ none
    → let m' = access_cache op read (load_to_cache op id m) in
      (line : CacheLine) × (m'.cache ≡ put_line (m.cache) (op.set_index) id line)
      × IsFresh (op.tag) (m'.sim.access_order) line
      × (m'.sim.state_cnt ≡ m.sim.state_cnt)
      × (m'.sim.access_order ≡ ((m.sim.access_order + 1) % 2 ^ 64 + 1) % 2 ^ 64)
fill_lem op id m hs hl miss =
    let i = op.set_index in
    let m1 = load_to_cache op id m in
    let (loaded, put, fresh, cnt, clock) = load_lem op id m in
    let sets = ap (λ c. set_at c i) put ∙ set_at-put (m.cache) i id loaded hs in
    let found =
      find_index-set (matches (op.tag)) (set_at (m.cache) i) id loaded miss hl
        (ground (arith, fresh.0, fresh.1)) in
    let (line, put', fresh', counted) =
      access-hit op read m1 id (ap (find_index (matches (op.tag))) sets ∙ found) in
    (
      line,
      put' ∙ ap (λ c. put_line c i id line) put ∙ put_line-put (m.cache) i id loaded line hs,
      fresh',
      counted.1 ∙ cnt,
      counted.2 ∙ ap (λ (t : ℕ). (t + 1) % 2 ^ 64) clock,
    )
