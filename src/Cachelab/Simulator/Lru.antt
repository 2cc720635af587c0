-- ===== src/Cachelab/Simulator/Lru.antt =====
-- The replacement policy that `operate` of cachelab_code/simulator.c implements.
use csapp_lab_code.Base.{
  ℕ, ◌^◌, ◌+◌, ◌<◌, ◌≡◌, refl, ◌∙◌, false, none, some, List, length, length-set, get_elem?,
  get_elem?-some, get_elem?-lt, find_index-some, set, find_index, Option-cases, inl, inr, arith, ap,
}
use csapp_lab_code.Cachelab.Cache.{CacheLine, Cache}
use csapp_lab_code.Cachelab.OpParser.{OpInfo}
use csapp_lab_code.Cachelab.Simulator.{
  AccessMode, cold_miss, conflict_miss, hit, eviction, read, Scan, Simulator, Machine, Counts, bump,
  set_at, put_line, bump_order, access_cache, evict_cache, load_to_cache, touch, scan_start,
}
use csapp_lab_code.Cachelab.Simulator.Search.{
  matches, Outcome, empty, oldest, nothing, AllValid, NoneOlder,
}
use csapp_lab_code.Cachelab.Simulator.Access.{IsFresh, Counted, access-hit, access-miss}
use csapp_lab_code.Cachelab.Simulator.Orders.{IsOrdered, OneAt, set-IsOrdered, set-OneAt}
use csapp_lab_code.Cachelab.Simulator.Touch.{
  fill_lem, evict_lem, find_index-set-none, put_line-put, set_at-put,
}

-- How an access changes its set, from `L` to `L'`, and the counts: a line with the block is used again;
-- an empty line takes the block; or, all lines being valid, the line used least recently takes it.
pub data Touched (tag order : ℕ) (L : List CacheLine) (c : Counts) (L' : List CacheLine)
    (c' : Counts) : Type 0 where
  was_hit :
      (i : ℕ) (line : CacheLine)
      → find_index (matches tag) L ≡ some i
      → L' ≡ set L i line
      → IsFresh tag order line
      → c' ≡ bump hit c
      → Touched tag order L c L' c'
  was_cold :
      (i : ℕ) (old line : CacheLine)
      → find_index (matches tag) L ≡ none
      → get_elem? L i ≡ some old
      → old.is_valid ≡ false
      → L' ≡ set L i line
      → IsFresh tag order line
      → c' ≡ bump cold_miss c
      → Touched tag order L c L' c'
  was_conflict :
      (i : ℕ) (old line : CacheLine)
      → find_index (matches tag) L ≡ none
      → get_elem? L i ≡ some old
      → AllValid L
      → NoneOlder (old.access_order) L
      → L' ≡ set L i line
      → IsFresh tag order line
      → c' ≡ bump eviction (bump conflict_miss c)
      → Touched tag order L c L' c'

-- The operation's set is in the cache and has a line, its orders are not above the simulator's, and that is
-- not about to wrap.
abbrev pub IsReady : OpInfo → Simulator → Cache → Type 0
IsReady op s c =
    (op.set_index < length (c.cache_set))
    × (0 < length (set_at c (op.set_index)))
    × IsOrdered (s.access_order) (set_at c (op.set_index))
    × (s.access_order + 3 < 2 ^ 64)

-- What one access does to the machine. The simulator's order grows, and it is that of the line that was used,
-- so this line is the one used last.
abbrev pub Touches : OpInfo → Machine → Machine → Type 0
Touches op m m' =
    (L' : List CacheLine) × (m'.cache
      ≡ record (m.cache) { cache_set = set (m.cache.cache_set) (op.set_index) L' })
    × Touched (op.tag) (m'.sim.access_order) (set_at (m.cache) (op.set_index)) (m.sim.state_cnt) L'
        (m'.sim.state_cnt)
    × (m.sim.access_order < m'.sim.access_order)
    × IsOrdered (m'.sim.access_order) L'
    × OneAt (m'.sim.access_order) L'

hit_case :
    (op : OpInfo) (mode : AccessMode) (m : Machine) (i : ℕ)
    → IsReady op (m.sim) (m.cache)
    → find_index (matches (op.tag)) (set_at (m.cache) (op.set_index)) ≡ some i
    → Touches op m ((touch op mode m).0)
unfolding touch
hit_case op mode m i ready e =
    let (old, at, ok) = find_index-some (matches (op.tag)) (set_at (m.cache) (op.set_index)) i e in
    let (line, put, fresh, counted) = access-hit op mode m i e in
    let cnt =
      ap (λ s. bump s ((access_cache op mode m).sim.state_cnt)) (counted.0)
      ∙ ap (bump hit) (counted.1) in
    let grows : m.sim.access_order < (access_cache op mode m).sim.access_order =
      omega (arith, counted.2, ready.3) in
    let inside = get_elem?-lt (set_at (m.cache) (op.set_index)) i at in
    let ordered =
      set-IsOrdered (set_at (m.cache) (op.set_index)) i (m.sim.access_order) _ line inside (ready.2)
        (omega (arith, grows)) (fresh.2) in
    let single =
      set-OneAt (set_at (m.cache) (op.set_index)) i (m.sim.access_order) _ line inside (ready.2)
        grows in
    rw (counted.0)
      (_, put, was_hit i line e refl fresh (ap (bump hit) (counted.1)), grows, ordered, single)

-- A miss that fills line `i` of the set from a machine whose cache is the old one.
cold_case :
    (op : OpInfo) (mode : AccessMode) (m : Machine) (i : ℕ) (old : CacheLine)
    → IsReady op (m.sim) (m.cache)
    → find_index (matches (op.tag)) (set_at (m.cache) (op.set_index)) ≡ none
    → get_elem? (set_at (m.cache) (op.set_index)) i ≡ some old
    → old.is_valid ≡ false
    → (access_cache op mode m).cache ≡ m.cache
    → (access_cache op mode m).sim.line_for_use ≡ i
    → Counted cold_miss (m.sim) ((access_cache op mode m).sim)
    → Touches op m ((touch op mode m).0)
unfolding touch
cold_case op mode m i old ready miss at inv same line_use counted =
    let hs = ready.0 in
    let m1 = access_cache op mode m in
    let m2 = record m1 {
      sim = record (m1.sim) {
        last_state = cold_miss;
        state_cnt = bump cold_miss (m1.sim.state_cnt);
      };
    } in
    let id = m1.sim.line_for_use in
    let inside : id < length (set_at (m1.cache) (op.set_index)) =
      rw (same, line_use) (get_elem?-lt _ i at) in
    let (line, put, fresh, cnt, clock) = fill_lem op id m2 (rw same hs) inside (rw same miss) in
    let put' =
      put
      ∙ ap (λ c. put_line c (op.set_index) id line) same
      ∙ ap (λ k. put_line (m.cache) (op.set_index) k line) line_use in
    let grows : m.sim.access_order
        < (access_cache op read (load_to_cache op id m2)).sim.access_order =
      omega (arith, clock, counted.2, ready.3) in
    let ordered =
      set-IsOrdered (set_at (m.cache) (op.set_index)) i (m.sim.access_order) _ line
        (get_elem?-lt _ i at) (ready.2) (omega (arith, grows)) (fresh.2) in
    let single =
      set-OneAt (set_at (m.cache) (op.set_index)) i (m.sim.access_order) _ line
        (get_elem?-lt _ i at) (ready.2) grows in
    rw (counted.0) (
      _,
      put',
      was_cold i old line miss at inv refl fresh (cnt ∙ ap (bump cold_miss) (counted.1)),
      grows,
      ordered,
      single,
    )

conflict_case :
    (op : OpInfo) (mode : AccessMode) (m : Machine) (i : ℕ) (old : CacheLine)
    → IsReady op (m.sim) (m.cache)
    → find_index (matches (op.tag)) (set_at (m.cache) (op.set_index)) ≡ none
    → get_elem? (set_at (m.cache) (op.set_index)) i ≡ some old
    → AllValid (set_at (m.cache) (op.set_index))
    → NoneOlder (old.access_order) (set_at (m.cache) (op.set_index))
    → (access_cache op mode m).cache ≡ m.cache
    → (access_cache op mode m).sim.line_for_use ≡ i
    → Counted conflict_miss (m.sim) ((access_cache op mode m).sim)
    → Touches op m ((touch op mode m).0)
unfolding touch
conflict_case op mode m i old ready miss at valid least same line_use counted =
    let hs = ready.0 in
    let m1 = access_cache op mode m in
    let m2 = record m1 {
      sim = record (m1.sim) {
        last_state = conflict_miss;
        state_cnt = bump conflict_miss (m1.sim.state_cnt);
      };
    } in
    let id = m1.sim.line_for_use in
    let m3 = evict_cache op id m2 in
    let (dead, gone, inv, last, kept, cnt, still_clock) = evict_lem op id m2 in
    let m4 = record m3 {
      sim = record (m3.sim) { last_state = eviction; state_cnt = bump eviction (m3.sim.state_cnt) };
    } in
    let gone' =
      gone
      ∙ ap (λ c. put_line c (op.set_index) id dead) same
      ∙ ap (λ k. put_line (m.cache) (op.set_index) k dead) line_use in
    let lines = set_at (m.cache) (op.set_index) in
    let emptied =
      ap (λ c. set_at c (op.set_index)) gone' ∙ set_at-put (m.cache) (op.set_index) i dead hs in
    let sets : op.set_index < length (m4.cache.cache_set) =
      rw gone' (rw (length-set (m.cache.cache_set)) hs) in
    let id' = m3.sim.line_for_use in
    let chosen : id' ≡ i = kept ∙ line_use in
    let inside : id' < length (set_at (m4.cache) (op.set_index)) =
      rw (emptied, chosen, length-set lines) (get_elem?-lt lines i at) in
    let still = find_index-set-none (matches (op.tag)) lines i dead miss (ground (arith, inv)) in
    let (line, put, fresh, cnt', clock) = fill_lem op id' m4 sets inside (rw emptied still) in
    let put' =
      put
      ∙ ap (λ c. put_line c (op.set_index) id' line) gone'
      ∙ ap (λ k. put_line (put_line (m.cache) (op.set_index) i dead) (op.set_index) k line) chosen
      ∙ put_line-put (m.cache) (op.set_index) i dead line hs in
    let grows : m.sim.access_order
        < (access_cache op read (load_to_cache op id' m4)).sim.access_order =
      omega (arith, clock, still_clock, counted.2, ready.3) in
    let ordered =
      set-IsOrdered lines i (m.sim.access_order) _ line (get_elem?-lt lines i at) (ready.2)
        (omega (arith, grows)) (fresh.2) in
    let single =
      set-OneAt lines i (m.sim.access_order) _ line (get_elem?-lt lines i at) (ready.2) grows in
    rw (counted.0, last)
      (
        _,
        put',
        was_conflict i old line miss at valid least refl fresh
            (cnt' ∙ ap (bump eviction) (cnt ∙ ap (bump conflict_miss) (counted.1))),
        grows,
        ordered,
        single,
      )

miss_case :
    (op : OpInfo) (mode : AccessMode) (m : Machine) (r : Scan)
    → IsReady op (m.sim) (m.cache)
    → find_index (matches (op.tag)) (set_at (m.cache) (op.set_index)) ≡ none
    → (access_cache op mode m).cache ≡ m.cache
    → (access_cache op mode m).sim.line_for_use ≡ r.use_line
    → Counted (r.state) (m.sim) ((access_cache op mode m).sim)
    → Outcome 0 (set_at (m.cache) (op.set_index)) (scan_start (bump_order (m.sim))) r
    → Touches op m ((touch op mode m).0)
miss_case op mode m r ready miss same line_use counted (empty j l at inv st kept) =
    cold_case op mode m j l ready miss at inv same (line_use ∙ kept ∙ omega arith)
      (counted.0 ∙ st, counted.1, counted.2)
miss_case op mode m r ready miss same line_use counted (oldest j l at valid least st kept lt) =
    conflict_case op mode m j l ready miss at valid least same (line_use ∙ kept ∙ omega arith)
      (counted.0 ∙ st, counted.1, counted.2)
miss_case op mode m r ready miss same line_use counted (nothing valid least kept) =
    let (l, at) = get_elem?-some (set_at (m.cache) (op.set_index)) 0 (ready.1) in
    absurd (omega (arith, least 0 l at, ready.2 0 l at, ready.3))

-- On a set that is in the cache and has a line, whose orders of access are not above the
-- simulator's, which is not about to wrap, one access of `operate` with the treatment of its miss
-- does one of three things: the block is there, its line is used and a hit is counted; or it is not
-- there and an invalid line takes it, counted as a cold miss; or it is not there, all lines are
-- valid, the one with the least order of access takes it, and a conflict miss and an eviction are
-- counted. The line gets an order above those of all other lines, and again no order in the set is
-- above the simulator's. No other line and no other set changes.
pub touch-Touches :
    (op : OpInfo) (mode : AccessMode) (m : Machine)
    → IsReady op (m.sim) (m.cache)
    → Touches op m ((touch op mode m).0)
touch-Touches op mode m ready =
    elim (Option-cases (find_index (matches (op.tag)) (set_at (m.cache) (op.set_index)))) [
      | inl miss ↦
          let (r, same, line_use, counted, out) = access-miss op mode m miss in
          miss_case op mode m r ready miss same line_use counted out
      | inr (i, found) ↦ hit_case op mode m i ready found
    ]
