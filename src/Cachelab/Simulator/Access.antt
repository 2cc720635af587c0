-- ===== src/Cachelab/Simulator/Access.antt =====
-- The two outcomes of `accessCache` in cachelab_code/simulator.c, for the whole machine.
use csapp_lab_code.Base.{
  ℕ, ◌+◌, ◌%◌, ◌^◌, ◌≡◌, refl, sym, ◌∙◌, true, none, some, get_or-get, find_index, find_index-some,
  arith, ap,
}
use csapp_lab_code.Cachelab.Cache.{CacheLine, new_cacheline}
use csapp_lab_code.Cachelab.OpParser.{OpInfo}
use csapp_lab_code.Cachelab.Simulator.{
  AccessState, AccessMode, read, write, hit, Scan, Machine, Simulator, scan, scan_start, set_at,
  line_at, put_line, bump_order, access_cache, hit_line,
}
use csapp_lab_code.Cachelab.Simulator.Search.{
  matches, shift, scan-find, scan-hit, scan-Outcome, Outcome,
}

-- The simulator after an access that left this state.
abbrev pub Counted : AccessState → Simulator → Simulator → Type 0
Counted state s s' =
    (s'.last_state ≡ state)
    × (s'.state_cnt ≡ s.state_cnt)
    × (s'.access_order ≡ (s.access_order + 1) % 2 ^ 64)

-- The line holds the block of this tag, used at this order.
abbrev pub IsFresh : ℕ → ℕ → CacheLine → Type 0
IsFresh tag order line = (line.is_valid ≡ true) × (line.tag ≡ tag) × (line.access_order ≡ order)

hit_line_lem :
    (op : OpInfo) (mode : AccessMode) (i : ℕ) (m : Machine) (line : CacheLine)
    → line_at (m.cache) (op.set_index) i ≡ line
    → let m' = hit_line op mode i m in
      (line' : CacheLine) × (m'.cache ≡ put_line (m.cache) (op.set_index) i line')
      × (line'.is_valid ≡ line.is_valid)
      × (line'.tag ≡ line.tag)
      × (line'.access_order ≡ m.sim.access_order)
      × (m'.sim.last_state ≡ m.sim.last_state)
      × (m'.sim.state_cnt ≡ m.sim.state_cnt)
      × (m'.sim.access_order ≡ m.sim.access_order)
unfolding hit_line
hit_line_lem op read i m line e =
    (_, refl, ap (λ l. l.is_valid) e, ap (λ l. l.tag) e, refl, refl, refl, refl)
hit_line_lem op write i m line e =
    (_, refl, ap (λ l. l.is_valid) e, ap (λ l. l.tag) e, refl, refl, refl, refl)

pub access-hit :
    (op : OpInfo) (mode : AccessMode) (m : Machine) (i : ℕ)
    → find_index (matches (op.tag)) (set_at (m.cache) (op.set_index)) ≡ some i
    → let m' = access_cache op mode m in
      (line : CacheLine) × (m'.cache ≡ put_line (m.cache) (op.set_index) i line)
      × IsFresh (op.tag) (m'.sim.access_order) line
      × Counted hit (m.sim) (m'.sim)
unfolding access_cache
access-hit op mode m i e =
    let lines = set_at (m.cache) (op.set_index) in
    let (old, at, ok) = find_index-some (matches (op.tag)) lines i e in
    let here = get_or-get lines i (new_cacheline 0) old at in
    let start = scan_start (bump_order (m.sim)) in
    let found : (scan (op.tag) 0 lines start).0 ≡ some i =
      scan-find (op.tag) 0 lines start ∙ ap (shift 0) e ∙ ap some (omega arith) in
    let state = scan-hit (op.tag) 0 i lines start found in
    let kept = (scan (op.tag) 0 lines start).1 in
    let mid = record m {
      sim = record (bump_order (m.sim)) { last_state = kept.state; line_for_use = kept.use_line };
    } in
    let (line, put, v, t, order, last, cnt, clock) = hit_line_lem op mode i mid old here in
    rw found (
      line,
      put,
      (v ∙ ground arith, t ∙ ground arith, order ∙ sym clock),
      (last ∙ state, cnt, clock),
    )

pub access-miss :
    (op : OpInfo) (mode : AccessMode) (m : Machine)
    → find_index (matches (op.tag)) (set_at (m.cache) (op.set_index)) ≡ none
    → let m' = access_cache op mode m in
      (r : Scan) × (m'.cache ≡ m.cache)
      × (m'.sim.line_for_use ≡ r.use_line)
      × Counted (r.state) (m.sim) (m'.sim)
      × Outcome 0 (set_at (m.cache) (op.set_index)) (scan_start (bump_order (m.sim))) r
unfolding access_cache
access-miss op mode m e =
    let lines = set_at (m.cache) (op.set_index) in
    let start = scan_start (bump_order (m.sim)) in
    let found : (scan (op.tag) 0 lines start).0 ≡ none =
      scan-find (op.tag) 0 lines start ∙ ap (shift 0) e in
    let out = scan-Outcome (op.tag) 0 lines start e in
    rw found ((scan (op.tag) 0 lines start).1, refl, refl, (refl, refl, refl), out)
