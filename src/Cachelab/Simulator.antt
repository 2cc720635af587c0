-- ===== src/Cachelab/Simulator.antt =====
-- cachelab_code/simulator.c: the access to a cache, the load and the eviction of a line, and the run of
-- one operation. `overrun` is set by an access outside an array, from where on the behaviour of the
-- code is undefined. The counts are natural numbers, the order of accesses has 64 bits.
pub mod Search
pub mod Access
pub mod Touch
pub mod Orders
pub mod Lru
pub mod Totals
use csapp_lab_code.Base.{
  ℕ, zero, suc, ◌+◌, ◌%◌, ◌^◌, ◌-◌, Bool, true, false, ◌||◌, Option, none, some, List, [], ◌∷◌,
  ◌++◌, length, get_elem?, set, get_or, ltb, ◌==◌, if◌then◌else◌,
}
use csapp_lab_code.Cachelab.Cache.{CacheLine, Cache, new_cacheline}
use csapp_lab_code.Cachelab.OpParser.{OpInfo, OpType, instruct, load, store, modify, unknown}

pub data AccessState : Type 0 where
  cold_miss : AccessState
  conflict_miss : AccessState
  hit : AccessState
  eviction : AccessState
  warmed_up : AccessState

pub data AccessMode : Type 0 where
  read : AccessMode
  write : AccessMode

pub record Counts : Type 0 where
  pub cold : ℕ
  pub conflict : ℕ
  pub hits : ℕ
  pub evictions : ℕ
  pub warm : ℕ

-- `stateCnt[state]++`
abbrev pub bump : AccessState → Counts → Counts
bump cold_miss c = record c { cold = suc (c.cold) }
bump conflict_miss c = record c { conflict = suc (c.conflict) }
bump hit c = record c { hits = suc (c.hits) }
bump eviction c = record c { evictions = suc (c.evictions) }
bump warmed_up c = record c { warm = suc (c.warm) }

pub record Simulator : Type 0 where
  pub last_state : AccessState
  pub state_cnt : Counts
  pub line_for_use : ℕ
  pub access_order : ℕ
  pub overrun : Bool

-- `stateCnt[4]`, which no operation counts, is left as `malloc` gave it.
unfoldable pub new_simulator : ℕ → Simulator
new_simulator junk = record {
  last_state = cold_miss;
  state_cnt = record { cold = 0; conflict = 0; hits = 0; evictions = 0; warm = junk };
  line_for_use = 0;
  access_order = 0;
  overrun = false;
}

-- An array that a loop writes, and whether an index was out of it or out of the array read.
pub record Bytes : Type 0 where
  pub bytes : List ℕ
  pub outside : Bool

unfoldable pub store_byte : Bytes → ℕ → Option ℕ → Bytes
store_byte b i none = record b { outside = true }
store_byte b i (some v) =
    if ltb i (length (b.bytes))
    then record b { bytes = set (b.bytes) i v }
    else record b { outside = true }

-- The loop over `j` of a read: the register's byte `i`, the line's number, takes every byte in turn.
unfoldable pub read_bytes : ℕ → ℕ → List ℕ → ℕ → ℕ → Bytes → Bytes
read_bytes i offset block j zero reg = reg
read_bytes i offset block j (suc n) reg =
    read_bytes i offset block (suc j) n (store_byte reg i (get_elem? block (offset + j)))

-- The loop over `j` of a write: the block's byte at the offset plus `i` takes every byte in turn.
unfoldable pub write_bytes : ℕ → ℕ → List ℕ → ℕ → ℕ → Bytes → Bytes
write_bytes i offset reg j zero block = block
write_bytes i offset reg j (suc n) block =
    write_bytes i offset reg (suc j) n (store_byte block (offset + i) (get_elem? reg j))

-- `for (i = 0; i < n; i++) to[i] = from[i]`
unfoldable pub copy_block : List ℕ → ℕ → ℕ → Bytes → Bytes
copy_block from i zero to = to
copy_block from i (suc n) to = copy_block from (suc i) n (store_byte to i (get_elem? from i))

-- What the loop of `accessCache` keeps while it has not hit.
pub record Scan : Type 0 where
  pub state : AccessState
  pub lru : ℕ
  pub use_line : ℕ

abbrev pub keep_lru : ℕ → CacheLine → Scan → Scan
keep_lru i line s =
    if ltb (line.access_order) (s.lru)
    then record s { lru = line.access_order; use_line = i }
    else s

abbrev pub found_empty : ℕ → Scan → Scan
found_empty i s = record s { state = cold_miss; lru = 0; use_line = i }

-- The search of `accessCache` from line `i` on: the line hit, and what the loop kept.
unfoldable pub scan : ℕ → ℕ → List CacheLine → Scan → Option ℕ × Scan
scan tag i [] s = (none, s)
scan tag i (line ∷ lines) s =
    let passed = scan tag (suc i) lines (keep_lru i line s) in
    let empty = scan tag (suc i) lines (found_empty i s) in
    if line.is_valid
    then if line.tag == tag then (some i, record s { state = hit }) else passed
    else empty

-- What the operations pass on: the simulator, the cache, and the register or memory block.
pub record Machine : Type 0 where
  pub sim : Simulator
  pub cache : Cache
  pub reg : List ℕ
  pub mem : List ℕ

abbrev pub set_at : Cache → ℕ → List CacheLine
set_at c i = get_or (c.cache_set) i []

abbrev pub line_at : Cache → ℕ → ℕ → CacheLine
line_at c i j = get_or (set_at c i) j (new_cacheline 0)

abbrev pub put_line : Cache → ℕ → ℕ → CacheLine → Cache
put_line c i j line = record c { cache_set = set (c.cache_set) i (set (set_at c i) j line) }

abbrev pub bump_order : Simulator → Simulator
bump_order s = record s { access_order = (s.access_order + 1) % 2 ^ 64 }

-- The body of `accessCache` for a hit in line `i`.
unfoldable pub hit_line : OpInfo → AccessMode → ℕ → Machine → Machine
hit_line op read i m =
    let line = line_at (m.cache) (op.set_index) i in
    let out =
      read_bytes i (op.block_offset) (line.block) 0 (op.size)
        (record { bytes = m.reg; outside = m.sim.overrun }) in
    record m {
      sim = record (m.sim) { overrun = out.outside };
      cache =
          put_line (m.cache) (op.set_index) i (record line { access_order = m.sim.access_order });
      reg = out.bytes;
    }
hit_line op write i m =
    let line = line_at (m.cache) (op.set_index) i in
    let out =
      write_bytes i (op.block_offset) (m.reg) 0 (op.size)
        (record { bytes = line.block; outside = m.sim.overrun }) in
    record m {
      sim = record (m.sim) { overrun = out.outside };
      cache =
          put_line (m.cache) (op.set_index) i
            (record line { block = out.bytes; access_order = m.sim.access_order });
    }

abbrev pub scan_start : Simulator → Scan
scan_start s = record { state = conflict_miss; lru = 2 ^ 64 - 1; use_line = s.line_for_use }

abbrev pub finish_access : OpInfo → AccessMode → Option ℕ → Machine → Machine
finish_access op mode none m = m
finish_access op mode (some i) m = hit_line op mode i m

unfoldable pub access_cache : OpInfo → AccessMode → Machine → Machine
access_cache op mode m =
    let sim = bump_order (m.sim) in
    let searched = scan (op.tag) 0 (set_at (m.cache) (op.set_index)) (scan_start sim) in
    let sim' = record sim { last_state = searched.1.state; line_for_use = searched.1.use_line } in
    finish_access op mode (searched.0) (record m { sim = sim' })

unfoldable pub load_to_cache : OpInfo → ℕ → Machine → Machine
load_to_cache op id m =
    let sim = bump_order (m.sim) in
    let line = line_at (m.cache) (op.set_index) id in
    let out =
      copy_block (m.mem) 0 (m.cache.block_cnt)
        (record { bytes = line.block; outside = m.sim.overrun }) in
    let loaded : CacheLine = record {
      is_valid = true;
      tag = op.tag;
      block = out.bytes;
      access_order = sim.access_order;
    } in
    record m {
      sim = record sim { last_state = warmed_up; overrun = out.outside };
      cache = put_line (m.cache) (op.set_index) id loaded;
    }

unfoldable pub evict_cache : OpInfo → ℕ → Machine → Machine
evict_cache op id m =
    let line = line_at (m.cache) (op.set_index) id in
    let out =
      copy_block (line.block) 0 (m.cache.block_cnt)
        (record { bytes = m.mem; outside = m.sim.overrun }) in
    record m {
      sim = record (m.sim) { last_state = eviction; overrun = out.outside };
      cache = put_line (m.cache) (op.set_index) id (record line { is_valid = false });
      mem = out.bytes;
    }

-- `state[k++] = lastState; stateCnt[lastState]++`, with the states saved for the printout
abbrev pub count : Machine × List AccessState → Machine × List AccessState
count (m, states) = (
  record m { sim = record (m.sim) { state_cnt = bump (m.sim.last_state) (m.sim.state_cnt) } },
  states ++ (m.sim.last_state ∷ []),
)

-- The inner `switch`, which the three kinds of operation share.
abbrev pub on_miss : OpInfo → AccessState → Machine × List AccessState → Machine × List AccessState
on_miss op cold_miss (m, states) =
    (access_cache op read (load_to_cache op (m.sim.line_for_use) m), states)
on_miss op conflict_miss (m, states) =
    let (m', states') = count (evict_cache op (m.sim.line_for_use) m, states) in
    (access_cache op read (load_to_cache op (m'.sim.line_for_use) m'), states')
on_miss op hit out = out
on_miss op eviction out = out
on_miss op warmed_up out = out

-- An access, its count, and the treatment of a miss.
unfoldable pub touch : OpInfo → AccessMode → Machine → Machine × List AccessState
touch op mode m = let m' = access_cache op mode m in on_miss op (m'.sim.last_state) (count (m', []))

abbrev pub run : OpType → OpInfo → Machine → Machine × List AccessState
run instruct op m = (m, [])
run load op m = touch op read m
run store op m = touch op write m
run modify op m = let (m', states) = touch op read m in count (access_cache op write m', states)
run unknown op m = (m, [])

-- The register and the block of memory are new, with contents that `malloc` leaves open.
unfoldable pub operate : OpInfo → List ℕ → List ℕ → Simulator → Cache → Machine × List AccessState
operate op reg mem sim cache =
    run (op.optype) op (record { sim = sim; cache = cache; reg = reg; mem = mem })

-- The main loop of cachelab_code/csim.c over the lines that parse, with the memory's contents for each.
pub record Trace : Type 0 where
  pub op : OpInfo
  pub reg : List ℕ
  pub mem : List ℕ

unfoldable pub run_trace : List Trace → Simulator → Cache → Simulator × Cache
run_trace [] sim cache = (sim, cache)
run_trace (t ∷ ts) sim cache =
    let out = operate (t.op) (t.reg) (t.mem) sim cache in run_trace ts (out.0.sim) (out.0.cache)
