-- ===== src/Cachelab/Tests.antt =====
-- The theorems on cachelab_code at a cache of two sets with one line of two bytes each.
use csapp_lab_code.Base.{
  ◌+◌, ◌*◌, ◌%◌, ◌^◌, ◌<◌, ◌≡◌, some, arith, replicate, find_index, get_elem?-replicate,
}
use csapp_lab_code.Cachelab.Cache.{Cache, new_cacheline}
use csapp_lab_code.Cachelab.OpParser.{OpInfo, load, modify, new_opparser, parse_op}
use csapp_lab_code.Cachelab.OpParser.Fields.{parse_op-fields}
use csapp_lab_code.Cachelab.Simulator.{Machine, new_simulator, read, touch, operate}
use csapp_lab_code.Cachelab.Simulator.Lru.{IsReady, Touches, touch-Touches}
use csapp_lab_code.Cachelab.Simulator.Totals.{Adds, operate-Adds}

abbrev small_cache : Cache
small_cache = record {
  line_cnt = 1;
  set_cnt = 2;
  block_cnt = 2;
  cache_set = replicate 2 (replicate 1 (new_cacheline 2));
}

abbrev modify_op : OpInfo
modify_op = record {
  optype = modify;
  memory_addr = 7;
  set_index = 1;
  tag = 4;
  block_offset = 1;
  size = 1;
}

abbrev new_machine : Machine
new_machine = record {
  sim = new_simulator 0;
  cache = small_cache;
  reg = replicate 8 0;
  mem = replicate 2 9;
}

small-IsReady : IsReady modify_op (new_simulator 0) small_cache
unfolding new_simulator
small-IsReady = (
  omega arith,
  omega arith,
  λ j l h. ground (arith, get_elem?-replicate 1 (new_cacheline 2) j l h),
  omega arith,
)

touch-Touches_example : Touches modify_op new_machine ((touch modify_op read new_machine).0)
touch-Touches_example = touch-Touches modify_op read new_machine small-IsReady

operate-Adds_example : Adds 2 1 ((new_simulator 0).state_cnt) (
    (operate modify_op
      (replicate 8 0)
      (replicate 2 9)
      (new_simulator 0)
      small_cache).0.sim.state_cnt)
unfolding find_index
operate-Adds_example =
    operate-Adds modify_op (replicate 8 0) (replicate 2 9) (new_simulator 0) small_cache
      small-IsReady

parse_op-fields_example :
    (info : OpInfo) × (parse_op
        (new_opparser 1 1)
        (some (record { op = load; address = 7; bytes = 1 }))
      ≡ some info)
    × (info.tag + info.set_index * 2 ^ 1 + info.block_offset ≡ 7)
    × (info.block_offset < 2 ^ 1)
    × (info.set_index < (new_opparser 1 1).set_cnt)
    × (info.tag % 2 ^ 2 ≡ 0)
parse_op-fields_example =
    parse_op-fields 1 1 (record { op = load; address = 7; bytes = 1 }) (omega arith) (omega arith)
