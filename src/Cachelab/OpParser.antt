-- ===== src/Cachelab/OpParser.antt =====
-- cachelab_code/opparser.c: the masks of an address and the fields they cut out of it. The three
-- items that `sscanf` reads from a line of the trace come in as an argument.
pub mod Fields
use Prim.Native.Nat.{bit_and, bit_or}
use csapp_lab_code.Base.{ℕ, ◌+◌, ◌-◌, ◌*◌, ◌/◌, ◌%◌, ◌^◌, Option, none, some}

pub data OpType : Type 0 where
  instruct : OpType
  load : OpType
  store : OpType
  modify : OpType
  unknown : OpType

pub record OpInfo : Type 0 where
  pub optype : OpType
  pub memory_addr : ℕ
  pub set_index : ℕ
  pub tag : ℕ
  pub block_offset : ℕ
  pub size : ℕ

pub record OpParser : Type 0 where
  pub tag_mask : ℕ
  pub block_mask : ℕ
  pub set_index_mask : ℕ
  pub set_cnt : ℕ
  pub set_bit_cnt : ℕ
  pub block_bit_cnt : ℕ

-- The masks are computed as an `int`, whose value is not negative where `s + b` is below 31.
unfoldable pub new_opparser : ℕ → ℕ → OpParser
new_opparser s b =
    let block_mask = 2 ^ b - 1 in
    let set_index_mask = (2 ^ s - 1) * 2 ^ b in
    record {
      tag_mask = 2 ^ 64 - 1 - bit_or block_mask set_index_mask;
      block_mask = block_mask;
      set_index_mask = set_index_mask;
      set_cnt = 2 ^ s;
      set_bit_cnt = s;
      block_bit_cnt = b;
    }

-- What `sscanf` stores when it reads all three items, with the character of the operation as the enum.
pub record Scanned : Type 0 where
  pub op : OpType
  pub address : ℕ
  pub bytes : ℕ

unfoldable pub parse_op : OpParser → Option Scanned → Option OpInfo
parse_op p none = none
parse_op p (some t) = some (record {
  optype = t.op;
  memory_addr = t.address;
  set_index = bit_and (t.address) (p.set_index_mask) / 2 ^ p.block_bit_cnt;
  tag = bit_and (t.address) (p.tag_mask);
  block_offset = bit_and (t.address) (p.block_mask);
  size = t.bytes;
})
