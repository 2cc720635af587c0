-- ===== src/Cachelab/Cache.antt =====
-- cachelab_code/cache.c: a cache is an array of sets, a set an array of lines, a line a tag, a valid
-- bit, the order of its last access and a block of bytes. An allocation is taken to succeed.
use csapp_lab_code.Base.{ℕ, Bool, false, List, replicate}

pub record CacheLine : Type 0 where
  pub is_valid : Bool
  pub tag : ℕ
  pub block : List ℕ
  pub access_order : ℕ

pub record Cache : Type 0 where
  pub line_cnt : ℕ
  pub set_cnt : ℕ
  pub block_cnt : ℕ
  pub cache_set : List (List CacheLine)

abbrev pub new_cacheline : ℕ → CacheLine
new_cacheline block_cnt = record {
  is_valid = false;
  tag = 0;
  block = replicate block_cnt 0;
  access_order = 0;
}

abbrev pub new_cacheset : ℕ → ℕ → List CacheLine
new_cacheset line_cnt block_cnt = replicate line_cnt (new_cacheline block_cnt)

unfoldable pub new_cache : ℕ → ℕ → ℕ → Cache
new_cache set_cnt line_cnt block_cnt = record {
  line_cnt = line_cnt;
  set_cnt = set_cnt;
  block_cnt = block_cnt;
  cache_set = replicate set_cnt (new_cacheset line_cnt block_cnt);
}
