-- ===== src/Cachelab.antt =====
-- The cache simulator of cachelab_code: the cache (Cache), the parser of trace lines (OpParser) and the
-- simulator that runs the operations (Simulator).
pub mod Cache
pub mod OpParser
pub mod Simulator
pub mod Tests
