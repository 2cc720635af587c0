-- ===== src/Proxy.antt =====
-- The proxy of proxylab_code: what it reads from a client and sends on (Scan, Request, Headers, Forward,
-- Service), the ring of connections (ConnQueue), the cache of responses (ObjectCache) and, below it, the
-- lists of util.c (Lists) and the threads that share the cache (Locks).
pub mod ConnQueue
pub mod ObjectCache
pub mod Headers
pub mod Lists
pub mod Locks
pub mod Scan
pub mod Request
pub mod Forward
pub mod Service
