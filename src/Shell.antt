-- ===== src/Shell.antt =====
-- shlab_code/tsh.c: a shell with job control.
pub mod Jobs
pub mod Signals
pub mod Parse
pub mod Eval
pub mod Session
pub mod Main
pub mod Tests
