-- ===== src/Thread/Tests.antt =====
-- A thread that was started.
