-- ===== src/System/Fifo/Tests.antt =====
-- The run of two reads, seen from outside.
