-- ===== src/Harness/Matrix/Queried.antt =====
-- The column of the sources that were asked.
