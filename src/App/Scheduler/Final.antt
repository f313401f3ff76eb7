-- ===== src/App/Scheduler/Final.antt =====
-- A run that has ended is not touched again.
