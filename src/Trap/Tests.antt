-- ===== src/Trap/Tests.antt =====
-- The theorem on the timer interrupt at the small system of Sched/Tests.
