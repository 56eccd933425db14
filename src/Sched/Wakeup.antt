-- ===== src/Sched/Wakeup.antt =====
-- `check_wakeup`: which sleeping tasks a timer tick makes ready.
pub mod Lists
pub mod Step
pub mod Loop
