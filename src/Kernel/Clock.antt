-- ===== src/Kernel/Clock.antt =====
-- The clock trap: who runs next, and who is ready.
use cs58final_project.Prelude.{◌+◌, List}
use cs58final_project.Prelude.Run.{Run}
use cs58final_project.Sched.{Sched}

-- the state after one tick of the clock
abbrev pub ticked : Sched → Sched
ticked s = record s { num_ticks = s.num_ticks + 1 }
