-- ===== src/Tracky/Watchdog.antt =====
-- tracky/src/trackeroo/task_manager.go: the loop that watches the tasks, and the shutdown.
pub mod Verdict
pub mod Shutdown
use trackeroo.Base.{
  ℕ, Bool, true, false, Option, none, some, List, [], ◌∷◌, map, codes, ℤ, pos, ltb, if◌then◌else◌,
  Outcome, panicked,
}
use trackeroo.Tracky.Task.{
  TaskState, new_task, reset, kill, is_resetting, last_kick, to_uint64, sub64,
}

-- `Task` is the embedded state of the manager itself.
pub record TaskManager : Type 0 where
  pub own : TaskState
  pub tasks : List TaskState

abbrev pub watchdog : ℤ
watchdog = pos 98

-- The manager of `NewTaskManager` has the zero value of a task but for its name.
unfoldable pub new_task_manager : List TaskState → TaskManager
new_task_manager tasks = record {
  own = record {
    name = codes "Task Manager";
    running = false;
    resetting = false;
    reason = pos 0;
    wtd = pos 0;
    kicked = 0;
  };
  tasks = tasks;
}

unfoldable pub shutdown : ℤ → TaskManager → TaskManager
unfolding reset
shutdown reason m = record m { own = reset reason m.own }

abbrev pub stop : ℤ → TaskManager → TaskManager
stop reason m = record m { own = record m.own { running = false; reason = reason } }

-- `(now - uint64(task.LastKick())) > uint64(task.Wtd())`
unfoldable pub is_late : ℕ → TaskState → Bool
unfolding last_kick
is_late now t = ltb (to_uint64 t.wtd) (sub64 now (to_uint64 (last_kick t)))

-- One pass of the inner loop, which a resetting task breaks; `now` is read before it.
unfoldable pub check_tasks : ℕ → List TaskState → TaskManager → TaskManager
unfolding is_resetting is_late
check_tasks now [] m = m
check_tasks now (t ∷ ts) m =
    let rest = check_tasks now ts (if is_late now t then stop watchdog m else m) in
    if is_resetting t then stop t.reason m else rest

-- What the goroutines of the tasks have made of them when a pass runs, and the clock then.
pub record Pass : Type 0 where
  pub now : ℕ
  pub tasks : List TaskState

-- the shutdown sequence
unfoldable pub kill_all : TaskManager → TaskManager
unfolding kill
kill_all m = record m { tasks = map kill m.tasks }

unfoldable pub one_pass : Pass → TaskManager → TaskManager
unfolding check_tasks
one_pass p m = check_tasks p.now p.tasks (record m { tasks = p.tasks })

-- Where `Start` is after some passes: its loop runs on, or it has gone through the shutdown sequence
-- and panics, with this manager. It never returns.
pub data Watched : Type 0 where
  runs : Watched
  panics : TaskManager → Watched

-- the loop of `Start` along the passes
unfoldable pub watch : List Pass → TaskManager → Watched
unfolding kill_all
watch [] m = if m.own.running then runs else panics (kill_all m)
watch (p ∷ ps) m =
    let rest = watch ps (one_pass p m) in if m.own.running then rest else panics (kill_all m)

unfoldable pub start : List Pass → TaskManager → Watched
unfolding watch
start ps m = watch ps (record m { own = record m.own { running = true } })
