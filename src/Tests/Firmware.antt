-- ===== src/Tests/Firmware.antt =====
-- The watchdog of the firmware on two tasks, and its agent on a queue with one message.
use trackeroo.Base.{
  ◌≡◌, ◌↔◌, refl, true, false, some, List, [], ◌∷◌, ◌++◌, All, Bytes, bytes_eq, lookup, keep, inl,
  codes, arith, pos,
}
use trackeroo.Sqlite.{Row, Table, waiting}
use trackeroo.Backend.Pq.{Queues}
use trackeroo.Backend.Pq.Invariant.{Inv}
use trackeroo.Backend.Pq.Fifo.{waiting_rows}
use trackeroo.Backend.Publisher.{went, data_queue}
use trackeroo.Backend.Publisher.Oldest.{good_turn}
use trackeroo.Brokeroo.{parse_topic}
use trackeroo.Tracky.Pq.{text_of}
use trackeroo.Tracky.Agent.{agent_next}
use trackeroo.Tracky.Agent.Oldest.{agent_next-parse_topic}
use trackeroo.Tracky.Task.{TaskState, kill, is_resetting, last_kick, to_int, to_uint64, sub64}
use trackeroo.Tracky.Watchdog.{
  panics, TaskManager, Pass, check_tasks, is_late, one_pass, kill_all, watch, start,
}
use trackeroo.Tracky.Watchdog.Verdict.{IsAlive, check_tasks_iff}
use trackeroo.Tracky.Watchdog.Shutdown.{Ends, start-Ends}

abbrev mqtt : TaskState
mqtt = record {
  name = codes "MQTT";
  running = true;
  resetting = false;
  reason = pos 0;
  wtd = pos 120;
  kicked = 1700000000;
}

-- the second kicks a second after the clock is read
abbrev two_tasks : List TaskState
two_tasks = mqtt ∷ record mqtt { name = codes "Agent"; kicked = 1700000061 } ∷ []

abbrev manager : TaskManager
manager = record {
  own = record mqtt { name = codes "Task Manager"; wtd = pos 0; kicked = 0 };
  tasks = two_tasks;
}

check_tasks_iff_example :
    ((check_tasks 1700000060 two_tasks manager).own.running ≡ true)
    ↔ All (IsAlive 1700000060) two_tasks
check_tasks_iff_example =
    check_tasks_iff 1700000060 two_tasks manager (omega arith)
      ((refl, omega arith), ((refl, omega arith), tt)) refl

abbrev passes : List Pass
passes =
    record { now = 1700000061; tasks = two_tasks }
    ∷ record { now = 1700000060; tasks = two_tasks }
    ∷ []

start-Ends_example : Ends passes (start passes manager)
start-Ends_example = start-Ends passes manager (
  (omega arith, ((refl, omega arith), ((refl, omega arith), tt))),
  ((omega arith, ((refl, omega arith), ((refl, omega arith), tt))), tt),
)

-- the manager stops at the second pass, since its clock is behind the kick of the second task
start-passes :
    start passes manager
    ≡ panics (record manager {
      own = record mqtt {
        name = codes "Task Manager";
        wtd = pos 0;
        kicked = 0;
        running = false;
        reason = pos 98;
      };
      tasks =
          record mqtt { running = false }
          ∷ record mqtt { name = codes "Agent"; kicked = 1700000061; running = false }
          ∷ [];
    })
unfolding start watch one_pass check_tasks is_late last_kick to_int to_uint64 sub64 is_resetting
    kill_all kill
start-passes = refl

abbrev position : Row
position = record { id = 3; blob = codes "gps/{}"; status = waiting }

abbrev one_row : Table
one_row = record { rows = position ∷ []; seq = 3 }

one_row-Inv : Inv one_row
one_row-Inv = record { ordered = (omega arith, omega arith, inl refl, tt); fits = omega arith }

abbrev firmware_queues : Queues
firmware_queues = (data_queue, one_row) ∷ []

agent_next-parse_topic_example :
    (topic : Bytes) × (after : Queues) × (t' : Table) × (agent_next good_turn true 0
        (codes "trk-01")
        firmware_queues
        []
      ≡ went after ([] ++ (topic, codes "{}") ∷ []))
    × (parse_topic topic ≡ some (codes "trk-01", codes "gps"))
    × (lookup data_queue after ≡ some t')
    × (waiting_rows t' ≡ [])
unfolding lookup bytes_eq keep text_of
agent_next-parse_topic_example =
    agent_next-parse_topic 0 (codes "trk-01") firmware_queues [] one_row position [] (codes "gps")
      (codes "{}") refl one_row-Inv refl refl (omega arith) (omega arith)
