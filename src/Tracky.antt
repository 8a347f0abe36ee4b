-- ===== src/Tracky.antt =====
-- tracky/src/trackeroo: the firmware of a tracker, with a task manager over the publishing agent and
-- the client of the platform, and a durable queue.
pub mod Task
pub mod Watchdog
pub mod Pq
pub mod Agent
pub mod Config
pub mod Driving
pub mod Routes
pub mod StatVar
pub mod Sensors
pub mod Firmware
pub mod Jobs
pub mod Mqtt
