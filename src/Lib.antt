-- ===== src/Lib.antt =====
-- trackeroo: a platform that takes the messages of tracking devices through an HTTP backend, a
-- message broker and a bridge into a database and Kafka, and the firmware of such a device.
--
-- The parts and how they interact. A device authenticates to the backend
-- (trackeroo-backend/src/internal) by a token under its own key, over HTTP (middleware/auth.go) or
-- over MQTT, where the broker asks handler/mqttauth.go. What it sends over HTTP is put on a durable
-- queue (service/pq.go), which a loop publishes to the broker (service/mqtt.go). The firmware
-- (tracky/src/trackeroo) has a queue and a publishing agent of its own. The bridge
-- (brokeroo/cmd/brokeroo/main.go) subscribes to the broker, stores each message in PostgreSQL and
-- forwards it to Kafka, and acknowledges it last.
--
--   Base: shared names, byte strings, dictionaries, Boolean tests, and Base64 and decimal numbers
--     of the standard library.
--   Sqlite: the table behind a queue and the SQL statements on it.
--   Backend/Pq: service/pq.go. EnqueueData, DequeueData, setStatus, Size, Ack, Unack, InitQueue and
--     QueuesCleanUp are enqueue_data, dequeue_data, set_status, size, ack, unack, init_queue and
--     queues_clean_up; each applies to one table a function whose name ends in _tx. Steps has the
--     life of a queue as a list of calls.
--   Backend/Http, Backend/Router: what the handlers use of net/http, and router/router.go. A handler
--     is a function of a request, a server state and a response writer.
--   Backend/Middleware: middleware/*.go. Stack has the three middlewares of the main router, Guards
--     the two guards.
--   Backend/Token: service/token.go and service/utils.go.
--   Backend/Cache, Backend/Server, Backend/Model, Backend/Db: service/cache.go, the state behind the
--     handlers, model/*.go and service/db.go.
--   Backend/MqttAuth: handler/mqttauth.go and service/login.go.
--   Brokeroo: brokeroo/cmd/brokeroo/main.go. messageHandler is message_handler, whose stages are
--     decoded, store, publish and forward; Connect has the loop of connectMQTT, and Lifecycle Start
--     and Stop.
--   Backend/Login, Backend/Users: handler/login.go and handler/users.go, with the fixed answers of
--     admin.go, health.go and options.go.
--   Backend/Connectivity: service/connectivity.go. Redis is a map of hashes. History has the status that
--     a history of events gives a device.
--   Backend/Rabbit: service/rabbit.go. run_rabbit_watcher runs over sessions, consume over deliveries.
--   Backend/Devices, Backend/Config: handler/devices.go and config/config.go.
--   Backend/Routes: the routers of cmd/trackeroo-backend/main.go; the lookup of ServeMux is a parameter.
--   Backend/Publisher: handler/mqtt.go and service/mqtt.go. PublishPayload is publish_payload, and one
--     turn of the loop of run is publish_next. Client has the client and the loop along its turns.
--   Backend/Logger: logger/logger.go; a turn of its goroutine is run_one.
--   Tracky: tracky/src/trackeroo. Pq is pq.go, Config config.go, Agent one turn of agent.go, Task task.go, and Watchdog
--     task_manager.go, where check_tasks is one pass of the loop of Start.
--     Driving is driving.go, with float64 as an interface, and Driving/Legs the way that a route asks for; Mqtt is mqtt.go and Jobs jobs.go;
--     Mqtt/Goroutines interleaves the goroutines of the jobs. Routes is
--     routes.go, StatVar the statistics of utils.go; Sensors and Firmware are firmware.go (in tracky/src), whose
--     loop is one_drive for each drive.
--   GenMongoDev: utils/gen_mongo_dev/main.go, which makes devices for development.
--   EndToEnd: from the request of a device to the bridge.
--   Tests: runs on concrete inputs.
--
-- Conventions. A call of a database, a broker or another service takes what that service answers as an
-- argument (Answers, Replies, a flag `up`), so that a statement for all arguments covers every
-- failure. Locked code is one step. What goroutines do is a step relation (Runs, of the jobs) or an
-- argument (Moment, of the connect handler). The Kafka writer of the bridge is asynchronous: the model
-- has what it has taken, and says nothing of what it writes. The loops that publish and watch are modelled by their turns.
-- Texts are lists of bytes, numbers are natural numbers, the uint64 differences of the watchdog are
-- taken modulo 2 ^ 64, and a row id is bounded by the largest rowid of SQLite. Loops on fuel are
-- connect_mqtt, which needs at most 11, one for each attempt, the retry of the publishers, and the
-- draws of the generator, which end with the first name or id that is not used.
-- Third-party code is a parameter: golang-jwt (JwtLib), bcrypt, ObjectIDFromHex, ServeMux, the JSON
-- decoders (Codec, Environment), the geocoding and routing services. A text in the column `data` of a queue is read back as a text.
--
-- Not modelled: the start, the shutdown and the signals of the processes (tracky.go and the main
-- functions of the backend and of the bridge), the logger of the firmware, which only prints, and the
-- banners; the Flink job and the infrastructure, which are not Go.
pub mod Base
pub mod Sqlite
pub mod Backend
pub mod Brokeroo
pub mod Tracky
pub mod EndToEnd
pub mod GenMongoDev
mod Tests
