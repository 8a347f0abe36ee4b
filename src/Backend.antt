-- ===== src/Backend.antt =====
-- trackeroo-backend/src/internal: the management and authentication API.
pub mod Pq
pub mod Http
pub mod Router
pub mod Model
pub mod Cache
pub mod Token
pub mod Db
pub mod Server
pub mod Middleware
pub mod MqttAuth
pub mod Login
pub mod Users
pub mod Publisher
pub mod Connectivity
pub mod Rabbit
pub mod Config
pub mod Logger
pub mod Devices
pub mod Routes
