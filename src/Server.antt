-- ===== src/Server.antt =====
-- src/server.cpp, src/server/ServerConfig.h and src/server/SessionTracker.h: the settings, the start, the
-- endpoints, the accept loop, the shutdown, and the running server with its sessions.
pub mod DotEnv
pub mod Numbers
pub mod Config
pub mod Args
pub mod Http
pub mod Accept
pub mod Start
pub mod World
pub mod Join
pub mod Main
pub mod Tracker
mod Tests
