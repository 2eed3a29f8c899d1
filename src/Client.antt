-- ===== src/Client.antt =====
-- client/src: the connection, the local database and the services above them.
pub mod TcpClient
pub mod Connection
pub mod IoThread
pub mod Requests
pub mod Chunks
pub mod Answers
pub mod Db
pub mod App
pub mod AuthService
pub mod ContactService
pub mod ChatService
pub mod EventLoop
pub mod Told
pub mod Config
pub mod Ui
pub mod Start
pub mod Process
pub mod Home
pub mod Runs
pub mod Restart
pub mod Profiles
pub mod Session
pub mod Outbox
pub mod Inbox
pub mod Resync
pub mod Lost
mod Suite
