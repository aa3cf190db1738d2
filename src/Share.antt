-- ===== src/Share.antt =====
-- core/engine/fileshare: files shared over SFTP.
pub mod Mode
pub mod Names
pub mod Request
pub mod Backend
pub mod Handlers
pub mod Access
pub mod Os
pub mod Folder
pub mod Unique
pub mod Picked
pub mod Counting
pub mod Paging
pub mod Server
pub mod Conns
pub mod Client
