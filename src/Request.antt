-- ===== src/Request.antt =====
-- request.c: framing over a socket, and the operations of the client.
pub mod Socket
pub mod Stream
pub mod Reading
pub mod Frame
pub mod Call
pub mod Operations
pub mod Mkdir
pub mod Directories
pub mod Answered
pub mod Results
pub mod Refused
pub mod Ping
pub mod Authenticate
pub mod Passwd
pub mod Keeps
pub mod Kept
pub mod KeptNodes
pub mod Handshake
pub mod Authenticated
pub mod Writing
pub mod Framing
pub mod Reply
pub mod Interrupted
