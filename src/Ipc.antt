-- ===== src/Ipc.antt =====
-- IPCPipe.hpp and IPCPipe.cpp: the messages between the proxy and its worker processes, their byte
-- format, and the pipes that carry them.
pub mod Bytes
pub mod Params
pub mod Message
pub mod Numeric
pub mod Pipe
