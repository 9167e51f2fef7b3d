-- ===== src/Tests.antt =====
-- Concrete runs: a witness for each theorem that has hypotheses.
mod Ring
mod Worker
mod Proxy
mod Settings
mod Antenna
mod Registration
mod Interleaving
mod Ipc
mod SampleRate
mod Gain
mod ApiLock
mod Streaming
mod Events
mod Selection
mod Lifecycle
mod Health
