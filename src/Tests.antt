-- ===== src/Tests.antt =====
-- Runs on concrete inputs, and the theorems at inputs that meet their hypotheses.
mod Names
mod Messages
mod Files
mod Threads
mod Interleavings
mod Streams
mod Ramp
mod Senders
mod Pointers
mod Rates
mod Tls
mod Updates
mod Keys
mod Https
