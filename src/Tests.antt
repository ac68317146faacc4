-- ===== src/Tests.antt =====
-- Concrete runs of the model, and its theorems at concrete inputs.
mod Samples
mod Archives
mod RoundTrips
mod Sending
mod Receiving
mod Messages
mod Operations
mod Texts
mod Trees
mod Handshakes
mod Failovers
mod Shells
