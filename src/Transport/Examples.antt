-- ===== src/Transport/Examples.antt =====
-- The theorems of the transport at concrete inputs.
mod Sessions
mod Codecs
mod Protection
mod Departure
mod Wires
mod Handshakes
mod Connections
