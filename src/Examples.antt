-- ===== src/Examples.antt =====
-- Concrete runs: each theorem of the header's list at one input of the code it is about.
mod Tunnel
mod Relay
mod Directory
mod Servers
mod Tables
mod Formats
mod Client
