-- ===== src/Tests.antt =====
-- The theorems at concrete inputs, and runs of the definitions.
mod Sample
mod Packets
mod Blocks
mod Roots
mod Tables
mod Files
mod Peers
mod Announcements
mod Queue
mod Reports
mod Downloads
mod Threads
mod Connections
