-- ===== src/Tests.antt =====
-- The theorems at concrete inputs, by the part of the program they are about.
mod Access
mod Redis
mod Transport
mod Requests
mod Texts
mod Changes
mod Reads
mod Controller
mod Controls
mod Tables
mod Bodies
mod Names
mod Writes
mod RowActions
mod Inline
