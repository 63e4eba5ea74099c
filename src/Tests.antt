-- ===== src/Tests.antt =====
-- The theorems at concrete inputs, and runs of the code.
mod Machine
mod Driver
mod Parts
mod Processes
mod Library
mod Update
mod Hello
mod Headers
mod Session
mod Letters
mod Family
mod Start
mod Text
mod Safe
mod Simulator
mod Turns
mod Updated
mod Traffic
