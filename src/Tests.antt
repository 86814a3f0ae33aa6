-- ===== src/Tests.antt =====
-- Runs of the theorems on small concrete machines.
mod Strings
mod Buffers
mod Pipes
mod Tables
mod Regions
mod Frames
mod Pages
mod Logs
mod Processes
mod Forks
mod Disks
mod Traps
