-- ===== src/Examples.antt =====
-- Tests: runs of the code at concrete inputs, and the theorems applied to them.
mod Queues
mod Store
mod Cameras
mod Clients
mod Streams
mod Watchers
mod Settings
mod Requests
mod Records
mod Images
mod Calibrations
mod Threads
mod Starts
mod Replies
