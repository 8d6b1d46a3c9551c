-- ===== src/Examples.antt =====
-- The theorems applied at concrete values, and the values.
mod Cards
mod Logged
mod Replies
mod Serving
mod Setup
mod Profiles
mod Streams
mod Scaling
mod Requests
mod Checks
mod Parsing
mod Recording
mod ToolCalls
mod Loading
mod Watches
mod Threads
