-- ===== src/Proxy.antt =====
-- pkg/proxy: the HTTP proxy, its response writer and the autoscaler, and pkg/models over it.
pub mod Json
pub mod Config
pub mod Writer
pub mod Scaler
pub mod Concurrent
pub mod ToolCalls
pub mod Loading
pub mod Handler
pub mod Server
pub mod Body
pub mod Replies
pub mod Background
pub mod Watch
pub mod Models
