-- ===== src/Tests.antt =====
-- Runs of the model on concrete inputs, and the results of the library applied there.
pub mod Trimming
pub mod Parameters
mod Util
mod MountPoint
mod Router
mod Response
mod Pool
mod MultiPool
mod Html
mod ActionQueue
mod Mime
mod Session
mod Serving
mod Request
mod FormData
mod FileBody
mod Accepting
mod AnyBody
mod Proxy
mod WebSocket
