-- ===== src/EventLoop.antt =====
-- overhead/eventloop: the event loop and its queue.
pub mod Queue
pub mod Guarded
pub mod Loop
