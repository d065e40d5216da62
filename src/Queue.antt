-- ===== src/Queue.antt =====
-- Queues of messages: odpi/src/dpiQueue.c.
mod Buffer
mod Arrays
mod Messages
mod Enqueue
mod Dequeue
mod Received
mod Tests
