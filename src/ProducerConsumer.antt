-- ===== src/ProducerConsumer.antt =====
-- producer_consumer/ and parallel_tcpip/: threads that share a buffer.
pub mod Threads
pub mod Buffer
pub mod Queue
pub mod Average
