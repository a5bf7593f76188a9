-- ===== src/Queue.antt =====
-- The package queue: the SQS provider, jobs, the message handler, pollers and the processor.
pub mod Token
pub mod Sqs
pub mod Expiry
pub mod Message
pub mod Job
pub mod Poller
pub mod Processor
pub mod Credentials
pub mod Lifecycle
pub mod Delivery
pub mod Samples
mod Tests
