-- ===== src/Consumer.antt =====
-- internal/consumer/consumer.go
pub mod Handlers
pub mod Delivery
pub mod Settlement
pub mod Provision
pub mod Loop
pub mod Once
