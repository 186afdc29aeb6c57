-- ===== src/Payload/Delivery.antt =====
-- A group of packets that arrives in any order, with repetitions, between packets that are already
-- waiting in other caches.
pub mod Caches
pub mod Group
pub mod Order
