-- ===== src/Input.antt =====
-- The queues of input events: internal/agentapp/input_queue.go and mobile/core/queue.go.
pub mod Buttons
pub mod Queue
pub mod Delivery
pub mod Hover
pub mod Ring
pub mod Refinement
mod Tests
