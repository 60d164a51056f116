-- ===== src/Oms.antt =====
-- The order management system, engine/core/oms: vocabulary and transitions (States), broker facts
-- (Events), the order and its state machine (Order), the pre-flight checks (Risk) and the row that
-- the database gets (Persistence).
pub mod States
pub mod Events
pub mod Order
pub mod Risk
pub mod Persistence
