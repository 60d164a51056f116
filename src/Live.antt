-- ===== src/Live.antt =====
-- Live trading, engine/core/live: the kill switch and the loop that submits orders and consumes
-- broker events.
pub mod KillSwitch
pub mod Loop
