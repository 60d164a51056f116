-- ===== src/Examples.antt =====
-- Concrete data on which the theorems are tried: orders, switches, loops, gates, strategies,
-- trades, signals, connections and managers of orders. Each child has those of one part.
pub mod Orders
pub mod Averages
pub mod Switches
pub mod Loops
pub mod Limits
pub mod Strategies
pub mod Taxes
pub mod Versions
pub mod Buckets
pub mod Sockets
pub mod Desks
pub mod Votes
pub mod Reports
pub mod Holdings
