-- ===== src/Util.antt =====
-- The helpers of src/util: statuses, the queue between threads, the logs of chains, nodes, relayers and
-- the transport, the metrics and the terminal; and the number texts of the standard library.
pub mod Error
pub mod Queue
pub mod Decimal
pub mod Json
pub mod DetailedLogger
pub mod Metrics
pub mod Logger
