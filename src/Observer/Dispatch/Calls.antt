-- ===== src/Observer/Dispatch/Calls.antt =====
-- What the metric callbacks are called with.
use statsig_cpp_core.Slots
