-- ===== src/Observer/Tables.antt =====
-- src/observability_client.cpp: what the constructor hands to the native library, an entry of one of
-- the six tables for each parameter of `observability_client_create`.
use statsig_cpp_core.Prelude.{ℕ}

-- `kInitTable[s]`, `kIncrementTable[s]`, `kGaugeTable[s]`, `kDistTable[s]`, `kErrorTable[s]` and
-- `kShouldEnableTable[s]`
pub data TableEntry : Type 0 where
  init_entry increment_entry gauge_entry dist_entry error_entry should_enable_entry : ℕ → TableEntry

-- The parameters.
pub record Functions : Type 0 where
  pub init : TableEntry
  pub increment : TableEntry
  pub gauge : TableEntry
  pub dist : TableEntry
  pub error : TableEntry
  pub should_enable : TableEntry

-- The arguments for slot `s`.
abbrev pub functions : ℕ → Functions
functions s = record {
  init = init_entry s;
  increment = increment_entry s;
  gauge = gauge_entry s;
  dist = dist_entry s;
  error = error_entry s;
  should_enable = should_enable_entry s;
}

abbrev pub index : TableEntry → ℕ
index (init_entry s) = s
index (increment_entry s) = s
index (gauge_entry s) = s
index (dist_entry s) = s
index (error_entry s) = s
index (should_enable_entry s) = s
