-- ===== src/Storage/Tables.antt =====
-- src/persistent_storage.cpp: what the constructor hands to the native library, an entry of one of
-- the three tables for each parameter of `persistent_storage_create`.
use statsig_cpp_core.Prelude.{ℕ, ◌≡◌, ap, some, some-injective}

-- `kLoadTable[s]`, `kSaveTable[s]` and `kDeleteTable[s]`
pub data TableEntry : Type 0 where
  load_entry save_entry delete_entry : ℕ → TableEntry

-- The parameters.
pub record Functions : Type 0 where
  pub load : TableEntry
  pub save : TableEntry
  pub delete_value : TableEntry

-- The arguments for slot `s`.
abbrev pub functions : ℕ → Functions
functions s = record { load = load_entry s; save = save_entry s; delete_value = delete_entry s }

abbrev pub index : TableEntry → ℕ
index (load_entry s) = s
index (save_entry s) = s
index (delete_entry s) = s

pub functions-injective : (s t : ℕ) → some (functions s) ≡ some (functions t) → s ≡ t
functions-injective s t e =
    ap (λ (f : Functions). index f.load) (some-injective (functions s) (functions t) e)
