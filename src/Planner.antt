-- ===== src/Planner.antt =====
-- The bound of the planner on the bytes of a stored key, from the fields that the key is made of.
pub mod Keys
use flowsketch.Base.{ℕ, ◌+◌, ◌-◌, List, [], ◌∷◌, length}
use flowsketch.Core.Field.{Field, max_encoded_len}
use flowsketch.Ir.Logical.{Measure, counting, sum, heavy_hitters, distinct_count, entropy, quantile}

-- The `match` of `maximum_stored_key_bytes`: the fields of the keys that a query stores.
unfoldable pub stored_fields : Measure → List Field → List Field
stored_fields (entropy field) group_by = field ∷ []
stored_fields (quantile field) group_by = []
stored_fields (distinct_count field) group_by = group_by
stored_fields counting group_by = group_by
stored_fields (sum value) group_by = group_by
stored_fields (heavy_hitters value limit) group_by = group_by

-- `fields.iter().map(|field| field.max_encoded_len()).sum()`
unfoldable pub sum_encoded : List Field → ℕ
sum_encoded [] = 0
sum_encoded (f ∷ fs) = max_encoded_len f + sum_encoded fs

-- The sum of a list of fields in memory does not reach 2^64, where `saturating_add` would stop.
unfoldable pub maximum_stored_key_bytes : Measure → List Field → ℕ
maximum_stored_key_bytes measure group_by =
    let fields = stored_fields measure group_by in sum_encoded fields + (length fields - 1)
