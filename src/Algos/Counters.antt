-- ===== src/Algos/Counters.antt =====
-- The `HashMap<Vec<u8>, u64>` of the counter sketches (misra_gries.rs, exact.rs), as an association
-- list with one entry for a key. No operation here depends on the order of iteration.
pub mod Laws
use flowsketch.Base.Bytes.{bytes_eq}
use flowsketch.Base.Word.{add64}
use flowsketch.Base.{
  ℕ, ◌+◌, ◌-◌, ◌%◌, ◌^◌, min, List, [], ◌∷◌, Option, none, some, ltb, if◌then◌else◌, Bool,
}

abbrev pub Counters : Type 0
Counters = List (List ℕ × ℕ)

-- `get(key).copied()`
unfoldable pub lookup : List ℕ → Counters → Option ℕ
lookup key [] = none
lookup key ((k, c) ∷ cs) = if bytes_eq k key then some c else lookup key cs

-- `get(key).copied().unwrap_or(0)`
unfoldable pub count : List ℕ → Counters → ℕ
unfolding lookup
count key cs = elim (lookup key cs) [ some c ↦ c | none ↦ 0 ]

-- `insert(key, v)`
unfoldable pub insert : List ℕ → ℕ → Counters → Counters
insert key v [] = (key, v) ∷ []
insert key v ((k, c) ∷ cs) = if bytes_eq k key then (k, v) ∷ cs else (k, c) ∷ insert key v cs

-- `*c += w` through `get_mut(key)`
unfoldable pub bump : List ℕ → ℕ → Counters → Counters
bump key w [] = []
bump key w ((k, c) ∷ cs) = if bytes_eq k key then (k, add64 c w) ∷ cs else (k, c) ∷ bump key w cs

-- `*entry(key).or_insert(0) += w`
unfoldable pub entry_add : List ℕ → ℕ → Counters → Counters
entry_add key w [] = (key, add64 0 w) ∷ []
entry_add key w ((k, c) ∷ cs) =
    if bytes_eq k key then (k, add64 c w) ∷ cs else (k, c) ∷ entry_add key w cs

-- `for (k, &c) in others { *entry(k.clone()).or_insert(0) += c; }`
unfoldable pub absorb : Counters → Counters → Counters
unfolding entry_add
absorb cs [] = cs
absorb cs ((k, c) ∷ others) = absorb (entry_add k c cs) others

-- `values().min()`
unfoldable pub min_value : Counters → Option ℕ
min_value [] = none
min_value ((k, c) ∷ cs) = elim (min_value cs) [ none ↦ some c | some m ↦ some (min c m) ]

-- `retain(|_, c| { *c -= d; *c > 0 })` with `d = min(*c, dec)`
unfoldable pub retain_above : ℕ → Counters → Counters
retain_above dec [] = []
retain_above dec ((k, c) ∷ cs) =
    let d = min c dec in
    if ltb 0 (c - d) then (k, c - d) ∷ retain_above dec cs else retain_above dec cs

-- The sum of all counters.
unfoldable pub sum : Counters → ℕ
sum [] = 0
sum ((k, c) ∷ cs) = c + sum cs
