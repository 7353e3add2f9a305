-- ===== src/Planner/Keys.antt =====
-- No key that a query stores is longer than the planner reckons.
use flowsketch.Core.Field.{Field}
