-- ===== src/Runtime/Query/Weights.antt =====
-- The weight and the item of an event, from the measure of the plan, and what `count_in` makes of them.
use flowsketch.Base.{ℕ, ◌≡◌, refl, ap, ◌∙◌, List, []}
use flowsketch.Core.Event.{FlowEvent}
use flowsketch.Core.Field.{extract_value, field_value_into, group_key}
use flowsketch.Ir.Logical.{Measure, counting, sum, heavy_hitters, distinct_count, entropy, quantile}
use flowsketch.Runtime.States.{States}
use flowsketch.Runtime.Query.{Plan, event_weight, event_item, value_field, distinct_field}

-- A sum, heavy hitters and a quantile weigh an event by a field of it; otherwise it counts for one.
abbrev pub weight_of : Measure → FlowEvent → ℕ
weight_of counting event = 1
weight_of (sum value) event = extract_value value event
weight_of (heavy_hitters value limit) event = extract_value value event
weight_of (distinct_count field) event = 1
weight_of (entropy field) event = 1
weight_of (quantile field) event = extract_value field event

-- A distinct count and an entropy are over the text of a field; otherwise there is no item.
abbrev pub item_of : (List ℕ → List ℕ) → Measure → FlowEvent → List ℕ
item_of display_ipv6 counting event = []
item_of display_ipv6 (sum value) event = []
item_of display_ipv6 (heavy_hitters value limit) event = []
item_of display_ipv6 (distinct_count field) event = field_value_into display_ipv6 field event []
item_of display_ipv6 (entropy field) event = field_value_into display_ipv6 field event []
item_of display_ipv6 (quantile field) event = []

module _ (P : States) (display_ipv6 : List ℕ → List ℕ) (event : FlowEvent) where
  -- The state of a bucket after it has read the event once.
  abbrev pub reads_once : Plan → P.State → P.State
  reads_once plan s =
      P.update s (group_key display_ipv6 plan.group_by event) (weight_of plan.measure event)
        (item_of display_ipv6 plan.measure event)

  weight_lem :
      (m : Measure) (plan : Plan)
      → plan.measure ≡ m
      → event_weight P plan display_ipv6 event ≡ weight_of m event
  unfolding event_weight value_field
  weight_lem counting plan e = rw (e, event_weight) refl
  weight_lem (sum value) plan e = rw (e, event_weight) refl
  weight_lem (heavy_hitters value limit) plan e = rw (e, event_weight) refl
  weight_lem (distinct_count field) plan e = rw (e, event_weight) refl
  weight_lem (entropy field) plan e = rw (e, event_weight) refl
  weight_lem (quantile field) plan e = rw (e, event_weight) refl

  item_lem :
      (m : Measure) (plan : Plan)
      → plan.measure ≡ m
      → event_item P plan display_ipv6 event ≡ item_of display_ipv6 m event
  unfolding event_item distinct_field
  item_lem counting plan e = rw (e, event_item) refl
  item_lem (sum value) plan e = rw (e, event_item) refl
  item_lem (heavy_hitters value limit) plan e = rw (e, event_item) refl
  item_lem (distinct_count field) plan e = rw (e, event_item) refl
  item_lem (entropy field) plan e = rw (e, event_item) refl
  item_lem (quantile field) plan e = rw (e, event_item) refl

  pub update-reads_once :
      (plan : Plan)
      → (λ s.
          P.update s
            (group_key display_ipv6 plan.group_by event)
            (event_weight P plan display_ipv6 event)
            (event_item P plan display_ipv6 event))
        ≡ reads_once plan
  update-reads_once plan =
      ap
        (λ w. λ s.
          P.update s (group_key display_ipv6 plan.group_by event) w
            (event_item P plan display_ipv6 event))
        (weight_lem plan.measure plan refl)
      ∙ ap
          (λ i. λ s.
            P.update s (group_key display_ipv6 plan.group_by event) (weight_of plan.measure event)
              i)
          (item_lem plan.measure plan refl)
