-- ===== src/Algos/Tests.antt =====
-- Concrete runs of the sketches.
use flowsketch.Base.{
  ℕ, length, ◌%◌, List, ◌+◌, ◌<◌, ◌≤◌, ◌^◌, ◌≡◌, refl, [], ◌∷◌, ◌++◌, ◌||◌, Bool, true, false,
  arith, some,
}
use flowsketch.Core.Error.{ok}
use flowsketch.Core.Hash.{hash_spec}
use flowsketch.Algos.Truth.{Stream, truth, total}
use flowsketch.Algos.CountMin
use flowsketch.Algos.CountMin.{CountMinSketch}
use flowsketch.Algos.CountMin.Estimates.{estimate_bounds}
use flowsketch.Algos.CountMin.Merge.{merge_from-run}
use flowsketch.Algos.CountMin.Modes.{conservative_estimate-le}
use flowsketch.Algos.CountMin.Codec.{to_snapshot, from_snapshot}
use flowsketch.Algos.CountMin.Codec.RoundTrip.{IsStorable, from_snapshot-to_snapshot}
use flowsketch.Algos.CountSketch
use flowsketch.Algos.CountSketch.{CountSketch}
use flowsketch.Algos.CountSketch.Codec as SignedCodec
use flowsketch.Algos.CountSketch.Codec.RoundTrip.{IsSketch, from_snapshot-to_snapshot_signed}
use flowsketch.Algos.CountSketch.Linear.{run as signed_run, update_signed_cancel, merge_from-linear}
use flowsketch.Algos.Exact
use flowsketch.Algos.Exact.{Op, weigh, see}
use flowsketch.Algos.Exact.Truths.{
  weight_of, weight, seen, Reports, run-Reports, merge_from-Reports,
}
use flowsketch.Algos.HyperLogLog
use flowsketch.Algos.HyperLogLog.Codec
use flowsketch.Algos.HyperLogLog.{HyperLogLog}
use flowsketch.Algos.HyperLogLog.Codec.RoundTrip.{from_snapshot-run}
use flowsketch.Algos.HyperLogLog.Union.{run as hll_run, raised, run-raised, merge_from-raised}
use flowsketch.Algos.MisraGries
use flowsketch.Algos.MisraGries.{MisraGries}
use flowsketch.Algos.MisraGries.Guarantee.{Promise, run-Promise}
use flowsketch.Algos.MisraGries.Merge.{merge-Promise}

abbrev stream : Stream
stream = (1 ∷ [], 5) ∷ (2 ∷ 7 ∷ [], 3) ∷ (1 ∷ [], 4) ∷ []

abbrev later : Stream
later = (2 ∷ 7 ∷ [], 6) ∷ (9 ∷ [], 1) ∷ []

stream-fits : total stream < 2 ^ 64
unfolding total
stream-fits = omega arith

abbrev small : Bool → CountMinSketch
small mode = record {
  width = 4;
  depth = 2;
  conservative = mode;
  hash = hash_spec 1;
  table = 0 ∷ 0 ∷ 0 ∷ 0 ∷ 0 ∷ 0 ∷ 0 ∷ 0 ∷ [];
  total_weight = 0;
  updates = 0;
}

small-new : (mode : Bool) → CountMin.new 4 2 mode (hash_spec 1) ≡ ok (small mode)
unfolding CountMin.new
small-new mode = refl

estimate_bounds_example :
    (truth (1 ∷ []) stream ≤ CountMin.estimate_u64 (CountMin.run stream (small true)) (1 ∷ []))
    × (CountMin.estimate_u64 (CountMin.run stream (small true)) (1 ∷ []) ≤ total stream)
    × ((CountMin.run stream (small true)).total_weight ≡ total stream)
estimate_bounds_example =
    estimate_bounds 4 2 true (hash_spec 1) stream (1 ∷ []) (small-new true) stream-fits

merge_from-run_example :
    CountMin.merge_from (CountMin.run stream (small false)) (CountMin.run later (small false))
    ≡ ok (CountMin.run (stream ++ later) (small false))
merge_from-run_example = merge_from-run 4 2 (hash_spec 1) stream later (small-new false)

conservative_estimate-le_example :
    CountMin.estimate_u64 (CountMin.run stream (small true)) (2 ∷ 7 ∷ [])
    ≤ CountMin.estimate_u64 (CountMin.run stream (small false)) (2 ∷ 7 ∷ [])
conservative_estimate-le_example =
    conservative_estimate-le 4 2 (hash_spec 1) stream (2 ∷ 7 ∷ []) (small-new true)
      (small-new false) stream-fits

abbrev stored : CountMinSketch
stored = record {
  width = 2;
  depth = 1;
  conservative = true;
  hash = hash_spec 77;
  table = 5 ∷ 12 ∷ [];
  total_weight = 17;
  updates = 3;
}

stored-IsStorable : IsStorable stored
stored-IsStorable = record {
  wide = omega arith;
  deep = omega arith;
  width_fits = omega arith;
  depth_fits = omega arith;
  shape = refl;
  words = (omega arith, (omega arith, tt));
  weight = omega arith;
  count = omega arith;
  seed = omega arith;
  version = omega arith;
  payload_fits = omega arith;
}

from_snapshot-to_snapshot_example : from_snapshot (to_snapshot stored 10 20) ≡ ok stored
from_snapshot-to_snapshot_example =
    from_snapshot-to_snapshot stored 10 20 stored-IsStorable (omega arith) (omega arith)

abbrev summary : MisraGries
summary = record { capacity = 2; hash = hash_spec 1; counters = []; total_weight = 0; updates = 0 }

summary-new : MisraGries.new 2 (hash_spec 1) ≡ ok summary
unfolding MisraGries.new
summary-new = refl

both-fit : total stream + total later < 2 ^ 64
unfolding total
both-fit = omega arith

run-Promise_example :
    (r : MisraGries) × (MisraGries.run stream summary ≡ some r)
    × (r.capacity ≡ 2)
    × (r.total_weight ≡ total stream)
    × Promise r (λ key. truth key stream) (total stream)
run-Promise_example = run-Promise 2 (hash_spec 1) stream summary-new stream-fits

merge-Promise_example :
    (a : MisraGries) × (b : MisraGries) × (r : MisraGries) × (MisraGries.run stream summary
      ≡ some a)
    × (MisraGries.run later summary ≡ some b)
    × (MisraGries.merge_from a b ≡ ok (some r))
    × (r.capacity ≡ 2)
    × Promise r (λ key. truth key stream + truth key later) (total stream + total later)
merge-Promise_example = merge-Promise 2 (hash_spec 1) stream later summary-new both-fit

abbrev ops : List Op
ops = weigh (1 ∷ []) 5 ∷ see (1 ∷ []) (7 ∷ []) ∷ see (1 ∷ []) (7 ∷ []) ∷ []

abbrev other_ops : List Op
other_ops = see (1 ∷ []) (8 ∷ []) ∷ weigh (1 ∷ []) 2 ∷ []

ops-fit : weight ops < 2 ^ 64
unfolding weight
ops-fit = omega arith

all_ops-fit : weight ops + weight other_ops < 2 ^ 64
unfolding weight
all_ops-fit = omega arith

run-Reports_example :
    Reports
      (Exact.run ops Exact.new)
      (λ key. weight_of key ops)
      (weight ops)
      (λ key item. seen key item ops)
run-Reports_example = run-Reports ops ops-fit

merge_from-Reports_example :
    (r : Exact.ExactCounter) × (Exact.merge_from
        (Exact.run ops Exact.new)
        (Exact.run other_ops Exact.new)
      ≡ ok r)
    × Reports r
        (λ key. weight_of key ops + weight_of key other_ops)
        (weight ops + weight other_ops)
        (λ key item. seen key item ops || seen key item other_ops)
merge_from-Reports_example = merge_from-Reports ops other_ops all_ops-fit

abbrev fresh_hll : HyperLogLog
fresh_hll = record { precision = 4; hash = hash_spec 6; storage = HyperLogLog.empty; updates = 0 }

hll-new : HyperLogLog.new 4 (hash_spec 6) ≡ ok fresh_hll
unfolding HyperLogLog.new
hll-new = refl

abbrev even_keys : List (List ℕ)
even_keys = (0 ∷ []) ∷ (2 ∷ []) ∷ (4 ∷ []) ∷ []

abbrev odd_keys : List (List ℕ)
odd_keys = (1 ∷ []) ∷ (2 ∷ []) ∷ []

run-raised_example :
    (HyperLogLog.dense_registers 4 (hll_run fresh_hll even_keys).storage
      ≡ raised 4 (hash_spec 6) fresh_hll hll-new even_keys)
    × ((hll_run fresh_hll even_keys).updates ≡ length even_keys % 2 ^ 64)
run-raised_example = run-raised 4 (hash_spec 6) fresh_hll hll-new even_keys

merge_from-raised_example :
    (r : HyperLogLog) × (HyperLogLog.merge_from
        (hll_run fresh_hll even_keys)
        (hll_run fresh_hll odd_keys)
      ≡ ok r)
    × (HyperLogLog.dense_registers 4 r.storage
        ≡ HyperLogLog.dense_registers 4 (hll_run fresh_hll (even_keys ++ odd_keys)).storage)
    × (r.updates ≡ (hll_run fresh_hll (even_keys ++ odd_keys)).updates)
merge_from-raised_example = merge_from-raised 4 (hash_spec 6) fresh_hll hll-new even_keys odd_keys

from_snapshot-run_example :
    Codec.from_snapshot (Codec.to_snapshot (hll_run fresh_hll even_keys) 0 1)
    ≡ ok (hll_run fresh_hll even_keys)
from_snapshot-run_example =
    from_snapshot-run 4 (hash_spec 6) fresh_hll even_keys 0 1 hll-new (omega arith) (omega arith)
      (omega arith) (omega arith)

abbrev fresh_signed : CountSketch
fresh_signed = record {
  width = 2;
  depth = 2;
  hash = hash_spec 3;
  table = 0 ∷ 0 ∷ 0 ∷ 0 ∷ [];
  updates = 0;
}

signed-new : CountSketch.new 2 2 (hash_spec 3) ≡ ok fresh_signed
unfolding CountSketch.new
signed-new = refl

update_signed_cancel_example :
    (CountSketch.update_signed
      (CountSketch.update_signed (signed_run fresh_signed stream) (9 ∷ []) 75)
      (9 ∷ [])
      (CountSketch.neg64 75)).table
    ≡ (signed_run fresh_signed stream).table
update_signed_cancel_example =
    update_signed_cancel 2 2 (hash_spec 3) fresh_signed signed-new stream (9 ∷ []) 75 (omega arith)

merge_from-linear_example :
    (r : CountSketch) × (CountSketch.merge_from
        (signed_run fresh_signed stream)
        (signed_run fresh_signed later)
      ≡ ok r)
    × (r.table ≡ (signed_run fresh_signed (stream ++ later)).table)
    × (r.updates ≡ (signed_run fresh_signed (stream ++ later)).updates)
merge_from-linear_example = merge_from-linear 2 2 (hash_spec 3) fresh_signed signed-new stream later

-- A counter below zero.
abbrev negative : CountSketch
negative = record fresh_signed { table = 5 ∷ 18446744073709551541 ∷ 0 ∷ 75 ∷ []; updates = 2 }

negative-IsSketch : IsSketch negative
negative-IsSketch = record {
  wide = omega arith;
  deep = omega arith;
  width_fits = omega arith;
  depth_fits = omega arith;
  shape = refl;
  words = (omega arith, (omega arith, (omega arith, (omega arith, tt))));
  count = omega arith;
  seed = omega arith;
  version = omega arith;
  payload_fits = omega arith;
}

from_snapshot-to_snapshot_signed_example :
    SignedCodec.from_snapshot (SignedCodec.to_snapshot negative 0 1) ≡ ok negative
from_snapshot-to_snapshot_signed_example =
    from_snapshot-to_snapshot_signed negative 0 1 negative-IsSketch (omega arith) (omega arith)
