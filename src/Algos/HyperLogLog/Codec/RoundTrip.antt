-- ===== src/Algos/HyperLogLog/Codec/RoundTrip.antt =====
-- A stored HyperLogLog sketch loads as it was.
use mathlib.Core.List.{append_assoc, append-nil}
use mathlib.Core.Path.{subst}
use native.Mathlib.Nat.{pow-le-pow_right}
use flowsketch.Base.Bytes.{le_bytes, length-le_bytes}
use flowsketch.Base.{
  ℕ, ◌+◌, ◌-◌, ◌*◌, ◌^◌, ◌≤◌, ◌<◌, ◌≡◌, refl, sym, ◌∙◌, List, [], ◌∷◌, ◌++◌, Option, none, some,
  length, length-append, false, ltb, ◌||◌, arith,
}
use flowsketch.Core.Error.{ok}
use flowsketch.Core.Hash.{HashSpec, hash64}
use flowsketch.Core.Hash.Collisions.{hash64-lt}
use flowsketch.Core.Snapshot.RoundTrip.{IsWritable, read_snapshot-write_snapshot}
use flowsketch.Core.Wire.Laws.{
  Reads, encode_all, bind-Reads, return-Reads, pass-Reads, reshape-Reads, checked-Reads,
  take_n-Reads, u8-Reads, u32-Reads, u64-Reads, run-Reads, run_whole-Reads,
}
use flowsketch.Core.Wire.{put_u8, put_u32, put_u64, put_bytes, u8, u32, u64, take}
use flowsketch.Algos.HyperLogLog.{
  RegisterStorage, empty, singleton, sparse, dense, HyperLogLog, min_precision, max_precision,
  sparse_limit, new, insert, insert_hash,
}
use flowsketch.Algos.HyperLogLog.Sorted.{Rising, AtMost, IsWell, insert_storage-IsWell}
use flowsketch.Algos.HyperLogLog.Union.{run}
use flowsketch.Algos.HyperLogLog.Codec.{
  params, put_hashes, put_storage, payload, header, to_snapshot, not_after, read_hashes, storage_of,
  read_sparse, some_above, read_dense, read_storage, read_payload, read_precision, from_parts,
  from_snapshot,
}

hashes_bytes : List ℕ → List ℕ
hashes_bytes hs = encode_all (le_bytes 8) hs

put_hashes_lem : (hs w : List ℕ) → put_hashes hs w ≡ w ++ hashes_bytes hs
unfolding put_hashes hashes_bytes encode_all put_u64
put_hashes_lem [] w = rw append-nil
put_hashes_lem (h ∷ hs) w =
    put_hashes_lem hs (w ++ le_bytes 8 h) ∙ append_assoc w (le_bytes 8 h) (hashes_bytes hs)

length-hashes_bytes : (hs : List ℕ) → length (hashes_bytes hs) ≡ 8 * length hs
unfolding hashes_bytes encode_all
length-hashes_bytes [] = refl
length-hashes_bytes (h ∷ hs) = omega (
  arith,
  length-append (le_bytes 8 h) (encode_all (le_bytes 8) hs),
  length-le_bytes 8 h,
  length-hashes_bytes hs,
)

-- The hash read last is below what follows.
abbrev Before : Option ℕ → ℕ → Type 0
Before none least = Unit
Before (some previous) least = previous < least

not_after-Before :
    (last : Option ℕ) (least h : ℕ) → Before last least → least ≤ h → not_after last h ≡ false
unfolding not_after
not_after-Before none least h b low = refl
not_after-Before (some previous) least h b low = ground arith

read_hashes-Reads :
    (hs : List ℕ) (last : Option ℕ) (least : ℕ)
    → Before last least
    → Rising least hs
    → Reads (read_hashes (length hs) last) (hashes_bytes hs) hs
unfolding read_hashes hashes_bytes encode_all
read_hashes-Reads [] last least b r = return-Reads []
read_hashes-Reads (h ∷ hs) last least b (low, word, r) =
    bind-Reads u64 _ (le_bytes 8 h) (hashes_bytes hs) h _ (u64-Reads h word) (
      reshape-Reads _ (λ hashes. h ∷ hashes) (hashes_bytes hs) hs
        (pass-Reads (not_after last h) _ _ (hashes_bytes hs) hs
          (not_after-Before last least h b low)
          (read_hashes-Reads hs (some h) (h + 1) (omega arith) r)))

-- The bytes of hashes in order, with their count.
sparse_bytes : List ℕ → List ℕ
sparse_bytes hs = le_bytes 4 (length hs) ++ hashes_bytes hs

read_sparse-Reads :
    (p : ℕ) (hs : List ℕ)
    → Rising 0 hs
    → length hs ≤ sparse_limit p
    → length hs < 2 ^ 32
    → Reads (read_sparse p) (sparse_bytes hs) (storage_of hs)
unfolding read_sparse sparse_bytes
read_sparse-Reads p hs r short small =
    bind-Reads u32 _ (le_bytes 4 (length hs)) (hashes_bytes hs) (length hs) _
      (u32-Reads (length hs) small)
      (reshape-Reads _ storage_of (hashes_bytes hs) hs (
        pass-Reads (ltb (sparse_limit p) (length hs)) _ _ (hashes_bytes hs) hs (ground arith) (
          checked-Reads (length hs) 8 _ (hashes_bytes hs) hs (omega arith)
            (omega (arith, length-hashes_bytes hs)) (read_hashes-Reads hs none 0 tt r))))

AtMost-none_above : (bound : ℕ) (rs : List ℕ) → AtMost bound rs → some_above bound rs ≡ false
unfolding some_above
AtMost-none_above bound [] a = refl
AtMost-none_above bound (r ∷ rs) (h, a) = let rest = AtMost-none_above bound rs a in ground arith

read_dense-Reads :
    (p : ℕ) (rs : List ℕ)
    → length rs ≡ 2 ^ p
    → AtMost (64 - p + 1) rs
    → Reads (read_dense p) (rs ++ []) (dense rs)
unfolding read_dense
read_dense-Reads p rs size a =
    bind-Reads (take (2 ^ p)) _ rs [] rs (dense rs) (take_n-Reads (2 ^ p) rs size) (
      pass-Reads (some_above (64 - p + 1) rs) _ _ [] (dense rs)
        (AtMost-none_above (64 - p + 1) rs a) (return-Reads (dense rs)))

tag : RegisterStorage → ℕ
tag (dense registers) = 1
tag _ = 0

body : RegisterStorage → List ℕ
body empty = sparse_bytes []
body (singleton h) = sparse_bytes (h ∷ [])
body (sparse hs) = sparse_bytes hs
body (dense registers) = registers ++ []

put_storage_lem :
    (s : RegisterStorage) (w : List ℕ) → put_storage s w ≡ w ++ (le_bytes 1 (tag s) ++ body s)
unfolding put_storage put_u8 put_u32 put_u64 put_bytes tag body sparse_bytes hashes_bytes encode_all
put_storage_lem empty w = simp (append_assoc, append-nil)
put_storage_lem (singleton h) w = simp (append_assoc, append-nil)
put_storage_lem (sparse hs) w =
    put_hashes_lem hs ((w ++ le_bytes 1 0) ++ le_bytes 4 (length hs)) ∙ simp (append_assoc)
put_storage_lem (dense registers) w = simp (append_assoc, append-nil)

-- The range of the precision bounds the array and the hashes.
array_short : (p : ℕ) → p ≤ 18 → 2 ^ p ≤ 2 ^ 18
array_short p h = pow-le-pow_right (omega arith) h

limit_short : (p : ℕ) → p ≤ 18 → sparse_limit p < 2 ^ 16
unfolding sparse_limit
limit_short p h = let short = array_short p h in omega arith

storage_of-sparse : (hs : List ℕ) → 2 ≤ length hs → storage_of hs ≡ sparse hs
unfolding storage_of
storage_of-sparse [] h = absurd (omega arith)
storage_of-sparse (a ∷ []) h = absurd (omega arith)
storage_of-sparse (a ∷ (b ∷ hs)) h = refl

limit_some : (p : ℕ) → 1 ≤ sparse_limit p
unfolding sparse_limit
limit_some p = omega arith

read_storage-Reads :
    (p : ℕ) (s : RegisterStorage) → p ≤ 18 → IsWell p s → Reads (read_storage p (tag s)) (body s) s
unfolding read_storage tag body storage_of
read_storage-Reads p empty h w = read_sparse-Reads p [] tt (omega arith) (omega arith)
read_storage-Reads p (singleton a) h w =
    read_sparse-Reads p (a ∷ []) (omega arith, w, tt) (limit_some p) (omega arith)
read_storage-Reads p (sparse hs) h (rising, two, short) =
    rw (← storage_of-sparse hs two)
      (read_sparse-Reads p hs rising short (omega (arith, limit_short p h)))
read_storage-Reads p (dense rs) h (size, a) = read_dense-Reads p rs size a

-- The sketch fits the format.
pub record IsStorable (s : HyperLogLog) : Type 0 where
  pub low : 4 ≤ s.precision
  pub high : s.precision ≤ 18
  pub seed : s.hash.seed < 2 ^ 64
  pub version : s.hash.version < 2 ^ 16
  pub count : s.updates < 2 ^ 64
  pub well : IsWell s.precision s.storage

tag_small : (s : RegisterStorage) → tag s < 256
unfolding tag
tag_small empty = omega arith
tag_small (singleton h) = omega arith
tag_small (sparse hs) = omega arith
tag_small (dense rs) = omega arith

payload_lem :
    (s : HyperLogLog)
    → payload s ≡ le_bytes 8 s.updates ++ (le_bytes 1 (tag s.storage) ++ body s.storage)
unfolding payload put_u64
payload_lem s = put_storage_lem s.storage (le_bytes 8 s.updates)

read_payload-Reads :
    (s : HyperLogLog)
    → IsStorable s
    → Reads
        (read_payload s.precision)
        (le_bytes 8 s.updates ++ (le_bytes 1 (tag s.storage) ++ body s.storage))
        (s.updates, s.storage)
unfolding read_payload
read_payload-Reads s w =
    bind-Reads u64 _ (le_bytes 8 s.updates) _ s.updates _ (u64-Reads s.updates w.count) (
      bind-Reads u8 _ (le_bytes 1 (tag s.storage)) (body s.storage) (tag s.storage) _
        (u8-Reads (tag s.storage) (tag_small s.storage))
        (reshape-Reads (read_storage s.precision (tag s.storage)) (λ storage. (s.updates, storage))
          (body s.storage) s.storage (read_storage-Reads s.precision s.storage w.high w.well)))

read_precision-ok : (s : HyperLogLog) → IsStorable s → read_precision (params s) ≡ ok s.precision
unfolding read_precision params put_u8
read_precision-ok s w =
    let read =
      run-Reads u8 (le_bytes 1 s.precision) s.precision
        (u8-Reads s.precision (omega (arith, w.high))) in
    let range : (ltb s.precision min_precision || ltb max_precision s.precision) ≡ false =
      ground (arith, w.low, w.high) in
    rw (read, range) refl

length-sparse_bytes : (hs : List ℕ) → length (sparse_bytes hs) ≡ 4 + 8 * length hs
unfolding sparse_bytes
length-sparse_bytes hs = omega (
  arith,
  length-append (le_bytes 4 (length hs)) (hashes_bytes hs),
  length-le_bytes 4 (length hs),
  length-hashes_bytes hs,
)

length-body : (p : ℕ) (s : RegisterStorage) → p ≤ 18 → IsWell p s → length (body s) < 2 ^ 20
unfolding body
length-body p empty h w = omega (arith, length-sparse_bytes [])
length-body p (singleton a) h w = omega (arith, length-sparse_bytes (a ∷ []))
length-body p (sparse hs) h (rising, two, short) =
    omega (arith, length-sparse_bytes hs, limit_short p h, short)
length-body p (dense rs) h (size, a) = omega (arith, length-append rs [], size, array_short p h)

writable :
    (s : HyperLogLog) (start end : ℕ)
    → IsStorable s
    → start < 2 ^ 64
    → end < 2 ^ 64
    → IsWritable (header s start end) (params s) (payload s)
unfolding header params put_u8
writable s start end w hs he =
    let size = length-body s.precision s.storage w.high w.well in
    let tagged =
      length-append (le_bytes 8 s.updates) (le_bytes 1 (tag s.storage) ++ body s.storage) in
    record {
      current = refl;
      algorithm = omega arith;
      seed = w.seed;
      hash = w.version;
      start = hs;
      end = he;
      params_fit = omega (arith, length-le_bytes 1 s.precision);
      payload_fit = rw (payload_lem s) (
          omega (
            arith,
            tagged,
            length-append (le_bytes 1 (tag s.storage)) (body s.storage),
            length-le_bytes 8 s.updates,
            length-le_bytes 1 (tag s.storage),
            size,
          ));
    }

-- A sketch that fits the format loads from its snapshot as it was stored.
from_snapshot-stored :
    (s : HyperLogLog) (start end : ℕ)
    → IsStorable s
    → start < 2 ^ 64
    → end < 2 ^ 64
    → from_snapshot (to_snapshot s start end) ≡ ok s
unfolding from_snapshot to_snapshot from_parts header
from_snapshot-stored s start end w hs he =
    rw
      (
        read_snapshot-write_snapshot (header s start end) (params s) (payload s)
            (writable s start end w hs he),
        read_precision-ok s w,
        payload_lem s,
        run_whole-Reads "trailing bytes in hll snapshot payload" (read_payload s.precision) _ _
            (read_payload-Reads s w),
      )
      refl

insert-IsStorable : (s : HyperLogLog) (key : List ℕ) → IsStorable s → IsStorable (insert s key)
unfolding insert insert_hash
insert-IsStorable s key w = record {
  low = w.low;
  high = w.high;
  seed = w.seed;
  version = w.version;
  count = omega arith;
  well =
      insert_storage-IsWell s.precision s.storage (hash64 key s.hash.seed) w.well
        (hash64-lt key s.hash.seed);
}

run-IsStorable : (s : HyperLogLog) (keys : List (List ℕ)) → IsStorable s → IsStorable (run s keys)
run-IsStorable s [] w = w
run-IsStorable s (key ∷ keys) w = run-IsStorable (insert s key) keys (insert-IsStorable s key w)

new-IsStorable :
    (precision : ℕ) (hash : HashSpec) (s : HyperLogLog)
    → new precision hash ≡ ok s
    → hash.seed < 2 ^ 64
    → hash.version < 2 ^ 16
    → IsStorable s
unfolding new
new-IsStorable precision hash s made seed version =
    let storage : s.storage ≡ empty = ground arith in
    record {
      low = ground arith;
      high = ground arith;
      seed = ground arith;
      version = ground arith;
      count = ground arith;
      well = subst (IsWell s.precision) (sym storage) tt;
    }

-- A new sketch whose hash fits the format loads from a snapshot exactly as it was, whatever stream of keys it
-- has read: its hashes stay strictly sorted and within their limit, and its registers within their maximum,
-- which loading checks.
pub from_snapshot-run :
    (precision : ℕ) (hash : HashSpec) (s : HyperLogLog) (keys : List (List ℕ)) (start end : ℕ)
    → new precision hash ≡ ok s
    → hash.seed < 2 ^ 64
    → hash.version < 2 ^ 16
    → start < 2 ^ 64
    → end < 2 ^ 64
    → from_snapshot (to_snapshot (run s keys) start end) ≡ ok (run s keys)
from_snapshot-run precision hash s keys start end made seed version hs he =
    from_snapshot-stored (run s keys) start end
      (run-IsStorable s keys (new-IsStorable precision hash s made seed version)) hs he
