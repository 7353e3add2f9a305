-- ===== src/Core/Snapshot/RoundTrip.antt =====
-- What `write_snapshot` writes `read_snapshot` reads back.
use flowsketch.Base.Bytes.{
  le_bytes, from_le-le_bytes, length-le_bytes, take-append_length, drop-append_length,
}
use flowsketch.Base.{
  ℕ, ◌-◌, ◌^◌, ◌<◌, ◌≡◌, refl, List, [], ◌++◌, length, length-append, arith, false, ltb, ◌≤◌,
  if◌then◌else◌, ==_refl, ◌==◌, not, ◌∙◌, ap,
}
use mathlib.Core.List.{append_assoc, append-nil}
use flowsketch.Core.Error.{ok, err, snapshot}
use flowsketch.Core.Hash.Collisions.{hash64-lt}
use flowsketch.Core.Hash.{HashFamily, fsk1, hash64}
use flowsketch.Core.Wire.Laws.{
  Reads, bind-Reads, return-Reads, pass-Reads, take-Reads, take_n-Reads, run-Reads, u8-Reads,
  u16-Reads, u32-Reads, u64-Reads,
}
use flowsketch.Core.Wire.{run, put_u8, put_u16, put_u32, put_u64, put_bytes}
use flowsketch.Core.Snapshot.{
  SnapshotHeader, snapshot_version, magic, write_body, write_snapshot, read_words, read_body,
  read_snapshot, family_id,
}

-- The fields fit the words that they are written to, and the version is the current one.
pub record IsWritable (h : SnapshotHeader) (params payload : List ℕ) : Type 0 where
  pub current : h.version ≡ snapshot_version
  pub algorithm : h.algorithm_id < 2 ^ 16
  pub seed : h.hash.seed < 2 ^ 64
  pub hash : h.hash.version < 2 ^ 16
  pub start : h.window_start_nanos < 2 ^ 64
  pub end : h.window_end_nanos < 2 ^ 64
  pub params_fit : length params < 2 ^ 32
  pub payload_fit : length payload < 2 ^ 32

same_family : (f : HashFamily) → fsk1 ≡ f
same_family fsk1 = refl

-- The bytes after the family.
words : SnapshotHeader → List ℕ → List ℕ → List ℕ
words h params payload =
    le_bytes 8 h.hash.seed
    ++ (le_bytes 2 h.hash.version
        ++ (le_bytes 8 h.window_start_nanos
            ++ (le_bytes 8 h.window_end_nanos
                ++ (le_bytes 4 (length params)
                    ++ (params ++ (le_bytes 4 (length payload) ++ (payload ++ [])))))))

-- The bytes of the body, field by field.
fields : SnapshotHeader → List ℕ → List ℕ → List ℕ
unfolding words
fields h params payload =
    magic
    ++ (le_bytes 2 h.version
        ++ (le_bytes 2 h.algorithm_id ++ (le_bytes 1 0 ++ words h params payload)))

family_id-zero : (f : HashFamily) → family_id f ≡ 0
unfolding family_id
family_id-zero fsk1 = refl

write_body-fields :
    (h : SnapshotHeader) (params payload : List ℕ)
    → write_body h params payload ≡ fields h params payload
unfolding write_body fields put_u8 put_u16 put_u32 put_u64 put_bytes
write_body-fields h params payload = simp (append_assoc, append-nil, family_id-zero)

-- The header as the reader rebuilds it.
rebuilt : SnapshotHeader → SnapshotHeader
rebuilt h = record h {
  hash = record { family = fsk1; seed = h.hash.seed; version = h.hash.version };
}

rebuilt_lem : (h : SnapshotHeader) → rebuilt h ≡ h
unfolding rebuilt
rebuilt_lem h = λ i. record h { hash = record (h.hash) { family = same_family h.hash.family i } }

-- The fields after the family.
words-Reads :
    (h : SnapshotHeader) (params payload : List ℕ)
    → IsWritable h params payload
    → Reads
        (read_words h.version h.algorithm_id)
        (words h params payload)
        (rebuilt h, params, payload)
unfolding read_words words rebuilt
words-Reads h params payload w =
    bind-Reads _ _ (le_bytes 8 h.hash.seed) _ h.hash.seed _ (u64-Reads h.hash.seed w.seed) (
      bind-Reads _ _ (le_bytes 2 h.hash.version) _ h.hash.version _
        (u16-Reads h.hash.version w.hash)
        (bind-Reads _ _ (le_bytes 8 h.window_start_nanos) _ h.window_start_nanos _
          (u64-Reads h.window_start_nanos w.start)
          (bind-Reads _ _ (le_bytes 8 h.window_end_nanos) _ h.window_end_nanos _
            (u64-Reads h.window_end_nanos w.end)
            (bind-Reads _ _ (le_bytes 4 (length params)) _ (length params) _
              (u32-Reads (length params) w.params_fit)
              (bind-Reads _ _ params _ params _ (take-Reads params) (
                bind-Reads _ _ (le_bytes 4 (length payload)) _ (length payload) _
                  (u32-Reads (length payload) w.payload_fit)
                  (bind-Reads _ _ payload [] payload _ (take-Reads payload) (return-Reads _))))))))

read_body-Reads :
    (h : SnapshotHeader) (params payload : List ℕ)
    → IsWritable h params payload
    → Reads read_body (fields h params payload) (rebuilt h, params, payload)
unfolding read_body fields rebuilt
read_body-Reads h params payload w = bind-Reads _ _ magic _ magic _ (take_n-Reads 4 magic refl) (
    bind-Reads _ _ (le_bytes 2 h.version) _ h.version _ (u16-Reads h.version fits) (
      pass-Reads (not (h.version == snapshot_version)) "unsupported snapshot version" _ _ _
        (rw w.current)
        (bind-Reads _ _ (le_bytes 2 h.algorithm_id) _ h.algorithm_id _
          (u16-Reads h.algorithm_id w.algorithm)
          (bind-Reads _ _ (le_bytes 1 0) _ 0 _ (u8-Reads 0 (omega arith))
            (words-Reads h params payload w)))))
  where
    fits : h.version < 2 ^ 16
    fits = omega (arith, w.current)

-- The split into the body and the eight bytes of the checksum.
body_length : (body tail : List ℕ) → length tail ≡ 8 → length (body ++ tail) - 8 ≡ length body
body_length body tail e = omega (arith, length-append body tail)

-- What the reader does with any body that is long enough, under a checksum of its own.
pub read_snapshot-sum :
    (body : List ℕ) (sum : ℕ)
    → 43 ≤ length body
    → sum < 2 ^ 64
    → read_snapshot (body ++ le_bytes 8 sum) ≡ (
        if not (hash64 body 0 == sum)
        then err (snapshot "checksum mismatch")
        else run read_body body)
unfolding read_snapshot
read_snapshot-sum body sum long fits =
    let eight : length (le_bytes 8 sum) ≡ 8 = length-le_bytes 8 sum in
    let enough : ltb (length (body ++ le_bytes 8 sum)) 51 ≡ false =
      ground (arith, length-append body (le_bytes 8 sum)) in
    rw (
      enough,
      body_length body (le_bytes 8 sum) eight,
      take-append_length body (le_bytes 8 sum),
      drop-append_length body (le_bytes 8 sum),
      from_le-le_bytes 8 sum fits,
    )

fields-long : (h : SnapshotHeader) (params payload : List ℕ) → 43 ≤ length (fields h params payload)
unfolding fields words
fields-long h params payload = simp (length-append, length-le_bytes) (omega arith)

run_body :
    (h : SnapshotHeader) (params payload : List ℕ)
    → IsWritable h params payload
    → run read_body (write_body h params payload) ≡ ok (h, params, payload)
run_body h params payload w = rw (write_body-fields h params payload) (
    run-Reads read_body (fields h params payload) (rebuilt h, params, payload)
      (read_body-Reads h params payload w)
    ∙ ap (λ g. ok (g, params, payload)) (rebuilt_lem h))

-- A snapshot reads back as the header, the parameters and the payload that were written, if every
-- field fits its word and the version is the current one.
pub read_snapshot-write_snapshot :
    (h : SnapshotHeader) (params payload : List ℕ)
    → IsWritable h params payload
    → read_snapshot (write_snapshot h params payload) ≡ ok (h, params, payload)
unfolding write_snapshot put_u64
read_snapshot-write_snapshot h params payload w =
    let body = write_body h params payload in
    let long : 43 ≤ length body =
      rw (write_body-fields h params payload) (fields-long h params payload) in
    read_snapshot-sum body (hash64 body 0) long (hash64-lt body 0)
    ∙ rw (==_refl (hash64 body 0)) (run_body h params payload w)
