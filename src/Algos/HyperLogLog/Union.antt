-- ===== src/Algos/HyperLogLog/Union.antt =====
-- A sketch of a stream against the registers that its keys raise, and the merge against one sketch of both streams.
use flowsketch.Base.Word.{add64}
use flowsketch.Base.{
  ℕ, ◌%◌, ◌^◌, ◌<◌, ◌≡◌, refl, sym, ap, ◌∙◌, List, [], ◌∷◌, ◌++◌, length, length-append,
  length-replicate, map, replicate, arith,
}
use flowsketch.Core.Error.{ok}
use flowsketch.Core.Hash.{HashSpec, hash64}
use flowsketch.Core.Sketch.{ensure_matches_refl}
use flowsketch.Algos.HyperLogLog.{
  RegisterStorage, empty, singleton, sparse, dense, HyperLogLog, new, insert_hash, insert,
  update_registers, dense_registers, max_registers, merge_storage, params_hash, compatibility,
  merge_from,
}
use flowsketch.Algos.HyperLogLog.Registers.{
  length-update_registers, update_registers-append, insert_storage-registers,
  insert_hashes-registers, max_registers-update_registers, max_registers-zeros,
}

map-append : (f : List ℕ → ℕ) (xs ys : List (List ℕ)) → map f (xs ++ ys) ≡ map f xs ++ map f ys
map-append f [] ys = refl
map-append f (x ∷ xs) ys = ap (λ zs. f x ∷ zs) (map-append f xs ys)

-- A sketch after a stream of keys, oldest first.
abbrev pub run : HyperLogLog → List (List ℕ) → HyperLogLog
run s [] = s
run s (key ∷ keys) = run (insert s key) keys

abbrev pub registers : HyperLogLog → List ℕ
registers s = dense_registers s.precision s.storage

-- What keeps still while keys are read.
record SameShape (s t : HyperLogLog) : Type 0 where
  precision : s.precision ≡ t.precision
  hash : s.hash ≡ t.hash

run-SameShape : (s : HyperLogLog) (keys : List (List ℕ)) → SameShape (run s keys) s
unfolding insert insert_hash
run-SameShape s [] = record { precision = refl; hash = refl }
run-SameShape s (key ∷ keys) =
    let later = run-SameShape (insert s key) keys in
    record { precision = later.precision; hash = later.hash }

abbrev pub hash_with : HashSpec → List ℕ → ℕ
hash_with spec key = hash64 key spec.seed

run-registers_from :
    (s : HyperLogLog) (keys : List (List ℕ))
    → dense_registers s.precision (run s keys).storage
      ≡ update_registers (registers s) s.precision (map (hash_with s.hash) keys)
unfolding insert insert_hash update_registers
run-registers_from s [] = refl
run-registers_from s (key ∷ keys) =
    run-registers_from (insert s key) keys
    ∙ ap (λ t. update_registers t s.precision (map (hash_with s.hash) keys))
        (insert_storage-registers s.precision s.storage (hash64 key s.hash.seed))

run-updates :
    (s : HyperLogLog) (keys : List (List ℕ))
    → s.updates < 2 ^ 64
    → (run s keys).updates ≡ add64 s.updates (length keys)
unfolding insert insert_hash
run-updates s [] h = omega arith
run-updates s (key ∷ keys) h = omega (arith, run-updates (insert s key) keys (omega arith))

record IsFresh (precision : ℕ) (hash : HashSpec) (s : HyperLogLog) : Type 0 where
  precision_of : s.precision ≡ precision
  hash_of : s.hash ≡ hash
  storage_of : s.storage ≡ empty
  updates_of : s.updates ≡ 0

new-IsFresh :
    (precision : ℕ) (hash : HashSpec) (s : HyperLogLog)
    → new precision hash ≡ ok s
    → IsFresh precision hash s
unfolding new
new-IsFresh precision hash s made = record {
  precision_of = ground arith;
  hash_of = ground arith;
  storage_of = ground arith;
  updates_of = ground arith;
}

max_zeros : (n : ℕ) (r : List ℕ) → length r ≡ n → max_registers r (replicate n 0) ≡ r
max_zeros n r e = rw (← e) (max_registers-zeros r)

-- The maximum with the registers of some hashes.
max_registers-hashes :
    (p : ℕ) (r hs : List ℕ)
    → length r ≡ 2 ^ p
    → max_registers r (update_registers (replicate (2 ^ p) 0) p hs) ≡ update_registers r p hs
max_registers-hashes p r hs size =
    max_registers-update_registers p r (replicate (2 ^ p) 0) hs
      (size ∙ sym (length-replicate (2 ^ p) 0))
    ∙ ap (λ t. update_registers t p hs) (max_zeros (2 ^ p) r size)

merge_storage-registers :
    (p : ℕ) (mine theirs : RegisterStorage)
    → length (dense_registers p mine) ≡ 2 ^ p
    → dense_registers p (merge_storage p mine theirs)
      ≡ max_registers (dense_registers p mine) (dense_registers p theirs)
unfolding merge_storage dense_registers update_registers
merge_storage-registers p mine empty size = sym (max_zeros (2 ^ p) (dense_registers p mine) size)
merge_storage-registers p mine (singleton h) size =
    insert_storage-registers p mine h
    ∙ sym (max_registers-hashes p (dense_registers p mine) (h ∷ []) size)
merge_storage-registers p mine (sparse hs) size =
    insert_hashes-registers p mine hs
    ∙ sym (max_registers-hashes p (dense_registers p mine) hs size)
merge_storage-registers p mine (dense theirs) size = refl

module _ (precision : ℕ) (hash : HashSpec) (s : HyperLogLog)
    (made : new precision hash ≡ ok s) where
  -- The registers that the keys of a stream raise, on the array of `2 ^ precision` zeros.
  abbrev pub raised : List (List ℕ) → List ℕ
  raised keys = update_registers (replicate (2 ^ precision) 0) precision (map (hash_with hash) keys)

  -- Whatever storage a new sketch has moved to, one hash, sorted hashes or an array, a stream of keys leaves
  -- it with exactly the registers that the keys raise one after the other in an array of zeros, and with the
  -- number of keys as its updates, modulo 2^64.
  pub run-raised :
      (keys : List (List ℕ))
      → (dense_registers precision (run s keys).storage ≡ raised keys)
        × ((run s keys).updates ≡ length keys % 2 ^ 64)
  unfolding dense_registers
  run-raised keys =
      let fresh = new-IsFresh precision hash s made in
      (
        ap (λ p. dense_registers p (run s keys).storage) (sym fresh.precision_of)
            ∙ run-registers_from s keys
            ∙ rw (fresh.storage_of, fresh.precision_of, fresh.hash_of, dense_registers) refl,
        run-updates s keys (omega (arith, fresh.updates_of)) ∙ omega (arith, fresh.updates_of),
      )

  length-raised : (keys : List (List ℕ)) → length (raised keys) ≡ 2 ^ precision
  length-raised keys =
      length-update_registers precision (replicate (2 ^ precision) 0) (map (hash_with hash) keys)
      ∙ length-replicate (2 ^ precision) 0

  raised-append :
      (xs ys : List (List ℕ)) → max_registers (raised xs) (raised ys) ≡ raised (xs ++ ys)
  raised-append xs ys =
      max_registers-hashes precision (raised xs) (map (hash_with hash) ys) (length-raised xs)
      ∙ sym (
          update_registers-append precision (replicate (2 ^ precision) 0) (map (hash_with hash) xs)
            (map (hash_with hash) ys))
      ∙ ap (update_registers (replicate (2 ^ precision) 0) precision)
          (sym (map-append (hash_with hash) xs ys))

  run_compatible : (xs ys : List (List ℕ)) → compatibility (run s xs) ≡ compatibility (run s ys)
  unfolding compatibility params_hash
  run_compatible xs ys =
      let x = run-SameShape s xs in
      let y = run-SameShape s ys in rw (x.precision, x.hash, y.precision, y.hash) refl

  -- Two sketches of two streams, made alike, merge into one with the registers and the number of updates of a
  -- sketch that has read both streams.
  pub merge_from-raised :
      (xs ys : List (List ℕ))
      → (r : HyperLogLog) × (merge_from (run s xs) (run s ys) ≡ ok r)
        × (dense_registers precision r.storage
            ≡ dense_registers precision (run s (xs ++ ys)).storage)
        × (r.updates ≡ (run s (xs ++ ys)).updates)
  unfolding merge_from
  merge_from-raised xs ys =
      let fresh = new-IsFresh precision hash s made in
      let p : (run s xs).precision ≡ precision =
        (run-SameShape s xs).precision ∙ fresh.precision_of in
      let left = run-raised xs in
      let right = run-raised ys in
      let both = run-raised (xs ++ ys) in
      (
        record (run s xs) {
          storage = merge_storage (run s xs).precision (run s xs).storage (run s ys).storage;
          updates = add64 (run s xs).updates (run s ys).updates;
        },
        rw (run_compatible xs ys, ensure_matches_refl (compatibility (run s ys))) refl,
        ap (λ n. dense_registers precision (merge_storage n (run s xs).storage (run s ys).storage))
              p
            ∙ merge_storage-registers precision (run s xs).storage (run s ys).storage
                (ap length left.0 ∙ length-raised xs)
            ∙ ap (λ r. max_registers r (dense_registers precision (run s ys).storage)) left.0
            ∙ ap (max_registers (raised xs)) right.0
            ∙ raised-append xs ys
            ∙ sym both.0,
        omega (arith, left.1, right.1, both.1, length-append xs ys),
      )
