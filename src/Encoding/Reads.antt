-- ===== src/Encoding/Reads.antt =====
-- types/encoding.go: reading what was written, with anything behind it.
use sia_hostdb_profiles.Prelude.{
  ℕ, zero, suc, ◌+◌, ◌-◌, ◌*◌, ◌%◌, ◌^◌, ◌≤◌, ◌<◌, ◌≡◌, refl, sym, ap, ◌∙◌, List, [], ◌∷◌, ◌++◌,
  false, some, All, arith, length, length-append, ◌||◌, ltb,
}
use mathlib.Core.Path.{subst}
use mathlib.Core.List.{append_assoc}
use sia_hostdb_profiles.Encoding.{
  Bytes, little_endian, little_value, Decoder, ◌>>=◌, done, split_at, read_full, next_uint64,
  next_prefix, read_prefix, read_times, read_slice, write_uint64, write_prefix, write_each,
  write_slice,
}
use sia_hostdb_profiles.Encoding.Digits.{length-little_endian, little_value-little_endian}

-- `r` reads `a` from `bs`, as long as the object stays below its greatest size.
pub record Reads {A : Type 0} (r : Decoder A) (bs : Bytes) (a : A) : Type 0 where
  pub reads :
      (rest : Bytes) (n : ℕ)
      → n + length bs ≤ 12000000
      → r (bs ++ rest) n ≡ some (a, rest, n + length bs)

module _ {A B : Type 0} where
  pub bind-Reads :
      {r : Decoder A} (f : A → Decoder B) {bs cs : Bytes} {a : A} {b : B}
      → Reads r bs a
      → Reads (f a) cs b
      → Reads (r >>= f) (bs ++ cs) b
  unfolding ◌>>=◌
  bind-Reads {r} f {bs} {cs} {a} {b} first then_ = record {
    reads = λ rest n small.
        let long : length (bs ++ cs) ≡ length bs + length cs = length-append bs cs in
        let second : f a (cs ++ rest) (n + length bs) ≡ some (b, rest, n + length bs + length cs) =
          then_.reads rest (n + length bs) (omega (arith, small, long)) in
        let at_end : n + length bs + length cs ≡ n + length (bs ++ cs) = omega (arith, long) in
        rw (append_assoc, first.reads (cs ++ rest) n (omega (arith, small, long)), second, at_end)
          refl;
  }

  -- The last read of an object.
  pub last-Reads :
      {r : Decoder A} (f : A → B) {bs : Bytes} {a : A}
      → Reads r bs a
      → Reads (r >>= λ x. done (f x)) bs (f a)
  unfolding ◌>>=◌ done
  last-Reads {r} f {bs} {a} first = record {
    reads = λ rest n small. rw (first.reads rest n small) refl;
  }

add_zero : (n : ℕ) → n + 0 ≡ n
add_zero n = omega arith

split_at-append : (bs rest : Bytes) → split_at (length bs) (bs ++ rest) ≡ some (bs, rest)
unfolding split_at
split_at-append [] rest = refl
split_at-append (b ∷ bs) rest = rw (split_at-append bs rest) refl

read_full-append :
    (k : ℕ) (bs rest : Bytes) (n : ℕ)
    → length bs ≡ k
    → n + length bs ≤ 12000000
    → read_full k (bs ++ rest) n ≡ some (bs, rest, n + length bs)
unfolding read_full split_at
read_full-append zero [] rest n h small = rw (add_zero n) refl
read_full-append (suc k) [] rest n h small = absurd (omega (arith, h))
read_full-append zero (b ∷ bs) rest n h small = absurd (omega (arith, h))
read_full-append (suc k) (b ∷ bs) rest n h small =
    let splits : split_at (suc k) (b ∷ (bs ++ rest)) ≡ some (b ∷ bs, rest) =
      ap (λ j. split_at j (b ∷ (bs ++ rest))) (sym h) ∙ split_at-append (b ∷ bs) rest in
    let below : ltb 12000000 (n + suc k) ≡ false = ground (arith, small, h) in
    rw (splits, below, h) refl

pub read_full-Reads : (bs : Bytes) → Reads (read_full (length bs)) bs bs
read_full-Reads bs = record {
  reads = λ rest n small. read_full-append (length bs) bs rest n refl small;
}

pub read_bytes-Reads : (k : ℕ) (bs : Bytes) → length bs ≡ k → Reads (read_full k) bs bs
read_bytes-Reads k bs h = subst (λ j. Reads (read_full j) bs bs) h (read_full-Reads bs)

pub next_uint64-Reads : (u : ℕ) → u < 2 ^ 64 → Reads next_uint64 (write_uint64 u) u
unfolding next_uint64 write_uint64
next_uint64-Reads u h =
    subst (λ v. Reads next_uint64 (write_uint64 u) v)
      (little_value-little_endian 8 u (omega (arith, h)))
      (last-Reads little_value (read_bytes-Reads 8 (little_endian 8 u) (length-little_endian 8 u)))

pub next_prefix-Reads :
    (elem_size n : ℕ)
    → n < 2 ^ 31
    → n * elem_size ≤ 5000000
    → Reads (next_prefix elem_size) (write_uint64 n) n
unfolding next_prefix ◌>>=◌
next_prefix-Reads elem_size n short fits = record {
  reads = λ rest read small.
      let first : next_uint64 (write_uint64 n ++ rest) read
          ≡ some (n, rest, read + length (write_uint64 n)) =
        (next_uint64-Reads n (omega (arith, short))).reads rest read small in
      let in_range : (ltb (2 ^ 31 - 1) n || ltb 5000000 (n * elem_size % 2 ^ 64)) ≡ false =
        ground (arith, short, fits) in
      rw (first, in_range) refl;
}

pub read_prefix-Reads : (bs : Bytes) → length bs ≤ 5000000 → Reads read_prefix (write_prefix bs) bs
unfolding read_prefix write_prefix
read_prefix-Reads bs small =
    bind-Reads read_full
      (next_prefix-Reads 1 (length bs) (omega (arith, small)) (omega (arith, small)))
      (read_full-Reads bs)

module _ {A : Type 0} (r : Decoder A) (w : A → Bytes) where
  pub read_times-Reads :
      (xs : List A)
      → All (λ x. Reads r (w x) x) xs
      → Reads (read_times r (length xs)) (write_each w xs) xs
  unfolding read_times write_each done
  read_times-Reads [] h = record { reads = λ rest n small. rw (add_zero n) refl }
  read_times-Reads (x ∷ xs) h = bind-Reads _ h.0 (last-Reads _ (read_times-Reads xs h.1))

  pub read_slice-Reads :
      (elem_size : ℕ) (xs : List A)
      → length xs < 2 ^ 31
      → length xs * elem_size ≤ 5000000
      → All (λ x. Reads r (w x) x) xs
      → Reads (read_slice elem_size r) (write_slice w xs) xs
  unfolding read_slice write_slice
  read_slice-Reads elem_size xs short fits h =
      bind-Reads _ (next_prefix-Reads elem_size (length xs) short fits) (read_times-Reads xs h)
