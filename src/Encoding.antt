-- ===== src/Encoding.antt =====
-- encoding/integers.go, and decHelper of types/encoding.go: the bytes of numbers, and a reader of an
-- encoding in memory. `none` is the error that makes every later read do nothing.
pub mod Digits
pub mod Reads
pub mod Types
pub mod Contracts
pub mod Transactions
pub mod RoundTrip
pub mod Words
pub mod Sizes
pub mod Tests
use sia_hostdb_profiles.Prelude.{
  ℕ, zero, suc, ◌+◌, ◌-◌, ◌*◌, ◌/◌, ◌%◌, ◌^◌, List, [], ◌∷◌, ◌++◌, Option, none, some, Bool, ◌||◌,
  ltb, if◌then◌else◌, length,
}

abbrev pub Bytes : Type 0
Bytes = List ℕ

-- The lowest `w` bytes of a number, the lowest first: `EncUint64` for eight.
unfoldable pub little_endian : ℕ → ℕ → Bytes
little_endian zero u = []
little_endian (suc w) u = u % 256 ∷ little_endian w (u / 256)

-- `DecUint64`, of eight bytes.
unfoldable pub little_value : Bytes → ℕ
little_value [] = 0
little_value (b ∷ bs) = b + 256 * little_value bs

-- The bytes of a number without a zero at the end, the lowest first; `fuel` is at least the number.
unfoldable pub digits : ℕ → ℕ → Bytes
digits fuel zero = []
digits zero (suc u) = []
digits (suc fuel) (suc u) = suc u % 256 ∷ digits fuel (suc u / 256)

abbrev pub max_object_size : ℕ
max_object_size = 12000000

abbrev pub max_slice_size : ℕ
max_slice_size = 5000000

-- What is left to read and how much was read, `d.n`.
abbrev pub Decoder : Type 0 → Type 0
Decoder A = Bytes → ℕ → Option (A × Bytes × ℕ)

abbrev pub feed : {A B : Type 0} → Option (A × Bytes × ℕ) → (A → Decoder B) → Option (B × Bytes × ℕ)
feed none f = none
feed (some (a, bs, n)) f = f a bs n

infixl 5 ◌>>=◌
unfoldable pub ◌>>=◌ : {A B : Type 0} → Decoder A → (A → Decoder B) → Decoder B
(r >>= f) bs n = feed (r bs n) f

unfoldable pub done : {A : Type 0} → A → Decoder A
done a bs n = some (a, bs, n)

-- The first `k` bytes and the rest.
unfoldable pub split_at : ℕ → Bytes → Option (Bytes × Bytes)
split_at zero bs = some ([], bs)
split_at (suc k) [] = none
split_at (suc k) (b ∷ bs) = elim (split_at k bs) [ none ↦ none | some t ↦ some (b ∷ t.0, t.1) ]

-- `ReadFull`, with the check of `Read`. Nothing is read into an empty slice.
unfoldable pub read_full : ℕ → Decoder Bytes
read_full zero bs n = some ([], bs, n)
read_full (suc k) bs n = elim (split_at (suc k) bs) [
  | none ↦ none
  | some t ↦ if ltb max_object_size (n + suc k) then none else some (t.0, t.1, n + suc k)
]

-- `NextUint64`
unfoldable pub next_uint64 : Decoder ℕ
next_uint64 = do bs ← read_full 8; done (little_value bs)

-- `NextPrefix`
unfoldable pub next_prefix : ℕ → Decoder ℕ
next_prefix elem_size = do n ← next_uint64; check_prefix elem_size n
  where
    check_prefix : ℕ → ℕ → Decoder ℕ
    check_prefix elem_size n bs read =
        if ltb (2 ^ 31 - 1) n || ltb max_slice_size (n * elem_size % 2 ^ 64)
        then none
        else some (n, bs, read)

-- `ReadPrefix`
unfoldable pub read_prefix : Decoder Bytes
read_prefix = do n ← next_prefix 1; read_full n

-- `n` elements of a slice that was made with this length.
unfoldable pub read_times : {A : Type 0} → Decoder A → ℕ → Decoder (List A)
read_times r zero = done []
read_times r (suc n) = do x ← r; xs ← read_times r n; done (x ∷ xs)

-- A slice: its length, by `NextPrefix`, and its elements.
unfoldable pub read_slice : {A : Type 0} → ℕ → Decoder A → Decoder (List A)
read_slice elem_size r = do n ← next_prefix elem_size; read_times r n

-- `WriteUint64` and `WriteInt`
unfoldable pub write_uint64 : ℕ → Bytes
write_uint64 u = little_endian 8 u

-- `WritePrefix`
unfoldable pub write_prefix : Bytes → Bytes
write_prefix p = write_uint64 (length p) ++ p

unfoldable pub write_each : {A : Type 0} → (A → Bytes) → List A → Bytes
write_each w [] = []
write_each w (x ∷ xs) = w x ++ write_each w xs

-- A slice: its length and its elements.
unfoldable pub write_slice : {A : Type 0} → (A → Bytes) → List A → Bytes
write_slice w xs = write_uint64 (length xs) ++ write_each w xs
