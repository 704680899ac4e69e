-- ===== src/Encoding/Types.antt =====
-- types/encoding.go: MarshalSia and UnmarshalSia of the parts of a transaction, and their sizes. The
-- element sizes are those of unsafe.Sizeof on a machine of 64 bits.
-- A hash, an id and a specifier, which the model reads as numbers, are their bytes, the first the
-- highest; the number of a key runs through all byte strings.
use mathlib.Core.List.{reverse}
use sia_hostdb_profiles.Prelude.{
  zero, suc, ◌/◌, ◌%◌, ◌^◌, ◌==◌, if◌then◌else◌, List, [], ◌∷◌, ◌*◌, ℕ, zero, suc, ◌+◌, ◌*◌, ◌/◌,
  ◌%◌, [], ◌∷◌, ◌++◌, length, sum_of,
}
use sia_hostdb_profiles.Currency.{Currency}
use sia_hostdb_profiles.HostEntry.{SiaPublicKey}
use sia_hostdb_profiles.Transaction.{
  Hash, UnlockConditions, SiacoinInput, SiacoinOutput, SiafundInput, SiafundOutput,
}
use sia_hostdb_profiles.Encoding.{
  Bytes, little_endian, little_value, digits, Decoder, ◌>>=◌, done, read_full, next_uint64,
  read_prefix, read_slice, write_uint64, write_prefix, write_slice,
}

-- An array of `w` bytes.
unfoldable pub write_array : ℕ → ℕ → Bytes
write_array w h = reverse (little_endian w h)

unfoldable pub read_array : ℕ → Decoder ℕ
read_array w = do bs ← read_full w; done (little_value (reverse bs))

unfoldable pub write_hash : Hash → Bytes
write_hash = write_array 32

unfoldable pub read_hash : Decoder Hash
read_hash = read_array 32

unfoldable pub key_number : Bytes → ℕ
key_number [] = 0
key_number (b ∷ bs) = suc (b + 256 * key_number bs)

unfoldable pub key_bytes : ℕ → ℕ → Bytes
key_bytes fuel zero = []
key_bytes zero (suc m) = []
key_bytes (suc fuel) (suc m) = m % 256 ∷ key_bytes fuel (m / 256)

-- Currency
unfoldable pub write_currency : Currency → Bytes
write_currency c = write_prefix (reverse (digits c c))

-- `Bits` of math/big: the words of a number, the lowest first, without a zero at the end; `fuel` is at
-- least the number.
unfoldable pub words : ℕ → ℕ → List ℕ
words fuel zero = []
words zero (suc u) = []
words (suc fuel) (suc u) = suc u % 2 ^ 64 ∷ words fuel (suc u / 2 ^ 64)

-- The inner loop of `Currency.MarshalSiaSize`, from `j - 1` down: the bytes that are left of a word
-- where it breaks off, or none.
unfoldable pub word_bytes : ℕ → ℕ → ℕ
word_bytes word zero = 0
word_bytes word (suc j) =
    let rest = word_bytes word j in if word / 256 ^ j == 0 then rest else suc j

-- The outer loop, over the words from the highest one down: what is left of `size`.
unfoldable pub size_from : List ℕ → ℕ
size_from [] = 0
size_from (word ∷ bits) =
    let rest = size_from bits in
    let left = word_bytes word 8 in if left == 0 then rest else length bits * 8 + left

-- `Currency.MarshalSiaSize`
unfoldable pub currency_size : Currency → ℕ
currency_size c = 8 + size_from (reverse (words c c))

unfoldable pub read_currency : Decoder Currency
read_currency = do bs ← read_prefix; done (little_value (reverse bs))

-- SiaPublicKey
unfoldable pub write_public_key : SiaPublicKey → Bytes
write_public_key spk = write_array 16 spk.algorithm ++ write_prefix (key_bytes spk.key spk.key)

unfoldable pub read_public_key : Decoder SiaPublicKey
read_public_key = do
  algorithm ← read_array 16
  key ← read_prefix
  done (record { algorithm = algorithm; key = key_number key })

-- UnlockConditions
unfoldable pub write_unlock_conditions : UnlockConditions → Bytes
write_unlock_conditions uc =
    write_uint64 uc.timelock
    ++ (write_slice write_public_key uc.public_keys ++ write_uint64 uc.signatures_required)

unfoldable pub unlock_conditions_size : UnlockConditions → ℕ
unlock_conditions_size uc =
    8
    + 8
    + sum_of (λ (spk : SiaPublicKey). 16 + (8 + length (key_bytes spk.key spk.key))) uc.public_keys
    + 8

unfoldable pub read_unlock_conditions : Decoder UnlockConditions
read_unlock_conditions = do
  timelock ← next_uint64
  public_keys ← read_slice 40 read_public_key
  signatures_required ← next_uint64
  done (record {
    timelock = timelock;
    public_keys = public_keys;
    signatures_required = signatures_required;
  })

-- SiacoinInput
unfoldable pub write_siacoin_input : SiacoinInput → Bytes
write_siacoin_input sci = write_hash sci.parent_id ++ write_unlock_conditions sci.unlock_conditions

unfoldable pub read_siacoin_input : Decoder SiacoinInput
read_siacoin_input = do
  parent_id ← read_hash
  unlock_conditions ← read_unlock_conditions
  done (record { parent_id = parent_id; unlock_conditions = unlock_conditions })

-- SiacoinOutput
unfoldable pub write_siacoin_output : SiacoinOutput → Bytes
write_siacoin_output sco = write_currency sco.value ++ write_hash sco.unlock_hash

unfoldable pub read_siacoin_output : Decoder SiacoinOutput
read_siacoin_output = do
  value ← read_currency
  unlock_hash ← read_hash
  done (record { value = value; unlock_hash = unlock_hash })

-- SiafundInput
unfoldable pub write_siafund_input : SiafundInput → Bytes
write_siafund_input sfi =
    write_hash sfi.parent_id
    ++ (write_unlock_conditions sfi.unlock_conditions ++ write_hash sfi.claim_unlock_hash)

unfoldable pub read_siafund_input : Decoder SiafundInput
read_siafund_input = do
  parent_id ← read_hash
  unlock_conditions ← read_unlock_conditions
  claim_unlock_hash ← read_hash
  done (record {
    parent_id = parent_id;
    unlock_conditions = unlock_conditions;
    claim_unlock_hash = claim_unlock_hash;
  })

-- SiafundOutput
unfoldable pub write_siafund_output : SiafundOutput → Bytes
write_siafund_output sfo =
    write_currency sfo.value ++ (write_hash sfo.unlock_hash ++ write_currency sfo.claim_start)

unfoldable pub read_siafund_output : Decoder SiafundOutput
read_siafund_output = do
  value ← read_currency
  unlock_hash ← read_hash
  claim_start ← read_currency
  done (record { value = value; unlock_hash = unlock_hash; claim_start = claim_start })
