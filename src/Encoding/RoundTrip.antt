-- ===== src/Encoding/RoundTrip.antt =====
-- types/encoding.go: what is written is read back, for the parts of a transaction whose numbers and
-- lengths are in range.
pub mod Contracts
pub mod Transactions
use mathlib.Core.List.{reverse, reverse-reverse}
use mathlib.Core.Path.{subst}
use sia_hostdb_profiles.Prelude.{
  ℕ, zero, suc, ◌+◌, ◌*◌, ◌/◌, ◌%◌, ◌^◌, ◌≤◌, ◌<◌, ◌≡◌, refl, ap, ◌∙◌, List, [], ◌∷◌, ◌++◌, All,
  All-imp, arith, length,
}
use sia_hostdb_profiles.Currency.{Currency}
use sia_hostdb_profiles.HostEntry.{SiaPublicKey}
use sia_hostdb_profiles.Transaction.{
  Hash, UnlockConditions, SiacoinInput, SiacoinOutput, SiafundInput, SiafundOutput,
}
use sia_hostdb_profiles.Encoding.{
  Bytes, little_endian, little_value, digits, Decoder, ◌>>=◌, done, read_slice, write_slice,
  write_prefix, read_prefix,
}
use sia_hostdb_profiles.Encoding.Digits.{
  length-little_endian, little_value-little_endian, little_value-digits, length-reverse,
}
use sia_hostdb_profiles.Encoding.Reads.{
  Reads, bind-Reads, last-Reads, read_bytes-Reads, next_uint64-Reads, read_prefix-Reads,
  read_slice-Reads,
}
use sia_hostdb_profiles.Encoding.Types.{
  write_array, read_array, write_hash, read_hash, key_number, key_bytes, write_currency,
  read_currency, write_public_key, read_public_key, write_unlock_conditions, read_unlock_conditions,
  write_siacoin_input, read_siacoin_input, write_siacoin_output, read_siacoin_output,
  write_siafund_input, read_siafund_input, write_siafund_output, read_siafund_output,
}

array-Reads : (w h : ℕ) → h < 256 ^ w → Reads (read_array w) (write_array w h) h
unfolding read_array write_array
array-Reads w h small =
    let back : little_value (reverse (reverse (little_endian w h))) ≡ h =
      ap little_value (reverse-reverse (little_endian w h))
      ∙ little_value-little_endian w h small in
    subst (λ v. Reads (read_array w) (write_array w h) v) back
      (last-Reads (λ bs. little_value (reverse bs))
        (read_bytes-Reads w (reverse (little_endian w h))
          (length-reverse (little_endian w h) ∙ length-little_endian w h)))

-- A number of 32 bytes.
abbrev pub FitsHash : ℕ → Type 0
FitsHash h = h < 256 ^ 32

abbrev pub FitsUint64 : ℕ → Type 0
FitsUint64 u = u < 2 ^ 64

pub hash-Reads : (h : Hash) → FitsHash h → Reads read_hash (write_hash h) h
unfolding read_hash write_hash
hash-Reads h small = array-Reads 32 h small

key_number-key_bytes : (fuel m : ℕ) → m ≤ fuel → key_number (key_bytes fuel m) ≡ m
unfolding key_number key_bytes
key_number-key_bytes fuel zero h = refl
key_number-key_bytes zero (suc m) h = absurd (omega (arith, h))
key_number-key_bytes (suc fuel) (suc m) h =
    omega (arith, key_number-key_bytes fuel (m / 256) (omega (arith, h)))

-- A currency of at most five million bytes.
abbrev pub FitsCurrency : Currency → Type 0
FitsCurrency c = length (digits c c) ≤ 5000000

pub currency-Reads : (c : Currency) → FitsCurrency c → Reads read_currency (write_currency c) c
unfolding read_currency write_currency
currency-Reads c small =
    let back : little_value (reverse (reverse (digits c c))) ≡ c =
      ap little_value (reverse-reverse (digits c c)) ∙ little_value-digits c c (omega arith) in
    subst (λ v. Reads read_currency (write_currency c) v) back
      (last-Reads (λ bs. little_value (reverse bs))
        (read_prefix-Reads (reverse (digits c c)) (rw (length-reverse (digits c c)) small)))

pub record FitsPublicKey (spk : SiaPublicKey) : Type 0 where
  pub algorithm : spk.algorithm < 256 ^ 16
  pub key : length (key_bytes spk.key spk.key) ≤ 5000000

public_key-Reads :
    (spk : SiaPublicKey) → FitsPublicKey spk → Reads read_public_key (write_public_key spk) spk
unfolding read_public_key write_public_key
public_key-Reads spk fits =
    let back : key_number (key_bytes spk.key spk.key) ≡ spk.key =
      key_number-key_bytes spk.key spk.key (omega arith) in
    subst (λ pk. Reads read_public_key (write_public_key spk) pk)
      (λ i. record { algorithm = spk.algorithm; key = back i })
      (bind-Reads _ (array-Reads 16 spk.algorithm fits.algorithm) (
        last-Reads (λ key. record { algorithm = spk.algorithm; key = key_number key })
          (read_prefix-Reads (key_bytes spk.key spk.key) fits.key)))

-- A slice whose elements, of `elem_size` bytes each in memory, are within the limit and fit.
pub record FitsSlice {A : Type 0} (elem_size : ℕ) (Fits : A → Type 0) (xs : List A) : Type 0 where
  pub size : length xs * elem_size ≤ 5000000
  pub short : length xs < 2 ^ 31
  pub each : All Fits xs

pub slice-Reads :
    {A : Type 0} (r : Decoder A) (w : A → Bytes) (Fits : A → Type 0) (elem_size : ℕ)
    → ((x : A) → Fits x → Reads r (w x) x)
    → (xs : List A) → FitsSlice elem_size Fits xs
    → Reads (read_slice elem_size r) (write_slice w xs) xs
slice-Reads r w Fits elem_size back xs fits =
    read_slice-Reads r w elem_size xs fits.short fits.size (All-imp _ _ xs back fits.each)

pub record FitsUnlockConditions (uc : UnlockConditions) : Type 0 where
  pub timelock : FitsUint64 uc.timelock
  pub public_keys : FitsSlice 40 FitsPublicKey uc.public_keys
  pub signatures_required : FitsUint64 uc.signatures_required

pub unlock_conditions-Reads :
    (uc : UnlockConditions)
    → FitsUnlockConditions uc
    → Reads read_unlock_conditions (write_unlock_conditions uc) uc
unfolding read_unlock_conditions write_unlock_conditions
unlock_conditions-Reads uc fits = bind-Reads _ (next_uint64-Reads uc.timelock fits.timelock) (
    bind-Reads _
      (slice-Reads read_public_key write_public_key FitsPublicKey 40 public_key-Reads uc.public_keys
        fits.public_keys)
      (last-Reads _ (next_uint64-Reads uc.signatures_required fits.signatures_required)))

pub record FitsSiacoinInput (sci : SiacoinInput) : Type 0 where
  pub parent_id : FitsHash sci.parent_id
  pub unlock_conditions : FitsUnlockConditions sci.unlock_conditions

pub siacoin_input-Reads :
    (sci : SiacoinInput)
    → FitsSiacoinInput sci
    → Reads read_siacoin_input (write_siacoin_input sci) sci
unfolding read_siacoin_input write_siacoin_input
siacoin_input-Reads sci fits =
    bind-Reads _ (hash-Reads sci.parent_id fits.parent_id)
      (last-Reads _ (unlock_conditions-Reads sci.unlock_conditions fits.unlock_conditions))

pub record FitsSiacoinOutput (sco : SiacoinOutput) : Type 0 where
  pub value : FitsCurrency sco.value
  pub unlock_hash : FitsHash sco.unlock_hash

pub siacoin_output-Reads :
    (sco : SiacoinOutput)
    → FitsSiacoinOutput sco
    → Reads read_siacoin_output (write_siacoin_output sco) sco
unfolding read_siacoin_output write_siacoin_output
siacoin_output-Reads sco fits =
    bind-Reads _ (currency-Reads sco.value fits.value)
      (last-Reads _ (hash-Reads sco.unlock_hash fits.unlock_hash))

pub record FitsSiafundInput (sfi : SiafundInput) : Type 0 where
  pub parent_id : FitsHash sfi.parent_id
  pub unlock_conditions : FitsUnlockConditions sfi.unlock_conditions
  pub claim_unlock_hash : FitsHash sfi.claim_unlock_hash

pub siafund_input-Reads :
    (sfi : SiafundInput)
    → FitsSiafundInput sfi
    → Reads read_siafund_input (write_siafund_input sfi) sfi
unfolding read_siafund_input write_siafund_input
siafund_input-Reads sfi fits = bind-Reads _ (hash-Reads sfi.parent_id fits.parent_id) (
    bind-Reads _ (unlock_conditions-Reads sfi.unlock_conditions fits.unlock_conditions)
      (last-Reads _ (hash-Reads sfi.claim_unlock_hash fits.claim_unlock_hash)))

pub record FitsSiafundOutput (sfo : SiafundOutput) : Type 0 where
  pub value : FitsCurrency sfo.value
  pub unlock_hash : FitsHash sfo.unlock_hash
  pub claim_start : FitsCurrency sfo.claim_start

pub siafund_output-Reads :
    (sfo : SiafundOutput)
    → FitsSiafundOutput sfo
    → Reads read_siafund_output (write_siafund_output sfo) sfo
unfolding read_siafund_output write_siafund_output
siafund_output-Reads sfo fits = bind-Reads _ (currency-Reads sfo.value fits.value) (
    bind-Reads _ (hash-Reads sfo.unlock_hash fits.unlock_hash)
      (last-Reads _ (currency-Reads sfo.claim_start fits.claim_start)))
