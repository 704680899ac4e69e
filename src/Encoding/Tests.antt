-- ===== src/Encoding/Tests.antt =====
-- types/encoding.go: a block with a transaction that forms a contract, and its bytes.
use sia_hostdb_profiles.Prelude.{ℕ, ◌+◌, ◌≡◌, ◌≤◌, refl, [], ◌∷◌, ◌++◌, some, arith, length}
use sia_hostdb_profiles.Standalone.Signatures.Tests.{conditions, contract, whole, transaction}
use sia_hostdb_profiles.Block.{Block}
use sia_hostdb_profiles.Encoding.{
  little_endian, digits, write_uint64, write_prefix, write_each, write_slice,
}
use sia_hostdb_profiles.Encoding.Types.{
  write_array, write_hash, key_bytes, write_currency, write_public_key, write_unlock_conditions,
  write_siacoin_input, write_siacoin_output,
}
use sia_hostdb_profiles.Encoding.Contracts.{write_file_contract}
use sia_hostdb_profiles.Encoding.Transactions.{
  write_bool, write_covered_fields, write_transaction_signature, write_no_signatures,
  write_transaction, read_transaction, transaction_size, write_block, read_block,
}
use sia_hostdb_profiles.Encoding.RoundTrip.{FitsSlice, FitsUnlockConditions}
use sia_hostdb_profiles.Encoding.RoundTrip.Contracts.{FitsFileContract}
use sia_hostdb_profiles.Encoding.RoundTrip.Transactions.{
  FitsCoveredFields, FitsTransaction, FitsBlock, read_transaction-write_transaction,
  read_block-write_block,
}
use sia_hostdb_profiles.Encoding.Sizes.{length-write_transaction}

-- The length in front of the bytes of 1000, the first the highest.
thousand : write_currency 1000 ≡ 2 ∷ 0 ∷ 0 ∷ 0 ∷ 0 ∷ 0 ∷ 0 ∷ 0 ∷ 3 ∷ 232 ∷ []
unfolding write_currency write_prefix write_uint64 little_endian digits
thousand = refl

conditions-Fits : FitsUnlockConditions conditions
unfolding key_bytes
conditions-Fits = record {
  timelock = omega arith;
  public_keys = record {
    size = omega arith;
    short = omega arith;
    each = (record { algorithm = omega arith; key = omega arith }, tt);
  };
  signatures_required = omega arith;
}

empty-Fits : {A : Type 0} (elem_size : ℕ) (Fits : A → Type 0) → FitsSlice elem_size Fits []
empty-Fits elem_size Fits = record { size = omega arith; short = omega arith; each = tt }

contract-Fits : FitsFileContract contract
unfolding digits
contract-Fits = record {
  file_size = omega arith;
  file_merkle_root = omega arith;
  window_start = omega arith;
  window_end = omega arith;
  payout = omega arith;
  valid_proof_outputs = record {
    size = omega arith;
    short = omega arith;
    each = (record { value = omega arith; unlock_hash = omega arith }, tt);
  };
  missed_proof_outputs = record {
    size = omega arith;
    short = omega arith;
    each = (record { value = omega arith; unlock_hash = omega arith }, tt);
  };
  unlock_hash = omega arith;
  revision_number = omega arith;
}

whole-Fits : FitsCoveredFields whole
whole-Fits = record {
  siacoin_inputs = empty-Fits 8 _;
  siacoin_outputs = empty-Fits 8 _;
  file_contracts = empty-Fits 8 _;
  file_contract_revisions = empty-Fits 8 _;
  storage_proofs = empty-Fits 8 _;
  siafund_inputs = empty-Fits 8 _;
  siafund_outputs = empty-Fits 8 _;
  miner_fees = empty-Fits 8 _;
  arbitrary_data = empty-Fits 8 _;
  transaction_signatures = empty-Fits 8 _;
}

transaction-Fits : FitsTransaction transaction
unfolding digits
transaction-Fits = record {
  siacoin_inputs = record {
    size = omega arith;
    short = omega arith;
    each = (record { parent_id = omega arith; unlock_conditions = conditions-Fits }, tt);
  };
  siacoin_outputs = record {
    size = omega arith;
    short = omega arith;
    each = (record { value = omega arith; unlock_hash = omega arith }, tt);
  };
  file_contracts = record { size = omega arith; short = omega arith; each = (contract-Fits, tt) };
  file_contract_revisions = empty-Fits 216 _;
  storage_proofs = empty-Fits 120 _;
  siafund_inputs = empty-Fits 104 _;
  siafund_outputs = empty-Fits 96 _;
  miner_fees = record { size = omega arith; short = omega arith; each = (omega arith, tt) };
  arbitrary_data = empty-Fits 24 _;
  transaction_signatures = record {
    size = omega arith;
    short = omega arith;
    each = (
      record {
        parent_id = omega arith;
        public_key_index = omega arith;
        timelock = omega arith;
        covered_fields = whole-Fits;
        signature = omega arith;
      },
      tt,
    );
  };
}

abbrev sent : Block
sent = record {
  parent_id = 5;
  nonce = 1 ∷ 2 ∷ 3 ∷ 4 ∷ 5 ∷ 6 ∷ 7 ∷ 8 ∷ [];
  timestamp = 1000;
  miner_payouts = record { value = 299899000000000000000000000010; unlock_hash = 5 } ∷ [];
  transactions = transaction ∷ [];
}

sent-Fits : FitsBlock sent
unfolding digits
sent-Fits = record {
  parent_id = omega arith;
  nonce = refl;
  timestamp = omega arith;
  miner_payouts = record {
    size = omega arith;
    short = omega arith;
    each = (record { value = omega arith; unlock_hash = omega arith }, tt);
  };
  transactions = record { size = omega arith; short = omega arith; each = (transaction-Fits, tt) };
}

length-write_transaction_example :
    length (write_transaction transaction) ≡ transaction_size transaction
length-write_transaction_example = length-write_transaction transaction tt

small : length (write_block sent) ≤ 12000000
unfolding write_block write_transaction write_no_signatures write_slice write_each write_uint64
    write_prefix little_endian digits write_array write_hash key_bytes write_currency
    write_public_key write_unlock_conditions write_siacoin_input write_siacoin_output
    write_file_contract write_bool write_covered_fields write_transaction_signature
small = omega arith

transaction_small : length (write_transaction transaction) ≤ 11000000
unfolding write_transaction write_no_signatures write_slice write_each write_uint64 write_prefix
    little_endian digits write_array write_hash key_bytes write_currency write_public_key
    write_unlock_conditions write_siacoin_input write_siacoin_output write_file_contract write_bool
    write_covered_fields write_transaction_signature
transaction_small = omega arith

read_transaction-write_transaction_example :
    read_transaction (write_transaction transaction ++ (9 ∷ [])) 100
    ≡ some (transaction, 9 ∷ [], 100 + length (write_transaction transaction))
read_transaction-write_transaction_example =
    read_transaction-write_transaction transaction (9 ∷ []) 100 transaction-Fits
      (omega (arith, transaction_small))

read_block-write_block_example :
    read_block (write_block sent ++ (9 ∷ [])) 0 ≡ some (sent, 9 ∷ [], 0 + length (write_block sent))
read_block-write_block_example =
    read_block-write_block sent (9 ∷ []) 0 sent-Fits (omega (arith, small))
