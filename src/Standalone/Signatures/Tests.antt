-- ===== src/Standalone/Signatures/Tests.antt =====
-- types/validtransaction.go, types/signatures.go, types/filecontracts.go: the checks at a transaction
-- that forms a contract.
use sia_hostdb_profiles.Prelude.{
  ℕ, ◌+◌, ◌*◌, ◌%◌, ◌≤◌, ◌==◌, List, [], ◌∷◌, none, some, Bool, true, false, All, ◌≡◌, ◌↔◌, refl,
  arith, length,
}
use sia_hostdb_profiles.HostEntry.{SiaPublicKey}
use sia_hostdb_profiles.Currency.{tax, post_tax, siafund_count, mul_tax, mul_rat, round_down, sub}
use sia_hostdb_profiles.Currency.Tax.{tax_correct}
use sia_hostdb_profiles.Transaction.{
  UnlockConditions, FileContract, CoveredFields, Transaction, Hash,
}
use sia_hostdb_profiles.Standalone.{Forks, invalid_signature, check_all, is_seen}
use sia_hostdb_profiles.Standalone.Fresh.{AreFresh}
use sia_hostdb_profiles.Standalone.Signatures.{
  signature_ed25519, unlocked, fill, key_at, check_algorithm, check_signatures, all_signed,
  valid_covered_fields, valid_signatures, check_covered,
}
use sia_hostdb_profiles.Standalone.Signatures.Exact.{AreSigned, keys_of, valid_signatures_exact}
use sia_hostdb_profiles.Standalone.Valid.{standalone_valid}
use sia_hostdb_profiles.Standalone.Valid.Spec.{IsStandaloneValid, standalone_valid_exact}

abbrev pub conditions : UnlockConditions
conditions = record {
  timelock = 0;
  public_keys = record { algorithm = signature_ed25519; key = 11 } ∷ [];
  signatures_required = 1;
}

abbrev pub whole : CoveredFields
whole = record {
  whole_transaction = true;
  siacoin_inputs = [];
  siacoin_outputs = [];
  file_contracts = [];
  file_contract_revisions = [];
  storage_proofs = [];
  siafund_inputs = [];
  siafund_outputs = [];
  miner_fees = [];
  arbitrary_data = [];
  transaction_signatures = [];
}

abbrev pub contract : FileContract
contract = record {
  file_size = 0;
  file_merkle_root = 0;
  window_start = 200;
  window_end = 300;
  payout = 10000000;
  valid_proof_outputs = record { value = 9610000; unlock_hash = 1 } ∷ [];
  missed_proof_outputs = record { value = 9610000; unlock_hash = 2 } ∷ [];
  unlock_hash = 3;
  revision_number = 0;
}

abbrev pub transaction : Transaction
transaction = record {
  siacoin_inputs = record { parent_id = 5; unlock_conditions = conditions } ∷ [];
  siacoin_outputs = record { value = 90; unlock_hash = 4 } ∷ [];
  file_contracts = contract ∷ [];
  file_contract_revisions = [];
  storage_proofs = [];
  siafund_inputs = [];
  siafund_outputs = [];
  miner_fees = 10 ∷ [];
  arbitrary_data = [];
  transaction_signatures =
      record {
        parent_id = 5;
        public_key_index = 0;
        timelock = 0;
        covered_fields = whole;
        signature = 7 ∷ [];
      }
      ∷ [];
}

-- A check of signatures that accepts the byte 7 only.
abbrev pub seven : ℕ → SiaPublicKey → List ℕ → Bool
seven i pk [] = false
seven i pk (b ∷ bs) = b == 7

pub signed : valid_signatures seven 100 transaction ≡ none
unfolding valid_signatures valid_covered_fields check_covered fill check_signatures key_at
    check_algorithm all_signed check_all is_seen
signed = refl

wrong_signature : valid_signatures (λ i pk sig. false) 100 transaction ≡ some invalid_signature
unfolding valid_signatures valid_covered_fields check_covered fill check_signatures key_at
    check_algorithm all_signed check_all is_seen
wrong_signature = refl

valid_signatures_exact_example :
    All
      (λ (u : Hash × UnlockConditions).
        (length (keys_of u.0 transaction.transaction_signatures) ≡ u.1.signatures_required)
        × AreFresh [] (keys_of u.0 transaction.transaction_signatures)
        × AreSigned seven 100 u.0 u.1.public_keys 0 transaction.transaction_signatures)
      (unlocked transaction)
valid_signatures_exact_example = valid_signatures_exact seven 100 transaction signed

abbrev pub forks : Forks
forks = record { tax_hardfork_height = 10; oak_hardfork_block = 20 }

standalone_valid_exact_example : (standalone_valid forks seven 900 100 transaction ≡ none) ↔ (
    IsStandaloneValid forks 900 100 transaction × (valid_signatures seven 100 transaction ≡ none))
standalone_valid_exact_example = standalone_valid_exact forks seven 900 100 transaction

tax_correct_example :
    (tax 10 100 10000000 % siafund_count ≡ 0)
    × (tax 10 100 10000000 * 1000 ≤ 10000000 * 40)
    × (post_tax 10 100 10000000 + tax 10 100 10000000 ≡ 10000000)
tax_correct_example = tax_correct 10 100 10000000

pub standalone_accepts : standalone_valid forks seven 900 100 transaction ≡ none
unfolding is_seen tax post_tax mul_tax round_down sub mul_rat
standalone_accepts = (standalone_valid_exact forks seven 900 100 transaction).1 (
  record {
    small = record { in_block = omega arith; after_oak = λ h. omega arith };
    proofs_alone = λ h. absurd (h refl);
    uses_once = record { coins_once = (fresh_one 5, tt); contracts_once = tt; funds_once = tt };
    values = record {
      coin_values = (omega arith, tt);
      payouts = (omega arith, tt);
      fund_values = tt;
      fees = (omega arith, tt);
    };
    contracts = (
      record {
        starts_later = omega arith;
        ends_later = omega arith;
        valid_share = share;
        missed_share = share;
      },
      tt,
    );
    revisions = tt;
    unlocked = record { coins = (omega arith, tt); contracts = tt; funds = tt };
  },
  signed,
)
  where
    fresh_one : (k : ℕ) → is_seen k [] ≡ false
    fresh_one k = refl

    share : 9610000 + 0 ≡ post_tax 10 100 10000000
    share = refl
