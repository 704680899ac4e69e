-- ===== src/Consensus/Revert/View.antt =====
-- What diffs.go promises of the database: its buckets as functions of their keys, and each commit of
-- a diff as an update of one of them.
use sia_hostdb_profiles.Prelude.{ℕ, ◌≡◌, arith, Option, none, some, Bool, ◌==◌, if◌then◌else◌}
use sia_hostdb_profiles.Prelude.Options.{◌>>=◌}
use sia_hostdb_profiles.Prelude.Monad.{after}
use sia_hostdb_profiles.Bolt.{Bolt}
use sia_hostdb_profiles.Currency.{Currency}
use sia_hostdb_profiles.Transaction.{Hash, BlockHeight, SiacoinOutput, SiafundOutput, FileContract}
use sia_hostdb_profiles.Consensus.Store.{Database, bucket_or_new}
use sia_hostdb_profiles.Consensus.Diffs.{
  SiacoinOutputDiff, FileContractDiff, SiafundOutputDiff, DelayedSiacoinOutputDiff, SiafundPoolDiff,
  same,
}

abbrev pub Table : Type 0 → Type 0
Table V = ℕ → Option V

module _ {V : Type 0} where
  unfoldable pub put_at : ℕ → V → Table V → Table V
  put_at k v t j = if j == k then some v else t j

  unfoldable pub delete_at : ℕ → Table V → Table V
  delete_at k t j = if j == k then none else t j

-- The contracts, and the ids that are listed under the heights at which they expire.
pub record Contracts : Type 0 where
  pub file_contracts : Table FileContract
  pub listed : ℕ → Table Unit

pub record View : Type 0 where
  pub height : BlockHeight
  pub path : Table Hash
  pub siacoin_outputs : Table SiacoinOutput
  pub contracts : Contracts
  pub siafund_outputs : Table SiafundOutput
  pub delayed_outputs : Table (Table SiacoinOutput)
  pub siafund_pool : Currency

unfoldable pub siacoin_output_step :
    Bool → SiacoinOutputDiff → Table SiacoinOutput → Option (Table SiacoinOutput)
siacoin_output_step dir d t =
    some (if same d.direction dir then put_at d.id d.siacoin_output t else delete_at d.id t)

unfoldable pub list_at : ℕ → ℕ → Option (Unit {0}) → (ℕ → Table Unit) → ℕ → Table Unit
list_at h id u listed h' id' =
    if h' == h then if id' == id then u else listed h' id' else listed h' id'

unfoldable pub remove_contract : Hash → Contracts → Option Contracts
remove_contract id c = do
  fc ← c.file_contracts id
  _ ← c.listed fc.window_end id
  some (record {
    file_contracts = delete_at id c.file_contracts;
    listed = list_at fc.window_end id none c.listed;
  })

unfoldable pub file_contract_step : Bool → FileContractDiff → Contracts → Option Contracts
file_contract_step dir d c =
    if same d.direction dir
    then some (record {
      file_contracts = put_at d.id d.file_contract c.file_contracts;
      listed = list_at d.file_contract.window_end d.id (some tt) c.listed;
    })
    else remove_contract d.id c

unfoldable pub siafund_output_step :
    Bool → SiafundOutputDiff → Table SiafundOutput → Option (Table SiafundOutput)
siafund_output_step dir d t =
    some (if same d.direction dir then put_at d.id d.siafund_output t else delete_at d.id t)

unfoldable pub delayed_output_step :
    Bool
    → DelayedSiacoinOutputDiff
    → Table (Table SiacoinOutput)
    → Option (Table (Table SiacoinOutput))
delayed_output_step dir d t = do
  b ← t d.maturity_height
  some (
      put_at d.maturity_height
        (if same d.direction dir then put_at d.id d.siacoin_output b else delete_at d.id b) t)

unfoldable pub siafund_pool_step : Bool → SiafundPoolDiff → Currency → Option Currency
siafund_pool_step dir d pool = some (if dir then d.adjusted else d.previous)

module _ ⦃bolt : Bolt⦄ where
  unfoldable pub table : {V : Type 0} → bolt.Bucket V → Table V
  table b k = bolt.get k b

  unfoldable pub tables : {V : Type 0} → bolt.Bucket (bolt.Bucket V) → Table (Table V)
  tables b k = after table (bolt.get k b)

  unfoldable pub listing : bolt.Bucket (bolt.Bucket Unit) → ℕ → Table Unit
  listing b h k = bolt.get h b >>= bolt.get k

  unfoldable pub view : Database → View
  view db = record {
    height = db.height;
    path = table db.path;
    siacoin_outputs = table db.siacoin_outputs;
    contracts = record {
      file_contracts = table db.file_contracts;
      listed = listing db.expirations;
    };
    siafund_outputs = table db.siafund_outputs;
    delayed_outputs = tables db.delayed_outputs;
    siafund_pool = db.siafund_pool;
  }

  pub table-put :
      {V : Type 0} (k : ℕ) (v : V) (b : bolt.Bucket V)
      → table (bolt.put k v b) ≡ put_at k v (table b)
  unfolding table put_at
  table-put k v b i j = bolt.get-put j k v b i

  pub table-delete :
      {V : Type 0} (k : ℕ) (b : bolt.Bucket V) → table (bolt.delete k b) ≡ delete_at k (table b)
  unfolding table delete_at
  table-delete k b i j = bolt.get-delete j k b i

  pub tables-put :
      {V : Type 0} (k : ℕ) (b : bolt.Bucket V) (bs : bolt.Bucket (bolt.Bucket V))
      → tables (bolt.put k b bs) ≡ put_at k (table b) (tables bs)
  unfolding tables put_at
  tables-put {V} k b bs = λ i j. (at_key j) i
    where
      at_key :
          (j : ℕ)
          → after table (bolt.get j (bolt.put k b bs))
            ≡ (if j == k then some (table b) else after table (bolt.get j bs))
      at_key j = ground (arith, bolt.get-put j k b bs)

  pub tables-delete :
      {V : Type 0} (k : ℕ) (bs : bolt.Bucket (bolt.Bucket V))
      → tables (bolt.delete k bs) ≡ delete_at k (tables bs)
  unfolding tables delete_at
  tables-delete {V} k bs = λ i j. (at_key j) i
    where
      at_key :
          (j : ℕ)
          → after table (bolt.get j (bolt.delete k bs))
            ≡ (if j == k then none else after table (bolt.get j bs))
      at_key j = ground (arith, bolt.get-delete j k bs)

  pub listing-put :
      (h k : ℕ) (b : bolt.Bucket Unit) (u : Option (Unit {0})) (bs : bolt.Bucket (bolt.Bucket Unit))
      → ((j : ℕ) → bolt.get j b ≡ (if j == k then u else bolt.get h bs >>= bolt.get j))
      → listing (bolt.put h b bs) ≡ list_at h k u (listing bs)
  unfolding listing list_at
  listing-put h k b u bs at = λ i h' k'. (at_keys h' k') i
    where
      at_keys :
          (h' k' : ℕ)
          → (bolt.get h' (bolt.put h b bs) >>= bolt.get k') ≡ (
              if h' == h
              then if k' == k then u else bolt.get h' bs >>= bolt.get k'
              else bolt.get h' bs >>= bolt.get k')
      at_keys h' k' = ground (arith, bolt.get-put h' h b bs, at k')

  pub listing-add :
      (h k : ℕ) (bs : bolt.Bucket (bolt.Bucket Unit))
      → listing (bolt.put h (bolt.put k tt (bucket_or_new (bolt.get h bs))) bs)
        ≡ list_at h k (some tt) (listing bs)
  listing-add h k bs = listing-put h k _ (some tt) bs (at_key (bolt.get h bs))
    where
      at_key :
          (o : Option (bolt.Bucket Unit)) (j : ℕ)
          → bolt.get j (bolt.put k tt (bucket_or_new o))
            ≡ (if j == k then some tt else o >>= bolt.get j)
      at_key none j =
          ground (arith, bolt.get-put j k (tt {0}) bolt.empty, bolt.get-empty {V = Unit} j)
      at_key (some b) j = ground (arith, bolt.get-put j k (tt {0}) b)

  pub listing-remove :
      (h k : ℕ) (b : bolt.Bucket Unit) (bs : bolt.Bucket (bolt.Bucket Unit))
      → bolt.get h bs ≡ some b
      → listing (bolt.put h (bolt.delete k b) bs) ≡ list_at h k none (listing bs)
  listing-remove h k b bs at = listing-put h k _ none bs (λ j. rw at (bolt.get-delete j k b))
