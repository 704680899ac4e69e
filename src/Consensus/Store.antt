-- ===== src/Consensus/Store.antt =====
-- consensusdb.go: the accessors of the database. A bucket that a height names is an entry of a
-- bucket of buckets. `none` is the panic of a call on a bucket that is not there.
use sia_hostdb_profiles.Prelude.{
  ℕ, ◌-◌, ◌^◌, ◌≡◌, refl, Option, none, some, ◌&&◌, ltb, ◌==◌, if◌then◌else◌,
}
use sia_hostdb_profiles.Prelude.Options.{◌>>=◌}
use sia_hostdb_profiles.Bolt.{Bolt}
use sia_hostdb_profiles.Currency.{Currency}
use sia_hostdb_profiles.Transaction.{Hash, BlockHeight, SiacoinOutput, SiafundOutput, FileContract}
use sia_hostdb_profiles.Consensus.Chain.{Chain, add_heights}

module _ ⦃bolt : Bolt⦄ where
  pub record Database : Type 0 where
    pub height : BlockHeight
    pub path : bolt.Bucket Hash
    pub siacoin_outputs : bolt.Bucket SiacoinOutput
    pub file_contracts : bolt.Bucket FileContract
    pub siafund_outputs : bolt.Bucket SiafundOutput
    pub siafund_pool : Currency
    -- The buckets whose names begin with prefixDSCO and with prefixFCEX.
    pub delayed_outputs : bolt.Bucket (bolt.Bucket SiacoinOutput)
    pub expirations : bolt.Bucket (bolt.Bucket Unit)

  -- `pushPath`
  unfoldable pub push_path : Hash → Database → Database
  push_path id db =
      let next = add_heights db.height 1 in
      record db { height = next; path = bolt.put next id db.path }

  -- `popPath`
  unfoldable pub pop_path : Database → Database
  pop_path db = record db {
    height = add_heights db.height (2 ^ 64 - 1);
    path = bolt.delete db.height db.path;
  }

  -- `isSiacoinOutput`, as the value that is tested, and `getSiacoinOutput`
  abbrev pub siacoin_output_at : Hash → Database → Option SiacoinOutput
  siacoin_output_at id db = bolt.get id db.siacoin_outputs

  -- `addSiacoinOutput`
  abbrev pub add_siacoin_output : Hash → SiacoinOutput → Database → Database
  add_siacoin_output id sco db = record db { siacoin_outputs = bolt.put id sco db.siacoin_outputs }

  -- `removeSiacoinOutput`
  abbrev pub remove_siacoin_output : Hash → Database → Database
  remove_siacoin_output id db = record db { siacoin_outputs = bolt.delete id db.siacoin_outputs }

  -- `getFileContract`
  abbrev pub file_contract_at : Hash → Database → Option FileContract
  file_contract_at id db = bolt.get id db.file_contracts

  -- `CreateBucketIfNotExists`
  abbrev pub bucket_or_new : {V : Type 0} → Option (bolt.Bucket V) → bolt.Bucket V
  bucket_or_new none = bolt.empty
  bucket_or_new (some b) = b

  -- `addFileContract`
  unfoldable pub add_file_contract : Hash → FileContract → Database → Database
  add_file_contract id fc db =
      let b = bucket_or_new (bolt.get fc.window_end db.expirations) in
      record db {
        file_contracts = bolt.put id fc db.file_contracts;
        expirations = bolt.put fc.window_end (bolt.put id tt b) db.expirations;
      }

  -- `removeFileContract`. It panics on a contract that is not there, and on one whose expiration
  -- is not listed.
  unfoldable pub remove_file_contract : Hash → Database → Option Database
  remove_file_contract id db = do
    fc ← bolt.get id db.file_contracts
    b ← bolt.get fc.window_end db.expirations
    _ ← bolt.get id b
    some (record db {
      file_contracts = bolt.delete id db.file_contracts;
      expirations = bolt.put fc.window_end (bolt.delete id b) db.expirations;
    })

  -- `devAddr`, its first byte the highest.
  abbrev pub dev_addr : Hash
  dev_addr = 0xf371c70bce9eb8979cd5099f599ec4e4fcb14e0afcf31f9791e03e6496a4c0b3

  -- The address change in `getSiafundOutput`.
  abbrev pub readdress : Chain → BlockHeight → SiafundOutput → SiafundOutput
  readdress chain height sfo =
      if sfo.unlock_hash == chain.last_allocation && ltb 10000 height
      then record sfo { unlock_hash = dev_addr }
      else sfo

  -- `getSiafundOutput`
  unfoldable pub siafund_output_at : Chain → Hash → Database → Option SiafundOutput
  siafund_output_at chain id db = do
    sfo ← bolt.get id db.siafund_outputs
    some (readdress chain db.height sfo)

  -- `addSiafundOutput`
  abbrev pub add_siafund_output : Hash → SiafundOutput → Database → Database
  add_siafund_output id sfo db = record db { siafund_outputs = bolt.put id sfo db.siafund_outputs }

  -- `removeSiafundOutput`
  abbrev pub remove_siafund_output : Hash → Database → Database
  remove_siafund_output id db = record db { siafund_outputs = bolt.delete id db.siafund_outputs }

  -- `setSiafundPool`
  abbrev pub set_siafund_pool : Currency → Database → Database
  set_siafund_pool c db = record db { siafund_pool = c }

  -- `addDSCO`
  unfoldable pub add_dsco : BlockHeight → Hash → SiacoinOutput → Database → Option Database
  add_dsco height id sco db = do
    b ← bolt.get height db.delayed_outputs
    some (record db { delayed_outputs = bolt.put height (bolt.put id sco b) db.delayed_outputs })

  -- `removeDSCO`
  unfoldable pub remove_dsco : BlockHeight → Hash → Database → Option Database
  remove_dsco height id db = do
    b ← bolt.get height db.delayed_outputs
    some (record db { delayed_outputs = bolt.put height (bolt.delete id b) db.delayed_outputs })

  -- `createDSCOBucket`; a bucket that is there stays.
  unfoldable pub create_dsco_bucket : BlockHeight → Database → Database
  create_dsco_bucket height db = elim (bolt.get height db.delayed_outputs) [
    | some _ ↦ db
    | none ↦ record db { delayed_outputs = bolt.put height bolt.empty db.delayed_outputs }
  ]

  -- `deleteDSCOBucket`
  unfoldable pub delete_dsco_bucket : BlockHeight → Database → Database
  delete_dsco_bucket height db = record db {
    delayed_outputs = bolt.delete height db.delayed_outputs;
  }

  pub create_dsco_bucket_new :
      (h : ℕ) (db : Database)
      → bolt.get h db.delayed_outputs ≡ none
      → create_dsco_bucket h db
        ≡ record db { delayed_outputs = bolt.put h bolt.empty db.delayed_outputs }
  unfolding create_dsco_bucket
  create_dsco_bucket_new h db at = rw (create_dsco_bucket, at) refl

  pub create_dsco_bucket_there :
      (h : ℕ) (db : Database) (b : bolt.Bucket SiacoinOutput)
      → bolt.get h db.delayed_outputs ≡ some b
      → create_dsco_bucket h db ≡ db
  unfolding create_dsco_bucket
  create_dsco_bucket_there h db b at = rw (create_dsco_bucket, at) refl
