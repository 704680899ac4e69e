-- ===== src/Consensus/Supply/Maintained.antt =====
-- maintenance.go, `applyMaintenance`: it adds just the miner payouts to the siacoins of the set.
use sia_hostdb_profiles.Prelude.{◌≢◌, refl, sym, ap, ◌∙◌, [], ◌++◌, arith}
use mathlib.Core.List.{append-nil}
use sia_hostdb_profiles.Prelude.Options.{◌>>=◌}
use sia_hostdb_profiles.Bolt.{Bolt}
use sia_hostdb_profiles.Block.{Block}
use sia_hostdb_profiles.Standalone.{value_sum}
use sia_hostdb_profiles.Consensus.Chain.{Chain}
use sia_hostdb_profiles.Consensus.Store.{Database}
use sia_hostdb_profiles.Consensus.Diffs.{ProcessedBlock}
use sia_hostdb_profiles.Consensus.Maintenance.{
  apply_miner_payout, apply_miner_payouts, apply_matured_siacoin_outputs,
  apply_file_contract_maintenance, apply_maintenance,
}
use sia_hostdb_profiles.Consensus.Supply.Delayed.{HasRoom, ids_from, maturity, outputs_delay}
use sia_hostdb_profiles.Consensus.Supply.Applicable.{IsFunded}
use sia_hostdb_profiles.Consensus.Supply.Parts.{Gains}
use sia_hostdb_profiles.Consensus.Supply.Matured.{CanMature, matured_move}
use sia_hostdb_profiles.Consensus.Supply.Missed.{missed_ids}
use sia_hostdb_profiles.Consensus.Supply.Expired.{expired_move}

module _ ⦃bolt : Bolt⦄ (chain : Chain) (b : Block) where
  -- There is a bucket for what the block delays, for another height than its own, and the ids of the
  -- payouts and of the outputs of missed proofs are new there. What matures is not in the set yet.
  pub record CanMaintain (db : Database) (pb : ProcessedBlock) : Type 0 where
    pub room :
        HasRoom
          (maturity chain pb)
          (ids_from chain (chain.miner_payout_id b) 0 b.miner_payouts
            ++ missed_ids chain db.file_contracts (bolt.get pb.height db.expirations))
          db.delayed_outputs
    pub ahead : pb.height ≢ maturity chain pb
    pub matures : CanMature chain db pb.height

  -- On a funded database on which a block can be maintained, applyMaintenance runs through. The
  -- database is funded again, and it holds as many siacoins as before and the miner payouts. Its
  -- height is the same.
  pub apply_maintenance_pays :
      (db : Database) (pb : ProcessedBlock)
      → IsFunded db
      → CanMaintain db pb
      → Gains
          (apply_maintenance chain b (record { db = db; pb = pb }))
          (value_sum b.miner_payouts)
          db
  unfolding apply_maintenance apply_miner_payouts apply_miner_payout
  apply_maintenance_pays db pb funded can =
      let (delayed1, pb1, h1, ran1, (room1, more1, others1)) =
        outputs_delay chain (chain.miner_payout_id b) b.miner_payouts 0
          (missed_ids chain db.file_contracts (bolt.get pb.height db.expirations)) db pb can.room in
      let (coins, delayed2, pb2, h2, ran2, (room2, same2)) =
        matured_move chain (maturity chain pb)
          (missed_ids chain db.file_contracts (bolt.get pb.height db.expirations))
          (record db { delayed_outputs = delayed1 }) pb1 (λ e. can.ahead (sym (e ∙ h1)))
          (rw h1 (λ old.
            let (bucket, at, fresh) = can.matures old in
            (bucket, others1 pb.height can.ahead ∙ at, fresh)))
          room1 in
      let (c, delayed3, pb3, h3, ran3, (sound, _, same3)) =
        expired_move chain [] (record db { siacoin_outputs = coins; delayed_outputs = delayed2 })
          pb2 funded.listed (rw (h2, h1, append-nil) room2) in
      (
        record {
          db = record db {
            siacoin_outputs = coins;
            file_contracts = c.0;
            expirations = c.1;
            delayed_outputs = delayed3;
          };
          pb = pb3;
        },
        ap
              (λ m.
                m >>= apply_matured_siacoin_outputs chain >>= apply_file_contract_maintenance chain)
              ran1
            ∙ ap (λ m. m >>= apply_file_contract_maintenance chain) ran2
            ∙ ran3,
        record {
          listed = sound;
          whole = funded.whole;
          aligned = funded.aligned;
          count = funded.count;
        },
        refl,
        omega (arith, more1, same2, same3),
      )
