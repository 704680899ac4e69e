-- ===== src/Block/Tests.antt =====
-- types/block.go: the siacoins at a height past the last fall of the coinbase.
use sia_hostdb_profiles.Prelude.{◌≡◌, arith}
use sia_hostdb_profiles.Block.{calculate_num_siacoins}
use sia_hostdb_profiles.Block.Coinbase.{sum_coinbases, calculate_num_siacoins_sums}

calculate_num_siacoins_sums_example : calculate_num_siacoins 299990 12 ≡ sum_coinbases 299990 12
calculate_num_siacoins_sums_example =
    calculate_num_siacoins_sums 299990 12 (omega arith) (omega arith)
