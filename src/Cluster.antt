-- ===== src/Cluster.antt =====
-- internal/cluster/cluster.go: the chains that the service settles on. A Go cluster_name type with
-- constants is a data type; testnet is a name that `Parse` refuses, so no value of it goes around.
use vtessera.Common.{Bool, true, false, ◌||◌, if◌then◌else◌, String, str_eq, Result, ok, err}

pub data Cluster : Type 0 where
  mainnet_beta devnet localnet : Cluster

pub data ClusterError : Type 0 where
  unknown_cluster unsupported cluster_mismatch : ClusterError

-- `Parse`, the name in lower case and has no space around it.
unfoldable pub parse_cluster : String → Result ClusterError Cluster
parse_cluster name =
    if str_eq name ""
    then err unknown_cluster
    else if str_eq name "testnet"
    then err unsupported
    else if str_eq name "mainnet-beta"
    then ok mainnet_beta
    else if str_eq name "devnet"
    then ok devnet
    else if str_eq name "localnet"
    then ok localnet
    else err unknown_cluster

unfoldable pub cluster_name : Cluster → String
cluster_name mainnet_beta = "mainnet-beta"
cluster_name devnet = "devnet"
cluster_name localnet = "localnet"

unfoldable pub cluster_eq : Cluster → Cluster → Bool
unfolding cluster_name
cluster_eq a b = str_eq (cluster_name a) (cluster_name b)

-- `GenesisHash`, empty for a chain that has no pin.
abbrev pub genesis_pin : Cluster → String
genesis_pin mainnet_beta = "5eykt4UsFv8P8NJdTREpY1vzqKqZKvdpKuc147dw2N9d"
genesis_pin devnet = "EtWTRABZaYq6iMfeYKouRu166VU2xqa1wcaWoxPkrZBG"
genesis_pin localnet = ""

unfoldable pub is_production : Cluster → Bool
is_production mainnet_beta = true
is_production _ = false

unfoldable pub allows_extra_mints : Cluster → Bool
allows_extra_mints localnet = true
allows_extra_mints _ = false

-- `Verify`
unfoldable pub verify_genesis : Cluster → String → Result ClusterError (Unit {0})
verify_genesis c reported =
    if str_eq (genesis_pin c) "" || str_eq reported (genesis_pin c)
    then ok tt
    else err cluster_mismatch
