-- ===== src/Tokens.antt =====
-- internal/tokens/tokens.go: the mints that the service governs, on one cluster. The lock around a
-- read of the registry and the projection for other packages are left out.
use vtessera.Common.{
  ℕ, Bool, true, false, not, ◌&&◌, ◌||◌, Option, none, some, List, [], ◌∷◌, ◌++◌, ltb,
  if◌then◌else◌, is_empty, String, str_eq, Dict, lookup, insert, Result, ok, err, ◌>>=◌, ◌>>◌,
  reject_if, ℤ, pos, negsuc,
}
use Prim.Native.String.{compare}
use text.Mathlib.Text.{is_lt}
use vtessera.Bytes.{Bytes}
use vtessera.Cluster.{Cluster, mainnet_beta, devnet, localnet, cluster_eq, allows_extra_mints}
use vtessera.Domain.{is_blank}
use vtessera.Store.Query.{order_by}

pub data TokenError : Type 0 where
  not_registered disabled invalid : TokenError
  ungoverned : Cluster → TokenError

-- A cluster is `none` and an authority is empty where it is not given.
pub record Token : Type 0 where
  pub address : String
  pub symbol : String
  pub decimals : ℤ
  pub enabled : Bool
  pub cluster : Option Cluster
  pub mint_authority : String
  pub freeze_authority : String

pub record Registry : Type 0 where
  pub cluster : Cluster
  pub by_mint : Dict Token
  pub elsewhere : Dict Cluster
  pub ordered : List Token

-- A row of the verified table.
pub record Governed : Type 0 where
  pub address : String
  pub symbol : String
  pub decimals : ℕ
  pub mint_authority : String
  pub freeze_authority : String

abbrev pub mainnet_mints : List Governed
mainnet_mints =
    record {
      address = "EPjFWdd5AufqSSqeM2qN1xzybapC8G4wEGGkZwyTDt1v";
      symbol = "USDC";
      decimals = 6;
      mint_authority = "BJE5MMbqXjVwjAF7oxwPYXnTXDyspzZyt4vwenNw5ruG";
      freeze_authority = "7dGbd2QZcCKcTndnHcTL8q7SMVXAkp688NTQYwrRCrar";
    }
    ∷ record {
      address = "HzwqbKZw8HxMN6bF2yFZNrht3c2iXXzpKcFu7uBEDKtr";
      symbol = "EURC";
      decimals = 6;
      mint_authority = "Hy9168u7b2Toujh8SJKtKK8DWbyaBbXPzxm337R4o4XY";
      freeze_authority = "6FF2CPcL6fat16QVJH6W27DeBcX7TSqbwY3a5wtyVJLC";
    }
    ∷ []

abbrev pub devnet_mints : List Governed
devnet_mints =
    record {
      address = "4zMMC9srt5Ri5X14GAgXhaHii3GnPAEERYPJgZJDncDU";
      symbol = "USDC";
      decimals = 6;
      mint_authority = "GrNg1XM2ctzeE2mXxXCfhcTUbejM8Z4z4wNVTy2FjMEz";
      freeze_authority = "CJtyoKSLrktozQzjERTiK3btQtiTK3nN4QrqGHLidyCT";
    }
    ∷ record {
      address = "HzwqbKZw8HxMN6bF2yFZNrht3c2iXXzpKcFu7uBEDKtr";
      symbol = "EURC";
      decimals = 6;
      mint_authority = "DuYQKfdunafuUqS7h6gugadrAiprxwtwBZFZLAMk4A99";
      freeze_authority = "DuYQKfdunafuUqS7h6gugadrAiprxwtwBZFZLAMk4A99";
    }
    ∷ []

unfoldable pub mints_for : Cluster → List Governed
mints_for mainnet_beta = mainnet_mints
mints_for devnet = devnet_mints
mints_for localnet = []

-- Does an entry have the address?
unfoldable pub has_address : String → List Token → Bool
has_address address [] = false
has_address address (e ∷ es) = str_eq e.address address || has_address address es

unfoldable pub note_rows : List Token → Cluster → List Governed → Dict Cluster → Dict Cluster
unfolding has_address
note_rows mine other [] out = out
note_rows mine other (row ∷ rows) out =
    note_rows mine other rows
      (if has_address row.address mine then out else insert row.address other out)

-- `elsewhere`: Go goes through the two chains in any order, and only one of them is not `c` unless
-- `c` is localnet; mainnet-beta is taken first here.
unfoldable pub elsewhere : Cluster → List Token → Dict Cluster
unfolding note_rows
elsewhere c mine =
    let first =
      if cluster_eq mainnet_beta c then [] else note_rows mine mainnet_beta mainnet_mints [] in
    if cluster_eq devnet c then first else note_rows mine devnet devnet_mints first

-- symbol, address
unfoldable pub listed_before : Token → Token → Bool
listed_before s t =
    if str_eq s.symbol t.symbol
    then is_lt (compare s.address t.address)
    else is_lt (compare s.symbol t.symbol)

abbrev out_of_scale : ℤ → Bool
out_of_scale (negsuc n) = true
out_of_scale (pos n) = ltb 9 n

-- Parameter: `solana.PublicKeyFromBase58`, `none` for an error.
module _ (public_key : String → Option Bytes) where
  abbrev pub is_key : String → Bool
  is_key address = elim (public_key address) [ none ↦ false | some k ↦ true ]

  unfoldable pub validate_token : Token → Result TokenError (Unit {0})
  validate_token t = do
    reject_if (not (is_key t.address)) invalid
    reject_if (is_blank t.symbol) invalid
    reject_if (out_of_scale t.decimals) invalid
    reject_if (not (str_eq t.mint_authority "" || is_key t.mint_authority)) invalid
    reject_if (not (str_eq t.freeze_authority "" || is_key t.freeze_authority)) invalid

  -- The loop of `New` over the entries.
  unfoldable pub add_entries : Cluster → List Token → Dict Token → Result TokenError (Dict Token)
  unfolding validate_token
  add_entries c [] by_mint = ok by_mint
  add_entries c (e ∷ es) by_mint =
      let rest = add_entries c es (insert e.address (record e { cluster = some c }) by_mint) in
      do validate_token e; elim (lookup e.address by_mint) [ some t ↦ err invalid | none ↦ rest ]

  unfoldable pub new_registry : Cluster → List Token → Result TokenError Registry
  unfolding add_entries elsewhere listed_before
  new_registry c entries = do
    by_mint ← add_entries c entries []
    ok (record {
      cluster = c;
      by_mint = by_mint;
      elsewhere = elsewhere c entries;
      ordered = order_by listed_before entries;
    })

  abbrev pub entry_of_mint : Cluster → Governed → Token
  entry_of_mint c row = record {
    address = row.address;
    symbol = row.symbol;
    decimals = pos row.decimals;
    enabled = true;
    cluster = some c;
    mint_authority = row.mint_authority;
    freeze_authority = row.freeze_authority;
  }

  abbrev pub entries_of_mints : Cluster → List Governed → List Token
  entries_of_mints c [] = []
  entries_of_mints c (row ∷ rows) = entry_of_mint c row ∷ entries_of_mints c rows

  -- `ForCluster`
  unfoldable pub for_cluster : Cluster → List Token → Result TokenError Registry
  unfolding new_registry
  for_cluster c extra = do
    reject_if (not (is_empty extra) && not (allows_extra_mints c)) invalid
    new_registry c (entries_of_mints c (mints_for c) ++ extra)

-- `Enabled`
unfoldable pub enabled : Registry → String → Result TokenError Token
enabled r address = elim (lookup address r.by_mint) [
  | none ↦ elim (lookup address r.elsewhere) [
    | none ↦ err not_registered
    | some other ↦ err (ungoverned other)
  ]
  | some t ↦ if t.enabled then ok t else err disabled
]
