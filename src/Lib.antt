-- ===== src/Lib.antt =====
-- The verification library of vtessera, an agent-to-agent marketplace: agents publish offers, take
-- them up as trades, and receive a signed tessera for each completed trade, under spending caps in
-- dollars.
--
-- Which file models which part of the repository (paths from its root):
--   Bytes         strings as bytes, with what the code uses of Go's strings and strconv
--   Money         internal/money/money.go: canonical decimal amounts and exact base units
--   Domain        internal/domain/domain.go: the records, states and field validation
--   Limits        internal/limits/limits.go: USD rates, caps, ceilings, and the price cache
--   Store         internal/store: the tables of a trade, as lists of rows, with the queries of
--                 trades.go, limits.go, settlement.go, offers.go and agents.go as functions;
--                 the settlement requests are in Store/Settlement
--   Cluster       internal/cluster/cluster.go: the chains and the pins of their genesis hashes
--   Tokens        internal/tokens/tokens.go: the governed mints and the registry of a cluster
--   Fees          internal/fees/fees.go: the fee of a settlement
--   Settlement    internal/settlement: the terms (terms.go), the canonical form of a message
--                 (canonical.go) and the verifier (verify.go)
--   Trade         internal/trade/trade.go: the table of transitions (Machine), the spending caps
--                 (Spend), the service (Service), `Create` (Opening), the other methods (Methods,
--                 Receipts), and the expiry (Sweep); settlement.go: build and confirm (Settle)
--                 and the wait for the chain (Confirm); reconcile.go: the worker (Reconcile);
--                 what they all keep is in Steps, Audit, Finality, Requests, for calls that run whole,
--                 and in Interleaved for calls that run between the transactions of others
--   Ledger        internal/ledger/ledger.go and internal/store/ledger.go: the hash-chained log
--                 (Chain), the receipts, and the ledger as the interface Trade.LedgerApi (Issue)
--   Attest        internal/attest/attest.go: the canonical bytes of an offer, a card and a probe
--                 (Encoder), and the signatures over them
--   Auth          internal/auth/auth.go: challenges, sessions and their tokens, with the table of
--                 challenges of internal/store/ledger.go
--   Agp           internal/agp: the capabilities of an offer and its announcements (Offers), the table
--                 of routes and the routing of an intent, with policies (Policy) and texts (Text)
--   Common        tests on numbers, lists over the native numbers, maps, Go's (value, error) pairs
--
-- How they interact: the trade service reads amounts through Money, prices them through Limits,
-- writes through Store, and has its receipts from a ledger behind the interface Trade.LedgerApi.
-- Routing reads the prices of offers through Money.
--
-- Conventions. A Go error keeps its sentinel and loses its message. Times and durations are whole
-- nanoseconds; a call reads the clock once. A method of the service maps the state (tables and
-- ledger) to a result and a new state; a write stays written when a later step fails, as separate
-- transactions do. What Go takes from other packages is an argument: base58, base64, Ed25519, the
-- library for tokens, the parsing and printing of floats, the text of a time, SHA-256 and the case
-- tables of Unicode, the endpoint's genesis hash, the answers of the chain and of the Solana
-- library (keys, signatures, the builders of instructions and the assembly of a message), the digests and the signature of a receipt.
-- Machine integers keep their wrap-around at 2^64. The wait for a transaction has a round for each
-- attempt of its policy, after which the code returns too. The digits of a uint64 are made with
-- fuel 20, which is enough since 2^64 < 10^20. An append to the ledger has the 3 attempts of the
-- code, and fails after them as the code does.
--
-- The state machine of a trade is a step relation (Trade.Steps): any call of any agent, the
-- operator, a sweep or the reconciler, at any time, in any order, with anything that other
-- components write elsewhere. There each call runs whole. In the program a call writes the row of a
-- trade and its event in two transactions, so Trade.Interleaved has a step for each of them, with
-- the events that are not written yet as a part of the state; a run of whole calls is one of these.
--
-- Not modelled: the Solana RPC client and the re-check of a mint (an answer here), the HTTP and
-- MCP layers, registration, configuration, probing, and the SQL engine itself, whose errors other
-- than those of the schema's constraints are left out. Of a ledger, the key ring and the
-- verification of a receipt are left out.
pub mod Common
pub mod Bytes
pub mod Agp
pub mod Attest
pub mod Auth
pub mod Cluster
pub mod Domain
pub mod Fees
pub mod Limits
pub mod Money
pub mod Settlement
pub mod Store
pub mod Tokens
pub mod Ledger
pub mod Trade
