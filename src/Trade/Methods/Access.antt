-- ===== src/Trade/Methods/Access.antt =====
-- Who may touch a trade: `partyTrade` of internal/trade/trade.go and the methods that call it.
use vtessera.Common.{ℕ, ◌≡◌, refl, false, some, String, err}
use vtessera.Domain.{Trade, party}
use vtessera.Store.{get_trade}
use vtessera.Trade.LedgerApi.{LedgerApi}
use vtessera.Trade.Monad.{Service, World, not_party, ◌>>=◌}
use vtessera.Trade.Monad.Runs.{bind-failed}
use vtessera.Trade.Service.{party_trade, read_trade}
use vtessera.Trade.Methods.{begin_negotiation, transition, accept, cancel, dispute, get}
use vtessera.Trade.Receipts.{tessera, do_record}

party_trade-outsider :
    {L : Type 0} (actor id : String) (w : World L) (t : Trade)
    → get_trade w.db id ≡ some t
    → party t actor ≡ false
    → party_trade actor id w ≡ (err not_party, w)
unfolding party_trade read_trade ◌>>=◌
party_trade-outsider actor id w t h k = rw (h, k) refl

-- An agent that is neither the buyer nor the seller of a trade is refused by every method, at any
-- time, and neither the tables nor the ledger change.
pub outsider_refused :
    (api : LedgerApi) (svc : Service) (now : ℕ) (actor id : String) (w : World api.State)
    (t : Trade)
    → get_trade w.db id ≡ some t
    → party t actor ≡ false
    → (begin_negotiation now actor id w ≡ (err not_party, w))
      × (accept now actor id w ≡ (err not_party, w))
      × (cancel svc now actor id w ≡ (err not_party, w))
      × (dispute now actor id w ≡ (err not_party, w))
      × (do_record api svc now actor id w ≡ (err not_party, w))
      × (get actor id w ≡ (err not_party, w))
      × (tessera api actor id w ≡ (err not_party, w))
unfolding begin_negotiation transition accept cancel dispute do_record get tessera
outsider_refused api svc now actor id w t h k =
    let stop = party_trade-outsider actor id w t h k in
    (
      bind-failed _ _ w not_party stop,
      bind-failed _ _ w not_party stop,
      bind-failed _ _ w not_party stop,
      bind-failed _ _ w not_party stop,
      bind-failed _ _ w not_party stop,
      bind-failed _ _ w not_party stop,
      bind-failed _ _ w not_party stop,
    )
