-- ===== src/Handler/Totals.antt =====
-- The total that a list is answered with.
use kredit_plus.Base.{ℕ, pos, Bool, true, false, if◌then◌else◌, List, [], ◌≡◌, ap, ◌∙◌}
use kredit_plus.Entity.Error.{Uuid}
use kredit_plus.Entity.Asset.{Asset, AssetResponse, AssetFilterRepository}
use kredit_plus.Entity.Asset as Assets
use kredit_plus.Entity.Transaction.{Transaction, TransactionResponse}
use kredit_plus.Entity.Transaction as Transactions
use kredit_plus.Platform.Table.{ok, count_if}
use kredit_plus.Platform.World.{World, Platform}
use kredit_plus.Platform.Laws.{IsPlatform}
use kredit_plus.Platform.Monad.{pure}
use kredit_plus.Platform.Monad.Outcomes.{after_bind, after_guard, after_query, pure-ok, wrap-ok}
use kredit_plus.Repository.Asset as AssetRepo
use kredit_plus.Repository.Asset.{passes}
use kredit_plus.Repository.Transaction as TransactionRepo
use kredit_plus.Repository.Transaction.{of_customer}
use kredit_plus.Service.Asset as AssetService
use kredit_plus.Service.Transaction as TransactionService
use kredit_plus.Response.{with_pagination}
use kredit_plus.Handler.{Request, Http, parsed, assets, transactions, send, asked_page}
use kredit_plus.Handler.Asset as AssetHandler
use kredit_plus.Handler.Transaction as TransactionHandler
use kredit_plus.Handler.Opening.{parsed_then, answer-ok}

module _ (p : Platform) where
  module _ (f : AssetFilterRepository) (n : ℕ) (w : World) {rows : List Asset} {total : ℕ}
      {w' : World} where
    listed_total : AssetRepo.listed p f n w ≡ (ok (rows, total), w') → total ≡ n
    unfolding AssetRepo.listed
    listed_total h = after_query _ _ _ w h λ found e h1. ap (λ r. r.1) (pure-ok _ _ h1).0

    either_total :
        (past_end : Bool)
        → (if past_end then pure ([], n) else AssetRepo.listed p f n) w ≡ (ok (rows, total), w')
        → total ≡ n
    either_total true h = ap (λ r. r.1) (pure-ok _ _ h).0
    either_total false h = listed_total h

    page_total : AssetRepo.page p f n w ≡ (ok (rows, total), w') → total ≡ n
    unfolding AssetRepo.page
    page_total h = either_total _ h

  module _ (laws : IsPlatform p) where
    assets_total :
        (f : AssetFilterRepository) (w : World) {rows : List Asset} {total : ℕ} {w' : World}
        → AssetRepo.get_all_with_filter p f w ≡ (ok (rows, total), w')
        → total ≡ count_if (passes f) w.db.assets
    unfolding AssetRepo.get_all_with_filter
    assets_total f w h = after_guard _ _ _ w h λ page_given h1.
        after_query _ _ _ w h1
          λ n counted h2. page_total f n _ h2 ∙ laws.assets.count_ok _ _ _ _ counted

    transactions_total :
        (id : Uuid) (f : Transactions.TransactionFilterRepository) (w : World)
        {rows : List Transaction} {total : ℕ} {w' : World}
        → TransactionRepo.get_all_by_customer_id p id f w ≡ (ok (rows, total), w')
        → total ≡ count_if (of_customer id f.status) w.db.transactions
    unfolding TransactionRepo.get_all_by_customer_id
    transactions_total id f w h = after_query _ _ _ w h λ n counted h1.
        after_query _ _ _ _ h1 λ rows found h2. after_query _ _ _ _ h2 λ loaded read h3.
          ap (λ r. r.1) (pure-ok _ _ h3).0 ∙ laws.transactions.count_ok _ _ _ _ counted

    assets_service_total :
        (f : Assets.AssetFilterRequest) (w : World) {rows : List AssetResponse} {total : ℕ}
        {w' : World}
        → AssetService.get_all p f w ≡ (ok (rows, total), w')
        → total ≡ count_if (passes (Assets.to_filter f)) w.db.assets
    unfolding AssetService.get_all
    assets_service_total f w h =
        after_bind _ _ w h
          λ found w1 e h1. ap (λ r. r.1) (pure-ok _ _ h1).0 ∙ assets_total (Assets.to_filter f) w e

    transactions_service_total :
        (id : Uuid) (f : Transactions.TransactionFilterRequest) (w : World)
        {rows : List TransactionResponse} {total : ℕ} {w' : World}
        → TransactionService.get_all_by_customer_id p id f w ≡ (ok (rows, total), w')
        → total ≡ count_if (of_customer id f.status) w.db.transactions
    unfolding TransactionService.get_all_by_customer_id Transactions.to_filter
    transactions_service_total id f w h = after_guard _ _ _ w h λ valid h1.
        after_bind _ _ w h1 λ found w1 e h2.
          ap (λ r. r.1) (pure-ok _ _ h2).0
          ∙ transactions_total id (Transactions.to_filter f) w (wrap-ok _ _ _ e)

  module _ (laws : IsPlatform p) (h : Http) (r : Request) (w : World) where
    -- Where the service gives the assets of a page, the total in the answer is the number of all
    -- assets that pass the filter of the query.
    pub assets_listed :
        (rows : List AssetResponse) (total : ℕ) (w' : World)
        → AssetService.get_all p (AssetHandler.asked_assets h r) w ≡ (ok (rows, total), w')
        → AssetHandler.list_assets p h r w ≡ (
          send h 200 (
              with_pagination
                (assets rows)
                "Assets retrieved successfully"
                (asked_page r).0
                (asked_page r).1
                (pos (
                  count_if
                    (passes (Assets.to_filter (AssetHandler.asked_assets h r)))
                    w.db.assets))),
          w',
        )
    unfolding AssetHandler.list_assets
    assets_listed rows total w' gives =
        answer-ok h (AssetService.get_all p (AssetHandler.asked_assets h r)) _ _ w (rows, total) w'
          gives
        ∙ ap
            (λ n. (
              send h 200 (
                  with_pagination (assets rows) "Assets retrieved successfully" (asked_page r).0
                    (asked_page r).1 (pos n)),
              w',
            ))
            (assets_service_total laws _ w gives)

    -- Where the service gives the transactions of a page, the total in the answer is the number of
    -- all transactions of the customer with the status of the query.
    pub transactions_listed :
        (id : Uuid) (rows : List TransactionResponse) (total : ℕ) (w' : World)
        → h.parse_uuid (r.params "customer_id") ≡ parsed id
        → TransactionService.get_all_by_customer_id p id (TransactionHandler.asked_transactions r) w
          ≡ (ok (rows, total), w')
        → TransactionHandler.get_all_by_customer_id p h r w ≡ (
          send h 200 (
              with_pagination
                (transactions rows)
                "Transactions retrieved successfully"
                (asked_page r).0
                (asked_page r).1
                (pos (count_if (of_customer id (r.query "status" "")) w.db.transactions))),
          w',
        )
    unfolding TransactionHandler.get_all_by_customer_id
    transactions_listed id rows total w' names gives =
        parsed_then h _ id _ _ w names
        ∙ answer-ok h
            (TransactionService.get_all_by_customer_id p id
              (TransactionHandler.asked_transactions r))
            _ _ w (rows, total) w' gives
        ∙ ap
            (λ n. (
              send h 200 (
                  with_pagination (transactions rows) "Transactions retrieved successfully"
                    (asked_page r).0 (asked_page r).1 (pos n)),
              w',
            ))
            (transactions_service_total laws id _ w gives)
