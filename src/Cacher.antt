-- ===== src/Cacher.antt =====
-- cacher/cache_key.go: the keys of the cache, over `text`, the `String` method of an identifier.
use kredit_plus.Base.{String, append, List, map}
use kredit_plus.Entity.Error.{Uuid}

-- `fmt.Sprintf("%s:%s:…", cachePrefix, prefix, …)`
prefixed : String → String → String
prefixed prefix rest = append "cache:object:" (append prefix (append ":" rest))

unfoldable pub customer_nik_key : String → String
unfolding prefixed
customer_nik_key nik = prefixed "customer" (append "nik:" nik)

module _ (text : Uuid → String) where
  unfoldable pub customer_id_key : Uuid → String
  unfolding prefixed
  customer_id_key id = prefixed "customer" (append "id:" (text id))

  unfoldable pub customer_documents_key : Uuid → String
  unfolding prefixed
  customer_documents_key id = prefixed "document" (append "customer:" (append (text id) ":all"))

  unfoldable pub customer_document_key : Uuid → String
  unfolding prefixed
  customer_document_key id = prefixed "document" (append "id:" (text id))

  unfoldable pub customer_credit_limits_key : Uuid → String
  unfolding prefixed
  customer_credit_limits_key id =
      prefixed "credit_limit" (append "customer:" (append (text id) ":all"))

  unfoldable pub credit_limit_key : Uuid → String
  unfolding prefixed
  credit_limit_key id = prefixed "credit_limit" (append "id:" (text id))

  unfoldable pub customer_transactions_key : Uuid → String
  unfolding prefixed
  customer_transactions_key id =
      prefixed "transaction" (append "customer:" (append (text id) ":all"))

  unfoldable pub transaction_key : Uuid → String
  unfolding prefixed
  transaction_key id = prefixed "transaction" (append "id:" (text id))

  unfoldable pub customer_id_keys : List Uuid → List String
  unfolding customer_id_key
  customer_id_keys ids = map customer_id_key ids

  unfoldable pub credit_limit_keys : List Uuid → List String
  unfolding credit_limit_key
  credit_limit_keys ids = map credit_limit_key ids

  unfoldable pub asset_key : Uuid → String
  asset_key id = append "asset:" (text id)
