-- ===== src/Repository/Asset/Effects.antt =====
-- Which methods of the asset repository leave the tables alone.
use kredit_plus.Entity.Error.{Uuid}
use kredit_plus.Entity.Asset.{Asset}
use kredit_plus.Platform.Table.{Fetch, found, missing, failed}
use kredit_plus.Platform.World.{Platform}
use kredit_plus.Platform.Monad.Effects.{
  ReadOnly, ReadOnly-pure, ReadOnly-raise, Atomic, Atomic-transaction, read_rules,
}
use kredit_plus.Repository.Cached.{through_cache-ReadOnly}
use kredit_plus.Repository.Asset.{found_for_deletion, load, get_by_id, create, update, delete}

module _ (p : Platform) where
  pub load-ReadOnly : (id : Uuid) → ReadOnly (load p id)
  unfolding load
  load-ReadOnly id = search read_rules

  pub get_by_id-ReadOnly : (id : Uuid) → ReadOnly (get_by_id p id)
  unfolding get_by_id
  get_by_id-ReadOnly id = through_cache-ReadOnly p _ _ _ _ (load-ReadOnly id)

  pub found_for_deletion-ReadOnly : (row : Fetch Asset) → ReadOnly (found_for_deletion p row)
  unfolding found_for_deletion
  found_for_deletion-ReadOnly (found a) = ReadOnly-pure a
  found_for_deletion-ReadOnly missing = ReadOnly-raise _
  found_for_deletion-ReadOnly (failed e) = ReadOnly-raise _

  pub create-Atomic : (a : Asset) → Atomic (create p a)
  unfolding create
  create-Atomic a = Atomic-transaction _ p

  pub update-Atomic : (a : Asset) → Atomic (update p a)
  unfolding update
  update-Atomic a = Atomic-transaction _ p

  pub delete-Atomic : (id : Uuid) → Atomic (delete p id)
  unfolding delete
  delete-Atomic id = Atomic-transaction _ p
