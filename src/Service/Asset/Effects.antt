-- ===== src/Service/Asset/Effects.antt =====
-- A failed method of the asset service leaves the tables as they were.
use kredit_plus.Entity.Error.{Uuid}
use kredit_plus.Entity.Asset.{CreateAssetRequest, UpdateAssetRequest}
use kredit_plus.Platform.World.{Platform}
use kredit_plus.Platform.Monad.Effects.{Atomic, atomic_rules}
use kredit_plus.Repository.Asset.Effects as Repo
use kredit_plus.Service.CreditLimit.Effects.{or_raise-ReadOnly}
use kredit_plus.Service.Asset.{create, update, delete}

module _ (p : Platform) where
  pub create-Atomic : (req : CreateAssetRequest) → Atomic (create p req)
  unfolding create
  create-Atomic req = search (atomic_rules, Repo.create-Atomic) depth 20

  pub update-Atomic : (id : Uuid) (req : UpdateAssetRequest) → Atomic (update p id req)
  unfolding update
  update-Atomic id req =
      search (atomic_rules, or_raise-ReadOnly, Repo.get_by_id-ReadOnly, Repo.update-Atomic) depth 20

  pub delete-Atomic : (id : Uuid) → Atomic (delete p id)
  unfolding delete
  delete-Atomic id = Repo.delete-Atomic p id
