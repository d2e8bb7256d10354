-- ===== src/Service/Gathering/Held.antt =====
-- What is received of each goroutine is what its read gave at some moment, whatever the schedule.
use kredit_plus.Base.{false, List, [], ◌∷◌, ◌≡◌, refl, ◌∙◌, arith, subst}
use kredit_plus.Entity.Transaction.{CreateTransactionRequest}
use kredit_plus.Platform.Table.{Result, ok}
use kredit_plus.Platform.World.{
  Db, World, Platform, Goroutine, reads_contract, reads_customer, reads_asset, reads_limit,
}
use kredit_plus.Platform.Laws.{IsPlatform, same_goroutine, times}
use kredit_plus.Platform.Monad.{M}
use kredit_plus.Platform.Monad.Effects.{ReadOnly}
use kredit_plus.Repository.CreditLimit as LimitRepo
use kredit_plus.Repository.CreditLimit.Effects as LimitEffects
use kredit_plus.Repository.Customer as CustomerRepo
use kredit_plus.Repository.Customer.Effects as CustomerEffects
use kredit_plus.Repository.Asset as AssetRepo
use kredit_plus.Repository.Asset.Effects as AssetEffects
use kredit_plus.Repository.Transaction as Repo
use kredit_plus.Repository.Transaction.Effects as Effects
use kredit_plus.Service.Gathering.{
  Received, nothing_received, run_goroutine, run_goroutines, gather,
}

-- The call gave the result at some moment, the tables being those of `db`.
pub record Held {A : Type 0} (m : M A) (db : Db) (x : Result A) : Type 0 where
  pub moment : World
  pub same : moment.db ≡ db
  pub gave : (m moment).0 ≡ x

module _ (p : Platform) (req : CreateTransactionRequest) where
  -- what was received of a goroutine is held
  Holds : Db → Received → Goroutine → Type 0
  Holds db r reads_contract = Held (Repo.get_by_contract_number p req.contract_number) db r.contract
  Holds db r reads_customer = Held (CustomerRepo.get_by_id p req.customer_id) db r.customer
  Holds db r reads_asset = Held (AssetRepo.get_by_id p req.asset_id) db r.asset
  Holds db r reads_limit =
      Held (LimitRepo.get_by_customer_id_and_tenor p req.customer_id req.tenor_month) db r.limit

  run_goroutine_keeps :
      (g : Goroutine) (r : Received) (w : World) → (run_goroutine p req g (r, w)).1.db ≡ w.db
  unfolding run_goroutine
  run_goroutine_keeps reads_contract r w = (Effects.get_by_contract_number-ReadOnly p _).at w
  run_goroutine_keeps reads_customer r w = (CustomerEffects.get_by_id-ReadOnly p _).at w
  run_goroutine_keeps reads_asset r w = (AssetEffects.get_by_id-ReadOnly p _).at w
  run_goroutine_keeps reads_limit r w =
      (LimitEffects.get_by_customer_id_and_tenor-ReadOnly p _ _).at w

  -- a goroutine holds its own result and keeps those of the others
  run_goroutine-Holds :
      (db : Db) (x g : Goroutine) (r : Received) (w : World)
      → w.db ≡ db
      → (same_goroutine x g ≡ false → Holds db r g)
      → Holds db (run_goroutine p req x (r, w)).0 g
  unfolding run_goroutine Holds same_goroutine
  run_goroutine-Holds db reads_contract reads_contract r w e k = record {
    moment = w;
    same = e;
    gave = refl;
  }
  run_goroutine-Holds db reads_contract reads_customer r w e k = k refl
  run_goroutine-Holds db reads_contract reads_asset r w e k = k refl
  run_goroutine-Holds db reads_contract reads_limit r w e k = k refl
  run_goroutine-Holds db reads_customer reads_contract r w e k = k refl
  run_goroutine-Holds db reads_customer reads_customer r w e k = record {
    moment = w;
    same = e;
    gave = refl;
  }
  run_goroutine-Holds db reads_customer reads_asset r w e k = k refl
  run_goroutine-Holds db reads_customer reads_limit r w e k = k refl
  run_goroutine-Holds db reads_asset reads_contract r w e k = k refl
  run_goroutine-Holds db reads_asset reads_customer r w e k = k refl
  run_goroutine-Holds db reads_asset reads_asset r w e k = record {
    moment = w;
    same = e;
    gave = refl;
  }
  run_goroutine-Holds db reads_asset reads_limit r w e k = k refl
  run_goroutine-Holds db reads_limit reads_contract r w e k = k refl
  run_goroutine-Holds db reads_limit reads_customer r w e k = k refl
  run_goroutine-Holds db reads_limit reads_asset r w e k = k refl
  run_goroutine-Holds db reads_limit reads_limit r w e k = record {
    moment = w;
    same = e;
    gave = refl;
  }

  run_goroutines-Holds :
      (db : Db) (gs : List Goroutine) (g : Goroutine) (r : Received) (w : World)
      → w.db ≡ db
      → (times g gs ≡ 0 → Holds db r g)
      → Holds db (run_goroutines p req gs (r, w)).0 g
  unfolding run_goroutines
  run_goroutines-Holds db [] g r w e k = k refl
  run_goroutines-Holds db (x ∷ gs) g r w e k =
      let s = run_goroutine p req x (r, w) in
      run_goroutines-Holds db gs g s.0 s.1 (run_goroutine_keeps x r w ∙ e)
        (λ z. run_goroutine-Holds db x g r w e (λ f. k (ground (arith, z, f))))

  run_goroutines_keeps :
      (gs : List Goroutine) (r : Received) (w : World)
      → (run_goroutines p req gs (r, w)).1.db ≡ w.db
  unfolding run_goroutines
  run_goroutines_keeps [] r w = refl
  run_goroutines_keeps (x ∷ gs) r w =
      let s = run_goroutine p req x (r, w) in
      run_goroutines_keeps gs s.0 s.1 ∙ run_goroutine_keeps x r w

  pub gather-ReadOnly : ReadOnly (gather p req)
  unfolding gather
  gather-ReadOnly = record { at = λ w. run_goroutines_keeps (p.schedule w.tick) nothing_received w }

  -- the four results, each of its own read
  pub record IsGathered (db : Db) (r : Received) : Type 0 where
    pub contract : Held (Repo.get_by_contract_number p req.contract_number) db r.contract
    pub customer : Held (CustomerRepo.get_by_id p req.customer_id) db r.customer
    pub asset : Held (AssetRepo.get_by_id p req.asset_id) db r.asset
    pub limit :
        Held (LimitRepo.get_by_customer_id_and_tenor p req.customer_id req.tenor_month) db r.limit

  -- Whatever order the goroutines read in, what is received of each is what its own read gave at
  -- some moment of the same tables.
  pub gather-IsGathered :
      (laws : IsPlatform p) (w : World) {r : Received} {w' : World}
      → gather p req w ≡ (ok r, w')
      → IsGathered w.db r
  unfolding gather Holds
  gather-IsGathered laws w {r} {w'} h =
      let received : (run_goroutines p req (p.schedule w.tick) (nothing_received, w)).0 ≡ r = cc in
      let held = λ (g : Goroutine).
        subst (λ (x : Received). Holds w.db x g) received
          (run_goroutines-Holds w.db (p.schedule w.tick) g nothing_received w refl
            (λ z. absurd (omega (arith, laws.schedule_once w.tick g, z)))) in
      record {
        contract = held reads_contract;
        customer = held reads_customer;
        asset = held reads_asset;
        limit = held reads_limit;
      }
