-- ===== src/Tests/Fixtures.antt =====
-- A small shop: one customer with one credit limit, and one asset, kept in memory.
use kredit_plus.Base.{pos, true, [], ◌∷◌}
use kredit_plus.Float.{of_int, zero_float}
use kredit_plus.Time.{Time}
use kredit_plus.Entity.CreditLimit.{CreditLimit, CreateCreditLimitRequest}
use kredit_plus.Entity.Customer.{Customer}
use kredit_plus.Entity.Asset.{Asset}
use kredit_plus.Entity.Transaction.{CreateTransactionRequest}
use kredit_plus.Platform.World.{World}

abbrev pub morning : Time
morning = record { year = 2024; month = 1; day = 1; nanos = 0 }

abbrev pub budi : Customer
budi = record {
  id = 1;
  nik = "3201010101010001";
  full_name = "Budi";
  legal_name = "Budi Santoso";
  birth_place = "Bogor";
  birth_date = morning;
  salary = of_int (pos 9000);
  is_active = true;
  created_at = morning;
  updated_at = morning;
  documents = [];
}

abbrev pub motorcycle : Asset
motorcycle = record {
  id = 7;
  name = "Motorcycle";
  category = "vehicle";
  description = "";
  price = of_int (pos 1000);
  created_at = morning;
  updated_at = morning;
}

abbrev pub three_months : CreditLimit
three_months = record {
  id = 5;
  customer_id = 1;
  tenor_month = pos 3;
  limit_amount = of_int (pos 5000);
  used_amount = zero_float;
  created_at = morning;
  updated_at = morning;
}

abbrev pub shop : World
shop = record {
  db = record {
    customers = budi ∷ [];
    documents = [];
    limits = three_months ∷ [];
    assets = motorcycle ∷ [];
    transactions = [];
    details = [];
  };
  cache = [];
  tick = 0;
}

-- the motorcycle in three installments
abbrev pub order : CreateTransactionRequest
order = record {
  customer_id = 1;
  asset_id = 7;
  tenor_month = pos 3;
  admin_fee = of_int (pos 20);
  interest_rate = of_int (pos 2);
  contract_number = "KP-1";
}

-- a limit for the tenor that the customer has none for
abbrev pub six_months : CreateCreditLimitRequest
six_months = record { customer_id = 1; tenor_month = pos 6; limit_amount = of_int (pos 8000) }
