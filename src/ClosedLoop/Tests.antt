-- ===== src/ClosedLoop/Tests.antt =====
-- A weekly plan of two records, and the confirmation of a cull.
use money_machine.Base.{ℕ, String, ◌≡◌, refl, true, none, some, List, [], ◌∷◌, exists}
use money_machine.Results.{done}
use money_machine.ClosedLoop.{
  StoredTrigger, CollectionRecord, collection, shop_review, weekly_review, weekly_key, weekly_row,
  has_trigger, insert, persist_record, persist_weekly_plan,
}
use money_machine.ClosedLoop.Ledger.{persist_weekly_plan_once}

abbrev text : ℕ → String
text n = "t"

abbrev plan : List CollectionRecord
plan =
    record { kind = collection; window_start = 5; listing_id = some 7 }
    ∷ record { kind = shop_review; window_start = 5; listing_id = none }
    ∷ []

abbrev rows : List StoredTrigger
rows =
    record {
      shop_id = 1;
      trigger_kind = weekly_review;
      trigger_key = "weekly:t:collection:t:t";
      cron_expression = "0 9 * * 1";
      next_fire_at = 30;
      active = true;
    }
    ∷ record {
      shop_id = 1;
      trigger_kind = weekly_review;
      trigger_key = "weekly:t:shop-review:t";
      cron_expression = "0 9 * * 1";
      next_fire_at = 30;
      active = true;
    }
    ∷ []

persisted : persist_weekly_plan text text 1 30 plan [] ≡ (done rows, rows)
unfolding persist_weekly_plan persist_record weekly_key weekly_row insert has_trigger exists
persisted = refl

persist_weekly_plan_once_example : persist_weekly_plan text text 1 99 plan rows ≡ (done [], rows)
persist_weekly_plan_once_example = persist_weekly_plan_once text text 1 30 99 plan [] rows persisted
