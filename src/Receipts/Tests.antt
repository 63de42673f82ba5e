-- ===== src/Receipts/Tests.antt =====
-- A creation that times out and is found by the read.
use money_machine.Base.{
  String, ◌≡◌, refl, Bool, true, false, Option, none, some, [], ◌∷◌, is_blank, strip, strip_end,
}
use money_machine.Domain.{EffectState}
use money_machine.Domain.EffectState.{confirmed}
use money_machine.Results.{done}
use money_machine.Receipts.{
  ListingMutation, MutationReceipt, ReadObservation, get_receipt, put_receipt, build_receipt,
  remembered, remember, reconciled, effect_reference, created, commit_from, commit_listing_mutation,
}
use money_machine.Receipts.Once.{
  Committed, commit_all, commit_listing_mutation-Committed, committed_once,
}

-- a provider that counts nothing: its first creation times out, and the listing is there
abbrev create : String → Bool → Option String × Bool
create key false = (none, true)
create key true = (some "listing", true)

abbrev read : String → Bool → ReadObservation × Bool
read key timed_out =
    (record { observed = true; provider_id = some "listing"; is_unknown = false }, timed_out)

abbrev hash : ListingMutation → Option String → EffectState → String
hash mutation id effect = "abc"

abbrev mutation : String → ListingMutation
mutation key = record {
  operation = "create";
  listing_target = "shop";
  pre_state = "absent";
  expected_post_state = "draft";
  idempotency_key = key;
}

abbrev receipt : MutationReceipt
receipt = record {
  operation = "create";
  listing_target = "shop";
  pre_state = "absent";
  expected_post_state = "draft";
  provider_id = some "listing";
  response_hash = "abc";
  idempotency_key = "k";
  effect_state = confirmed;
  effect = record {
    idempotency_key = "k";
    provider = "etsy";
    operation = "create";
    provider_object_id = some "listing";
    effect_state = confirmed;
    observed_at = 1792108800;
    reconciliation_attempt = 0;
  };
}

committed :
    commit_listing_mutation strip create read hash [] false (mutation "k")
    ≡ (done receipt, receipt ∷ [], true)
unfolding commit_listing_mutation commit_from created reconciled remember remembered build_receipt
    effect_reference get_receipt put_receipt is_blank strip strip_end
committed = refl

commit_listing_mutation-Committed_example :
    Committed strip create read hash
      (mutation "k")
      []
      (commit_listing_mutation strip create read hash [] false (mutation "k"))
commit_listing_mutation-Committed_example =
    commit_listing_mutation-Committed strip create read hash (mutation "k") [] false

trimmed_k : strip "k" ≡ "k"
unfolding strip strip_end is_blank
trimmed_k = refl

trimmed_j : strip "j" ≡ "j"
unfolding strip strip_end is_blank
trimmed_j = refl

-- A key with white space around it is stored under another one, and not found again.
blank_key :
    commit_listing_mutation strip create read hash (receipt ∷ []) true (mutation " k ")
    ≡ (done receipt, receipt ∷ [], true)
unfolding commit_listing_mutation commit_from created reconciled remember remembered build_receipt
    effect_reference get_receipt put_receipt is_blank strip strip_end
blank_key = refl

committed_once_example :
    let (later, now) = commit_all strip create read hash (mutation "j" ∷ []) (receipt ∷ []) true in
    commit_listing_mutation strip create read hash later now (mutation "k")
    ≡ (done receipt, later, now)
committed_once_example =
    committed_once strip create read hash (mutation "k") (mutation "k") (mutation "j" ∷ []) []
      (receipt ∷ []) false true trimmed_k (trimmed_j, tt) committed refl
