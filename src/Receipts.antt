-- ===== src/Receipts.antt =====
-- src/money_machine/assets/mutation_receipt.py: one receipt for each listing mutation, and the creation
-- of the listing in the provider, at most once for each key.
pub mod Once
mod Tests
use money_machine.Base.{
  ℕ, String, Bool, true, false, not, ◌||◌, Option, none, some, List, [], ◌∷◌, str_eq, if◌then◌else◌,
  is_blank, contains_str, is_none, ◌&&◌,
}
use money_machine.Dependencies.Reasons.{contains}
use money_machine.Domain.{EffectState}
use money_machine.Domain.EffectState.{confirmed, absent, unknown}
use money_machine.Results.{Result, done, refused, check, ◌>>=◌, ◌>>◌}

pub record ListingMutation : Type 0 where
  pub operation : String
  pub listing_target : String
  pub pre_state : String
  pub expected_post_state : String
  pub idempotency_key : String

-- `EffectReference` of src/money_machine/domain/models/common.py; the time is in seconds.
pub record EffectReference : Type 0 where
  pub idempotency_key : String
  pub provider : String
  pub operation : String
  pub provider_object_id : Option String
  pub effect_state : EffectState
  pub observed_at : ℕ
  pub reconciliation_attempt : ℕ

pub record MutationReceipt : Type 0 where
  pub operation : String
  pub listing_target : String
  pub pre_state : String
  pub expected_post_state : String
  pub provider_id : Option String
  pub response_hash : String
  pub idempotency_key : String
  pub effect_state : EffectState
  pub effect : EffectReference

pub record ReadObservation : Type 0 where
  pub observed : Bool
  pub provider_id : Option String
  pub is_unknown : Bool

-- `ReceiptRejected`, `ReconciliationError` and `WriteTimeout`, with their messages, and pydantic's
-- ValidationError
pub data ReceiptError : Type 0 where
  raw_body screenshot hash_required provider_id_required : ReceiptError
  read_required write_timeout validation_error : ReceiptError

-- The receipts of the dictionary, each under the key that it names.
abbrev pub ReceiptBook : Type 0
ReceiptBook = List MutationReceipt

-- `ReceiptBook.get`
unfoldable pub get_receipt : String → ReceiptBook → Option MutationReceipt
get_receipt key [] = none
get_receipt key (receipt ∷ book) =
    if str_eq receipt.idempotency_key key then some receipt else get_receipt key book

-- `ReceiptBook.put`
unfoldable pub put_receipt : MutationReceipt → ReceiptBook → ReceiptBook
put_receipt receipt [] = receipt ∷ []
put_receipt receipt (r ∷ book) =
    let rest = put_receipt receipt book in
    if str_eq r.idempotency_key receipt.idempotency_key then receipt ∷ book else r ∷ rest

abbrev is_confirmed : EffectState → Bool
is_confirmed confirmed = true
is_confirmed _ = false

-- `_RAW_BODY_FIELDS`
abbrev raw_body_fields : List String
raw_body_fields =
    "body" ∷ "provider_response" ∷ "raw_body" ∷ "raw_response" ∷ "response" ∷ "response_body" ∷ []

reject_forbidden : List String → Result ReceiptError (Unit {0})
reject_forbidden [] = done tt
reject_forbidden (key ∷ keys) = do
  check (not (contains_str key raw_body_fields)) raw_body
  check (not (contains "screenshot" key)) screenshot
  reject_forbidden keys

abbrev is_missing : Option String → Bool
is_missing none = true
is_missing (some hash) = is_blank hash

abbrev text_or_empty : Option String → String
text_or_empty none = ""
text_or_empty (some text) = text

-- an identifier of the contracts: `NonEmptyStr`, which is kept without the white space around it
abbrev pub non_empty : (String → String) → String → Result ReceiptError String
non_empty trim text = do check (not (str_eq (trim text) "")) validation_error; done (trim text)

abbrev pub non_empty_or_none :
    (String → String) → Option String → Result ReceiptError (Option String)
non_empty_or_none trim none = done none
non_empty_or_none trim (some text) = do kept ← non_empty trim text; done (some kept)

-- `validate_effect_state`
abbrev pub fits_state : EffectState → Option String → Bool
fits_state confirmed provider_object_id = not (is_none provider_object_id)
fits_state absent provider_object_id = is_none provider_object_id
fits_state unknown provider_object_id = true

-- The construction of the `EffectReference`, with `_OBSERVED_AT`. `trim` is pydantic's `strip_whitespace`.
unfoldable pub effect_reference :
    (String → String)
    → String
    → String
    → Option String
    → EffectState
    → Result ReceiptError EffectReference
effect_reference trim idempotency_key operation provider_object_id effect_state = do
  key ← non_empty trim idempotency_key
  name ← non_empty trim operation
  object_id ← non_empty_or_none trim provider_object_id
  check (fits_state effect_state object_id) validation_error
  done (record {
    idempotency_key = key;
    provider = "etsy";
    operation = name;
    provider_object_id = object_id;
    effect_state = effect_state;
    observed_at = 1792108800;
    reconciliation_attempt = 0;
  })

unfoldable pub build_receipt :
    (String → String)
    → List String
    → ListingMutation
    → Option String
    → Option String
    → EffectState
    → Result ReceiptError MutationReceipt
unfolding reject_forbidden
build_receipt trim forbidden mutation provider_id response_hash effect_state = do
  reject_forbidden forbidden
  check (not (is_missing response_hash)) hash_required
  check (not (is_confirmed effect_state && is_none provider_id)) provider_id_required
  effect ←
      effect_reference trim mutation.idempotency_key mutation.operation provider_id effect_state
  done (record {
    operation = mutation.operation;
    listing_target = mutation.listing_target;
    pre_state = mutation.pre_state;
    expected_post_state = mutation.expected_post_state;
    provider_id = effect.provider_object_id;
    response_hash = text_or_empty response_hash;
    idempotency_key = effect.idempotency_key;
    effect_state = effect.effect_state;
    effect = effect;
  })

-- UNKNOWN and CONFIRMED receipts are answered again
abbrev pub is_settled : EffectState → Bool
is_settled absent = false
is_settled _ = true

-- The provider's double, over a state of its own: `create` gives a provider id or times out. `hash` is
-- the SHA-256 of the receipt's parts.
module _ {S : Type 0} (trim : String → String) (create : String → S → Option String × S)
    (read : String → S → ReadObservation × S)
    (hash : ListingMutation → Option String → EffectState → String) where
  -- what a call returns or raises, and what it leaves of the book and of the provider
  abbrev pub Answer : Type 0
  Answer = Result ReceiptError MutationReceipt × ReceiptBook × S

  unfoldable pub remembered : ReceiptBook → S → Result ReceiptError MutationReceipt → Answer
  remembered book provider (done receipt) = (done receipt, put_receipt receipt book, provider)
  remembered book provider (refused e) = (refused e, book, provider)

  -- `_remember`
  unfoldable pub remember : ReceiptBook → S → ListingMutation → Option String → EffectState → Answer
  remember book provider mutation provider_id effect_state = remembered book provider (
      build_receipt trim [] mutation provider_id (some (hash mutation provider_id effect_state))
        effect_state)

  -- the second creation, whose timeout is not caught
  unfoldable pub recreated : ReceiptBook → ListingMutation → Option String × S → Answer
  recreated book mutation (none, provider) = (refused write_timeout, book, provider)
  recreated book mutation (some id, provider) = remember book provider mutation (some id) confirmed

  -- `_reconcile_timeout`, from the observation on
  unfoldable pub reconciled : ReceiptBook → ListingMutation → ReadObservation → S → Answer
  reconciled book mutation seen provider =
      if not seen.observed
      then (refused read_required, book, provider)
      else if seen.is_unknown
      then remember book provider mutation none unknown
      else if not (is_none seen.provider_id)
      then remember book provider mutation seen.provider_id confirmed
      else recreated book mutation (create mutation.idempotency_key provider)

  -- the first creation, and the reconciliation of its timeout
  unfoldable pub created : ReceiptBook → ListingMutation → Option String × S → Answer
  created book mutation (some id, provider) = remember book provider mutation (some id) confirmed
  created book mutation (none, provider) =
      let (seen, provider') = read mutation.idempotency_key provider in
      reconciled book mutation seen provider'

  unfoldable pub commit_from : Option MutationReceipt → ReceiptBook → S → ListingMutation → Answer
  commit_from none book provider mutation =
      created book mutation (create mutation.idempotency_key provider)
  commit_from (some existing) book provider mutation =
      if is_settled existing.effect_state
      then (done existing, book, provider)
      else created book mutation (create mutation.idempotency_key provider)

  unfoldable pub commit_listing_mutation : ReceiptBook → S → ListingMutation → Answer
  commit_listing_mutation book provider mutation =
      commit_from (get_receipt mutation.idempotency_key book) book provider mutation
