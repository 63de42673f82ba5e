-- ===== src/Receipts/Once.antt =====
-- A key that has been answered is answered alike ever after, with no further call of the provider.
use money_machine.Base.{
  String, ◌≡◌, refl, ◌≢◌, true, Option, none, some, List, [], ◌∷◌, arith, str_eq, eq_iff, str_eq-eq,
  eq-str_eq, if◌then◌else◌, Bool-cases, Option-cases, inl, inr, ap, sym, subst, ◌∙◌, ◌⊎◌, All,
}
use money_machine.Domain.{EffectState}
use money_machine.Domain.EffectState.{confirmed, unknown}
use money_machine.Results.{Result, done, refused}
use money_machine.Receipts.{
  ListingMutation, MutationReceipt, ReadObservation, ReceiptError, ReceiptBook, Answer, get_receipt,
  put_receipt, effect_reference, build_receipt, remembered, remember, recreated, reconciled,
  created, is_settled, commit_from, commit_listing_mutation,
}

pub get_receipt-put_receipt :
    (key : String) (receipt : MutationReceipt) (book : ReceiptBook)
    → get_receipt key (put_receipt receipt book)
      ≡ (if str_eq receipt.idempotency_key key then some receipt else get_receipt key book)
unfolding get_receipt put_receipt
get_receipt-put_receipt key receipt [] = refl
get_receipt-put_receipt key receipt (r ∷ book) = ground (
  arith,
  get_receipt-put_receipt key receipt book,
  eq_iff receipt.idempotency_key key,
  eq_iff r.idempotency_key key,
  eq_iff r.idempotency_key receipt.idempotency_key,
)

build_receipt-built :
    (trim : String → String) (forbidden : List String) (m : ListingMutation)
    (id hash : Option String) (effect : EffectState) {receipt : MutationReceipt}
    → build_receipt trim forbidden m id hash effect ≡ done receipt
    → (receipt.idempotency_key ≡ trim m.idempotency_key) × (receipt.effect_state ≡ effect)
unfolding build_receipt effect_reference
build_receipt-built trim forbidden m id hash effect h = ground arith

module _ {S : Type 0} (trim : String → String) (create : String → S → Option String × S)
    (read : String → S → ReadObservation × S)
    (hash : ListingMutation → Option String → EffectState → String) where
  -- the answer is a new receipt under the trimmed key, beside the other keys' receipts
  abbrev pub IsAdded : ListingMutation → ReceiptBook → MutationReceipt → ReceiptBook → Type 0
  IsAdded m book receipt book' =
      (receipt.idempotency_key ≡ trim m.idempotency_key)
      × (get_receipt (trim m.idempotency_key) book' ≡ some receipt)
      × ((k : String) → k ≢ trim m.idempotency_key → get_receipt k book' ≡ get_receipt k book)

  -- What a commit returns is a CONFIRMED or UNKNOWN receipt: the one of the book, or a new one. What it
  -- raises leaves the book as it was.
  abbrev pub Committed : ListingMutation → ReceiptBook → Answer trim create read hash → Type 0
  Committed m book (done receipt, book', provider) =
      (is_settled receipt.effect_state ≡ true)
      × (((get_receipt m.idempotency_key book ≡ some receipt) × (book' ≡ book))
          ⊎ IsAdded m book receipt book')
  Committed m book (refused e, book', provider) = book' ≡ book

  remembered-Committed :
      (m : ListingMutation) (book : ReceiptBook) (provider : S)
      (r : Result ReceiptError MutationReceipt)
      → ((receipt : MutationReceipt)
          → r ≡ done receipt
          → (receipt.idempotency_key ≡ trim m.idempotency_key)
            × (is_settled receipt.effect_state ≡ true))
      → Committed m book (remembered trim create read hash book provider r)
  unfolding remembered
  remembered-Committed m book provider (refused e) h = refl
  remembered-Committed m book provider (done receipt) h =
      let (key, settled) = h receipt refl in
      (
        settled,
        inr (
          key,
          ground (
            arith,
            get_receipt-put_receipt (trim m.idempotency_key) receipt book,
            eq_iff receipt.idempotency_key (trim m.idempotency_key),
          ),
          λ k other.
              ground
                (arith, get_receipt-put_receipt k receipt book, eq_iff receipt.idempotency_key k),
        ),
      )

  remember-Committed :
      (m : ListingMutation) (book : ReceiptBook) (provider : S) (id : Option String)
      (effect : EffectState)
      → is_settled effect ≡ true
      → Committed m book (remember trim create read hash book provider m id effect)
  unfolding remember
  remember-Committed m book provider id effect settled =
      remembered-Committed m book provider
        (build_receipt trim [] m id (some (hash m id effect)) effect)
        (λ receipt built.
          let (key, state) =
            build_receipt-built trim [] m id (some (hash m id effect)) effect built in
          (key, ap is_settled state ∙ settled))

  recreated-Committed :
      (m : ListingMutation) (book : ReceiptBook) (answer : Option String × S)
      → Committed m book (recreated trim create read hash book m answer)
  unfolding recreated
  recreated-Committed m book (none, provider) = refl
  recreated-Committed m book (some id, provider) =
      remember-Committed m book provider (some id) confirmed refl

  reconciled-Committed :
      (m : ListingMutation) (book : ReceiptBook) (seen : ReadObservation) (provider : S)
      → Committed m book (reconciled trim create read hash book m seen provider)
  unfolding reconciled
  reconciled-Committed m book seen provider = elim (Bool-cases seen.observed) [
    | inr unseen ↦ rw unseen refl
    | inl observed ↦ elim (Bool-cases seen.is_unknown) [
      | inl doubtful ↦
          rw (observed, doubtful) (remember-Committed m book provider none unknown refl)
      | inr clear ↦ elim (Option-cases seen.provider_id) [
        | inl missing ↦
            rw (observed, clear, missing)
              (recreated-Committed m book (create m.idempotency_key provider))
        | inr (id, found) ↦
            rw (observed, clear, found)
              (remember-Committed m book provider (some id) confirmed refl)
      ]
    ]
  ]

  created-Committed :
      (m : ListingMutation) (book : ReceiptBook) (answer : Option String × S)
      → Committed m book (created trim create read hash book m answer)
  unfolding created
  created-Committed m book (some id, provider) =
      remember-Committed m book provider (some id) confirmed refl
  created-Committed m book (none, provider) =
      reconciled-Committed m book (read m.idempotency_key provider).0
        (read m.idempotency_key provider).1

  commit_from-Committed :
      (m : ListingMutation) (book : ReceiptBook) (provider : S) (existing : Option MutationReceipt)
      → get_receipt m.idempotency_key book ≡ existing
      → Committed m book (commit_from trim create read hash existing book provider m)
  unfolding commit_from
  commit_from-Committed m book provider none found =
      created-Committed m book (create m.idempotency_key provider)
  commit_from-Committed m book provider (some existing) found =
      elim (Bool-cases (is_settled existing.effect_state)) [
        | inl settled ↦ rw settled (settled, inl (found, refl))
        | inr pending ↦ rw pending (created-Committed m book (create m.idempotency_key provider))
      ]

  -- A commit that returns a receipt returns a CONFIRMED or UNKNOWN one: that which the book has under
  -- the mutation's key, with the book as it was, or a new one under the key without the white space around
  -- it, which the book then gives for that trimmed key, beside the other keys' receipts. One that raises
  -- leaves no trace in the book.
  pub commit_listing_mutation-Committed :
      (m : ListingMutation) (book : ReceiptBook) (provider : S)
      → Committed m book (commit_listing_mutation trim create read hash book provider m)
  unfolding commit_listing_mutation
  commit_listing_mutation-Committed m book provider =
      commit_from-Committed m book provider (get_receipt m.idempotency_key book) refl

  -- the database and the provider after some commits, whatever they answer
  unfoldable pub commit_all : List ListingMutation → ReceiptBook → S → ReceiptBook × S
  commit_all [] book provider = (book, provider)
  commit_all (m ∷ mutations) book provider =
      let (answer, book', provider') =
        commit_listing_mutation trim create read hash book provider m in
      commit_all mutations book' provider'

  -- a settled receipt is answered again, with no call of the provider
  again :
      (m : ListingMutation) (book : ReceiptBook) (provider : S) {receipt : MutationReceipt}
      → get_receipt m.idempotency_key book ≡ some receipt
      → is_settled receipt.effect_state ≡ true
      → commit_listing_mutation trim create read hash book provider m
        ≡ (done receipt, book, provider)
  unfolding commit_listing_mutation commit_from
  again m book provider found settled = rw (found, settled)

  -- the key has no white space around it
  abbrev pub IsTrimmed : ListingMutation → Type 0
  IsTrimmed m = trim m.idempotency_key ≡ m.idempotency_key

  -- a commit under a trimmed key leaves the receipts of the other keys alone
  other_key :
      (m : ListingMutation) (key : String) (book : ReceiptBook)
      (answer : Answer trim create read hash)
      → IsTrimmed m
      → Committed m book answer
      → key ≢ m.idempotency_key
      → get_receipt key answer.1 ≡ get_receipt key book
  other_key m key book (done receipt, book', provider) trimmed (settled, inl (found, same))
        differs =
      ap (get_receipt key) same
  other_key m key book (done receipt, book', provider) trimmed (settled, inr (own, there, others))
        differs =
      others key (λ e. differs (e ∙ trimmed))
  other_key m key book (refused e, book', provider) trimmed c differs = ap (get_receipt key) c

  -- the answer to a trimmed key is in the book
  in_book :
      (m : ListingMutation) (book book' : ReceiptBook) (provider : S) (receipt : MutationReceipt)
      → IsTrimmed m
      → Committed m book (done receipt, book', provider)
      → get_receipt m.idempotency_key book' ≡ some receipt
  in_book m book book' provider receipt trimmed (settled, inl (found, same)) =
      ap (get_receipt m.idempotency_key) same ∙ found
  in_book m book book' provider receipt trimmed (settled, inr (own, there, others)) =
      subst (λ k. get_receipt k book' ≡ some receipt) trimmed there

  -- no later commit changes a settled receipt
  keeps_settled :
      (key : String) (receipt : MutationReceipt) (m : ListingMutation) (book : ReceiptBook)
      (provider : S)
      → IsTrimmed m
      → get_receipt key book ≡ some receipt
      → is_settled receipt.effect_state ≡ true
      → get_receipt key (commit_listing_mutation trim create read hash book provider m).1
        ≡ some receipt
  keeps_settled key receipt m book provider trimmed found settled =
      elim (Bool-cases (str_eq key m.idempotency_key)) [
        | inl same ↦
            let e = str_eq-eq key m.idempotency_key same in
            let unchanged =
              again m book provider (subst (λ k. get_receipt k book ≡ some receipt) e found)
                settled in
            ap (λ (a : Answer trim create read hash). get_receipt key a.1) unchanged ∙ found
        | inr other ↦
            let differs : key ≢ m.idempotency_key =
              λ e. cc (eq-str_eq key m.idempotency_key e, other) in
            other_key m key book (commit_listing_mutation trim create read hash book provider m)
              trimmed (commit_listing_mutation-Committed m book provider) differs
            ∙ found
      ]

  commit_all_keeps :
      (key : String) (receipt : MutationReceipt) (mutations : List ListingMutation)
      (book : ReceiptBook) (provider : S)
      → All IsTrimmed mutations
      → get_receipt key book ≡ some receipt
      → is_settled receipt.effect_state ≡ true
      → get_receipt key (commit_all mutations book provider).0 ≡ some receipt
  unfolding commit_all
  commit_all_keeps key receipt [] book provider trimmed found settled = found
  commit_all_keeps key receipt (m ∷ mutations) book provider trimmed found settled =
      commit_all_keeps key receipt mutations
        (commit_listing_mutation trim create read hash book provider m).1
        (commit_listing_mutation trim create read hash book provider m).2 trimmed.1
        (keeps_settled key receipt m book provider trimmed.0 found settled) settled

  -- Once a commit under a key without white space around it has answered with a receipt, every later commit
  -- under that key gives the same receipt and calls the provider no more, whatever has been committed in
  -- between under such keys: neither a created listing nor one whose creation is unknown is created again.
  pub committed_once :
      (m m' : ListingMutation) (mutations : List ListingMutation) (book book' : ReceiptBook)
      (provider provider' : S) {receipt : MutationReceipt}
      → IsTrimmed m
      → All IsTrimmed mutations
      → commit_listing_mutation trim create read hash book provider m
        ≡ (done receipt, book', provider')
      → m'.idempotency_key ≡ m.idempotency_key
      → let (later, now) = commit_all mutations book' provider' in
        commit_listing_mutation trim create read hash later now m' ≡ (done receipt, later, now)
  committed_once m m' mutations book book' provider provider' {receipt} trimmed all_trimmed h same =
      let committed =
        subst (Committed m book) h (commit_listing_mutation-Committed m book provider) in
      let kept =
        commit_all_keeps m.idempotency_key receipt mutations book' provider' all_trimmed
          (in_book m book book' provider' receipt trimmed committed) committed.0 in
      again m' (commit_all mutations book' provider').0 (commit_all mutations book' provider').1
        (subst (λ k. get_receipt k (commit_all mutations book' provider').0 ≡ some receipt)
          (sym same) kept)
        committed.0
