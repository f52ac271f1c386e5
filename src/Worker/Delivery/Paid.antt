-- ===== src/Worker/Delivery/Paid.antt =====
-- What the worker of deliveries (apps/cron-worker/src/delivery/delivery.worker.ts) pays.
use cifarm_server_alternativ.Prelude.{
  ℕ, ◌≡◌, ◌≢◌, ◌⊎◌, refl, sym, ap, ◌∙◌, none, some, List, [], ◌∷◌, ◌++◌, false, ℤ, pos, ◌+ℤ◌, ◌*ℤ◌,
  ◌≤ℤ◌, inl, inr, int_laws, arith, ltb_ℤ, Bool-cases, Option-cases, List-cases,
}
use mathlib.Core.Path.{subst}
use cifarm_server_alternativ.Result.{ok, Result-cases}
use cifarm_server_alternativ.Entities.{UserEntity, UserChanges, patch, no_changes}
use cifarm_server_alternativ.Gameplay.Wallet
use cifarm_server_alternativ.Worker.Delivery.{
  ProductEntity, Delivery, DeliveryStore, DeliveryStoreLaws, Payment, add_amounts, payout, payment,
  payments, pay, deliver_users, tried,
}

-- What deliveries are worth in tokens; one whose product was removed is worth nothing.
abbrev pub worth : List Delivery → ℤ
worth [] = pos 0
worth (delivery ∷ rest) = elim delivery.product [
  | none ↦ worth rest
  | some product ↦ (product.token_amount *ℤ delivery.row.quantity) +ℤ worth rest
]

-- Every product is there.
abbrev pub HasProducts : List Delivery → Type 0
HasProducts [] = Unit
HasProducts (delivery ∷ rest) =
    ((product : ProductEntity) × (delivery.product ≡ some product)) × HasProducts rest

add_amounts-worth :
    (sum : ℤ) (deliveries : List Delivery)
    → HasProducts deliveries
    → add_amounts sum deliveries ≡ ok (sum +ℤ worth deliveries)
unfolding add_amounts
add_amounts-worth sum [] tt = ap ok (omega int_laws)
add_amounts-worth sum (delivery ∷ rest) ((product, there), more) =
    let step =
      add_amounts-worth (sum +ℤ (product.token_amount *ℤ delivery.row.quantity)) rest more
      ∙ ap ok (+ℤ_assoc sum (product.token_amount *ℤ delivery.row.quantity) (worth rest)) in
    ground (arith, there, step)
  where
    +ℤ_assoc : (a b c : ℤ) → a +ℤ b +ℤ c ≡ a +ℤ (b +ℤ c)
    +ℤ_assoc a b c = omega int_laws

-- Where the sum is computed, every product is there.
add_amounts-HasProducts :
    (sum : ℤ) (deliveries : List Delivery) {total : ℤ}
    → add_amounts sum deliveries ≡ ok total
    → HasProducts deliveries
unfolding add_amounts
add_amounts-HasProducts sum [] h = tt
add_amounts-HasProducts sum (delivery ∷ rest) {total} h = elim (Option-cases delivery.product) [
  | inl missing ↦ absurd (ground arith)
  | inr (product, there) ↦ (
    (product, there),
    add_amounts-HasProducts (sum +ℤ (product.token_amount *ℤ delivery.row.quantity)) rest
        {total = total} (ground arith),
  )
]

-- A user whose payment is computed is paid what the deliveries are worth, which is not negative, and
-- no golds.
payout-ok :
    (user : UserEntity) (deliveries : List Delivery) (changes : UserChanges)
    → payout user deliveries ≡ ok changes
    → HasProducts deliveries
      × (pos 0 ≤ℤ worth deliveries)
      × (changes ≡ record no_changes { tokens = some (worth deliveries +ℤ user.tokens) })
unfolding payout Wallet.add_tokens
payout-ok user deliveries changes h = elim (Result-cases (add_amounts (pos 0) deliveries)) [
  | inl (e, threw) ↦ absurd (ground arith)
  | inr (total, summed) ↦
      let there = add_amounts-HasProducts (pos 0) deliveries {total = total} summed in
      let worth_total : add_amounts (pos 0) deliveries ≡ ok (worth deliveries) =
        add_amounts-worth (pos 0) deliveries there ∙ ap ok (zero_add (worth deliveries)) in
      elim (Bool-cases (ltb_ℤ (worth deliveries) (pos 0))) [
        | inl negative ↦ absurd (ground arith)
        | inr fine ↦ (there, ltb_ℤ-false (worth deliveries) (pos 0) fine, ground arith)
      ]
]
  where
    zero_add : (a : ℤ) → pos 0 +ℤ a ≡ a
    zero_add a = omega int_laws

    ltb_ℤ-false : (a b : ℤ) → ltb_ℤ a b ≡ false → b ≤ℤ a
    ltb_ℤ-false a b h = ground arith

-- A user who is not, or who is just once, in a list.
pub data IsAbsent (user_id : ℕ) : List ℕ → Type 0 where
  nobody : IsAbsent user_id []
  somebody :
      (first : ℕ) (rest : List ℕ)
      → user_id ≢ first
      → IsAbsent user_id rest
      → IsAbsent user_id (first ∷ rest)

pub data IsOnce (user_id : ℕ) : List ℕ → Type 0 where
  now : (rest : List ℕ) → IsAbsent user_id rest → IsOnce user_id (user_id ∷ rest)
  later :
      (first : ℕ) (rest : List ℕ)
      → user_id ≢ first
      → IsOnce user_id rest
      → IsOnce user_id (first ∷ rest)

-- No payment is for the user, or just one is, with these changes.
data HasNone (user_id : ℕ) : List Payment → Type 0 where
  no_payment : HasNone user_id []
  for_another :
      (payment : Payment) (rest : List Payment)
      → user_id ≢ payment.user_id
      → HasNone user_id rest
      → HasNone user_id (payment ∷ rest)

data HasOne (user_id : ℕ) (changes : UserChanges) : List Payment → Type 0 where
  first_one :
      (rest : List Payment)
      → HasNone user_id rest
      → HasOne user_id changes (record { user_id = user_id; changes = changes } ∷ rest)
  later_one :
      (payment : Payment) (rest : List Payment)
      → user_id ≢ payment.user_id
      → HasOne user_id changes rest
      → HasOne user_id changes (payment ∷ rest)

module _ (store : DeliveryStore) where
  -- The rows of a user are the same.
  abbrev pub Stays : ℕ → store.State → store.State → Type 0
  Stays user_id s s' =
      (store.find_user user_id s' ≡ store.find_user user_id s)
      × (store.find_deliveries user_id s' ≡ store.find_deliveries user_id s)

  -- The user has got what the deliveries are worth, nothing else of the row has changed, and the
  -- deliveries are gone.
  pub record IsPaid (user_id : ℕ) (user : UserEntity) (deliveries : List Delivery) (s : store.State)
      : Type 0 where
    pub found :
        store.find_user user_id s ≡ some (record user { tokens = worth deliveries +ℤ user.tokens })
    pub gone : store.find_deliveries user_id s ≡ []

  module _ (laws : DeliveryStoreLaws store) where
    update_tried-Stays :
        (user_id other : ℕ) (changes : UserChanges) (s : store.State)
        → other ≢ user_id
        → Stays other s (tried store (store.update_user user_id changes s) s)
    update_tried-Stays user_id other changes s apart =
        elim (Result-cases (store.update_user user_id changes s)) [
          | inl (e, threw) ↦ ground arith
          | inr (s', done) ↦ ground (
            arith,
            laws.updated_other user_id changes s s' other done apart,
            laws.updated_deliveries user_id changes s s' other done,
          )
        ]

    delete_tried-Stays :
        (user_id other : ℕ) (s : store.State)
        → other ≢ user_id
        → Stays other s (tried store (store.delete_deliveries user_id s) s)
    delete_tried-Stays user_id other s apart =
        elim (Result-cases (store.delete_deliveries user_id s)) [
          | inl (e, threw) ↦ ground arith
          | inr (s', done) ↦ ground (
            arith,
            laws.deleted_users user_id s s' other done,
            laws.deleted_other user_id s s' other done apart,
          )
        ]

    -- What a callback has computed.
    payment-cases :
        (user_id : ℕ) (s : store.State) (due : List Payment)
        → payment store user_id s ≡ ok due
        → (due ≡ [])
          ⊎ ((changes : UserChanges) × (due ≡ record { user_id = user_id; changes = changes } ∷ []))
    unfolding payment
    payment-cases user_id s due h = elim (List-cases (store.find_deliveries user_id s)) [
      | inl nothing ↦ inl (ground arith)
      | inr (first, rest, rows) ↦ elim (Option-cases (store.find_user user_id s)) [
        | inl missing ↦ inl (ground arith)
        | inr (user, found) ↦ elim (Result-cases (payout user (first ∷ rest))) [
          | inl (e, threw) ↦ absurd (ground arith)
          | inr (changes, paid) ↦ inr (changes, ground arith)
        ]
      ]
    ]

    payments-split :
        (first : ℕ) (rest : List ℕ) (s : store.State) (due : List Payment)
        → payments store (first ∷ rest) s ≡ ok due
        → (one others : List Payment) × (payment store first s ≡ ok one)
          × (payments store rest s ≡ ok others)
          × (due ≡ one ++ others)
    unfolding payments
    payments-split first rest s due h = elim (Result-cases (payment store first s)) [
      | inl (e, threw) ↦ absurd (ground arith)
      | inr (one, computed) ↦ elim (Result-cases (payments store rest s)) [
        | inl (e, threw) ↦ absurd (ground arith)
        | inr (others, more) ↦ (one, others, computed, more, ground arith)
      ]
    ]

    payments-HasNone :
        (user_id : ℕ) (user_ids : List ℕ) (s : store.State) (due : List Payment)
        → IsAbsent user_id user_ids
        → payments store user_ids s ≡ ok due
        → HasNone user_id due
    unfolding payments
    payments-HasNone user_id _ s due IsAbsent.nobody h =
        let same : [] ≡ due = ground arith in subst (HasNone user_id) same no_payment
    payments-HasNone user_id _ s due (IsAbsent.somebody first rest apart absent) h =
        let (one, others, computed, more, split) = payments-split first rest s due h in
        let after = payments-HasNone user_id rest s others absent more in
        elim (payment-cases first s one computed) [
          | inl nothing ↦ subst (HasNone user_id) (ground arith) after
          | inr (changes, alone) ↦
              let same : record { user_id = first; changes = changes } ∷ others ≡ due =
                ground arith in
              subst (HasNone user_id) same (for_another _ others apart after)
        ]

    payments-HasOne :
        (user_id : ℕ) (user : UserEntity) (first : Delivery) (rest : List Delivery)
        (user_ids : List ℕ) (s : store.State) (due : List Payment)
        → IsOnce user_id user_ids
        → store.find_user user_id s ≡ some user
        → store.find_deliveries user_id s ≡ first ∷ rest
        → payments store user_ids s ≡ ok due
        → (changes : UserChanges) × (payout user (first ∷ rest) ≡ ok changes)
          × HasOne user_id changes due
    unfolding payment
    payments-HasOne user_id user first rest _ s due (IsOnce.now ids absent) found rows h =
        let (one, others, computed, more, split) = payments-split user_id ids s due h in
        let after = payments-HasNone user_id ids s others absent more in
        elim (Result-cases (payout user (first ∷ rest))) [
          | inl (e, threw) ↦ absurd (ground arith)
          | inr (changes, paid) ↦
              let same : record { user_id = user_id; changes = changes } ∷ others ≡ due =
                ground arith in
              (changes, paid, subst (HasOne user_id changes) same (first_one others after))
        ]
    payments-HasOne user_id user first rest _ s due (IsOnce.later next ids apart once) found rows
          h =
        let (one, others, computed, more, split) = payments-split next ids s due h in
        let (changes, paid, after) =
          payments-HasOne user_id user first rest ids s others once found rows more in
        elim (payment-cases next s one computed) [
          | inl nothing ↦ (changes, paid, subst (HasOne user_id changes) (ground arith) after)
          | inr (changes', alone) ↦
              let same : record { user_id = next; changes = changes' } ∷ others ≡ due =
                ground arith in
              (changes, paid, subst (HasOne user_id changes) same (later_one _ others apart after))
        ]

    -- The two statements of a payment.
    abbrev paid_one : Payment → store.State → store.State
    paid_one payment s =
        let updated = tried store (store.update_user payment.user_id payment.changes s) s in
        tried store (store.delete_deliveries payment.user_id updated) updated

    paid_one-Stays :
        (payment : Payment) (other : ℕ) (s : store.State)
        → other ≢ payment.user_id
        → Stays other s (paid_one payment s)
    paid_one-Stays payment other s apart =
        let updated = tried store (store.update_user payment.user_id payment.changes s) s in
        let (user1, rows1) = update_tried-Stays payment.user_id other payment.changes s apart in
        let (user2, rows2) = delete_tried-Stays payment.user_id other updated apart in
        (user2 ∙ user1, rows2 ∙ rows1)

    pay-Stays :
        (user_id : ℕ) (due : List Payment) (s : store.State)
        → HasNone user_id due
        → Stays user_id s (pay store due s)
    unfolding pay
    pay-Stays user_id _ s no_payment = (refl, refl)
    pay-Stays user_id _ s (for_another payment rest apart none_later) =
        let (user1, rows1) = paid_one-Stays payment user_id s apart in
        let (user2, rows2) = pay-Stays user_id rest (paid_one payment s) none_later in
        (user2 ∙ user1, rows2 ∙ rows1)

    -- A user with these changes, and without deliveries.
    Settled : ℕ → UserChanges → UserEntity → store.State → Type 0
    Settled user_id changes user s =
        (store.find_user user_id s ≡ some (patch changes user))
        × (store.find_deliveries user_id s ≡ [])

    pay-Settled :
        (user_id : ℕ) (changes : UserChanges) (user : UserEntity) (due : List Payment)
        (s : store.State)
        → ((user_id : ℕ) (changes : UserChanges) (t : store.State)
            → (t' : store.State) × (store.update_user user_id changes t ≡ ok t'))
        → ((user_id : ℕ) (t : store.State)
            → (t' : store.State) × (store.delete_deliveries user_id t ≡ ok t'))
        → HasOne user_id changes due
        → store.find_user user_id s ≡ some user
        → Settled user_id changes user (pay store due s)
    unfolding pay Settled
    pay-Settled user_id changes user _ s updates deletes (first_one rest none_later) found =
        let (s1, up) = updates user_id changes s in
        let (s2, down) = deletes user_id s1 in
        let at : paid_one (record { user_id = user_id; changes = changes }) s ≡ s2 =
          ground (arith, up, down) in
        let (user2, rows2) =
          pay-Stays user_id rest (paid_one (record { user_id = user_id; changes = changes }) s)
            none_later in
        (
          user2
              ∙ ap (store.find_user user_id) at
              ∙ laws.deleted_users user_id s1 s2 user_id down
              ∙ laws.updated user_id changes user s s1 up found,
          rows2 ∙ ap (store.find_deliveries user_id) at ∙ laws.deleted user_id s1 s2 down,
        )
    pay-Settled user_id changes user _ s updates deletes (later_one payment rest apart after)
          found =
        let (user1, rows1) = paid_one-Stays payment user_id s apart in
        pay-Settled user_id changes user rest (paid_one payment s) updates deletes after
          (user1 ∙ found)

    -- On rows that meet the laws and accept every statement, after a job that no callback has ended
    -- by an exception, a user who is once among those that the worker goes through and has
    -- deliveries has got what they are worth in tokens; nothing else of the row has changed, no
    -- golds either, and the deliveries are gone. The products of all of these deliveries were
    -- there, and what they are worth is 0 or more.
    pub deliver_users-IsPaid :
        (user_id : ℕ) (user : UserEntity) (first : Delivery) (rest : List Delivery)
        (user_ids : List ℕ) (s s' : store.State)
        → ((user_id : ℕ) (changes : UserChanges) (t : store.State)
            → (t' : store.State) × (store.update_user user_id changes t ≡ ok t'))
        → ((user_id : ℕ) (t : store.State)
            → (t' : store.State) × (store.delete_deliveries user_id t ≡ ok t'))
        → IsOnce user_id user_ids
        → store.find_user user_id s ≡ some user
        → store.find_deliveries user_id s ≡ first ∷ rest
        → deliver_users store user_ids s ≡ (ok tt, s')
        → HasProducts (first ∷ rest)
          × (pos 0 ≤ℤ worth (first ∷ rest))
          × IsPaid user_id user (first ∷ rest) s'
    unfolding deliver_users Settled patch
    deliver_users-IsPaid user_id user first rest user_ids s s' updates deletes once found rows h =
        elim (Result-cases (payments store user_ids s)) [
          | inl (e, threw) ↦ absurd (ground arith)
          | inr (due, computed) ↦
              let (changes, paid, one) =
                payments-HasOne user_id user first rest user_ids s due once found rows computed in
              let (there, covered, tokens) = payout-ok user (first ∷ rest) changes paid in
              let (settled, gone) =
                pay-Settled user_id changes user due s updates deletes one found in
              let last : pay store due s ≡ s' = ground arith in
              (
                there,
                covered,
                record {
                  found =
                      ap (store.find_user user_id) (sym last)
                      ∙ settled
                      ∙ ap (λ c. some (patch c user)) tokens;
                  gone = ap (store.find_deliveries user_id) (sym last) ∙ gone;
                },
              )
        ]
