-- ===== src/Tests/Memory/Rows.antt =====
-- Lookups in lists of rows: what is found, and what an update or a removal makes of it.
use cifarm_server_alternativ.Prelude.{
  ℕ, ◌≡◌, refl, Bool, true, false, not, Option, none, some, List, [], ◌∷◌, map, ◌==◌, arith, ==→eq,
  Bool-cases, inl, inr, if◌then◌else◌,
}
use cifarm_server_alternativ.Entities.{PlacedItemType, placed_item_type_eq}
use cifarm_server_alternativ.Database.{PlacedItemWhere, Meets}
use cifarm_server_alternativ.Tests.Memory.{
  PlacedRow, first, every, meets, meets_type, load, is_wanted,
}

module _ {A : Type 0} where
  pub first_meets : (p : A → Bool) (rows : List A) {a : A} → first p rows ≡ some a → p a ≡ true
  first_meets p [] h = absurd (ground arith)
  first_meets p (b ∷ rest) {a} h = elim (Bool-cases (p b)) [
    | inl here ↦ ground arith
    | inr later ↦ first_meets p rest {a = a} (ground arith)
  ]

  -- An update of the rows with one id.
  abbrev pub updated : (key : A → ℕ) → ℕ → (A → A) → List A → List A
  updated key j f rows = map (λ a. if key a == j then f a else a) rows

  pub first-updated :
      (key : A → ℕ) (i j : ℕ) (f : A → A)
      → ((a : A) → key (f a) ≡ key a)
      → (rows : List A) {a : A} → first (λ b. key b == i) rows ≡ some a
      → first (λ b. key b == i) (updated key j f rows) ≡ some (if i == j then f a else a)
  first-updated key i j f kept [] h = absurd (ground arith)
  first-updated key i j f kept (b ∷ rest) {a} h =
      let same = kept b in
      elim (Bool-cases (key b == i)) [
        | inl here ↦ elim (Bool-cases (key b == j)) [
          | inl hit ↦ ground arith
          | inr miss ↦ ground arith
        ]
        | inr later ↦
            let rec = first-updated key i j f kept rest {a = a} (ground arith) in
            elim (Bool-cases (key b == j)) [ inl hit ↦ ground arith | inr miss ↦ ground arith ]
      ]

  pub none-updated :
      (key : A → ℕ) (i j : ℕ) (f : A → A)
      → ((a : A) → key (f a) ≡ key a)
      → (rows : List A) → first (λ b. key b == i) rows ≡ none
      → first (λ b. key b == i) (updated key j f rows) ≡ none
  none-updated key i j f kept [] h = refl
  none-updated key i j f kept (b ∷ rest) h =
      let same = kept b in
      elim (Bool-cases (key b == i)) [
        | inl here ↦ absurd (ground arith)
        | inr later ↦
            let rec = none-updated key i j f kept rest (ground arith) in
            elim (Bool-cases (key b == j)) [ inl hit ↦ ground arith | inr miss ↦ ground arith ]
      ]

  pub first-every :
      (key : A → ℕ) (i j : ℕ) (rows : List A) {o : Option A}
      → first (λ b. key b == i) rows ≡ o
      → first (λ b. key b == i) (every (λ b. not (key b == j)) rows) ≡ (if i == j then none else o)
  first-every key i j [] {o} h = ground arith
  first-every key i j (b ∷ rest) {o} h = elim (Bool-cases (key b == i)) [
    | inl here ↦
        let rec = first-every key i j rest {o = first (λ c. key c == i) rest} refl in
        elim (Bool-cases (key b == j)) [ inl hit ↦ ground arith | inr miss ↦ ground arith ]
    | inr later ↦
        let rec = first-every key i j rest {o = o} (ground arith) in
        elim (Bool-cases (key b == j)) [ inl hit ↦ ground arith | inr miss ↦ ground arith ]
  ]

placed_item_type_eq→eq : (a b : PlacedItemType) → placed_item_type_eq a b ≡ true → a ≡ b
placed_item_type_eq→eq a b h = ground arith

meets→Meets : (o : Option ℕ) (i : ℕ) → meets o i ≡ true → Meets o i
meets→Meets none i h = tt
meets→Meets (some j) i h = ==→eq i j h

Meets-meets_type :
    (o : Option PlacedItemType) (t : PlacedItemType) → meets_type o t ≡ true → Meets o t
Meets-meets_type none t h = tt
Meets-meets_type (some u) t h = placed_item_type_eq→eq t u h

pub is_wanted→ :
    (w : PlacedItemWhere) (p : PlacedRow)
    → is_wanted w p ≡ true
    → (p.id ≡ w.id) × Meets w.user_id p.user_id × Meets w.type p.type
is_wanted→ w p h = (
  ==→eq p.id w.id (ground arith),
  meets→Meets w.user_id p.user_id (ground arith),
  Meets-meets_type w.type p.type (ground arith),
)

-- A relation that is loaded has the row with the id that it has.
pub load_named :
    {A : Type 0} (key : A → ℕ) (rows : List A) (wanted : Bool) (o : Option ℕ) {a : A}
    → load (λ i. first (λ b. key b == i) rows) wanted o ≡ some a
    → first (λ b. key b == key a) rows ≡ some a
load_named key rows false o h = absurd (ground arith)
load_named key rows true none h = absurd (ground arith)
load_named key rows true (some i) {a} h =
    let named : key a ≡ i = ==→eq (key a) i (first_meets (λ b. key b == i) rows {a = a} h) in
    rw named h
