-- ===== src/Prelude/Table.antt =====
-- A table as a list of rows, and what the SQL statements of the program do with it: WHERE, UPDATE,
-- ORDER BY and the counts that the statements on them need.
use Prim.Native.Nat.{ℕ, zero, suc, ◌+◌, ◌≤◌, min}
use mathlib.Core.Path.{◌≡◌, refl}
use mathlib.Core.Logic.{inl, inr}
use mathlib.Core.Bool.{Bool, true, false, ◌||◌}
use mathlib.Core.List.{List, [], ◌∷◌, ◌++◌}
use native.Mathlib.Omega.{arith}
use anvil_forge.Prelude.Tests.{◌==◌, if◌then◌else◌, Bool-cases}
use anvil_forge.Prelude.Lists.{length, take, All, All-map, All-take}

module _ {ℓ} {A : Type ℓ} where
  -- WHERE
  abbrev pub select : (A → Bool) → List A → List A
  select p [] = []
  select p (x ∷ xs) = let rest = select p xs in if p x then x ∷ rest else rest

  -- UPDATE … SET … WHERE
  abbrev pub update_where : (A → Bool) → (A → A) → List A → List A
  update_where p f [] = []
  update_where p f (x ∷ xs) = (if p x then f x else x) ∷ update_where p f xs

  -- count(*) FILTER (WHERE …)
  abbrev pub count_where : (A → Bool) → List A → ℕ
  count_where p [] = 0
  count_where p (x ∷ xs) = (if p x then 1 else 0) + count_where p xs

  abbrev pub insert_by : (A → A → Bool) → A → List A → List A
  insert_by le x [] = x ∷ []
  insert_by le x (y ∷ ys) = if le x y then x ∷ y ∷ ys else y ∷ insert_by le x ys

  -- ORDER BY: a stable insertion sort, so that equal rows keep the table's order.
  abbrev pub order_by : (A → A → Bool) → List A → List A
  order_by le [] = []
  order_by le (x ∷ xs) = insert_by le x (order_by le xs)

  abbrev pub any : (A → Bool) → List A → Bool
  any p [] = false
  any p (x ∷ xs) = p x || any p xs

  -- Each element stands before all that follow it.
  abbrev pub IsSorted : (A → A → Bool) → List A → Type 0
  IsSorted le [] = Unit
  IsSorted le (x ∷ xs) = All (λ y. le x y ≡ true) xs × IsSorted le xs

-- `id IN (…)`
abbrev pub contains : List ℕ → ℕ → Bool
contains xs a = any (λ x. x == a) xs

module _ {ℓ} {A : Type ℓ} (p : A → Bool) where
  pub length-select : (xs : List A) → length (select p xs) ≡ count_where p xs
  length-select [] = refl
  length-select (x ∷ xs) = ground (arith, length-select xs)

  pub count_where-append :
      (xs ys : List A) → count_where p (xs ++ ys) ≡ count_where p xs + count_where p ys
  count_where-append [] ys = omega arith
  count_where-append (x ∷ xs) ys = omega (arith, count_where-append xs ys)

  pub count_where-le-length : (xs : List A) → count_where p xs ≤ length xs
  count_where-le-length [] = omega arith
  count_where-le-length (x ∷ xs) = ground (arith, count_where-le-length xs)

  pub count_where-insert_by :
      (le : A → A → Bool) (x : A) (xs : List A)
      → count_where p (insert_by le x xs) ≡ (if p x then 1 else 0) + count_where p xs
  count_where-insert_by le x [] = refl
  count_where-insert_by le x (y ∷ ys) = ground (arith, count_where-insert_by le x ys)

  -- Sorting keeps every count.
  pub count_where-order_by :
      (le : A → A → Bool) (xs : List A) → count_where p (order_by le xs) ≡ count_where p xs
  count_where-order_by le [] = refl
  count_where-order_by le (x ∷ xs) =
      omega (arith, count_where-insert_by le x (order_by le xs), count_where-order_by le xs)

  -- What holds of none of the rows counts none.
  pub count_where_none : (xs : List A) → All (λ x. p x ≡ false) xs → count_where p xs ≡ 0
  count_where_none [] h = refl
  count_where_none (x ∷ xs) h = ground (arith, count_where_none xs h.1)

  pub count_where-All : (xs : List A) → All (λ x. p x ≡ true) xs → count_where p xs ≡ length xs
  count_where-All [] h = refl
  count_where-All (x ∷ xs) h = ground (arith, count_where-All xs h.1)

  pub All-select {κ} :
      (Q : A → Type κ) (xs : List A) → All Q xs → All (λ x. (p x ≡ true) × Q x) (select p xs)
  All-select Q [] h = tt
  All-select Q (x ∷ xs) h = elim (Bool-cases (p x)) [
    | inl e ↦ rw e ((e, h.0), All-select Q xs h.1)
    | inr e ↦ rw e (All-select Q xs h.1)
  ]

  pub any-none : (xs : List A) → any p xs ≡ false → All (λ x. p x ≡ false) xs
  any-none [] h = tt
  any-none (x ∷ xs) h = (ground arith, any-none xs (ground arith))

  pub All-any-false : (xs : List A) → All (λ x. p x ≡ false) xs → any p xs ≡ false
  All-any-false [] h = refl
  All-any-false (x ∷ xs) h = ground (arith, All-any-false xs h.1)

module _ {ℓ} {A : Type ℓ} (le : A → A → Bool) where
  pub length-insert_by : (x : A) (xs : List A) → length (insert_by le x xs) ≡ suc (length xs)
  length-insert_by x [] = refl
  length-insert_by x (y ∷ ys) = ground (arith, length-insert_by x ys)

  pub length-order_by : (xs : List A) → length (order_by le xs) ≡ length xs
  length-order_by [] = refl
  length-order_by (x ∷ xs) = omega (arith, length-insert_by x (order_by le xs), length-order_by xs)

  pub All-insert_by {κ} :
      (Q : A → Type κ) (x : A) (xs : List A) → Q x → All Q xs → All Q (insert_by le x xs)
  All-insert_by Q x [] q h = (q, tt)
  All-insert_by Q x (y ∷ ys) q h = elim (Bool-cases (le x y)) [
    | inl e ↦ rw e (q, h)
    | inr e ↦ rw e (h.0, All-insert_by Q x ys q h.1)
  ]

  pub All-order_by {κ} : (Q : A → Type κ) (xs : List A) → All Q xs → All Q (order_by le xs)
  All-order_by Q [] h = tt
  All-order_by Q (x ∷ xs) h = All-insert_by Q x (order_by le xs) h.0 (All-order_by Q xs h.1)

module _ {ℓ} {A : Type ℓ} (le : A → A → Bool)
    (le_trans : (a b c : A) → le a b ≡ true → le b c ≡ true → le a c ≡ true)
    (le_total : (a b : A) → le a b ≡ false → le b a ≡ true) where
  insert_by-IsSorted : (x : A) (xs : List A) → IsSorted le xs → IsSorted le (insert_by le x xs)
  insert_by-IsSorted x [] s = (tt, tt)
  insert_by-IsSorted x (y ∷ ys) s = elim (Bool-cases (le x y)) [
    | inl e ↦ rw e ((e, All-map (λ z h. le_trans x y z e h) ys s.0), s)
    | inr e ↦ rw e (
      All-insert_by le (λ z. le y z ≡ true) x ys (le_total x y e) s.0,
      insert_by-IsSorted x ys s.1,
    )
  ]

  -- ORDER BY sorts.
  pub order_by-IsSorted : (xs : List A) → IsSorted le (order_by le xs)
  order_by-IsSorted [] = tt
  order_by-IsSorted (x ∷ xs) = insert_by-IsSorted x (order_by le xs) (order_by-IsSorted xs)

module _ {ℓ} {A : Type ℓ} (le : A → A → Bool) (p : A → Bool)
    (first : (a b : A) → le a b ≡ true → p b ≡ true → p a ≡ true) where
  none_after :
      (x : A) (xs : List A) → p x ≡ false → All (λ y. le x y ≡ true) xs → All (λ y. p y ≡ false) xs
  none_after x [] e h = tt
  none_after x (y ∷ ys) e h = (ground (arith, first x y h.0), none_after x ys e h.1)

  -- Where the rows that satisfy `p` sort before the others, LIMIT takes as many of them as it can.
  pub count_where-take :
      (n : ℕ) (xs : List A) → IsSorted le xs → count_where p (take n xs) ≡ min n (count_where p xs)
  count_where-take zero xs s = omega arith
  count_where-take (suc n) [] s = omega arith
  count_where-take (suc n) (x ∷ xs) s = elim (Bool-cases (p x)) [
    | inl e ↦ rw e (omega (arith, count_where-take n xs s.1))
    | inr e ↦
        let rest = none_after x xs e s.0 in
        rw e (
          omega (
            arith,
            count_where_none p (take n xs) (All-take (λ y. p y ≡ false) n xs rest),
            count_where_none p xs rest,
          ))
  ]
