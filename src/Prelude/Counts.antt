-- ===== src/Prelude/Counts.antt =====
-- How the counts of a table combine, and membership in a table.
use Prim.Native.Nat.{ℕ, zero, suc, ◌+◌, ◌≤◌}
use mathlib.Core.Path.{◌≡◌, refl, ap, sym, ◌∙◌}
use mathlib.Core.Logic.{inl, inr}
use mathlib.Core.Bool.{Bool, true, false, ◌&&◌, ◌||◌, not}
use mathlib.Core.List.{List, [], ◌∷◌, ◌++◌}
pub use mathlib.Core.List.{Memᴰ as Member}
use native.Mathlib.Omega.{arith}
use anvil_forge.Prelude.Tests.{if◌then◌else◌, Bool-cases}
use anvil_forge.Prelude.Lists.{length, take, All, All-map}
use anvil_forge.Prelude.Table.{select, update_where, count_where, any}

module _ {ℓ} {A : Type ℓ} where
  pub All_member {κ} : (P : A → Type κ) (xs : List A) (x : A) → All P xs → Member x xs → P x
  All_member P [] x h m = elim m [ ]
  All_member P (y ∷ ys) x h (Member.head e) = rw e h.0
  All_member P (y ∷ ys) x h (Member.tail m) = All_member P ys x h.1 m

  pub All-Member : (xs : List A) → All (λ x. Member x xs) xs
  All-Member [] = tt
  All-Member (x ∷ xs) = (Member.head refl, All-map (λ y m. Member.tail m) xs (All-Member xs))

  pub count_where_congr :
      (p q : A → Bool) (xs : List A) → ((x : A) → p x ≡ q x) → count_where p xs ≡ count_where q xs
  count_where_congr p q [] h = refl
  count_where_congr p q (x ∷ xs) h = rw (h x, count_where_congr p q xs h)

  pub count_where_mono :
      (p q : A → Bool) (xs : List A)
      → ((x : A) → p x ≡ true → q x ≡ true)
      → count_where p xs ≤ count_where q xs
  count_where_mono p q [] h = omega arith
  count_where_mono p q (x ∷ xs) h = ground (arith, h x, count_where_mono p q xs h)

  -- Two conditions that no row meets together.
  pub count_where_or :
      (p q : A → Bool) (xs : List A)
      → ((x : A) → p x ≡ true → q x ≡ false)
      → count_where (λ x. p x || q x) xs ≡ count_where p xs + count_where q xs
  count_where_or p q [] h = refl
  count_where_or p q (x ∷ xs) h = ground (arith, h x, count_where_or p q xs h)

  pub count_where-select :
      (p q : A → Bool) (xs : List A)
      → count_where p (select q xs) ≡ count_where (λ x. q x && p x) xs
  count_where-select p q [] = refl
  count_where-select p q (x ∷ xs) = ground (arith, count_where-select p q xs)

  pub count_where-take-le :
      (p : A → Bool) (n : ℕ) (xs : List A) → count_where p (take n xs) ≤ count_where p xs
  count_where-take-le p zero xs = omega arith
  count_where-take-le p (suc n) [] = omega arith
  count_where-take-le p (suc n) (x ∷ xs) = omega (arith, count_where-take-le p n xs)

  -- A condition that the update does not change.
  pub count_where-update_where :
      (p c : A → Bool) (f : A → A) (xs : List A)
      → ((x : A) → p (f x) ≡ p x)
      → count_where p (update_where c f xs) ≡ count_where p xs
  count_where-update_where p c f [] h = refl
  count_where-update_where p c f (x ∷ xs) h =
      ground (arith, h x, count_where-update_where p c f xs h)

  pub length-update_where :
      (c : A → Bool) (f : A → A) (xs : List A) → length (update_where c f xs) ≡ length xs
  length-update_where c f [] = refl
  length-update_where c f (x ∷ xs) = ap suc (length-update_where c f xs)

  -- What holds of each row as the update leaves it.
  pub All-update_where {κ} :
      (P : A → Type κ) (c : A → Bool) (f : A → A) (xs : List A)
      → All (λ x. P (if c x then f x else x)) xs
      → All P (update_where c f xs)
  All-update_where P c f [] h = tt
  All-update_where P c f (x ∷ xs) h = (h.0, All-update_where P c f xs h.1)

  pub Member-append_right : (xs ys : List A) (x : A) → Member x ys → Member x (xs ++ ys)
  Member-append_right [] ys x m = m
  Member-append_right (z ∷ xs) ys x m = Member.tail (Member-append_right xs ys x m)

  pub any_of_member :
      (p : A → Bool) (xs : List A) (x : A) → Member x xs → p x ≡ true → any p xs ≡ true
  any_of_member p [] x m h = elim m [ ]
  any_of_member p (y ∷ ys) x (Member.head e) h = ground arith
  any_of_member p (y ∷ ys) x (Member.tail m) h = ground (arith, any_of_member p ys x m h)

  pub find_member :
      (p : A → Bool) (xs : List A) → any p xs ≡ true → (x : A) × Member x xs × (p x ≡ true)
  find_member p [] h = absurd (false_true h)
    where
      false_true : false ≡ true → ⊥
      false_true e = cc
  find_member p (x ∷ xs) h = elim (Bool-cases (p x)) [
    | inl e ↦ (x, Member.head refl, e)
    | inr e ↦ let (y, m, k) = find_member p xs (ground arith) in (y, Member.tail m, k)
  ]

  pub all_true : (p : A → Bool) (xs : List A) → any p xs ≡ false → count_where p xs ≡ 0
  all_true p [] h = refl
  all_true p (x ∷ xs) h = ground (arith, all_true p xs)

  pub any_of_count : (p : A → Bool) (xs : List A) → count_where p xs ≡ 0 → any p xs ≡ false
  any_of_count p [] h = refl
  any_of_count p (x ∷ xs) h = ground (arith, any_of_count p xs)

  pub count_where-not :
      (p : A → Bool) (xs : List A) → count_where p xs + count_where (λ x. not (p x)) xs ≡ length xs
  count_where-not p [] = omega arith
  count_where-not p (x ∷ xs) = ground (arith, count_where-not p xs)

  pub count_of_member :
      (p : A → Bool) (xs : List A) (x : A) → Member x xs → p x ≡ true → 1 ≤ count_where p xs
  count_of_member p [] x m h = elim m [ ]
  count_of_member p (y ∷ ys) x (Member.head e) h = ground (arith, ap p e)
  count_of_member p (y ∷ ys) x (Member.tail m) h = ground (arith, count_of_member p ys x m h)

  pub Member-update_where :
      (c : A → Bool) (f : A → A) (xs : List A) (x : A)
      → Member x xs
      → Member (if c x then f x else x) (update_where c f xs)
  Member-update_where c f [] x m = elim m [ ]
  Member-update_where c f (y ∷ ys) x (Member.head e) =
      Member.head (ap (λ (z : A). if c z then f z else z) e)
  Member-update_where c f (y ∷ ys) x (Member.tail m) = Member.tail (Member-update_where c f ys x m)

  pub Member-select :
      (p : A → Bool) (xs : List A) (x : A) → Member x xs → p x ≡ true → Member x (select p xs)
  Member-select p [] x m h = elim m [ ]
  Member-select p (y ∷ ys) x (Member.head e) h = rw (ap p (sym e) ∙ h) (Member.head e)
  Member-select p (y ∷ ys) x (Member.tail m) h = elim (Bool-cases (p y)) [
    | inl e ↦ rw e (Member.tail (Member-select p ys x m h))
    | inr e ↦ rw e (Member-select p ys x m h)
  ]

  pub Member-append : (xs ys : List A) (x : A) → Member x xs → Member x (xs ++ ys)
  Member-append [] ys x m = elim m [ ]
  Member-append (y ∷ xs) ys x (Member.head e) = Member.head e
  Member-append (y ∷ xs) ys x (Member.tail m) = Member.tail (Member-append xs ys x m)
