-- ===== src/Prelude/Keys.antt =====
-- Tables with a primary key: a key stands in one row at most, so a join on the key of some rows of
-- the table finds those rows and no other.
use Prim.Native.Nat.{ℕ, ◌≤◌}
use mathlib.Core.Path.{◌≡◌, refl, ap, sym, ◌∙◌, subst}
use mathlib.Core.Bool.{Bool, true, false, ◌&&◌, ◌||◌}
use mathlib.Core.List.{List, [], ◌∷◌, map}
use native.Mathlib.Omega.{arith}
use anvil_forge.Prelude.Tests.{◌==◌, if◌then◌else◌, ==_iff, ==_refl}
use anvil_forge.Prelude.Lists.{All, All-map}
use anvil_forge.Prelude.Table.{count_where, update_where, any, contains, count_where_none}
use anvil_forge.Prelude.Counts.{
  Member, All-Member, All_member, count_where_mono, count_of_member, count_where_or,
  count_where_congr, count_where-update_where, any_of_count, find_member,
}

module _ {ℓ} {A : Type ℓ} (key : A → ℕ) where
  abbrev pub IsKeyed : List A → Type 0
  IsKeyed t = (k : ℕ) → count_where (λ x. key x == k) t ≤ 1

  pub IsKeyed-tail : (x : A) (t : List A) → IsKeyed (x ∷ t) → IsKeyed t
  IsKeyed-tail x t u k = omega (arith, u k)

  pub same_row :
      (t : List A) (x y : A) → IsKeyed t → Member x t → Member y t → key x ≡ key y → x ≡ y
  same_row [] x y u m n e = elim m [ ]
  same_row (z ∷ t) x y u (Member.head p) (Member.head q) e = p ∙ sym q
  same_row (z ∷ t) x y u (Member.head p) (Member.tail n) e =
      absurd (ground (arith, u (key z), ap key p, count_of_member (λ x. key x == key z) t y n))
  same_row (z ∷ t) x y u (Member.tail m) (Member.head q) e =
      absurd (ground (arith, u (key z), ap key q, count_of_member (λ x. key x == key z) t x m))
  same_row (z ∷ t) x y u (Member.tail m) (Member.tail n) e =
      same_row t x y (IsKeyed-tail z t u) m n e

  -- The rows with the key of a row are that row.
  pub count-same_key :
      (p : A → Bool) (t : List A) (x : A)
      → IsKeyed t
      → Member x t
      → count_where (λ y. (key x == key y) && p y) t ≡ (if p x then 1 else 0)
  count-same_key p [] x u m = elim m [ ]
  count-same_key p (y ∷ t) x u (Member.head e) = ground (
    arith,
    u (key x),
    ap key e,
    ap p e,
    count_where_mono (λ y. (key x == key y) && p y) (λ y. key y == key x) t (λ y h. ground arith),
  )
  count-same_key p (y ∷ t) x u (Member.tail m) = ground (
    arith,
    u (key x),
    count_of_member (λ y. key y == key x) t x m (==_refl (key x)),
    count-same_key p t x (IsKeyed-tail y t u) m,
  )

  pub contains-keys : (l : List A) (k : ℕ) → contains (map key l) k ≡ any (λ x. key x == k) l
  contains-keys [] k = refl
  contains-keys (x ∷ l) k = rw (contains-keys l k)

  -- The rows of the table whose keys are chosen are as many as the chosen rows.
  pub count-chosen :
      (p : A → Bool) (t l : List A)
      → IsKeyed t
      → IsKeyed l
      → All (λ x. Member x t) l
      → count_where (λ x. contains (map key l) (key x) && p x) t ≡ count_where p l
  count-chosen p t [] u v m = count_where_none _ t (All-map (λ f m. refl) t (All-Member t))
  count-chosen p t (x ∷ l) u v m = omega (
    arith,
    count_where_or (λ y. (key x == key y) && p y) (λ y. contains (map key l) (key y) && p y) t
        apart,
    count-same_key p t x u m.0,
    count-chosen p t l u (IsKeyed-tail x l v) m.1,
    count_where_congr (λ y. contains (map key (x ∷ l)) (key y) && p y)
        (λ y. ((key x == key y) && p y) || (contains (map key l) (key y) && p y)) t
        (λ y. ground arith),
  )
    where
      fresh : contains (map key l) (key x) ≡ false
      fresh =
          contains-keys l (key x) ∙ any_of_count (λ y. key y == key x) l (ground (arith, v (key x)))

      same : (y : A) → ((key x == key y) && p y) ≡ true → key x ≡ key y
      same y h = ground arith

      apart :
          (y : A) → ((key x == key y) && p y) ≡ true → (contains (map key l) (key y) && p y) ≡ false
      apart y h = ground (arith, fresh, ap (contains (map key l)) (same y h))

  -- A row of the table whose key is chosen has what all chosen rows have.
  pub chosen_row {κ} :
      (P : A → Type κ) (t l : List A) (x : A)
      → IsKeyed t
      → All (λ y. P y × Member y t) l
      → Member x t
      → contains (map key l) (key x) ≡ true
      → P x
  chosen_row P t l x u m n h =
      let (y, k, e) = find_member (λ y. key y == key x) l (sym (contains-keys l (key x)) ∙ h) in
      let found = All_member (λ y. P y × Member y t) l y m k in
      subst P (same_row t y x u found.1 n ((==_iff (key y) (key x)).0 e)) found.0

  -- An update that leaves the keys alone.
  pub IsKeyed-update_where :
      (c : A → Bool) (f : A → A) (t : List A)
      → ((x : A) → key (f x) ≡ key x)
      → IsKeyed t
      → IsKeyed (update_where c f t)
  IsKeyed-update_where c f t h u k =
      subst (λ (n : ℕ). n ≤ 1)
        (sym (count_where-update_where (λ x. key x == k) c f t (λ x. ap (λ (i : ℕ). i == k) (h x))))
        (u k)
