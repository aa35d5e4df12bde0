-- ===== src/Store/Selection.antt =====
-- Which rows the claim of internal/store/store.go selects: the order of rows, and the counts of what
-- its parts hold.
use anvil_forge.Prelude.{
  ℕ, ◌+◌, ◌-◌, ◌≤◌, min, ◌≡◌, Bool, true, false, not, ◌&&◌, ◌||◌, List, ◌++◌, arith, length, All,
  select, count_where, order_by, IsSorted, Member, pos, lebℤ_trans, lebℤ_total, count_where-append,
  count_where-order_by, count_where-take, count_where-take-le, count_where-select, count_where_mono,
  count_where_or, count_where-All, count_where_none, count_where-not, length-take, length-append,
  length-order_by, length-select, order_by-IsSorted, All-take, All-order_by, All-select, All-append,
  All-map, All-Member,
}
use anvil_forge.Store.{Fetch, before, is_jump, is_due, jump, rest, due, jump_share}

before_trans : (a b c : Fetch) → before a b ≡ true → before b c ≡ true → before a c ≡ true
before_trans a b c h k = ground (
  arith,
  lebℤ_trans a.priority b.priority c.priority,
  lebℤ_trans c.priority b.priority a.priority,
  lebℤ_trans b.priority c.priority a.priority,
  lebℤ_trans c.priority a.priority b.priority,
  lebℤ_trans b.priority a.priority c.priority,
  lebℤ_trans a.priority c.priority b.priority,
)

before_total : (a b : Fetch) → before a b ≡ false → before b a ≡ true
before_total a b h =
    ground (arith, lebℤ_total a.priority b.priority, lebℤ_total b.priority a.priority)

pub sorted : (t : List Fetch) → IsSorted before (order_by before t)
sorted = order_by-IsSorted before before_trans before_total

-- The late-joiner lane sorts first.
is_jump_first : (a b : Fetch) → before a b ≡ true → is_jump b ≡ true → is_jump a ≡ true
is_jump_first a b h k = ground arith

pub jump_share-le : (limit : ℕ) → jump_share (pos limit) ≤ limit
unfolding jump_share
jump_share-le limit = ground arith

module _ (now lease : ℕ) (locked : ℕ → Bool) where
  -- The due rows of each lane.
  abbrev pub due_jumps : List Fetch → ℕ
  due_jumps = count_where (λ f. is_due now lease locked f && is_jump f)

  abbrev pub due_rest : List Fetch → ℕ
  due_rest = count_where (λ f. is_due now lease locked f && not (is_jump f))

  -- A due row of the table, in the lane that the flag names.
  abbrev InLane : Bool → List Fetch → Fetch → Type 0
  InLane b t f = (is_jump f ≡ b) × (is_due now lease locked f ≡ true) × Member f t

  jump-InLane : (share : ℕ) (t : List Fetch) → All (InLane true t) (jump now lease locked share t)
  unfolding jump
  jump-InLane share t = All-take (InLane true t) share _ (
      All-order_by before (InLane true t) _ (
        All-map (λ f h. (ground arith, ground arith, h.1)) _
          (All-select (λ f. is_due now lease locked f && is_jump f) (λ f. Member f t) t
            (All-Member t))))

  rest-InLane : (limit : ℕ) (t : List Fetch) → All (InLane false t) (rest now lease locked limit t)
  unfolding rest
  rest-InLane limit t = All-take (InLane false t) limit _ (
      All-order_by before (InLane false t) _ (
        All-map (λ f h. (ground arith, ground arith, h.1)) _
          (All-select (λ f. is_due now lease locked f && not (is_jump f)) (λ f. Member f t) t
            (All-Member t))))

  length-jump :
      (share : ℕ) (t : List Fetch)
      → length (jump now lease locked share t) ≡ min share (due_jumps t)
  unfolding jump
  length-jump share t =
      let p = λ (f : Fetch). is_due now lease locked f && is_jump f in
      rw (
        length-take share (order_by before (select p t)),
        length-order_by before (select p t),
        length-select p t,
      )

  length-rest :
      (limit : ℕ) (t : List Fetch) → length (rest now lease locked limit t) ≡ min limit (due_rest t)
  unfolding rest
  length-rest limit t =
      let p = λ (f : Fetch). is_due now lease locked f && not (is_jump f) in
      rw (
        length-take limit (order_by before (select p t)),
        length-order_by before (select p t),
        length-select p t,
      )

  pub due-All :
      (limit share : ℕ) (t : List Fetch)
      → All
          (λ f. (is_due now lease locked f ≡ true) × Member f t)
          (due now lease locked limit share t)
  unfolding due
  due-All limit share t = All-take D limit _ (
      All-order_by before D _ (
        All-append D (jump now lease locked share t) (rest now lease locked limit t)
          (All-map (λ f h. (h.1, h.2)) _ (jump-InLane share t))
          (All-map (λ f h. (h.1, h.2)) _ (rest-InLane limit t))))
    where
      D : Fetch → Type 0
      D f = (is_due now lease locked f ≡ true) × Member f t

  -- Of what is selected, the late joiners are as many as their share and the table allow.
  pub count-due-jumps :
      (limit share : ℕ) (t : List Fetch)
      → share ≤ limit
      → count_where is_jump (due now lease locked limit share t) ≡ min share (due_jumps t)
  unfolding due
  count-due-jumps limit share t le =
      let js = jump now lease locked share t in
      let rs = rest now lease locked limit t in
      omega (
        arith,
        count_where-take before is_jump is_jump_first limit _ (sorted (js ++ rs)),
        count_where-order_by is_jump before (js ++ rs),
        count_where-append is_jump js rs,
        count_where-All is_jump js (All-map (λ f h. h.0) js (jump-InLane share t)),
        count_where_none is_jump rs (All-map (λ f h. h.0) rs (rest-InLane limit t)),
        length-jump share t,
      )

  length-due :
      (limit share : ℕ) (t : List Fetch)
      → length (due now lease locked limit share t)
        ≡ min limit (min share (due_jumps t) + min limit (due_rest t))
  unfolding due
  length-due limit share t =
      let js = jump now lease locked share t in
      let rs = rest now lease locked limit t in
      omega (
        arith,
        length-take limit (order_by before (js ++ rs)),
        length-order_by before (js ++ rs),
        length-append js rs,
        length-jump share t,
        length-rest limit t,
      )

  -- The other rows fill the claim.
  pub count-due-rest :
      (limit share : ℕ) (t : List Fetch)
      → share ≤ limit
      → count_where (λ f. not (is_jump f)) (due now lease locked limit share t)
        ≡ min (limit - min share (due_jumps t)) (due_rest t)
  count-due-rest limit share t le = omega (
    arith,
    count-due-jumps limit share t le,
    length-due limit share t,
    count_where-not is_jump (due now lease locked limit share t),
  )

  -- A condition is met in the selection at most as often as in the table.
  pub count-due-le :
      (p : Fetch → Bool) (limit share : ℕ) (t : List Fetch)
      → count_where p (due now lease locked limit share t) ≤ count_where p t
  unfolding due jump rest
  count-due-le p limit share t = omega (
    arith,
    count_where-take-le p limit (order_by before (js ++ rs)),
    count_where-order_by p before (js ++ rs),
    count_where-append p js rs,
    count_where-take-le p share (order_by before (select is_j t)),
    count_where-take-le p limit (order_by before (select is_r t)),
    count_where-order_by p before (select is_j t),
    count_where-order_by p before (select is_r t),
    count_where-select p is_j t,
    count_where-select p is_r t,
    count_where_or (λ f. is_j f && p f) (λ f. is_r f && p f) t (λ f h. ground arith),
    count_where_mono (λ f. (is_j f && p f) || (is_r f && p f)) p t (λ f h. ground arith),
  )
    where
      is_j : Fetch → Bool
      is_j f = is_due now lease locked f && is_jump f

      is_r : Fetch → Bool
      is_r f = is_due now lease locked f && not (is_jump f)

      js : List Fetch
      js = jump now lease locked share t

      rs : List Fetch
      rs = rest now lease locked limit t
