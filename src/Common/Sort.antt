-- ===== src/Common/Sort.antt =====
-- Python's `sorted` with a key: a stable sort by a Boolean order. A row that comes first among
-- rows of equal keys stays first.
use mathlib.Core.List.{Permᴰ}
use portfolio_analytics_api.Common.Tests.{if◌then◌else◌, Bool-cases}
use portfolio_analytics_api.Common.Lists.{All, All-imp, keep, All-keep}
use mathlib.Core.Path.{◌≡◌, refl, ap, ap₂, sym, ◌∙◌, subst, subst₂}
use mathlib.Core.Logic.{inl, inr}
use mathlib.Core.Bool.{Bool, true, false, ◌&&◌}
use mathlib.Core.List.{List, [], ◌∷◌, ◌++◌}
use native.Mathlib.Omega.{arith}

module _ {ℓ} {A : Type ℓ} (le : A → A → Bool) where
  abbrev pub insert_by : A → List A → List A
  insert_by x [] = x ∷ []
  insert_by x (y ∷ ys) = if le x y then x ∷ y ∷ ys else y ∷ insert_by x ys

  unfoldable pub sort_by : List A → List A
  sort_by [] = []
  sort_by (x ∷ xs) = insert_by x (sort_by xs)

  -- The place of a row that comes last: behind every row that is not above it.
  abbrev pub insert_last : A → List A → List A
  insert_last t [] = t ∷ []
  insert_last t (y ∷ ys) = if le y t then y ∷ insert_last t ys else t ∷ y ∷ ys

  abbrev pub IsSorted : List A → Type 0
  IsSorted [] = Unit
  IsSorted (x ∷ xs) = All (λ y. le x y ≡ true) xs × IsSorted xs

  -- A comparison of keys is a total preorder.
  pub record IsOrder : Type ℓ where
    pub total : (a b : A) → le a b ≡ false → le b a ≡ true
    pub trans : (a b c : A) → le a b ≡ true → le b c ≡ true → le a c ≡ true

  pub All-insert_by {κ} :
      (P : A → Type κ) (x : A) (xs : List A) → P x → All P xs → All P (insert_by x xs)
  All-insert_by P x [] p h = (p, tt)
  All-insert_by P x (y ∷ ys) p h =
      let rest = All-insert_by P x ys p h.1 in
      elim (le x y) as (λ b. All P (if b then x ∷ y ∷ ys else y ∷ insert_by x ys)) [
        | true ↦ (p, h)
        | false ↦ (h.0, rest)
      ]

  -- What holds of every row holds of the sorted rows, and the other way round.
  pub All-sort_by {κ} : (P : A → Type κ) (xs : List A) → All P xs → All P (sort_by xs)
  unfolding sort_by
  All-sort_by P [] h = tt
  All-sort_by P (x ∷ xs) h = All-insert_by P x (sort_by xs) h.0 (All-sort_by P xs h.1)

  pub All-uninsert {κ} :
      (P : A → Type κ) (x : A) (xs : List A) → All P (insert_by x xs) → P x × All P xs
  All-uninsert P x [] h = h
  All-uninsert P x (y ∷ ys) h = elim (Bool-cases (le x y)) [
    | inl e ↦ rw e at h
    | inr e ↦
        let h' : All P (y ∷ insert_by x ys) = rw e at h in
        let (p, q) = All-uninsert P x ys h'.1 in (p, (h'.0, q))
  ]

  pub All-unsort {κ} : (P : A → Type κ) (xs : List A) → All P (sort_by xs) → All P xs
  unfolding sort_by
  All-unsort P [] h = tt
  All-unsort P (x ∷ xs) h = let (p, q) = All-uninsert P x (sort_by xs) h in (p, All-unsort P xs q)

  insert_by_least : (x : A) (xs : List A) → All (λ y. le x y ≡ true) xs → insert_by x xs ≡ x ∷ xs
  insert_by_least x [] h = refl
  insert_by_least x (y ∷ ys) h = rw h.0

  -- Sorting what is sorted changes nothing.
  pub sort_by_of_IsSorted : (xs : List A) → IsSorted xs → sort_by xs ≡ xs
  unfolding sort_by
  sort_by_of_IsSorted [] h = refl
  sort_by_of_IsSorted (x ∷ xs) h = rw (sort_by_of_IsSorted xs h.1) (insert_by_least x xs h.0)

  abbrev pub Apart : A → A → Type 0
  Apart a b = (le a b && le b a) ≡ false

  abbrev pub Distinct : List A → Type 0
  Distinct [] = Unit
  Distinct (x ∷ xs) = All (Apart x) xs × Distinct xs

  -- In order, and no two rows of equal keys.
  abbrev pub IsAscending : List A → Type 0
  IsAscending [] = Unit
  IsAscending (x ∷ xs) = All (λ y. (le x y ≡ true) × (le y x ≡ false)) xs × IsAscending xs

  pub IsAscending-keep :
      (test : A → Bool) (xs : List A) → IsAscending xs → IsAscending (keep test xs)
  IsAscending-keep test [] h = tt
  IsAscending-keep test (x ∷ xs) h =
      let rest = IsAscending-keep test xs h.1 in
      let below = All-keep (λ y. (le x y ≡ true) × (le y x ≡ false)) test xs h.0 in
      elim (test x) as (λ b. IsAscending (if b then x ∷ keep test xs else keep test xs)) [
        | true ↦ (below, rest)
        | false ↦ rest
      ]

  Apart-symm : (a b : A) → Apart a b → Apart b a
  Apart-symm a b h = ground arith

  Distinct-insert_by :
      (x : A) (xs : List A) → All (Apart x) xs → Distinct xs → Distinct (insert_by x xs)
  Distinct-insert_by x [] h d = (tt, tt)
  Distinct-insert_by x (y ∷ ys) h d =
      let rest = Distinct-insert_by x ys h.1 d.1 in
      let apart = All-insert_by (Apart y) x ys (Apart-symm x y h.0) d.0 in
      elim (le x y) as (λ b. Distinct (if b then x ∷ y ∷ ys else y ∷ insert_by x ys)) [
        | true ↦ (h, d)
        | false ↦ (apart, rest)
      ]

  pub Distinct-sort_by : (xs : List A) → Distinct xs → Distinct (sort_by xs)
  unfolding sort_by
  Distinct-sort_by [] d = tt
  Distinct-sort_by (x ∷ xs) d =
      Distinct-insert_by x (sort_by xs) (All-sort_by (Apart x) xs d.0) (Distinct-sort_by xs d.1)

  All-ascending :
      (x : A) (xs : List A)
      → All (λ y. le x y ≡ true) xs
      → All (Apart x) xs
      → All (λ y. (le x y ≡ true) × (le y x ≡ false)) xs
  All-ascending x [] h k = tt
  All-ascending x (y ∷ ys) h k = ((h.0, ground arith), All-ascending x ys h.1 k.1)

  IsSorted-IsAscending : (xs : List A) → IsSorted xs → Distinct xs → IsAscending xs
  IsSorted-IsAscending [] h d = tt
  IsSorted-IsAscending (x ∷ xs) h d = (All-ascending x xs h.0 d.0, IsSorted-IsAscending xs h.1 d.1)

  module _ (o : IsOrder) where
    insert_by-IsSorted : (x : A) (xs : List A) → IsSorted xs → IsSorted (insert_by x xs)
    insert_by-IsSorted x [] h = (tt, tt)
    insert_by-IsSorted x (y ∷ ys) h = elim (Bool-cases (le x y)) [
      | inl e ↦ rw e ((e, All-imp _ _ (λ z. o.trans x y z e) ys h.0), h)
      | inr e ↦
          rw e (
            All-insert_by (λ z. le y z ≡ true) x ys (o.total x y e) h.0,
            insert_by-IsSorted x ys h.1,
          )
    ]

    -- The result is in order.
    pub sort_by-IsSorted : (xs : List A) → IsSorted (sort_by xs)
    unfolding sort_by
    sort_by-IsSorted [] = tt
    sort_by-IsSorted (x ∷ xs) = insert_by-IsSorted x (sort_by xs) (sort_by-IsSorted xs)

    pub sort_by_twice : (xs : List A) → sort_by (sort_by xs) ≡ sort_by xs
    sort_by_twice xs = sort_by_of_IsSorted (sort_by xs) (sort_by-IsSorted xs)

    pub sort_by-IsAscending : (xs : List A) → Distinct xs → IsAscending (sort_by xs)
    sort_by-IsAscending xs d =
        IsSorted-IsAscending (sort_by xs) (sort_by-IsSorted xs) (Distinct-sort_by xs d)

    insert_by-insert_last :
        (x t : A) (l : List A) → insert_by x (insert_last t l) ≡ insert_last t (insert_by x l)
    insert_by-insert_last x t [] = ground arith
    insert_by-insert_last x t (y ∷ ys) =
        ground (arith, insert_by-insert_last x t ys, o.trans x y t, o.trans x t y, o.total y t)

    -- A row that is added at the end goes behind the rows that are not above it.
    pub sort_by_snoc : (l : List A) (t : A) → sort_by (l ++ t ∷ []) ≡ insert_last t (sort_by l)
    unfolding sort_by
    sort_by_snoc [] t = refl
    sort_by_snoc (x ∷ l) t = rw (sort_by_snoc l t) (insert_by-insert_last x t (sort_by l))

    -- Sorting first, adding a row and sorting again is sorting once.
    pub sort_by-sort_by_snoc :
        (l : List A) (t : A) → sort_by (sort_by l ++ t ∷ []) ≡ sort_by (l ++ t ∷ [])
    sort_by-sort_by_snoc l t =
        sort_by_snoc (sort_by l) t ∙ ap (insert_last t) (sort_by_twice l) ∙ sym (sort_by_snoc l t)

    insert_by_comm :
        (a b : A) (l : List A)
        → Apart a b
        → insert_by a (insert_by b l) ≡ insert_by b (insert_by a l)
    insert_by_comm a b [] h = ground (arith, o.total a b)
    insert_by_comm a b (y ∷ ys) h = ground (
      arith,
      insert_by_comm a b ys h,
      o.total a b,
      o.total b a,
      o.trans a b y,
      o.trans b a y,
      o.total a y,
      o.total b y,
    )

    pub All-Permᴰ {κ} : (P : A → Type κ) {xs ys : List A} → Permᴰ xs ys → All P xs → All P ys
    All-Permᴰ P Permᴰ.nil h = h
    All-Permᴰ P (Permᴰ.cons e p) h = (subst P e h.0, All-Permᴰ P p h.1)
    All-Permᴰ P (Permᴰ.swap e f) h = (subst P f h.1.0, (subst P e h.0, h.1.1))
    All-Permᴰ P (Permᴰ.trans p q) h = All-Permᴰ P q (All-Permᴰ P p h)

    Distinct-Permᴰ : {xs ys : List A} → Permᴰ xs ys → Distinct xs → Distinct ys
    Distinct-Permᴰ Permᴰ.nil h = tt
    Distinct-Permᴰ (Permᴰ.cons {l₂ = m} e p) h =
        (subst (λ z. All (Apart z) m) e (All-Permᴰ _ p h.0), Distinct-Permᴰ p h.1)
    Distinct-Permᴰ (Permᴰ.swap {a} {b} {l = m} e f) h =
        subst₂ (λ u v. Distinct (u ∷ v ∷ m)) f e ((Apart-symm a b h.0.0, h.1.0), (h.0.1, h.1.1))
    Distinct-Permᴰ (Permᴰ.trans p q) h = Distinct-Permᴰ q (Distinct-Permᴰ p h)

    -- Rows of distinct keys have one sorted list, in whatever order they are given.
    pub sort_by-Permᴰ : {xs ys : List A} → Permᴰ xs ys → Distinct xs → sort_by xs ≡ sort_by ys
    unfolding sort_by
    sort_by-Permᴰ Permᴰ.nil h = refl
    sort_by-Permᴰ (Permᴰ.cons e p) h = ap₂ insert_by e (sort_by-Permᴰ p h.1)
    sort_by-Permᴰ (Permᴰ.swap {a} {b} {l = m} e f) h =
        insert_by_comm a b (sort_by m) h.0.0
        ∙ ap₂ (λ u v. insert_by u (insert_by v (sort_by m))) f e
    sort_by-Permᴰ (Permᴰ.trans p q) h = sort_by-Permᴰ p h ∙ sort_by-Permᴰ q (Distinct-Permᴰ p h)
