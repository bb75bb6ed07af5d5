-- ===== src/Prelude/Sort.antt =====
-- Go's `<=` on strings, and `sort.Strings` and `sort.Slice` by a string key. The standard library
-- sorts in place by another algorithm; on distinct keys every sorting algorithm has one result.
use Prim.Native.Char.{code}
use text.Mathlib.TextEquality.{Char-path}
use harmonylite.Prelude.{
  All, keep, String, ◌≡◌, refl, ap, ◌∙◌, ◌≢◌, inl, inr, Bool, true, false, List, [], ◌∷◌, arith,
  ltb, ◌==◌, if◌then◌else◌, Bool-cases,
}

pub str_leb : String → String → Bool
str_leb String.[] t = true
str_leb (String.◌∷◌ c s) String.[] = false
str_leb (String.◌∷◌ c s) (String.◌∷◌ d t) =
    if ltb (code c) (code d) then true else if code c == code d then str_leb s t else false

str_leb_total : (s t : String) → str_leb s t ≡ false → str_leb t s ≡ true
unfolding str_leb
str_leb_total String.[] t h = cc
str_leb_total (String.◌∷◌ c s) String.[] h = refl
str_leb_total (String.◌∷◌ c s) (String.◌∷◌ d t) h = ground (arith, str_leb_total s t)

str_leb_antisym : (s t : String) → str_leb s t ≡ true → str_leb t s ≡ true → s ≡ t
unfolding str_leb
str_leb_antisym String.[] String.[] h k = refl
str_leb_antisym String.[] (String.◌∷◌ d t) h k = cc
str_leb_antisym (String.◌∷◌ c s) String.[] h k = cc
str_leb_antisym (String.◌∷◌ c s) (String.◌∷◌ d t) h k =
    ground (arith, str_leb_antisym s t, Char-path c d)

str_leb_trans : (s t u : String) → str_leb s t ≡ true → str_leb t u ≡ true → str_leb s u ≡ true
unfolding str_leb
str_leb_trans String.[] t u h k = refl
str_leb_trans (String.◌∷◌ c s) String.[] u h k = cc
str_leb_trans (String.◌∷◌ c s) (String.◌∷◌ d t) String.[] h k = cc
str_leb_trans (String.◌∷◌ c s) (String.◌∷◌ d t) (String.◌∷◌ e u) h k =
    ground (arith, str_leb_trans s t u)

module _ {ℓ} {A : Type ℓ} (key : A → String) where
  insert_by : A → List A → List A
  insert_by a [] = a ∷ []
  insert_by a (x ∷ xs) = if str_leb (key a) (key x) then a ∷ x ∷ xs else x ∷ insert_by a xs

  unfoldable pub sort_by : List A → List A
  unfolding insert_by str_leb
  sort_by [] = []
  sort_by (x ∷ xs) = insert_by x (sort_by xs)

  -- The same elements in another order, where elements of different keys change places.
  pub data Reordered : List A → List A → Type ℓ where
    nil : Reordered [] []
    cons : (a : A) {xs ys : List A} → Reordered xs ys → Reordered (a ∷ xs) (a ∷ ys)
    swap : (a b : A) (xs : List A) → key a ≢ key b → Reordered (a ∷ b ∷ xs) (b ∷ a ∷ xs)
    trans : {xs ys zs : List A} → Reordered xs ys → Reordered ys zs → Reordered xs zs

  insert_by_comm :
      (a b : A) (xs : List A)
      → key a ≢ key b
      → insert_by a (insert_by b xs) ≡ insert_by b (insert_by a xs)
  unfolding insert_by
  insert_by_comm a b [] ne =
      ground (arith, str_leb_total (key a) (key b), str_leb_antisym (key a) (key b))
  insert_by_comm a b (x ∷ xs) ne = ground (
    arith,
    insert_by_comm a b xs ne,
    str_leb_total (key a) (key b),
    str_leb_antisym (key a) (key b),
    str_leb_trans (key a) (key b) (key x),
    str_leb_trans (key b) (key a) (key x),
    str_leb_total (key a) (key x),
    str_leb_total (key b) (key x),
    str_leb_trans (key a) (key x) (key b),
    str_leb_trans (key b) (key x) (key a),
  )

  -- Sorting forgets the order of distinct keys.
  pub sort_by-Reordered : {xs ys : List A} → Reordered xs ys → sort_by xs ≡ sort_by ys
  unfolding sort_by
  sort_by-Reordered nil = refl
  sort_by-Reordered (cons a r) = ap (insert_by a) (sort_by-Reordered r)
  sort_by-Reordered (swap a b xs ne) = insert_by_comm a b (sort_by xs) ne
  sort_by-Reordered (trans r s) = sort_by-Reordered r ∙ sort_by-Reordered s

  All-insert_by : (P : A → Type 0) (a : A) (xs : List A) → P a → All P xs → All P (insert_by a xs)
  unfolding insert_by
  All-insert_by P a [] h hs = (h, tt)
  All-insert_by P a (x ∷ xs) h (g, gs) =
      by_test (str_leb (key a) (key x)) (All-insert_by P a xs h gs)
    where
      by_test :
          (b : Bool) → All P (insert_by a xs) → All P (if b then a ∷ x ∷ xs else x ∷ insert_by a xs)
      by_test true rest = (h, (g, gs))
      by_test false rest = (g, rest)

  pub All-sort_by : (P : A → Type 0) (xs : List A) → All P xs → All P (sort_by xs)
  unfolding sort_by
  All-sort_by P [] hs = tt
  All-sort_by P (x ∷ xs) (h, hs) = All-insert_by P x (sort_by xs) h (All-sort_by P xs hs)

  pub Reordered-refl : (xs : List A) → Reordered xs xs
  Reordered-refl [] = nil
  Reordered-refl (x ∷ xs) = cons x (Reordered-refl xs)

  -- A filter keeps the relation.
  pub keep-Reordered :
      (p : A → Bool) {xs ys : List A} → Reordered xs ys → Reordered (keep p xs) (keep p ys)
  unfolding keep
  keep-Reordered p nil = nil
  keep-Reordered p (cons a {xs} {ys} r) = elim (Bool-cases (p a)) [
    | inl h ↦ rw h (cons a (keep-Reordered p r))
    | inr h ↦ rw h (keep-Reordered p r)
  ]
  keep-Reordered p (swap a b xs ne) = swapped (p a) (p b) refl refl
    where
      swapped :
          (x y : Bool) → p a ≡ x → p b ≡ y → Reordered (keep p (a ∷ b ∷ xs)) (keep p (b ∷ a ∷ xs))
      swapped true true hx hy = rw (hx, hy) (swap a b (keep p xs) ne)
      swapped true false hx hy = rw (hx, hy) (Reordered-refl (a ∷ keep p xs))
      swapped false true hx hy = rw (hx, hy) (Reordered-refl (b ∷ keep p xs))
      swapped false false hx hy = rw (hx, hy) (Reordered-refl (keep p xs))
  keep-Reordered p (trans r s) = trans (keep-Reordered p r) (keep-Reordered p s)

-- Two lists, related element by element.
pub data Pairwise {ℓ} {A : Type ℓ} (R : A → A → Type ℓ) : List A → List A → Type ℓ where
  none_left : Pairwise R [] []
  both : {x y : A} {xs ys : List A} → R x y → Pairwise R xs ys → Pairwise R (x ∷ xs) (y ∷ ys)

module _ {ℓ} {A : Type ℓ} (key : A → String) (R : A → A → Type ℓ)
    (same_key : (x y : A) → R x y → key x ≡ key y) where
  insert_by-Pairwise :
      (x y : A) {xs ys : List A}
      → R x y
      → Pairwise R xs ys
      → Pairwise R (insert_by key x xs) (insert_by key y ys)
  unfolding insert_by
  insert_by-Pairwise x y r none_left = both r none_left
  insert_by-Pairwise x y r (both {x = a} {y = b} s p) =
      rw (← same_key x y r, ← same_key a b s)
        (elim (Bool-cases (str_leb (key x) (key a))) [
          | inl h ↦ rw h (both r (both s p))
          | inr h ↦ rw h (both s (insert_by-Pairwise x y r p))
        ])

  -- Sorting and filtering by the key keep the pairs together.
  pub sort_by-Pairwise :
      {xs ys : List A} → Pairwise R xs ys → Pairwise R (sort_by key xs) (sort_by key ys)
  unfolding sort_by
  sort_by-Pairwise none_left = none_left
  sort_by-Pairwise (both {x = x} {y = y} r p) = insert_by-Pairwise x y r (sort_by-Pairwise p)

  pub keep-Pairwise :
      (p : String → Bool) {xs ys : List A}
      → Pairwise R xs ys
      → Pairwise R (keep (λ a. p (key a)) xs) (keep (λ a. p (key a)) ys)
  unfolding keep
  keep-Pairwise p none_left = none_left
  keep-Pairwise p (both {x = x} {y = y} r q) =
      rw (← same_key x y r) (elim (Bool-cases (p (key x))) [
        | inl h ↦ rw h (both r (keep-Pairwise p q))
        | inr h ↦ rw h (keep-Pairwise p q)
      ])
