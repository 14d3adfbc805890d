-- ===== src/Prelude/Lists.antt =====
-- Lists measured and indexed by native numbers, under the library's names.
use Prim.Native.Nat.{ℕ, zero, suc, ◌+◌, ◌-◌, ◌<◌, ◌≤◌, min}
use mathlib.Core.Path.{◌≡◌, refl, ap, sym, ◌∙◌}
use mathlib.Core.Logic.{◌≢◌}
use mathlib.Core.List.{List, [], ◌∷◌, ◌++◌, map}
use mathlib.Core.Option.{Option, none, some}
use native.Mathlib.Omega.{arith}

module _ {ℓ} {A : Type ℓ} where
  abbrev pub length : List A → ℕ
  length [] = 0
  length (x ∷ xs) = suc (length xs)

  abbrev pub get_elem? : List A → ℕ → Option A
  get_elem? [] i = none
  get_elem? (x ∷ xs) zero = some x
  get_elem? (x ∷ xs) (suc i) = get_elem? xs i

  -- A write out of bounds changes nothing.
  abbrev pub set : List A → ℕ → A → List A
  set [] i v = []
  set (x ∷ xs) zero v = v ∷ xs
  set (x ∷ xs) (suc i) v = x ∷ set xs i v

  pub length-append : (xs ys : List A) → length (xs ++ ys) ≡ length xs + length ys
  length-append [] ys = omega arith
  length-append (x ∷ xs) ys = omega (arith, length-append xs ys)

module _ {ℓ} {A : Type ℓ} where
  pub length-set : (xs : List A) (i : ℕ) (v : A) → length (set xs i v) ≡ length xs
  length-set [] i v = refl
  length-set (x ∷ xs) zero v = refl
  length-set (x ∷ xs) (suc i) v = ap suc (length-set xs i v)

  pub get_elem?-set_self :
      (xs : List A) (i : ℕ) (v : A) → i < length xs → get_elem? (set xs i v) i ≡ some v
  get_elem?-set_self [] i v h = elim h [ ]
  get_elem?-set_self (x ∷ xs) zero v h = refl
  get_elem?-set_self (x ∷ xs) (suc i) v h = get_elem?-set_self xs i v (omega arith)

  pub get_elem?-set_ne :
      (xs : List A) {i j : ℕ} (v : A) → i ≢ j → get_elem? (set xs i v) j ≡ get_elem? xs j
  get_elem?-set_ne [] v h = refl
  get_elem?-set_ne (x ∷ xs) {i = zero} {j = zero} v h = absurd (h refl)
  get_elem?-set_ne (x ∷ xs) {i = zero} {j = suc j} v h = refl
  get_elem?-set_ne (x ∷ xs) {i = suc i} {j = zero} v h = refl
  get_elem?-set_ne (x ∷ xs) {i = suc i} {j = suc j} v h = get_elem?-set_ne xs v (λ e. h (ap suc e))

module _ {ℓ} {A : Type ℓ} where
  abbrev pub get_or : List A → ℕ → A → A
  get_or [] i d = d
  get_or (x ∷ xs) zero d = x
  get_or (x ∷ xs) (suc i) d = get_or xs i d

  abbrev pub take : ℕ → List A → List A
  take zero xs = []
  take (suc n) [] = []
  take (suc n) (x ∷ xs) = x ∷ take n xs

  abbrev pub drop : ℕ → List A → List A
  drop zero xs = xs
  drop (suc n) [] = []
  drop (suc n) (x ∷ xs) = drop n xs

  abbrev pub replicate : ℕ → A → List A
  replicate zero a = []
  replicate (suc n) a = a ∷ replicate n a

  pub take-append-drop : (n : ℕ) (xs : List A) → take n xs ++ drop n xs ≡ xs
  take-append-drop zero xs = refl
  take-append-drop (suc n) [] = refl
  take-append-drop (suc n) (x ∷ xs) = rw (take-append-drop n xs)

  pub length-take : (n : ℕ) (xs : List A) → length (take n xs) ≡ min n (length xs)
  length-take zero xs = omega arith
  length-take (suc n) [] = omega arith
  length-take (suc n) (x ∷ xs) = omega (arith, length-take n xs)

  pub length-drop : (n : ℕ) (xs : List A) → length (drop n xs) ≡ length xs - n
  length-drop zero xs = omega arith
  length-drop (suc n) [] = omega arith
  length-drop (suc n) (x ∷ xs) = omega (arith, length-drop n xs)

  pub length-replicate : (n : ℕ) (a : A) → length (replicate n a) ≡ n
  length-replicate zero a = refl
  length-replicate (suc n) a = ap suc (length-replicate n a)

  pub length-map {κ} : {B : Type κ} (xs : List A) (f : A → B) → length (map f xs) ≡ length xs
  length-map [] f = refl
  length-map (x ∷ xs) f = ap suc (length-map xs f)

-- Removal of one element by its index, and sums of a measure over a list.
module _ {ℓ} {A : Type ℓ} where
  abbrev pub erase_idx : List A → ℕ → List A
  erase_idx [] i = []
  erase_idx (x ∷ xs) zero = xs
  erase_idx (x ∷ xs) (suc i) = x ∷ erase_idx xs i

  pub erase_idx-set : (xs : List A) (i : ℕ) (v : A) → erase_idx (set xs i v) i ≡ erase_idx xs i
  erase_idx-set [] i v = refl
  erase_idx-set (x ∷ xs) zero v = refl
  erase_idx-set (x ∷ xs) (suc i) v = ap (λ ys. x ∷ ys) (erase_idx-set xs i v)

  abbrev pub tally : (A → ℕ) → List A → ℕ
  tally f [] = 0
  tally f (x ∷ xs) = f x + tally f xs

  pub tally-set :
      (f : A → ℕ) (xs : List A) (i : ℕ) (v w : A)
      → get_elem? xs i ≡ some w
      → tally f (set xs i v) + f w ≡ tally f xs + f v
  tally-set f [] i v w h = cc
  tally-set f (x ∷ xs) zero v w h = ground arith
  tally-set f (x ∷ xs) (suc i) v w h = omega (arith, tally-set f xs i v w h)

  pub tally-erase_idx :
      (f : A → ℕ) (xs : List A) (i : ℕ) (w : A)
      → get_elem? xs i ≡ some w
      → tally f (erase_idx xs i) + f w ≡ tally f xs
  tally-erase_idx f [] i w h = cc
  tally-erase_idx f (x ∷ xs) zero w h = ground arith
  tally-erase_idx f (x ∷ xs) (suc i) w h = omega (arith, tally-erase_idx f xs i w h)

  pub lt_of_get : (xs : List A) (i : ℕ) (w : A) → get_elem? xs i ≡ some w → i < length xs
  lt_of_get [] i w h = cc
  lt_of_get (x ∷ xs) zero w h = omega arith
  lt_of_get (x ∷ xs) (suc i) w h = omega (arith, lt_of_get xs i w h)

  pub tally-append : (f : A → ℕ) (xs ys : List A) → tally f (xs ++ ys) ≡ tally f xs + tally f ys
  tally-append f [] ys = omega arith
  tally-append f (x ∷ xs) ys = omega (arith, tally-append f xs ys)

-- One element of a list replaced by two.
module _ {ℓ} {A : Type ℓ} where
  abbrev pub split_at : List A → ℕ → A → A → List A
  split_at [] i v w = []
  split_at (x ∷ xs) zero v w = v ∷ w ∷ xs
  split_at (x ∷ xs) (suc i) v w = x ∷ split_at xs i v w

  pub tally-split_at :
      (f : A → ℕ) (xs : List A) (i : ℕ) (v w e : A)
      → get_elem? xs i ≡ some e
      → tally f (split_at xs i v w) + f e ≡ tally f xs + f v + f w
  tally-split_at f [] i v w e h = cc
  tally-split_at f (x ∷ xs) zero v w e h = ground arith
  tally-split_at f (x ∷ xs) (suc i) v w e h = omega (arith, tally-split_at f xs i v w e h)

  pub get_elem?-split_at :
      (xs : List A) (i : ℕ) (v w e : A)
      → get_elem? xs i ≡ some e
      → get_elem? (split_at xs i v w) i ≡ some v
  get_elem?-split_at [] i v w e h = cc
  get_elem?-split_at (x ∷ xs) zero v w e h = refl
  get_elem?-split_at (x ∷ xs) (suc i) v w e h = get_elem?-split_at xs i v w e h

-- A predicate on every element.
module _ {ℓ κ} {A : Type ℓ} where
  abbrev pub All : (A → Type κ) → List A → Type κ
  All P [] = Unit
  All P (x ∷ xs) = P x × All P xs

  pub All-get :
      (P : A → Type κ) (xs : List A) (i : ℕ) (w : A) → All P xs → get_elem? xs i ≡ some w → P w
  All-get P [] i w a h = cc
  All-get P (x ∷ xs) zero w a h = ground (arith, a.0)
  All-get P (x ∷ xs) (suc i) w a h = All-get P xs i w a.1 h

  pub All-set : (P : A → Type κ) (xs : List A) (i : ℕ) (v : A) → All P xs → P v → All P (set xs i v)
  All-set P [] i v a p = a
  All-set P (x ∷ xs) zero v a p = (p, a.1)
  All-set P (x ∷ xs) (suc i) v a p = (a.0, All-set P xs i v a.1 p)

  pub All-erase_idx : (P : A → Type κ) (xs : List A) (i : ℕ) → All P xs → All P (erase_idx xs i)
  All-erase_idx P [] i a = a
  All-erase_idx P (x ∷ xs) zero a = a.1
  All-erase_idx P (x ∷ xs) (suc i) a = (a.0, All-erase_idx P xs i a.1)

  pub All-append : (P : A → Type κ) (xs ys : List A) → All P xs → All P ys → All P (xs ++ ys)
  All-append P [] ys a b = b
  All-append P (x ∷ xs) ys a b = (a.0, All-append P xs ys a.1 b)

  pub All-split_at :
      (P : A → Type κ) (xs : List A) (i : ℕ) (v w : A)
      → All P xs
      → P v
      → P w
      → All P (split_at xs i v w)
  All-split_at P [] i v w a p q = a
  All-split_at P (x ∷ xs) zero v w a p q = (p, (q, a.1))
  All-split_at P (x ∷ xs) (suc i) v w a p q = (a.0, All-split_at P xs i v w a.1 p q)

-- A list cut behind its end, and cut twice.
module _ {ℓ} {A : Type ℓ} where
  pub drop_all : (n : ℕ) (xs : List A) → length xs ≤ n → drop n xs ≡ []
  drop_all zero [] h = refl
  drop_all zero (x ∷ xs) h = absurd (omega arith)
  drop_all (suc n) [] h = refl
  drop_all (suc n) (x ∷ xs) h = drop_all n xs (omega arith)

  pub take_all : (n : ℕ) (xs : List A) → length xs ≤ n → take n xs ≡ xs
  take_all zero [] h = refl
  take_all zero (x ∷ xs) h = absurd (omega arith)
  take_all (suc n) [] h = refl
  take_all (suc n) (x ∷ xs) h = ap (λ ys. x ∷ ys) (take_all n xs (omega arith))

  drop_nil : (n : ℕ) → drop {A = A} n [] ≡ []
  drop_nil zero = refl
  drop_nil (suc n) = refl

  pub drop-drop : (n m : ℕ) (xs : List A) → drop n (drop m xs) ≡ drop (m + n) xs
  drop-drop n zero xs = ground arith
  drop-drop n (suc m) [] = drop_nil n ∙ sym (drop_nil (suc m + n))
  drop-drop n (suc m) (x ∷ xs) =
      (let e : suc (m + n) ≡ suc m + n = omega arith in
        drop-drop n m xs ∙ ap (λ k. drop k (x ∷ xs)) e)

  pub drop-append : (n : ℕ) (xs ys : List A) → n ≤ length xs → drop n (xs ++ ys) ≡ drop n xs ++ ys
  drop-append zero xs ys h = refl
  drop-append (suc n) [] ys h = absurd (omega arith)
  drop-append (suc n) (x ∷ xs) ys h = drop-append n xs ys (omega arith)

-- An element of the beginning of a list, and of a list with others behind it.
module _ {ℓ} {A : Type ℓ} where
  pub get_elem?-take : (xs : List A) (n j : ℕ) → j < n → get_elem? (take n xs) j ≡ get_elem? xs j
  get_elem?-take xs zero j h = absurd (omega arith)
  get_elem?-take [] (suc n) j h = refl
  get_elem?-take (x ∷ xs) (suc n) zero h = refl
  get_elem?-take (x ∷ xs) (suc n) (suc j) h = get_elem?-take xs n j (omega arith)

  pub get_elem?-of_take :
      (xs : List A) (n j : ℕ) (x : A) → get_elem? (take n xs) j ≡ some x → get_elem? xs j ≡ some x
  get_elem?-of_take xs zero j x e = cc
  get_elem?-of_take [] (suc n) j x e = cc
  get_elem?-of_take (y ∷ xs) (suc n) zero x e = e
  get_elem?-of_take (y ∷ xs) (suc n) (suc j) x e = get_elem?-of_take xs n j x e

  pub get_elem?-append :
      (xs ys : List A) (j : ℕ) (x : A) → get_elem? xs j ≡ some x → get_elem? (xs ++ ys) j ≡ some x
  get_elem?-append [] ys j x e = cc
  get_elem?-append (y ∷ xs) ys zero x e = e
  get_elem?-append (y ∷ xs) ys (suc j) x e = get_elem?-append xs ys j x e

  pub get_elem?-last : (xs : List A) (x : A) → get_elem? (xs ++ (x ∷ [])) (length xs) ≡ some x
  get_elem?-last [] x = refl
  get_elem?-last (y ∷ xs) x = get_elem?-last xs x

  pub get_elem?-behind : (xs : List A) (j : ℕ) → length xs ≤ j → get_elem? xs j ≡ none
  get_elem?-behind [] j h = refl
  get_elem?-behind (x ∷ xs) zero h = absurd (omega arith)
  get_elem?-behind (x ∷ xs) (suc j) h = get_elem?-behind xs j (omega arith)
