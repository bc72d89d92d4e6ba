-- ===== src/Base/Lists.antt =====
-- Lists measured and indexed by native numbers, under the library's names, and reads and writes of
-- a range, which panic outside the list.
use Prim.Native.Nat.{ℕ, zero, suc, ◌+◌, ◌-◌, ◌≤◌, ◌<◌, min}
use mathlib.Core.Path.{◌≡◌, refl, ap, sym, ◌∙◌}
use mathlib.Core.Logic.{◌⊎◌, inl, inr, ◌≢◌}
use mathlib.Core.Bool.{Bool, true, false, ◌&&◌}
use mathlib.Core.Option.{Option, none, some}
use mathlib.Core.List.{List, [], ◌∷◌, ◌++◌, append_assoc, append-nil}
use native.Mathlib.Omega.{arith}
use jumprope_rs.Base.Tests.{leb, le→leb, ◌==◌, Bool-cases, if◌then◌else◌}

module _ {ℓ} {A : Type ℓ} where
  abbrev pub length : List A → ℕ
  length [] = 0
  length (x ∷ xs) = suc (length xs)

  abbrev pub get_elem? : List A → ℕ → Option A
  get_elem? [] i = none
  get_elem? (x ∷ xs) zero = some x
  get_elem? (x ∷ xs) (suc i) = get_elem? xs i

  -- A write out of bounds changes nothing.
  abbrev pub set : List A → ℕ → A → List A
  set [] i v = []
  set (x ∷ xs) zero v = v ∷ xs
  set (x ∷ xs) (suc i) v = x ∷ set xs i v

  abbrev pub take : ℕ → List A → List A
  take zero xs = []
  take (suc n) [] = []
  take (suc n) (x ∷ xs) = x ∷ take n xs

  abbrev pub drop : ℕ → List A → List A
  drop zero xs = xs
  drop (suc n) [] = []
  drop (suc n) (x ∷ xs) = drop n xs

  abbrev pub replicate : ℕ → A → List A
  replicate zero a = []
  replicate (suc n) a = a ∷ replicate n a

  abbrev pub All {κ} : (A → Type κ) → List A → Type κ
  All P [] = Unit
  All P (x ∷ xs) = P x × All P xs

  abbrev pub count_by : (A → Bool) → List A → ℕ
  count_by p [] = 0
  count_by p (x ∷ xs) = (if p x then 1 else 0) + count_by p xs

module _ {ℓ} {A : Type ℓ} where
  pub length-append : (xs ys : List A) → length (xs ++ ys) ≡ length xs + length ys
  length-append [] ys = omega arith
  length-append (x ∷ xs) ys = omega (arith, length-append xs ys)

  pub length-replicate : (n : ℕ) (a : A) → length (replicate n a) ≡ n
  length-replicate zero a = refl
  length-replicate (suc n) a = ap suc (length-replicate n a)

  pub length-take : (n : ℕ) (xs : List A) → length (take n xs) ≡ min n (length xs)
  length-take zero xs = omega arith
  length-take (suc n) [] = omega arith
  length-take (suc n) (x ∷ xs) = omega (arith, length-take n xs)

  pub length-drop : (n : ℕ) (xs : List A) → length (drop n xs) ≡ length xs - n
  length-drop zero xs = omega arith
  length-drop (suc n) [] = omega arith
  length-drop (suc n) (x ∷ xs) = omega (arith, length-drop n xs)

  pub take-append-drop : (n : ℕ) (xs : List A) → take n xs ++ drop n xs ≡ xs
  take-append-drop zero xs = refl
  take-append-drop (suc n) [] = refl
  take-append-drop (suc n) (x ∷ xs) = ap (x ∷◌) (take-append-drop n xs)

  pub take-append : (n : ℕ) (xs ys : List A) → n ≡ length xs → take n (xs ++ ys) ≡ xs
  take-append zero [] ys h = refl
  take-append zero (x ∷ xs) ys h = absurd (omega arith)
  take-append (suc n) [] ys h = absurd (omega arith)
  take-append (suc n) (x ∷ xs) ys h = ap (x ∷◌) (take-append n xs ys (omega arith))

  pub drop-append : (n : ℕ) (xs ys : List A) → n ≡ length xs → drop n (xs ++ ys) ≡ ys
  drop-append zero [] ys h = refl
  drop-append zero (x ∷ xs) ys h = absurd (omega arith)
  drop-append (suc n) [] ys h = absurd (omega arith)
  drop-append (suc n) (x ∷ xs) ys h = drop-append n xs ys (omega arith)

  pub take_all : (n : ℕ) (xs : List A) → length xs ≤ n → take n xs ≡ xs
  take_all zero [] h = refl
  take_all zero (x ∷ xs) h = absurd (omega arith)
  take_all (suc n) [] h = refl
  take_all (suc n) (x ∷ xs) h = ap (x ∷◌) (take_all n xs (omega arith))

  pub All-append {κ} : (P : A → Type κ) (xs ys : List A) → All P xs → All P ys → All P (xs ++ ys)
  All-append P [] ys hx hy = hy
  All-append P (x ∷ xs) ys (h, hx) hy = (h, All-append P xs ys hx hy)

  pub All-append_left {κ} : (P : A → Type κ) (xs ys : List A) → All P (xs ++ ys) → All P xs
  All-append_left P [] ys h = tt
  All-append_left P (x ∷ xs) ys (p, h) = (p, All-append_left P xs ys h)

  pub All-append_right {κ} : (P : A → Type κ) (xs ys : List A) → All P (xs ++ ys) → All P ys
  All-append_right P [] ys h = h
  All-append_right P (x ∷ xs) ys (p, h) = All-append_right P xs ys h

  pub All-take {κ} : (P : A → Type κ) (n : ℕ) (xs : List A) → All P xs → All P (take n xs)
  All-take P zero xs h = tt
  All-take P (suc n) [] h = tt
  All-take P (suc n) (x ∷ xs) (p, h) = (p, All-take P n xs h)

  pub All-drop {κ} : (P : A → Type κ) (n : ℕ) (xs : List A) → All P xs → All P (drop n xs)
  All-drop P zero xs h = h
  All-drop P (suc n) [] h = tt
  All-drop P (suc n) (x ∷ xs) (p, h) = All-drop P n xs h

  pub count_by-append :
      (p : A → Bool) (xs ys : List A) → count_by p (xs ++ ys) ≡ count_by p xs + count_by p ys
  count_by-append p [] ys = omega arith
  count_by-append p (x ∷ xs) ys = omega (arith, count_by-append p xs ys)

  pub count_by-le-length : (p : A → Bool) (xs : List A) → count_by p xs ≤ length xs
  count_by-le-length p [] = omega arith
  count_by-le-length p (x ∷ xs) = ground (arith, count_by-le-length p xs)

module _ {ℓ} {A : Type ℓ} where
  -- Two ways to cut a list: the first cut is before the second one, or behind it.
  pub append-eq-append :
      (xs ys cs bs : List A)
      → xs ++ ys ≡ cs ++ bs
      → ((m : List A) × (cs ≡ xs ++ m) × (ys ≡ m ++ bs))
        ⊎ ((m : List A) × (xs ≡ cs ++ m) × (bs ≡ m ++ ys))
  append-eq-append [] ys cs bs h = inl (cs, refl, h)
  append-eq-append (x ∷ xs) ys [] bs h = inr (x ∷ xs, refl, sym h)
  append-eq-append (x ∷ xs) ys (a ∷ cs) bs h = elim (append-eq-append xs ys cs bs (cc)) [
    | inl (m, p, q) ↦ inl (m, cc, q)
    | inr (m, p, q) ↦ inr (m, cc, q)
  ]

module _ {ℓ} {A : Type ℓ} where
  -- `&xs[lo..hi]`
  unfoldable pub slice : ℕ → ℕ → List A → Option (List A)
  slice lo hi xs =
      if leb lo hi && leb hi (length xs) then some (take (hi - lo) (drop lo xs)) else none

  -- `xs[at..at + ys.len()].copy_from_slice(ys)`
  unfoldable pub write_at : ℕ → List A → List A → Option (List A)
  write_at at ys xs =
      if leb (at + length ys) (length xs)
      then some (take at xs ++ (ys ++ drop (at + length ys) xs))
      else none

  pub slice-append :
      (lo hi : ℕ) (xs ys zs : List A)
      → lo ≡ length xs
      → hi ≡ length xs + length ys
      → slice lo hi (xs ++ (ys ++ zs)) ≡ some ys
  unfolding slice
  slice-append lo hi xs ys zs h k =
      let n = length-append xs (ys ++ zs) in
      let m = length-append ys zs in
      rw
        (
          le→leb lo hi (omega arith),
          le→leb hi (length (xs ++ (ys ++ zs))) (omega arith),
          drop-append lo xs (ys ++ zs) h,
        )
        (ap some (take-append (hi - lo) ys zs (omega arith)))

  pub slice-last :
      (lo hi : ℕ) (xs ys : List A)
      → lo ≡ length xs
      → hi ≡ length xs + length ys
      → slice lo hi (xs ++ ys) ≡ some ys
  slice-last lo hi xs ys h k =
      ap (λ zs. slice lo hi (xs ++ zs)) (sym (append-nil ys)) ∙ slice-append lo hi xs ys [] h k

  pub write_at-append :
      (at : ℕ) (xs ys zs ws : List A)
      → at ≡ length xs
      → length ws ≡ length ys
      → write_at at ws (xs ++ (ys ++ zs)) ≡ some (xs ++ (ws ++ zs))
  unfolding write_at
  write_at-append at xs ys zs ws h k =
      let n = length-append xs (ys ++ zs) in
      let m = length-append ys zs in
      rw
        (
          le→leb (at + length ws) (length (xs ++ (ys ++ zs))) (omega arith),
          take-append at xs (ys ++ zs) h,
        )
        (ap (λ r. some (xs ++ (ws ++ r))) drop_both)
    where
      drop_both : drop (at + length ws) (xs ++ (ys ++ zs)) ≡ zs
      drop_both =
          rw (← append_assoc xs ys zs)
            (drop-append (at + length ws) (xs ++ ys) zs (omega (arith, length-append xs ys)))

-- `==` of slices
unfoldable pub list_eq : List ℕ → List ℕ → Bool
list_eq [] [] = true
list_eq (x ∷ xs) (y ∷ ys) = x == y && list_eq xs ys
list_eq _ _ = false

pub list_eq_refl : (xs : List ℕ) → list_eq xs xs ≡ true
unfolding list_eq
list_eq_refl [] = refl
list_eq_refl (x ∷ xs) = ground (arith, list_eq_refl xs)

pub eq_of_list_eq : (xs ys : List ℕ) → list_eq xs ys ≡ true → xs ≡ ys
unfolding list_eq
eq_of_list_eq [] [] h = refl
eq_of_list_eq [] (y ∷ ys) h = cc
eq_of_list_eq (x ∷ xs) [] h = cc
eq_of_list_eq (x ∷ xs) (y ∷ ys) h = ground (arith, eq_of_list_eq xs ys)

pub list_eq_comm : (xs ys : List ℕ) → list_eq xs ys ≡ list_eq ys xs
unfolding list_eq
list_eq_comm [] [] = refl
list_eq_comm [] (y ∷ ys) = refl
list_eq_comm (x ∷ xs) [] = refl
list_eq_comm (x ∷ xs) (y ∷ ys) = ground (arith, list_eq_comm xs ys)

pub list_eq-append :
    (xs ys zs ws : List ℕ)
    → length xs ≡ length ys
    → list_eq (xs ++ zs) (ys ++ ws) ≡ (list_eq xs ys && list_eq zs ws)
unfolding list_eq
list_eq-append [] [] zs ws h = refl
list_eq-append [] (y ∷ ys) zs ws h = absurd (omega arith)
list_eq-append (x ∷ xs) [] zs ws h = absurd (omega arith)
list_eq-append (x ∷ xs) (y ∷ ys) zs ws h = ground (arith, list_eq-append xs ys zs ws)

pub list_eq_lengths : (xs ys : List ℕ) → length xs ≢ length ys → list_eq xs ys ≡ false
list_eq_lengths xs ys h = elim (Bool-cases (list_eq xs ys)) [
  | inl t ↦ absurd (h (ap length (eq_of_list_eq xs ys t)))
  | inr f ↦ f
]

module _ {ℓ} {A : Type ℓ} where
  -- The first of two cuts of a list is a part of the second one.
  pub append_split :
      (us vs xs ys : List A)
      → length us ≤ length xs
      → xs ++ ys ≡ us ++ vs
      → (p : List A) × (xs ≡ us ++ p) × (vs ≡ p ++ ys)
  append_split [] vs xs ys le h = (xs, refl, sym h)
  append_split (u ∷ us) vs [] ys le h = absurd (omega arith)
  append_split (u ∷ us) vs (x ∷ xs) ys le h =
      let (p, q, r) = append_split us vs xs ys (omega arith) (cc) in (p, cc, r)

  pub append_cancel :
      (us vs xs ys : List A) → length us ≡ length xs → xs ++ ys ≡ us ++ vs → (xs ≡ us) × (ys ≡ vs)
  append_cancel [] vs [] ys e h = (refl, h)
  append_cancel [] vs (x ∷ xs) ys e h = absurd (omega arith)
  append_cancel (u ∷ us) vs [] ys e h = absurd (omega arith)
  append_cancel (u ∷ us) vs (x ∷ xs) ys e h =
      let (p, q) = append_cancel us vs xs ys (omega arith) (cc) in (cc, q)

  pub get_elem?-append : (xs ys : List A) → get_elem? (xs ++ ys) (length xs) ≡ get_elem? ys 0
  get_elem?-append [] ys = refl
  get_elem?-append (x ∷ xs) ys = get_elem?-append xs ys

  -- A range that ends where a later part of the list does.
  pub append_ends :
      (us n vs xs cs ys : List A)
      → length us + length n ≡ length xs + length cs
      → length xs ≤ length us
      → xs ++ (cs ++ ys) ≡ us ++ (n ++ vs)
      → (p : List A) × (us ≡ xs ++ p) × (cs ≡ p ++ n) × (vs ≡ ys)
  append_ends us n vs xs cs ys ends le h =
      let (p, q, r) = append_split xs (cs ++ ys) us (n ++ vs) le (sym h) in
      let ends' : length (p ++ n) ≡ length cs =
        omega (arith, ap length q, length-append xs p, length-append p n, ends) in
      let (s, t) = append_cancel (p ++ n) vs cs ys ends' (r ∙ sym (append_assoc p n vs)) in
      (p, q, s, sym t)

  -- A range round the place between two parts.
  pub append_around :
      (us n vs xs ys : List A)
      → length us ≤ length xs
      → length xs ≤ length us + length n
      → xs ++ ys ≡ us ++ (n ++ vs)
      → (p : List A) × (q : List A) × (xs ≡ us ++ p) × (n ≡ p ++ q) × (ys ≡ q ++ vs)
  append_around us n vs xs ys le ge h =
      let (p, a, r) = append_split us (n ++ vs) xs ys le h in
      let inside : length p ≤ length n = omega (arith, ap length a, length-append us p, ge) in
      let (q, b, t) = append_split p ys n vs inside r in (p, q, a, b, t)

module _ {ℓ} {A : Type ℓ} where
  pub length-set : (xs : List A) (i : ℕ) (v : A) → length (set xs i v) ≡ length xs
  length-set [] i v = refl
  length-set (x ∷ xs) zero v = refl
  length-set (x ∷ xs) (suc i) v = ap suc (length-set xs i v)

  pub get_elem?-set_self :
      (xs : List A) (i : ℕ) (v : A) → i < length xs → get_elem? (set xs i v) i ≡ some v
  get_elem?-set_self [] i v h = absurd (omega arith)
  get_elem?-set_self (x ∷ xs) zero v h = refl
  get_elem?-set_self (x ∷ xs) (suc i) v h = get_elem?-set_self xs i v (omega arith)

  pub get_elem?-set_other :
      (xs : List A) (i j : ℕ) (v : A) → j ≢ i → get_elem? (set xs i v) j ≡ get_elem? xs j
  get_elem?-set_other [] i j v h = refl
  get_elem?-set_other (x ∷ xs) zero zero v h = absurd (h refl)
  get_elem?-set_other (x ∷ xs) zero (suc j) v h = refl
  get_elem?-set_other (x ∷ xs) (suc i) zero v h = refl
  get_elem?-set_other (x ∷ xs) (suc i) (suc j) v h =
      get_elem?-set_other xs i j v (λ e. h (ap suc e))

  pub lt_of_get_elem? : (xs : List A) (i : ℕ) (v : A) → get_elem? xs i ≡ some v → i < length xs
  lt_of_get_elem? [] i v h = cc
  lt_of_get_elem? (x ∷ xs) zero v h = omega arith
  lt_of_get_elem? (x ∷ xs) (suc i) v h = omega (arith, lt_of_get_elem? xs i v h)

  pub get_elem?-some : (xs : List A) (i : ℕ) → i < length xs → (v : A) × (get_elem? xs i ≡ some v)
  get_elem?-some [] i h = absurd (omega arith)
  get_elem?-some (x ∷ xs) zero h = (x, refl)
  get_elem?-some (x ∷ xs) (suc i) h = get_elem?-some xs i (omega arith)

  pub cons_inj : {x y : A} {xs ys : List A} → x ∷ xs ≡ y ∷ ys → (x ≡ y) × (xs ≡ ys)
  cons_inj h = (cc, cc)
