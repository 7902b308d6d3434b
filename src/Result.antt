-- ===== src/Result.antt =====
-- Rust's `Result<T, E>` with its error first, and the question mark as a bind.
use fossil_headers_db.Prelude.{
  ◌≡◌, refl, ◌⊎◌, inl, inr, Bool, true, false, List, [], ◌∷◌, ◌++◌, Option, none, some,
}

pub data Result {ℓ κ} (E : Type ℓ) (A : Type κ) : Type (ℓ ⊔ κ) where
  ok : A → Result E A
  err : E → Result E A

infixl 5 ◌>>=◌ ◌>>◌
abbrev pub ◌>>=◌ : {E A B : Type 0} → Result E A → (A → Result E B) → Result E B
ok a >>= f = f a
err e >>= f = err e

abbrev pub ◌>>◌ : {E B : Type 0} → Result E (Unit {0}) → Result E B → Result E B
m >> k = m >>= λ _. k

-- `map_err`.
abbrev pub map_err : {E F A : Type 0} → (E → F) → Result E A → Result F A
map_err f (ok a) = ok a
map_err f (err e) = err (f e)

-- An early `return Err(e)` behind a test.
abbrev pub fail_if : {E : Type 0} → Bool → E → Result E (Unit {0})
fail_if true e = err e
fail_if false e = ok tt

-- `Option::ok_or`.
abbrev pub ok_or : {E A : Type 0} → Option A → E → Result E A
ok_or none e = err e
ok_or (some a) e = ok a

abbrev pub or_else : {E A : Type 0} → Result E A → A → A
or_else (ok a) d = a
or_else (err e) d = d

abbrev pub is_ok : {E A : Type 0} → Result E A → Bool
is_ok (ok a) = true
is_ok (err e) = false

-- `for x in xs { out.push(f(x)?) }`.
module _ {E A B : Type 0} (f : A → Result E B) where
  unfoldable pub traverse : List A → Result E (List B)
  traverse [] = ok []
  traverse (x ∷ xs) = do y ← f x; ys ← traverse xs; ok (y ∷ ys)

pub Result-cases :
    {E A : Type 0} (r : Result E A) → ((a : A) × (r ≡ ok a)) ⊎ ((e : E) × (r ≡ err e))
Result-cases (ok a) = inl (a, refl)
Result-cases (err e) = inr (e, refl)

module _ {E A B : Type 0} (f : A → Result E B) where
  -- A loop that succeeds has succeeded at its first element and on the others.
  pub traverse-cons :
      (x : A) (xs : List A) (zs : List B)
      → traverse f (x ∷ xs) ≡ ok zs
      → (y : B) × (ys : List B) × (f x ≡ ok y) × (traverse f xs ≡ ok ys) × (zs ≡ y ∷ ys)
  unfolding traverse
  traverse-cons x xs zs e = elim (Result-cases (f x)) [
    | inr (bad, p) ↦ absurd (cc (rw (p, traverse) at e))
    | inl (y, p) ↦ elim (Result-cases (traverse f xs)) [
      | inr (bad, q) ↦ absurd (cc (rw (p, q) at e))
      | inl (ys, q) ↦ (y, ys, p, q, cc (rw (p, q) at e))
    ]
  ]

  -- A loop over two lists succeeds where both parts do.
  pub traverse-append :
      (xs ys : List A) (zs us : List B)
      → traverse f xs ≡ ok zs
      → traverse f ys ≡ ok us
      → (vs : List B) × (traverse f (xs ++ ys) ≡ ok vs)
  unfolding traverse
  traverse-append [] ys zs us p q = (us, q)
  traverse-append (x ∷ xs) ys zs us p q =
      let (y, rest, here, there, same) = traverse-cons x xs zs p in
      let (vs, all) = traverse-append xs ys rest us there q in (y ∷ vs, rw (here, all) refl)
