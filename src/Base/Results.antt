-- ===== src/Base/Results.antt =====
-- A call that returns or raises; the exceptions of one component are its type `E`.
use mathlib.Core.Path.{◌≡◌, refl}
use mathlib.Core.Logic.{◌⊎◌, inl, inr}
use mathlib.Core.Bool.{Bool, true, false}

pub data Outcome {ℓ} (E : Type ℓ) (A : Type ℓ) : Type ℓ where
  ok : A → Outcome E A
  err : E → Outcome E A

module _ {ℓ} {E A B : Type ℓ} where
  infixl 5 ◌>>=◌ ◌>>◌
  abbrev pub ◌>>=◌ : Outcome E A → (A → Outcome E B) → Outcome E B
  err c >>= k = err c
  ok a >>= k = k a

  abbrev pub ◌>>◌ : Outcome E A → Outcome E B → Outcome E B
  m >> rest = m >>= λ _. rest

  -- A chain that returns went through its first step.
  pub >>=-returns :
      (first : Outcome E A) (k : A → Outcome E B) {result : B}
      → (first >>= k) ≡ ok result
      → (a : A) × (first ≡ ok a) × (k a ≡ ok result)
  >>=-returns (err c) k h = cc h
  >>=-returns (ok a) k h = (a, refl, h)

abbrev pub raise_if : {E : Type 0} → Bool → E → Outcome E (Unit {0})
raise_if false c = ok tt
raise_if true c = err c

pub Outcome-cases {ℓ} :
    {E A : Type ℓ} (r : Outcome E A) → ((a : A) × (r ≡ ok a)) ⊎ ((c : E) × (r ≡ err c))
Outcome-cases (ok a) = inl (a, refl)
Outcome-cases (err c) = inr (c, refl)

-- A check that passes.
pub raise_if-passes :
    {E : Type 0} (b : Bool) (c : E) {u : Unit {0}} → raise_if b c ≡ ok u → b ≡ false
raise_if-passes true c h = cc h
raise_if-passes false c h = refl

-- The same two in the other form: what follows from the parts of a chain follows from the chain.
pub on_return {ℓ κ} :
    {E A B : Type ℓ} {P : Type κ} (first : Outcome E A) (k : A → Outcome E B) {result : B}
    → (first >>= k) ≡ ok result
    → ((a : A) → first ≡ ok a → k a ≡ ok result → P)
    → P
on_return (err c) k h then_ = absurd (cc h)
on_return (ok a) k h then_ = then_ a refl h

pub on_check {κ} :
    {E B : Type 0} {P : Type κ} (b : Bool) (c : E) (k : Unit {0} → Outcome E B) {result : B}
    → (raise_if b c >>= k) ≡ ok result
    → (b ≡ false → k tt ≡ ok result → P)
    → P
on_check true c k h then_ = absurd (cc h)
on_check false c k h then_ = then_ refl h

pub ok-injective {ℓ} : {E A : Type ℓ} (a b : A) → ◌≡◌ {A = Outcome E A} (ok a) (ok b) → a ≡ b
ok-injective a b h = cc h
