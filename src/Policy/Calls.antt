-- ===== src/Policy/Calls.antt =====
-- A call on the state that returns or raises, and the steps that the calls of the policy layer are made of. A call
-- that raises keeps what it had changed.
use ameme.Base.{
  ℕ, ◌+◌, String, ◌+s◌, Bool, true, false, Option, none, some, ◌≡◌, refl, Outcome, ok, err, sym, ap,
  ok-injective,
}
use ameme.Policy.State.{Refusal, mock, value_error, Times, Memory, World}

abbrev pub Ended : Type 0 → Type 0
Ended A = World × Outcome Refusal A

abbrev pub Act : Type 0 → Type 0
Act A = World → Ended A

abbrev pub next : {A B : Type 0} → Ended A → (A → Act B) → Ended B
next (w, ok a) k = k a w
next (w, err e) k = (w, err e)

infixl 5 ◌>>=◌ ◌>>◌
abbrev pub ◌>>=◌ : {A B : Type 0} → Act A → (A → Act B) → Act B
m >>= k = λ w. next (m w) k

abbrev pub ◌>>◌ : {A B : Type 0} → Act A → Act B → Act B
m >> rest = m >>= λ _. rest

abbrev pub give : {A : Type 0} → A → Act A
give a = λ w. (w, ok a)

abbrev pub refuse : {A : Type 0} → String → String → Act A
refuse code message_key = λ w. (w, err (mock code message_key))

abbrev pub refuse_if : Bool → String → String → Act (Unit {0})
refuse_if true code message_key = refuse code message_key
refuse_if false code message_key = give tt

abbrev pub read : {A : Type 0} → (Memory → A) → Act A
read f = λ w. (w, ok (f w.memory))

abbrev pub change : (Memory → Memory) → Act (Unit {0})
change f = λ w. (record w { memory = f w.memory }, ok tt)

-- `store.save()`
abbrev pub save : Act (Unit {0})
save = λ w. (record w { disk = w.memory }, ok tt)

-- `_identifier`
abbrev pub draw : Times → String → Act String
draw t prefix = λ w. (record w { drawn = w.drawn + 1 }, ok (prefix +s "_" +s t.uuid w.drawn))

-- `_parse`
abbrev pub read_time : Option ℕ → Act ℕ
read_time none = λ w. (w, err value_error)
read_time (some n) = give n

-- What follows from the parts of a call that returns follows from the call.
pub on_act {κ} :
    {A B : Type 0} {P : Type κ} (first : Ended A) (k : A → Act B) {v : World} {b : B}
    → next first k ≡ (v, ok b)
    → ((u : World) (a : A) → first ≡ (u, ok a) → k a u ≡ (v, ok b) → P)
    → P
on_act (w, ok a) k h then_ = then_ w a refl h
on_act (w, err e) k h then_ = absurd (cc h)

pub on_refuse_if {κ} :
    {B : Type 0} {P : Type κ} (b : Bool) (code message_key : String) (k : Unit {0} → Act B)
    (w : World) {v : World} {r : B}
    → next (refuse_if b code message_key w) k ≡ (v, ok r)
    → (b ≡ false → k tt w ≡ (v, ok r) → P)
    → P
on_refuse_if true code message_key k w h then_ = absurd (cc h)
on_refuse_if false code message_key k w h then_ = then_ refl h

-- Two calls that return the same: the state and the value are the same.
pub returned :
    {A : Type 0} {w v : World} {a b : A} → ◌≡◌ {A = Ended A} (w, ok a) (v, ok b) → (v ≡ w) × (a ≡ b)
returned {a = a} {b = b} h = (sym (ap (λ q. q.0) h), ok-injective a b (ap (λ q. q.1) h))

pub on_read_time {κ} :
    {B : Type 0} {P : Type κ} (o : Option ℕ) (k : ℕ → Act B) (w : World) {v : World} {r : B}
    → next (read_time o w) k ≡ (v, ok r)
    → ((n : ℕ) → o ≡ some n → k n w ≡ (v, ok r) → P)
    → P
on_read_time none k w h then_ = absurd (cc h)
on_read_time (some n) k w h then_ = then_ n refl h
