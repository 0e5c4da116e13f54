-- ===== src/Base/Outcome.antt =====
-- What a piece of the program comes to: a value, an exception that it does not catch, the end of
-- the process by `std::exit`, or undefined behaviour such as a read past the end of a buffer.
use Prim.Native.Nat.{ℕ}
use mathlib.Core.Path.{◌≡◌, refl, subst}
use mathlib.Core.Bool.{Bool, true, false}
use mathlib.Core.Option.{Option, none, some}
use ntmd.Base.Tests.{if◌then◌else◌}

pub data Exn : Type 0 where
  invalid_argument out_of_range : Exn

pub data Outcome {ℓ} (A : Type ℓ) : Type ℓ where
  ok : A → Outcome A
  throws : Exn → Outcome A
  exits : ℕ → Outcome A
  undefined : Outcome A

infixl 5 ◌>>=◌
abbrev pub ◌>>=◌ {ℓ κ} : {A : Type ℓ} {B : Type κ} → Outcome A → (A → Outcome B) → Outcome B
ok a >>= f = f a
throws x >>= f = throws x
exits n >>= f = exits n
undefined >>= f = undefined

-- Inversion of a bind that returns.
>>=-eq-ok {ℓ κ} :
    {A : Type ℓ} {B : Type κ} (m : Outcome A) (f : A → Outcome B) {result : B}
    → (m >>= f) ≡ ok result
    → (value : A) × (m ≡ ok value) × (f value ≡ ok result)
>>=-eq-ok undefined f h = cc
>>=-eq-ok (exits n) f h = cc
>>=-eq-ok (throws x) f h = cc
>>=-eq-ok (ok value) f h = (value, refl, h)

-- `m` returns a value.
abbrev pub Returns {ℓ} : {A : Type ℓ} → Outcome A → Type ℓ
Returns {A} m = (a : A) × (m ≡ ok a)

-- Every value that `m` returns satisfies `P`.
abbrev pub Ensures {ℓ κ} : {A : Type ℓ} → (A → Type κ) → Outcome A → Type (ℓ ⊔ κ)
Ensures {A} P m = (a : A) → m ≡ ok a → P a

module _ {ℓ κ} {A : Type ℓ} {B : Type κ} where
  pub Returns-bind :
      (m : Outcome A) (f : A → Outcome B)
      → Returns m
      → ((a : A) → Returns (f a))
      → Returns (m >>= f)
  Returns-bind m f (a, e) g = rw e (g a)

  -- The continuation may use that the first action returned.
  pub Ensures-bind {μ} :
      (P : B → Type μ) (m : Outcome A) (f : A → Outcome B)
      → ((a : A) → m ≡ ok a → Ensures P (f a))
      → Ensures P (m >>= f)
  Ensures-bind P m f g b h = let (a, returned, rest) = >>=-eq-ok m f h in g a returned b rest

module _ {ℓ} {A : Type ℓ} where
  pub Returns-if :
      (b : Bool) (m n : Outcome A) → Returns m → Returns n → Returns (if b then m else n)
  Returns-if true m n hm hn = hm
  Returns-if false m n hm hn = hn

  pub Ensures-if {κ} :
      (P : A → Type κ) (b : Bool) (m n : Outcome A)
      → (b ≡ true → Ensures P m)
      → (b ≡ false → Ensures P n)
      → Ensures P (if b then m else n)
  Ensures-if P true m n hm hn = hm refl
  Ensures-if P false m n hm hn = hn refl

  pub ok-injective : (a b : A) → ok a ≡ ok b → a ≡ b
  ok-injective a b h = cc

  pub Ensures-ok {κ} : (P : A → Type κ) (a : A) → P a → Ensures P (ok a)
  Ensures-ok P a h b e = subst P (ok-injective a b e) h

pub bind_assoc {ℓ κ μ} :
    {A : Type ℓ} {B : Type κ} {C : Type μ} (m : Outcome A) (f : A → Outcome B) (g : B → Outcome C)
    → ((m >>= f) >>= g) ≡ (m >>= λ a. f a >>= g)
bind_assoc (ok a) f g = refl
bind_assoc (throws x) f g = refl
bind_assoc (exits n) f g = refl
bind_assoc undefined f g = refl

-- Two binds agree if their continuations do.
pub bind_ext {ℓ κ} :
    {A : Type ℓ} {B : Type κ} (m : Outcome A) (f g : A → Outcome B)
    → ((a : A) → f a ≡ g a)
    → (m >>= f) ≡ (m >>= g)
bind_ext (ok a) f g h = h a
bind_ext (throws x) f g h = refl
bind_ext (exits n) f g h = refl
bind_ext undefined f g h = refl

-- The matches of the models: on an optional value, and on a test whose branches wait.
module _ {ℓ κ μ} {A : Type ℓ} {B : Type κ} (P : B → Type μ) where
  pub Ensures-option :
      (o : Option A) (n : Outcome B) (f : A → Outcome B)
      → (o ≡ none → Ensures P n)
      → ((a : A) → o ≡ some a → Ensures P (f a))
      → Ensures P (elim o [ none ↦ n | some a ↦ f a ])
  Ensures-option none n f hn hf = hn refl
  Ensures-option (some a) n f hn hf = hf a refl

module _ {κ μ} {B : Type κ} (P : B → Type μ) where
  pub Ensures-bool :
      (b : Bool) (m n : Outcome B)
      → (b ≡ true → Ensures P m)
      → (b ≡ false → Ensures P n)
      → Ensures P (elim b [ true ↦ m | false ↦ n ])
  Ensures-bool true m n hm hn = hm refl
  Ensures-bool false m n hm hn = hn refl

  pub Ensures-exits : (n : ℕ) → Ensures P (exits n)
  Ensures-exits n b e = absurd (cc)
