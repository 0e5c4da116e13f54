-- ===== src/Api/Server/Going.antt =====
-- What holds of the states that a step of the server of api/APIController.cpp leads to.
use ntmd.Base.{Bool, true, false, if◌then◌else◌, ◌≡◌, subst, refl}
use ntmd.Base.Outcome.{Outcome, ok, throws, exits, undefined, Ensures}
use ntmd.Api.Server.{Course, goes_on, killed, uncaught, exited, lost, follow, course_of}

-- Every state in which a course goes on satisfies `P`.
abbrev pub Goes {ℓ κ} : {A : Type ℓ} → (A → Type κ) → Course A → Type (ℓ ⊔ κ)
Goes {A} P course = (a : A) → course ≡ goes_on a → P a

pub Goes-on {ℓ κ} : {A : Type ℓ} (P : A → Type κ) (a : A) → P a → Goes P (goes_on a)
Goes-on {A = A} P a h b e = subst P (inside a b e) h
  where
    inside : (x y : A) → goes_on x ≡ goes_on y → x ≡ y
    inside x y same = cc same

pub Goes-follow {ℓ κ μ} :
    {A : Type ℓ} {B : Type κ} (P : B → Type μ) (course : Course A) (f : A → Course B)
    → ((a : A) → course ≡ goes_on a → Goes P (f a))
    → Goes P (follow course f)
unfolding follow
Goes-follow P (goes_on a) f h = h a refl
Goes-follow P killed f h = λ b e. cc
Goes-follow P uncaught f h = λ b e. cc
Goes-follow P (exited n) f h = λ b e. cc
Goes-follow P lost f h = λ b e. cc

pub Goes-course_of {ℓ κ} :
    {A : Type ℓ} (P : A → Type κ) (outcome : Outcome A)
    → Ensures P outcome
    → Goes P (course_of outcome)
unfolding course_of
Goes-course_of P (ok a) h = Goes-on P a (h a refl)
Goes-course_of P (throws x) h = λ b e. cc
Goes-course_of P (exits n) h = λ b e. cc
Goes-course_of P undefined h = λ b e. cc

pub Goes-if {ℓ κ} :
    {A : Type ℓ} (P : A → Type κ) (b : Bool) (c d : Course A)
    → Goes P c
    → Goes P d
    → Goes P (if b then c else d)
Goes-if P true c d h h' = h
Goes-if P false c d h h' = h'
