-- ===== src/Util/Decimal/Exceptions.antt =====
-- The exceptions of `std::stoi`.
use ntmd.Base.{ℕ, zero, suc, Bool, true, false, [], ◌∷◌, Text, eqb, ltb, if◌then◌else◌}
use ntmd.Base.Outcome.{Outcome, ok, throws, exits, undefined, ◌>>=◌}
use ntmd.Util.StringUtil.{is_digit, skip_space}
use ntmd.Util.Decimal.{stoi, signed, magnitude, positive, negative, int_max}

-- A value, or one of the two exceptions of `std::stoi`.
abbrev pub IsCaught {ℓ} : {A : Type ℓ} → Outcome A → Type 0
IsCaught (ok a) = Unit
IsCaught (throws x) = Unit
IsCaught (exits n) = ⊥
IsCaught undefined = ⊥

pub bind-IsCaught :
    {A B : Type 0} (m : Outcome A) (f : A → Outcome B)
    → IsCaught m
    → ((a : A) → IsCaught (f a))
    → IsCaught (m >>= f)
bind-IsCaught (ok a) f h g = g a
bind-IsCaught (throws x) f h g = tt
bind-IsCaught (exits n) f h g = absurd h
bind-IsCaught undefined f h g = absurd h

if-IsCaught :
    {A : Type 0} (b : Bool) (m n : Outcome A)
    → IsCaught m
    → IsCaught n
    → IsCaught (if b then m else n)
if-IsCaught true m n hm hn = hm
if-IsCaught false m n hm hn = hn

positive-IsCaught : (n : ℕ) → IsCaught (positive n)
unfolding positive
positive-IsCaught n = if-IsCaught (ltb int_max n) _ _ tt tt

negative-IsCaught : (n : ℕ) → IsCaught (negative n)
unfolding negative
negative-IsCaught zero = tt
negative-IsCaught (suc n) = if-IsCaught (ltb int_max n) _ _ tt tt

magnitude-IsCaught : (s : Text) → IsCaught (magnitude s)
unfolding magnitude
magnitude-IsCaught [] = tt
magnitude-IsCaught (c ∷ s) = if-IsCaught (is_digit c) _ _ tt tt

signed-IsCaught : (s : Text) → IsCaught (signed s)
unfolding signed
signed-IsCaught [] = tt
signed-IsCaught (c ∷ s) =
    if-IsCaught (eqb c b'-') _ _
      (bind-IsCaught (magnitude s) negative (magnitude-IsCaught s) negative-IsCaught)
      (if-IsCaught (eqb c b'+') _ _
        (bind-IsCaught (magnitude s) positive (magnitude-IsCaught s) positive-IsCaught)
        (bind-IsCaught (magnitude (c ∷ s)) positive (magnitude-IsCaught (c ∷ s)) positive-IsCaught))

pub stoi-IsCaught : (s : Text) → IsCaught (stoi s)
unfolding stoi
stoi-IsCaught s = signed-IsCaught (skip_space s)
