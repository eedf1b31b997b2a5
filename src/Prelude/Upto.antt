-- ===== src/Prelude/Upto.antt =====
-- The values of a function over a range.
use Prim.Native.Nat.{ℕ, zero, suc, ◌+◌, ◌<◌}
use mathlib.Core.Path.{◌≡◌, refl, ap, ap₂, ◌∙◌}
use mathlib.Core.List.{List, [], ◌∷◌, ◌++◌}
use native.Mathlib.Omega.{arith}
use balloon_suchai_flight_so.Prelude.Lists.{length, get_or}

-- The values of a function from `k` on, `n` of them.
abbrev pub upto {ℓ} : {A : Type ℓ} → (ℕ → A) → ℕ → ℕ → List A
upto f k zero = []
upto f k (suc n) = f k ∷ upto f (k + 1) n

pub length-upto : {A : Type 0} (f : ℕ → A) (k n : ℕ) → length (upto f k n) ≡ n
length-upto f k zero = refl
length-upto f k (suc n) = ap suc (length-upto f (k + 1) n)

pub upto-append :
    {A : Type 0} (f : ℕ → A) (k a b n : ℕ) → a + b ≡ n → upto f k a ++ upto f (k + a) b ≡ upto f k n
upto-append f k zero b n e = ap₂ (upto f) (omega arith) (omega (arith, e))
upto-append f k (suc a) b zero e = absurd (omega arith)
upto-append f k (suc a) b (suc n) e = ap (◌∷◌ (f k)) (
    ap (λ j. upto f (k + 1) a ++ upto f j b) (omega arith)
    ∙ upto-append f (k + 1) a b n (omega (arith, e)))

pub upto-shift :
    {A : Type 0} (f g : ℕ → A) (k a n : ℕ)
    → ((i : ℕ) → i < n → f (k + i) ≡ g (a + i))
    → upto f k n ≡ upto g a n
upto-shift f g k a zero h = refl
upto-shift f g k a (suc n) h =
    ap₂ ◌∷◌ (ap f (omega arith) ∙ h 0 (omega arith) ∙ ap g (omega arith)) (
      upto-shift f g (k + 1) (a + 1) n
        (λ i l. ap f (omega arith) ∙ h (i + 1) (omega arith) ∙ ap g (omega arith)))

pub get_or-upto :
    {A : Type 0} (f : ℕ → A) (k n j : ℕ) (d : A) → j < n → get_or (upto f k n) j d ≡ f (k + j)
get_or-upto f k zero j d h = absurd (omega arith)
get_or-upto f k (suc n) zero d h = ap f (omega arith)
get_or-upto f k (suc n) (suc j) d h = get_or-upto f (k + 1) n j d (omega arith) ∙ ap f (omega arith)

-- A list is the values of a function that has them at each place.
pub upto-list :
    (f : ℕ → ℕ) (a : ℕ) (bs : List ℕ)
    → ((k : ℕ) → k < length bs → f (a + k) ≡ get_or bs k 0)
    → upto f a (length bs) ≡ bs
upto-list f a [] h = refl
upto-list f a (b ∷ bs) h =
    ap₂ ◌∷◌ (ap f (omega arith) ∙ h 0 (omega arith))
      (upto-list f (a + 1) bs (λ k l. ap f (omega arith) ∙ h (suc k) (omega arith)))
