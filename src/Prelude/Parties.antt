-- ===== src/Prelude/Parties.antt =====
-- Goroutines that run at once, in a list: the one of a number, which moves, and the others.
use Prim.Native.Nat.{ℕ, zero, suc}
use mathlib.Core.Path.{◌≡◌, sym, ap, ◌∙◌}
use mathlib.Core.Option.{Option, none, some}
use mathlib.Core.List.{List, [], ◌∷◌}

abbrev pub behind : {A : Type 0} → A → Option (A × List A) → Option (A × List A)
behind b none = none
behind b (some p) = some (p.0, b ∷ p.1)

-- The goroutine of that number, and the others.
abbrev pub pick : {A : Type 0} → ℕ → List A → Option (A × List A)
pick n [] = none
pick zero (b ∷ bs) = some (b, bs)
pick (suc n) (b ∷ bs) = behind b (pick n bs)

-- The goroutines with another state of that one.
abbrev pub replace : {A : Type 0} → ℕ → A → List A → List A
replace n a [] = []
replace zero a (b ∷ bs) = a ∷ bs
replace (suc n) a (b ∷ bs) = b ∷ replace n a bs

behind-some :
    {A : Type 0} (x b : A) (ys : List A) (o : Option (A × List A))
    → behind x o ≡ some (b, ys)
    → (zs : List A) × (o ≡ some (b, zs)) × (ys ≡ x ∷ zs)
behind-some x b ys none h = cc
behind-some x b ys (some p) h = (p.1, cc, cc)

pub pick-replace :
    {A : Type 0} (n : ℕ) (a b : A) (xs ys : List A)
    → pick n xs ≡ some (b, ys)
    → pick n (replace n a xs) ≡ some (a, ys)
pick-replace n a b [] ys h = cc
pick-replace zero a b (x ∷ xs) ys h = cc
pick-replace (suc n) a b (x ∷ xs) ys h =
    let (zs, e, k) = behind-some x b ys (pick n xs) h in
    ap (behind x) (pick-replace n a b xs zs e) ∙ ap (λ l. some (a, l)) (sym k)
