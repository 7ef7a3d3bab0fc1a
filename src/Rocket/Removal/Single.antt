-- ===== src/Rocket/Removal/Single.antt =====
-- Where the entry stands in the slice once at most, the removal does what it should.
use kmq_utils.Prelude.{
  ℕ, zero, suc, ◌+◌, ◌-◌, ◌≤◌, ◌<◌, ◌≡◌, ◌≢◌, refl, sym, ap, ◌∙◌, inl, inr, false, String, none,
  some, List, [], ◌∷◌, arith, eq_iff, length, take, ltb, if◌then◌else◌, Option-cases,
}
use kmq_utils.Rocket.Removal.{
  get_elem?, shift_left, shift, Slice, body, after, loop, visible, remove_item,
}

get_elem?-shift_left :
    {A : Type 0} (m : ℕ) (xs : List A) (j : ℕ)
    → m ≤ length xs
    → get_elem? (shift_left m xs) j
      ≡ (if ltb (j + 1) m then get_elem? xs (j + 1) else get_elem? xs j)
unfolding shift_left
get_elem?-shift_left zero xs j h = ground arith
get_elem?-shift_left (suc zero) xs j h = ground arith
get_elem?-shift_left (suc (suc m)) [] j h = absurd (omega arith)
get_elem?-shift_left (suc (suc m)) (x ∷ []) j h = absurd (omega arith)
get_elem?-shift_left (suc (suc m)) (x ∷ y ∷ ys) zero h = ground arith
get_elem?-shift_left (suc (suc m)) (x ∷ y ∷ ys) (suc j) h =
    ground (arith, get_elem?-shift_left (suc m) (y ∷ ys) j)

-- Behind the removed index the array holds the next entry, within the slice, and its own beyond.
pub get_elem?-shift :
    {A : Type 0} (i m : ℕ) (xs : List A) (j : ℕ)
    → i ≤ j
    → m ≤ length xs
    → get_elem? (shift i m xs) j ≡ (if ltb (j + 1) m then get_elem? xs (j + 1) else get_elem? xs j)
unfolding shift
get_elem?-shift zero m xs j b h = get_elem?-shift_left m xs j h
get_elem?-shift (suc i) m [] j b h = ground arith
get_elem?-shift (suc i) m (x ∷ xs) zero b h = absurd (omega arith)
get_elem?-shift (suc i) m (x ∷ xs) (suc j) b h = ground (arith, get_elem?-shift i (m - 1) xs j)

length-shift_left : {A : Type 0} (m : ℕ) (xs : List A) → length (shift_left m xs) ≡ length xs
unfolding shift_left
length-shift_left zero xs = refl
length-shift_left (suc zero) xs = refl
length-shift_left (suc (suc m)) [] = refl
length-shift_left (suc (suc m)) (x ∷ []) = refl
length-shift_left (suc (suc m)) (x ∷ y ∷ ys) = omega (arith, length-shift_left (suc m) (y ∷ ys))

pub length-shift : {A : Type 0} (i m : ℕ) (xs : List A) → length (shift i m xs) ≡ length xs
unfolding shift
length-shift zero m xs = length-shift_left m xs
length-shift (suc i) m [] = refl
length-shift (suc i) m (x ∷ xs) = omega (arith, length-shift i (m - 1) xs)

-- The list without its entry at an index.
abbrev pub erase_at : {A : Type 0} → ℕ → List A → List A
erase_at i [] = []
erase_at zero (x ∷ xs) = xs
erase_at (suc i) (x ∷ xs) = x ∷ erase_at i xs

take-shift_left :
    {A : Type 0} (x : A) (xs : List A)
    → take (length xs) (shift_left (suc (length xs)) (x ∷ xs)) ≡ xs
unfolding shift_left
take-shift_left x [] = refl
take-shift_left x (y ∷ ys) = ap (◌∷◌ y) (take-shift_left y ys)

take-shift :
    {A : Type 0} (i : ℕ) (xs : List A)
    → i < length xs
    → take (length xs - 1) (shift i (length xs) xs) ≡ erase_at i xs
unfolding shift
take-shift i [] h = absurd (omega arith)
take-shift zero (x ∷ xs) h =
    let e : suc (length xs) - 1 ≡ length xs = omega arith in rw e (take-shift_left x xs)
take-shift (suc i) (x ∷ []) h = absurd (omega arith)
take-shift (suc i) (x ∷ y ∷ ys) h =
    let outer : suc (suc (length ys)) - 1 ≡ suc (length ys) = omega arith in
    let inner : suc (length ys) - 1 ≡ length ys = omega arith in
    rw outer (ap (◌∷◌ x) (rw inner at (take-shift i (y ∷ ys) (omega arith))))

get_elem?-lt : {A : Type 0} (xs : List A) (i : ℕ) (a : A) → get_elem? xs i ≡ some a → i < length xs
get_elem?-lt [] i a h = cc
get_elem?-lt (x ∷ xs) zero a h = omega arith
get_elem?-lt (x ∷ xs) (suc i) a h = omega (arith, get_elem?-lt xs i a h)

take_all : {A : Type 0} (xs : List A) → take (length xs) xs ≡ xs
take_all [] = refl
take_all (x ∷ xs) = ap (◌∷◌ x) (take_all xs)

-- No entry from `i` on is `t`.
abbrev pub CleanFrom : String → ℕ → List String → Type 0
CleanFrom t i xs = (j : ℕ) → i ≤ j → get_elem? xs j ≢ some t

body_clean : (t : String) (i : ℕ) (s : Slice) → get_elem? s.array i ≢ some t → body t i s ≡ some s
unfolding body
body_clean t i s h = elim (Option-cases (get_elem? s.array i)) [
  | inl e ↦ rw (e, body) refl
  | inr (v, e) ↦ ground (arith, eq_iff v t)
]

loop_clean : (t : String) (k i : ℕ) (s : Slice) → CleanFrom t i s.array → loop t k i s ≡ some s
unfolding loop after
loop_clean t zero i s h = refl
loop_clean t (suc k) i s h =
    rw (body_clean t i s (h i (omega arith)), loop_clean t k (i + 1) s (λ j b. h j (omega arith)))
      refl

-- So many rounds that meet no `t`.
loop_skip :
    (t : String) (d k i : ℕ) (s : Slice)
    → ((j : ℕ) → i ≤ j → j < i + d → get_elem? s.array j ≢ some t)
    → loop t (d + k) i s ≡ loop t k (i + d) s
unfolding loop after
loop_skip t zero k i s h =
    let e : i + 0 ≡ i = omega arith in let f : 0 + k ≡ k = omega arith in rw (e, f) refl
loop_skip t (suc d) k i s h =
    let e : suc d + k ≡ suc (d + k) = omega arith in
    let f : i + suc d ≡ i + 1 + d = omega arith in
    rw (e, f, body_clean t i s (h i (omega arith) (omega arith)))
      (loop_skip t d k (i + 1) s (λ j b l. h j (omega arith) (omega arith)))

body_hit :
    (t : String) (i : ℕ) (s : Slice)
    → get_elem? s.array i ≡ some t
    → body t i s ≡ (
        if ltb s.len (i + 1)
        then none
        else some (record { array = shift i s.len s.array; len = s.len - 1 }))
unfolding body
body_hit t i s h = ground (arith, eq_iff t t)

shift-CleanFrom :
    (t : String) (p : ℕ) (xs : List String)
    → ((j : ℕ) → j ≢ p → get_elem? xs j ≢ some t)
    → CleanFrom t (p + 1) (shift p (length xs) xs)
shift-CleanFrom t p xs h j b e = ground (arith, get_elem?-shift p (length xs) xs j, h (j + 1), h j)

-- The rounds of a range over an entry that stands once.
loop_single :
    (t : String) (p k : ℕ) (xs : List String)
    → length xs ≡ p + suc k
    → get_elem? xs p ≡ some t
    → ((j : ℕ) → j ≢ p → get_elem? xs j ≢ some t)
    → loop t (p + suc k) 0 (record { array = xs; len = length xs })
      ≡ some (record { array = shift p (length xs) xs; len = length xs - 1 })
unfolding loop after
loop_single t p k xs e hit others =
    let over : ltb (length xs) (p + 1) ≡ false = ground arith in
    let start : 0 + p ≡ p = omega arith in
    let skip =
      loop_skip t p (suc k) 0 (record { array = xs; len = length xs })
        (λ j b l. others j (λ q. absurd (omega arith))) in
    skip
    ∙ rw (start, body_hit t p (record { array = xs; len = length xs }) hit, over)
        (loop_clean t k (p + 1) (record { array = shift p (length xs) xs; len = length xs - 1 })
          (shift-CleanFrom t p xs others))

-- An entry that stands once in the slice, at index `p`, is removed, the others keep their order, and
-- there is no panic.
pub remove_item_once :
    (t : String) (xs : List String) (p : ℕ)
    → get_elem? xs p ≡ some t
    → ((j : ℕ) → j ≢ p → get_elem? xs j ≢ some t)
    → remove_item t xs ≡ some (erase_at p xs)
unfolding remove_item visible
remove_item_once t xs p hit others =
    let bound = get_elem?-lt xs p t hit in
    let rounds : p + suc (length xs - p - 1) ≡ length xs = omega arith in
    let looped : loop t (length xs) 0 (record { array = xs; len = length xs })
        ≡ some (record { array = shift p (length xs) xs; len = length xs - 1 }) =
      rw rounds at (loop_single t p (length xs - p - 1) xs (sym rounds) hit others) in
    ap visible looped ∙ ap some (take-shift p xs bound)

-- An entry that does not stand in the slice changes nothing, and there is no panic.
pub remove_item_absent :
    (t : String) (xs : List String) → CleanFrom t 0 xs → remove_item t xs ≡ some xs
unfolding remove_item visible
remove_item_absent t xs clean =
    rw (loop_clean t (length xs) 0 (record { array = xs; len = length xs }) clean)
      (ap some (take_all xs))
