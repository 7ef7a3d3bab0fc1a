-- ===== src/Rocket/Removal.antt =====
-- Removing an entry from a slice while ranging over it: RemoveTopic and RemoveServer of
-- rocketmq/config.go. The range keeps the slice of its start, of a length and an array; `append` to
-- a part of the slice moves the entries behind it down in that array, and shortens the field's slice.
-- A slice expression whose bounds are wrong panics, which is `none` here.
pub mod Single
pub mod Panics
use kmq_utils.Prelude.{
  ℕ, zero, suc, ◌+◌, ◌-◌, Bool, true, false, String, Option, none, some, List, [], ◌∷◌, str_eq,
  length, take, ltb, if◌then◌else◌,
}

abbrev pub get_elem? : {A : Type 0} → List A → ℕ → Option A
get_elem? [] i = none
get_elem? (x ∷ xs) zero = some x
get_elem? (x ∷ xs) (suc i) = get_elem? xs i

-- The array with its entries 1 .. m - 1 moved to 0 .. m - 2.
shift_left : {A : Type 0} → ℕ → List A → List A
shift_left (suc (suc m)) (x ∷ y ∷ ys) = y ∷ shift_left (suc m) (y ∷ ys)
shift_left _ xs = xs

-- The array after `append(a[:i], a[i+1:m]...)`.
pub shift : {A : Type 0} → ℕ → ℕ → List A → List A
unfolding shift_left
shift zero m xs = shift_left m xs
shift (suc i) m [] = []
shift (suc i) m (x ∷ xs) = x ∷ shift i (m - 1) xs

-- The field's slice: the array of the range, and how much of it is in the slice.
pub record Slice : Type 0 where
  pub array : List String
  pub len : ℕ

-- One pass of the loop body at index `i`.
pub body : String → ℕ → Slice → Option Slice
unfolding shift
body t i s = elim (get_elem? s.array i) [
  | none ↦ some s
  | some v ↦
      (if str_eq v t
        then (if ltb s.len (i + 1)
            then none
            else some (record { array = shift i s.len s.array; len = s.len - 1 }))
        else some s)
]

after : Option Slice → (Slice → Option Slice) → Option Slice
after none f = none
after (some s) f = f s

-- `for i, v := range that.Topics`, with so many rounds left.
pub loop : String → ℕ → ℕ → Slice → Option Slice
unfolding body after
loop t zero i s = some s
loop t (suc k) i s = after (body t i s) (λ s'. loop t k (i + 1) s')

visible : Option Slice → Option (List String)
visible none = none
visible (some s) = some (take s.len s.array)

unfoldable pub remove_item : String → List String → Option (List String)
unfolding loop visible
remove_item t xs = visible (loop t (length xs) 0 (record { array = xs; len = length xs }))
