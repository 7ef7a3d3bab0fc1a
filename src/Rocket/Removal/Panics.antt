-- ===== src/Rocket/Removal/Panics.antt =====
-- Where the last entry stands earlier in the slice too, its removal panics.
use kmq_utils.Prelude.{
  ℕ, zero, suc, ◌+◌, ◌-◌, ◌≤◌, ◌<◌, ◌≡◌, ◌≢◌, refl, ap, ◌⊎◌, inl, inr, String, none, some, List,
  arith, str_eq, eq_iff, length, ltb, Option-cases, Bool-cases,
}
use kmq_utils.Rocket.Removal.{get_elem?, shift, Slice, body, after, loop, visible, remove_item}
use kmq_utils.Rocket.Removal.Single.{get_elem?-shift, length-shift}

body_cases :
    (t : String) (i : ℕ) (s : Slice)
    → ((body t i s ≡ some s) × (get_elem? s.array i ≢ some t))
      ⊎ ((body t i s ≡ none)
          ⊎ ((body t i s ≡ some (record { array = shift i s.len s.array; len = s.len - 1 }))
              × (i + 1 ≤ s.len)))
unfolding body
body_cases t i s = elim (Option-cases (get_elem? s.array i)) [
  | inl e ↦ inl (rw (e, body) refl, λ f. cc)
  | inr (v, e) ↦ elim (Bool-cases (str_eq v t)) [
    | inr other ↦ inl (ground arith, λ f. ground (arith, eq_iff v t))
    | inl same ↦ elim (Bool-cases (ltb s.len (i + 1))) [
      | inl over ↦ inr (inl (ground arith))
      | inr room ↦ inr (inr (ground arith, ground arith))
    ]
  ]
]

-- Once the slice is shorter than the range, the last round panics if an earlier one did not.
late_panics :
    (t : String) (k i m : ℕ) (s : Slice)
    → i + k ≡ suc m
    → i ≤ m
    → s.len ≤ m
    → m < length s.array
    → get_elem? s.array m ≡ some t
    → loop t k i s ≡ none
unfolding loop after
late_panics t zero i m s e l n b h = absurd (omega arith)
late_panics t (suc k) i m s e l n b h = elim (body_cases t i s) [
  | inr (inl stop) ↦ rw stop refl
  | inl (same, miss) ↦
      let apart : i ≢ m = λ q. miss (rw q h) in
      rw same (late_panics t k (i + 1) m s (omega arith) (omega arith) n b h)
  | inr (inr (moved, room)) ↦ rw moved (
      late_panics t k (i + 1) m (record { array = shift i s.len s.array; len = s.len - 1 })
        (omega arith) (omega arith) (omega arith) (omega (arith, length-shift i s.len s.array))
        (ground (arith, get_elem?-shift i s.len s.array m)))
]

-- Up to the first round that removes or panics the slice is the one of the start.
first_panics :
    (t : String) (k i p m : ℕ) (xs : List String)
    → i + k ≡ suc m
    → length xs ≡ suc m
    → i ≤ p
    → p < m
    → get_elem? xs p ≡ some t
    → get_elem? xs m ≡ some t
    → loop t k i (record { array = xs; len = length xs }) ≡ none
unfolding loop after
first_panics t zero i p m xs e n b l h g = absurd (omega arith)
first_panics t (suc k) i p m xs e n b l h g =
    elim (body_cases t i (record { array = xs; len = length xs })) [
      | inr (inl stop) ↦ rw stop refl
      | inl (same, miss) ↦
          let apart : i ≢ p = λ q. miss (rw q h) in
          rw same (first_panics t k (i + 1) p m xs (omega arith) n (omega arith) l h g)
      | inr (inr (moved, room)) ↦ rw moved (
          late_panics t k (i + 1) m (record { array = shift i (length xs) xs; len = length xs - 1 })
            (omega arith) (omega arith) (omega arith) (omega (arith, length-shift i (length xs) xs))
            (ground (arith, get_elem?-shift i (length xs) xs m)))
    ]

-- Where the last entry of the slice equals the argument and it stands earlier in the slice too,
-- the removal panics.
pub remove_item_panics :
    (t : String) (xs : List String) (p m : ℕ)
    → length xs ≡ suc m
    → p < m
    → get_elem? xs p ≡ some t
    → get_elem? xs m ≡ some t
    → remove_item t xs ≡ none
unfolding remove_item visible
remove_item_panics t xs p m n l h g =
    ap visible (first_panics t (length xs) 0 p m xs (omega arith) n (omega arith) l h g)
