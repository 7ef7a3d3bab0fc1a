-- ===== src/KList.antt =====
-- The linked list klists.KList of the module kutils, which the configurations keep their topics,
-- brokers and servers in. Its code is not part of the repository, so it is a parameter: the
-- operations that the configurations call, and what they rely on, over the slice that ToKSlice
-- returns.
use kmq_utils.Prelude.{
  ◌≡◌, refl, Bool, false, ◌||◌, Option, none, some, List, [], ◌∷◌, ◌++◌, is_some, arith,
  if◌then◌else◌,
}

pub record KList (A : Type 0) : Type 1 where
  pub L : Type 0
  pub to_slice : L → List A
  pub empty : L
  pub push_back : A → L → L
  pub pop_all_if : (A → Bool) → L → L
  pub pop_if : (A → Bool) → L → L
  pub find_if : (A → Bool) → L → Option A
  pub clear : L → L

-- The items that a test does not pick, and whether it picks one.
abbrev pub rest_of : {A : Type 0} → (A → Bool) → List A → List A
rest_of p [] = []
rest_of p (x ∷ xs) = let rest = rest_of p xs in if p x then rest else x ∷ rest

abbrev pub has_any : {A : Type 0} → (A → Bool) → List A → Bool
has_any p [] = false
has_any p (x ∷ xs) = p x || has_any p xs

pub record Laws {A : Type 0} (K : KList A) : Type 0 where
  pub slice_empty : K.to_slice K.empty ≡ []
  pub slice_push : (a : A) (l : K.L) → K.to_slice (K.push_back a l) ≡ K.to_slice l ++ a ∷ []
  pub slice_pop_all :
      (p : A → Bool) (l : K.L) → K.to_slice (K.pop_all_if p l) ≡ rest_of p (K.to_slice l)
  pub finds : (p : A → Bool) (l : K.L) → is_some (K.find_if p l) ≡ has_any p (K.to_slice l)
  pub slice_clear : (l : K.L) → K.to_slice (K.clear l) ≡ []

-- A plain list, to run the models on.
abbrev first_of_list : {A : Type 0} → (A → Bool) → List A → Option A
first_of_list p [] = none
first_of_list p (x ∷ xs) = if p x then some x else first_of_list p xs

abbrev pop_of_list : {A : Type 0} → (A → Bool) → List A → List A
pop_of_list p [] = []
pop_of_list p (x ∷ xs) = let rest = pop_of_list p xs in if p x then xs else x ∷ rest

abbrev pub plain : {A : Type 0} → KList A
plain {A} = record {
  L = List A;
  to_slice = λ l. l;
  empty = [];
  push_back = λ a l. l ++ a ∷ [];
  pop_all_if = rest_of;
  pop_if = pop_of_list;
  find_if = first_of_list;
  clear = λ l. [];
}

finds-first_of_list :
    {A : Type 0} (p : A → Bool) (xs : List A) → is_some (first_of_list p xs) ≡ has_any p xs
finds-first_of_list p [] = refl
finds-first_of_list p (x ∷ xs) = ground (arith, finds-first_of_list p xs)

pub plain-Laws : {A : Type 0} → Laws {A = A} plain
plain-Laws = record {
  slice_empty = refl;
  slice_push = λ a l. refl;
  slice_pop_all = λ p l. refl;
  finds = finds-first_of_list;
  slice_clear = λ l. refl;
}
