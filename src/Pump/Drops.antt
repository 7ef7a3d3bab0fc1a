-- ===== src/Pump/Drops.antt =====
-- Which verdicts make the goroutine drop messages, and which keep it trying.
use kmq_utils.Prelude.{ℕ, ◌≡◌, refl, ◌⊎◌, inl, inr, Bool, true, false, List, ◌∷◌, arith}
use kmq_utils.RingBuffer.{RingBuffer}
use kmq_utils.Pump.{
  Phase, idle, waiting, sending, checking, stopped, Verdict, delivered, failed, quit, Check, retry,
  give_up, Pump, begin, begin_phase, onward, fetched, fetch, attempt, recheck, dispatch, work,
}

-- A message is in hand and not sent.
abbrev pub is_trying : {A E : Type 0} → Phase A E → Bool
is_trying (sending m rest) = true
is_trying (checking m rest x) = true
is_trying _ = false

begin_phase-trying :
    {A E : Type 0} (ph : Phase A E) → is_trying ph ≡ true → is_trying (begin_phase ph) ≡ true
unfolding begin_phase
begin_phase-trying idle t = cc
begin_phase-trying waiting t = cc
begin_phase-trying (sending m rest) t = refl
begin_phase-trying (checking m rest x) t = refl
begin_phase-trying (stopped l) t = cc

module _ {A : Type 0} {B : RingBuffer A} {E : Type 0} where
  dispatch-drops :
      (ph : Phase A E) (size : ℕ) (v : Verdict E) (c : E → Check) (p : Pump B E) (m : A)
      (rest : List A)
      → p.phase ≡ ph
      → (dispatch ph size v c p).phase ≡ stopped (m ∷ rest)
      → (ph ≡ stopped (m ∷ rest)) ⊎ ((v ≡ quit) ⊎ ((e : E) × (c e ≡ give_up)))
  unfolding dispatch fetch fetched attempt recheck onward
  dispatch-drops idle size v c p m rest e h = cc
  dispatch-drops waiting size v c p m rest e h = ground arith
  dispatch-drops (sending n more) size delivered c p m rest e h = ground arith
  dispatch-drops (sending n more) size (failed x) c p m rest e h = cc
  dispatch-drops (sending n more) size quit c p m rest e h = inr (inl refl)
  dispatch-drops (checking n more x) size v c p m rest e h = inr (inr (x, ground arith))
  dispatch-drops (stopped l) size v c p m rest e h = inl (ground arith)

  -- A goroutine that drops messages did so before, or is told to now.
  pub work-drops :
      (size : ℕ) (v : Verdict E) (c : E → Check) (p : Pump B E) (m : A) (rest : List A)
      → (work size v c p).phase ≡ stopped (m ∷ rest)
      → (p.phase ≡ stopped (m ∷ rest)) ⊎ ((v ≡ quit) ⊎ ((e : E) × (c e ≡ give_up)))
  unfolding work
  work-drops size v c p m rest = dispatch-drops p.phase size v c p m rest refl

  dispatch-trying :
      (ph : Phase A E) (size : ℕ) (x : E) (c : E → Check) (p : Pump B E)
      → ((e : E) → c e ≡ retry)
      → is_trying ph ≡ true
      → is_trying (dispatch ph size (failed x) c p).phase ≡ true
  unfolding dispatch attempt recheck
  dispatch-trying idle size x c p r t = cc
  dispatch-trying waiting size x c p r t = cc
  dispatch-trying (sending m rest) size x c p r t = refl
  dispatch-trying (checking m rest y) size x c p r t = rw (r y) refl
  dispatch-trying (stopped l) size x c p r t = cc

  -- With failing attempts and a test that always retries it goes on for ever.
  pub work-trying :
      (size : ℕ) (x : E) (c : E → Check) (p : Pump B E)
      → ((e : E) → c e ≡ retry)
      → is_trying p.phase ≡ true
      → is_trying (work size (failed x) c p).phase ≡ true
  unfolding work
  work-trying size x c p = dispatch-trying p.phase size x c p

  pub begin-trying : (p : Pump B E) → is_trying p.phase ≡ true → is_trying (begin p).phase ≡ true
  unfolding begin
  begin-trying p = begin_phase-trying p.phase
