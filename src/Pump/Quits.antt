-- ===== src/Pump/Quits.antt =====
-- A goroutine that is told to quit at its attempts is gone after two steps, once the queue is closed.
use kmq_utils.Prelude.{ℕ, ◌≡◌, refl, Bool, true, false, List, [], ◌∷◌}
use kmq_utils.RingBuffer.{RingBuffer}
use kmq_utils.Pump.{
  Phase, idle, waiting, sending, checking, stopped, Verdict, quit, Check, retry, give_up, Pump,
  fetched, fetch, attempt, recheck, dispatch, work, begin, begin_phase,
}

abbrev pub is_begun : {A E : Type 0} → Phase A E → Bool
is_begun idle = false
is_begun _ = true

abbrev pub is_stopped : {A E : Type 0} → Phase A E → Bool
is_stopped (stopped lost) = true
is_stopped _ = false

-- At an attempt, or returned.
abbrev is_near : {A E : Type 0} → Phase A E → Bool
is_near (sending m rest) = true
is_near (stopped lost) = true
is_near _ = false

module _ {A E : Type 0} where
  begin_phase-stopped : (ph : Phase A E) → is_stopped ph ≡ true → is_stopped (begin_phase ph) ≡ true
  unfolding begin_phase
  begin_phase-stopped idle h = cc
  begin_phase-stopped waiting h = cc
  begin_phase-stopped (sending m rest) h = cc
  begin_phase-stopped (checking m rest x) h = cc
  begin_phase-stopped (stopped lost) h = refl

  pub stopped_cases :
      (ph : Phase A E) → is_stopped ph ≡ true → (lost : List A) × (ph ≡ stopped lost)
  stopped_cases idle h = cc
  stopped_cases waiting h = cc
  stopped_cases (sending m rest) h = cc
  stopped_cases (checking m rest x) h = cc
  stopped_cases (stopped lost) h = (lost, refl)

module _ {A : Type 0} {B : RingBuffer A} {E : Type 0} where
  fetched-near :
      (batch : List A × B.Buf) (p : Pump B E) → is_near (fetched true batch p).phase ≡ true
  unfolding fetched
  fetched-near ([], q) p = refl
  fetched-near (m ∷ rest, q) p = refl

  recheck-near :
      (m : A) (rest : List A) (c : Check) (p : Pump B E) → is_near (recheck m rest c p).phase ≡ true
  unfolding recheck
  recheck-near m rest retry p = refl
  recheck-near m rest give_up p = refl

  dispatch-near :
      (ph : Phase A E) (size : ℕ) (c : E → Check) (p : Pump B E)
      → p.phase ≡ ph
      → is_begun ph ≡ true
      → B.is_closed p.queue ≡ true
      → (is_near (dispatch ph size quit c p).phase ≡ true)
  unfolding dispatch fetch attempt
  dispatch-near idle size c p e b h = cc
  dispatch-near waiting size c p e b h = rw h (fetched-near (B.dequeue_to size p.queue) p)
  dispatch-near (sending m rest) size c p e b h = refl
  dispatch-near (checking m rest x) size c p e b h = recheck-near m rest (c x) p
  dispatch-near (stopped lost) size c p e b h = rw e refl

  dispatch-stops :
      (ph : Phase A E) (size : ℕ) (c : E → Check) (p : Pump B E)
      → p.phase ≡ ph
      → is_near ph ≡ true
      → is_stopped (dispatch ph size quit c p).phase ≡ true
  unfolding dispatch attempt
  dispatch-stops idle size c p e b = cc
  dispatch-stops waiting size c p e b = cc
  dispatch-stops (sending m rest) size c p e b = refl
  dispatch-stops (checking m rest x) size c p e b = cc
  dispatch-stops (stopped lost) size c p e b = rw e refl

  pub works-quit :
      (size : ℕ) (c d : E → Check) (p : Pump B E)
      → is_begun p.phase ≡ true
      → B.is_closed p.queue ≡ true
      → is_stopped (work size quit d (work size quit c p)).phase ≡ true
  unfolding work
  works-quit size c d p b h =
      dispatch-stops (dispatch p.phase size quit c p).phase size d (dispatch p.phase size quit c p)
        refl (dispatch-near p.phase size c p refl b h)

  dispatch-stopped :
      (ph : Phase A E) (size : ℕ) (v : Verdict E) (c : E → Check) (p : Pump B E)
      → p.phase ≡ ph
      → is_stopped ph ≡ true
      → is_stopped (dispatch ph size v c p).phase ≡ true
  unfolding dispatch
  dispatch-stopped idle size v c p e h = cc
  dispatch-stopped waiting size v c p e h = cc
  dispatch-stopped (sending m rest) size v c p e h = cc
  dispatch-stopped (checking m rest x) size v c p e h = cc
  dispatch-stopped (stopped lost) size v c p e h = rw e refl

  -- A goroutine that has returned stays so.
  pub work-stopped :
      (size : ℕ) (v : Verdict E) (c : E → Check) (p : Pump B E)
      → is_stopped p.phase ≡ true
      → is_stopped (work size v c p).phase ≡ true
  unfolding work
  work-stopped size v c p h = dispatch-stopped p.phase size v c p refl h

  pub begin-stopped : (p : Pump B E) → is_stopped p.phase ≡ true → is_stopped (begin p).phase ≡ true
  unfolding begin
  begin-stopped p h = begin_phase-stopped p.phase h
