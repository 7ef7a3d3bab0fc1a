-- ===== src/Pump/Justified.antt =====
-- Why the goroutine returned: the queue was closed and drained, or a verdict told it to give up.
use kmq_utils.Prelude.{ℕ, ◌≡◌, refl, ◌⊎◌, inl, inr, true, List, [], arith}
use kmq_utils.RingBuffer.{RingBuffer, Laws, dequeue_to-nil}
use kmq_utils.Prelude.{◌<◌}
use kmq_utils.Pump.{
  Phase, idle, waiting, sending, checking, stopped, Verdict, quit, Check, give_up, Pump, new, offer,
  seal, begin, begin_phase, onward, fetched, fetch, attempt, recheck, dispatch, work, in_hand,
  pending,
}

module _ {A E : Type 0} where
  begin_phase-stopped :
      (ph : Phase A E) (lost : List A) → begin_phase ph ≡ stopped lost → ph ≡ stopped lost
  unfolding begin_phase
  begin_phase-stopped idle lost e = cc
  begin_phase-stopped waiting lost e = e
  begin_phase-stopped (sending m rest) lost e = e
  begin_phase-stopped (checking m rest x) lost e = e
  begin_phase-stopped (stopped l) lost e = e

  begin_phase-of_stopped :
      (ph : Phase A E) (lost : List A) → ph ≡ stopped lost → in_hand (begin_phase ph) ≡ in_hand ph
  unfolding begin_phase
  begin_phase-of_stopped idle lost e = refl
  begin_phase-of_stopped waiting lost e = refl
  begin_phase-of_stopped (sending m rest) lost e = refl
  begin_phase-of_stopped (checking m rest x) lost e = refl
  begin_phase-of_stopped (stopped l) lost e = refl

module _ {A : Type 0} {B : RingBuffer A} {E : Type 0} where
  -- A goroutine that has returned left nothing behind in a closed queue, or `P` holds.
  pub record Justified (P : Type 0) (p : Pump B E) : Type 0 where
    pub reason :
        (lost : List A)
        → p.phase ≡ stopped lost
        → ((pending p ≡ []) × (B.is_closed p.queue ≡ true)) ⊎ P

  pub new-Justified : {P : Type 0} (q : B.Buf) → Justified P (new q)
  unfolding new
  new-Justified q = record { reason = λ lost e. cc }

  pub Justified-mono : {P Q : Type 0} {p : Pump B E} → (P → Q) → Justified P p → Justified Q p
  Justified-mono {P} {Q} {p} f j = record {
    reason = λ lost e. elim (j.reason lost e) [ inl drained ↦ inl drained | inr why ↦ inr (f why) ];
  }

  pub begin-Justified : {P : Type 0} (p : Pump B E) → Justified P p → Justified P (begin p)
  unfolding begin
  begin-Justified p j = record {
    reason = λ lost e.
        let was = begin_phase-stopped p.phase lost e in
        rw (begin_phase-of_stopped p.phase lost was) (j.reason lost was);
  }

module _ {A : Type 0} {B : RingBuffer A} {E : Type 0} (L : Laws B) {P : Type 0} where
  pub offer-Justified : (m : A) (p : Pump B E) → Justified P p → Justified P (offer m p).1
  unfolding offer
  offer-Justified m p j = record {
    reason = λ lost e. ground (arith, j.reason lost e, L.shut m p.queue, L.refused m p.queue);
  }

  pub seal-Justified : (p : Pump B E) → Justified P p → Justified P (seal p)
  unfolding seal
  seal-Justified p j = record {
    reason =
        λ lost e. ground (arith, j.reason lost e, L.close_keeps p.queue, L.close_closes p.queue);
  }

  dispatch-Justified :
      (ph : Phase A E) (size : ℕ) (v : Verdict E) (c : E → Check) (p : Pump B E)
      → p.phase ≡ ph
      → 0 < size
      → (v ≡ quit → P)
      → ((x : E) → c x ≡ give_up → P)
      → Justified P p
      → Justified P (dispatch ph size v c p)
  unfolding dispatch fetch fetched attempt onward recheck
  dispatch-Justified idle size v c p e h qt qc j = j
  dispatch-Justified waiting size v c p e h qt qc j = record {
    reason = λ lost s.
        ground
          (arith, j.reason lost, dequeue_to-nil B L size p.queue h, L.dequeue_keeps size p.queue);
  }
  dispatch-Justified (sending m rest) size v c p e h qt qc j = record {
    reason = λ lost s. ground (arith, qt);
  }
  dispatch-Justified (checking m rest x) size v c p e h qt qc j = record {
    reason = λ lost s. ground (arith, qc x);
  }
  dispatch-Justified (stopped l) size v c p e h qt qc j = j

  -- The goroutine returns on its own account only under a verdict that says so.
  pub work-Justified :
      (size : ℕ) (v : Verdict E) (c : E → Check) (p : Pump B E)
      → 0 < size
      → (v ≡ quit → P)
      → ((x : E) → c x ≡ give_up → P)
      → Justified P p
      → Justified P (work size v c p)
  unfolding work
  work-Justified size v c p = dispatch-Justified p.phase size v c p refl
