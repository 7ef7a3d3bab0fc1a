-- ===== src/Pump/Conserved.antt =====
-- Every accepted message is sent or pending, once, and in the order of acceptance.
use kmq_utils.Prelude.{
  ℕ, ◌≡◌, refl, sym, ap, ◌∙◌, Bool, true, false, List, [], ◌∷◌, ◌++◌, append_assoc, Bool-cases, inl,
  inr,
}
use kmq_utils.RingBuffer.{RingBuffer, Laws}
use kmq_utils.Pump.{
  Phase, idle, waiting, sending, checking, stopped, Verdict, delivered, failed, quit, Check, retry,
  give_up, Pump, new, offer, seal, begin, begin_phase, onward, fetched, fetch, attempt, recheck,
  dispatch, work, in_hand, pending,
}

in_hand-onward : {A : Type 0} (E : Type 0) (rest : List A) → in_hand (onward {E = E} rest) ≡ rest
unfolding onward
in_hand-onward E [] = refl
in_hand-onward E (m ∷ rest) = refl

module _ {A E : Type 0} where
  in_hand-begin_phase : (ph : Phase A E) → in_hand (begin_phase ph) ≡ in_hand ph
  unfolding begin_phase
  in_hand-begin_phase idle = refl
  in_hand-begin_phase waiting = refl
  in_hand-begin_phase _ = refl

module _ {A : Type 0} {B : RingBuffer A} {E : Type 0} where
  pub record Conserved (p : Pump B E) : Type 0 where
    pub account : p.accepted ≡ p.sent ++ pending p

  pub new-Conserved : (q : B.Buf) → B.contents q ≡ [] → Conserved (new q)
  unfolding new
  new-Conserved q e = record { account = sym e }

  pub begin-Conserved : (p : Pump B E) → Conserved p → Conserved (begin p)
  unfolding begin
  begin-Conserved p c = record { account = rw (in_hand-begin_phase p.phase) c.account }

  attempt-Conserved :
      (m : A) (rest : List A) (v : Verdict E) (p : Pump B E)
      → p.accepted ≡ p.sent ++ (m ∷ rest ++ B.contents p.queue)
      → Conserved (attempt m rest v p)
  unfolding attempt
  attempt-Conserved m rest delivered p e = record {
    account =
        rw (in_hand-onward E rest)
          (e ∙ sym (append_assoc p.sent (m ∷ []) (rest ++ B.contents p.queue)));
  }
  attempt-Conserved m rest (failed x) p e = record { account = e }
  attempt-Conserved m rest quit p e = record { account = e }

  recheck-Conserved :
      (m : A) (rest : List A) (c : Check) (p : Pump B E)
      → p.accepted ≡ p.sent ++ (m ∷ rest ++ B.contents p.queue)
      → Conserved (recheck m rest c p)
  unfolding recheck
  recheck-Conserved m rest retry p e = record { account = e }
  recheck-Conserved m rest give_up p e = record { account = e }

module _ {A : Type 0} {B : RingBuffer A} {E : Type 0} (L : Laws B) where
  pub offer-Conserved : (m : A) (p : Pump B E) → Conserved p → Conserved (offer m p).1
  unfolding offer
  offer-Conserved m p c = elim (Bool-cases (B.enqueue m p.queue).0) [
    | inl ok ↦ record {
      account =
          rw (ok, L.accepted m p.queue ok, c.account)
            (append_assoc p.sent (pending p) (m ∷ [])
              ∙ ap (◌++◌ p.sent) (append_assoc (in_hand p.phase) (B.contents p.queue) (m ∷ [])));
    }
    | inr no_room ↦ record { account = rw (no_room, L.refused m p.queue no_room) c.account }
  ]

  pub seal-Conserved : (p : Pump B E) → Conserved p → Conserved (seal p)
  unfolding seal
  seal-Conserved p c = record { account = rw L.close_keeps c.account }

  fetched-Conserved :
      (closed : Bool) (r : List A × B.Buf) (p : Pump B E)
      → B.contents p.queue ≡ r.0 ++ B.contents r.1
      → p.accepted ≡ p.sent ++ B.contents p.queue
      → Conserved p
      → Conserved (fetched closed r p)
  unfolding fetched
  fetched-Conserved true ([], q) p e a c = record { account = a ∙ ap (◌++◌ p.sent) e }
  fetched-Conserved false ([], q) p e a c = c
  fetched-Conserved closed (m ∷ rest, q) p e a c = record { account = a ∙ ap (◌++◌ p.sent) e }

  dispatch-Conserved :
      (ph : Phase A E) (size : ℕ) (v : Verdict E) (c : E → Check) (p : Pump B E)
      → p.phase ≡ ph
      → Conserved p
      → Conserved (dispatch ph size v c p)
  unfolding dispatch fetch
  dispatch-Conserved idle size v c p e k = k
  dispatch-Conserved waiting size v c p e k =
      fetched-Conserved (B.is_closed p.queue) (B.dequeue_to size p.queue) p (L.split size p.queue)
        (k.account ∙ ap (λ ph. p.sent ++ (in_hand ph ++ B.contents p.queue)) e) k
  dispatch-Conserved (sending m rest) size v c p e k =
      attempt-Conserved m rest v p
        (k.account ∙ ap (λ ph. p.sent ++ (in_hand ph ++ B.contents p.queue)) e)
  dispatch-Conserved (checking m rest x) size v c p e k =
      recheck-Conserved m rest (c x) p
        (k.account ∙ ap (λ ph. p.sent ++ (in_hand ph ++ B.contents p.queue)) e)
  dispatch-Conserved (stopped lost) size v c p e k = k

  pub work-Conserved :
      (size : ℕ) (v : Verdict E) (c : E → Check) (p : Pump B E)
      → Conserved p
      → Conserved (work size v c p)
  unfolding work
  work-Conserved size v c p k = dispatch-Conserved p.phase size v c p refl k
