-- ===== src/Pump/Drained.antt =====
-- A goroutine whose attempts succeed empties a closed queue and returns.
use kmq_utils.Prelude.{
  ℕ, zero, suc, ◌+◌, ◌*◌, ◌≤◌, ◌<◌, ◌≡◌, refl, sym, ap, ◌∙◌, ◌⊎◌, inl, inr, true, [], ◌∷◌, ◌++◌,
  append-nil, arith, length, length-append,
}
use kmq_utils.RingBuffer.{RingBuffer, Laws, dequeue_to-nil}
use kmq_utils.Pump.{
  Phase, seal, idle, waiting, sending, checking, stopped, Verdict, delivered, Check, retry, give_up,
  Pump, onward, fetched, fetch, attempt, recheck, dispatch, work, works, pending,
}
use kmq_utils.Pump.Conserved.{Conserved, work-Conserved}

-- The goroutine runs, and is not about to give up under the test `c`.
abbrev pub IsReady : {A E : Type 0} → (E → Check) → Phase A E → Type 0
IsReady c idle = ⊥
IsReady c waiting = Unit {0}
IsReady c (sending m rest) = Unit {0}
IsReady c (checking m rest x) = c x ≡ retry
IsReady c (stopped lost) = ⊥

pub IsReady-of_retry :
    {A E : Type 0} (c : E → Check) (ph : Phase A E)
    → ((e : E) → c e ≡ retry)
    → IsReady (λ e. retry) ph
    → IsReady c ph
IsReady-of_retry c idle h r = r
IsReady-of_retry c waiting h r = r
IsReady-of_retry c (sending m rest) h r = r
IsReady-of_retry c (checking m rest x) h r = h x
IsReady-of_retry c (stopped lost) h r = r

-- Between two attempts every test is ready.
pub IsReady-of_give_up :
    {A E : Type 0} (c : E → Check) (ph : Phase A E) → IsReady (λ e. give_up) ph → IsReady c ph
IsReady-of_give_up c idle r = r
IsReady-of_give_up c waiting r = r
IsReady-of_give_up c (sending m rest) r = r
IsReady-of_give_up c (checking m rest x) r = cc
IsReady-of_give_up c (stopped lost) r = r

-- How many steps are left, with so many messages in the queue.
abbrev steps_left : {A E : Type 0} → Phase A E → ℕ → ℕ
steps_left idle n = 0
steps_left waiting n = 2 * n + 1
steps_left (sending m rest) n = length rest + 2 * n + 2
steps_left (checking m rest x) n = length rest + 2 * n + 3
steps_left (stopped lost) n = 0

steps_left-pos :
    {A E : Type 0} (c : E → Check) (ph : Phase A E) (n : ℕ) → IsReady c ph → 0 < steps_left ph n
steps_left-pos c idle n l = elim l [ ]
steps_left-pos c waiting n l = omega arith
steps_left-pos c (sending m rest) n l = omega arith
steps_left-pos c (checking m rest x) n l = omega arith
steps_left-pos c (stopped lost) n l = elim l [ ]

module _ {A : Type 0} {B : RingBuffer A} {E : Type 0} where
  abbrev pub budget : Pump B E → ℕ
  budget p = steps_left p.phase (length (B.contents p.queue))

  -- The goroutine returned, and nothing is left.
  abbrev pub IsDone : Pump B E → Type 0
  IsDone p = (p.phase ≡ stopped []) × (B.contents p.queue ≡ [])

  abbrev Progress : (E → Check) → Pump B E → Pump B E → Type 0
  Progress c p q =
      IsDone q ⊎ (IsReady c q.phase × (B.is_closed q.queue ≡ true) × (budget q < budget p))

module _ {A : Type 0} {B : RingBuffer A} {E : Type 0} (L : Laws B) (size : ℕ) (room : 0 < size)
    (c : E → Check) where
  dispatch-Progress :
      (ph : Phase A E) (p : Pump B E)
      → p.phase ≡ ph
      → IsReady c ph
      → B.is_closed p.queue ≡ true
      → Progress c p (dispatch ph size delivered c p)
  unfolding dispatch fetch fetched attempt onward recheck
  dispatch-Progress idle p e l h = elim l [ ]
  dispatch-Progress waiting p e l h = ground (
    arith,
    dequeue_to-nil B L size p.queue room,
    L.dequeue_keeps size p.queue,
    L.split size p.queue,
    ap length (L.split size p.queue),
    length-append (B.dequeue_to size p.queue).0 (B.contents (B.dequeue_to size p.queue).1),
  )
  dispatch-Progress (sending m []) p e l h = inr (tt, h, ground arith)
  dispatch-Progress (sending m (x ∷ rest)) p e l h = inr (tt, h, ground arith)
  dispatch-Progress (checking m rest x) p e l h = rw l (inr (tt, h, ground arith))
  dispatch-Progress (stopped lost) p e l h = elim l [ ]

  work_of_IsDone : (p : Pump B E) → IsDone p → IsDone (work size delivered c p)
  unfolding work
  work_of_IsDone p d = rw (d.0, work) (refl, d.1)

  works_of_IsDone : (n : ℕ) (p : Pump B E) → IsDone p → IsDone (works n size delivered c p)
  unfolding works dispatch
  works_of_IsDone zero p d = d
  works_of_IsDone (suc n) p d = works_of_IsDone n (work size delivered c p) (work_of_IsDone p d)

  -- As many successful steps as the budget says end the goroutine with nothing left.
  pub works-IsDone :
      (n : ℕ) (p : Pump B E)
      → IsReady c p.phase
      → B.is_closed p.queue ≡ true
      → budget p ≤ n
      → IsDone (works n size delivered c p)
  unfolding works
  works-IsDone zero p l h k =
      absurd (omega (arith, steps_left-pos c p.phase (length (B.contents p.queue)) l))
  works-IsDone (suc n) p l h k = elim (dispatch-Progress p.phase p refl l h) [
    | inl d ↦ works_of_IsDone n (work size delivered c p) d
    | inr (l', h', k') ↦ works-IsDone n (work size delivered c p) l' h' (omega arith)
  ]

module _ {A : Type 0} {B : RingBuffer A} {E : Type 0} where
  accepted-dispatch :
      (ph : Phase A E) (size : ℕ) (v : Verdict E) (c : E → Check) (p : Pump B E)
      → (dispatch ph size v c p).accepted ≡ p.accepted
  unfolding dispatch fetch fetched attempt recheck
  accepted-dispatch idle size v c p = refl
  accepted-dispatch waiting size v c p = ground arith
  accepted-dispatch (sending m rest) size v c p = ground arith
  accepted-dispatch (checking m rest x) size v c p = ground arith
  accepted-dispatch (stopped lost) size v c p = refl

  accepted-works :
      (n size : ℕ) (v : Verdict E) (c : E → Check) (p : Pump B E)
      → (works n size v c p).accepted ≡ p.accepted
  unfolding works work
  accepted-works zero size v c p = refl
  accepted-works (suc n) size v c p =
      accepted-works n size v c (work size v c p) ∙ accepted-dispatch p.phase size v c p

module _ {A : Type 0} {B : RingBuffer A} {E : Type 0} where
  nothing_left : (q : Pump B E) → IsDone q → q.sent ++ pending q ≡ q.sent
  nothing_left q d = rw (d.0, d.1) (append-nil q.sent)

module _ {A : Type 0} {B : RingBuffer A} {E : Type 0} (L : Laws B) where
  pub budget-seal : (p : Pump B E) → budget (seal p) ≡ budget p
  unfolding seal
  budget-seal p = rw L.close_keeps

  works-Conserved :
      (n size : ℕ) (v : Verdict E) (c : E → Check) (p : Pump B E)
      → Conserved p
      → Conserved (works n size v c p)
  unfolding works
  works-Conserved zero size v c p k = k
  works-Conserved (suc n) size v c p k =
      works-Conserved n size v c (work size v c p) (work-Conserved L size v c p k)

  -- And everything that was accepted is sent, in the order of acceptance.
  pub works-sent :
      (size n : ℕ) (c : E → Check) (p : Pump B E)
      → 0 < size
      → Conserved p
      → IsReady c p.phase
      → B.is_closed p.queue ≡ true
      → budget p ≤ n
      → let q = works n size delivered c p in (q.phase ≡ stopped []) × (q.sent ≡ p.accepted)
  works-sent size n c p room k l h b =
      let done = works-IsDone L size room c n p l h b in
      let kept = works-Conserved n size delivered c p k in
      (
        done.0,
        sym (
            sym (accepted-works n size delivered c p)
            ∙ kept.account
            ∙ nothing_left (works n size delivered c p) done),
      )
