-- ===== src/Rocket/Push/Closing.antt =====
-- What the push consumer does with the messages it took, in every schedule and behind Close.
use kmq_utils.Prelude.{
  pick, ℕ, zero, suc, ◌<◌, ◌≡◌, refl, sym, ap, ◌∙◌, ◌⊎◌, inl, inr, Bool, true, false, String, List,
  [], ◌∷◌, ◌++◌, some, is_empty, length, length-append, append_assoc, append-nil, arith, replicate,
  Option, none, ◌≤◌,
}
use kmq_utils.RingBuffer.{RingBuffer, Laws}
use kmq_utils.Rocket.Config.{Config}
use kmq_utils.Rocket.Inbox.{
  Message, Inbox, new-Conserved, take_one, drain, shut, Conserved, put_in-Conserved,
  take_one-Conserved, drain-Conserved, shut-Conserved,
}
use kmq_utils.Rocket.Options.{ConsumerOption}
use kmq_utils.Rocket.Push.{
  polling, leaving, returned, PushConsumer, Event, arrive, store, subscribe, poll, finish, close,
  release, cancel, subscriptions, new_consumer, on_arrive, store_as, on_store, poll_once, leave,
  close_up, release_ctx, step, run,
}

length_zero : {A : Type 0} (xs : List A) → length xs ≡ 0 → xs ≡ []
length_zero [] e = refl
length_zero (x ∷ xs) e = absurd (omega arith)

is_empty_cases : {A : Type 0} (xs : List A) → (xs ≡ []) ⊎ (is_empty xs ≡ false)
is_empty_cases [] = inl refl
is_empty_cases (x ∷ xs) = inr refl

cc_empty : {A : Type 0} (xs : List A) → xs ≡ [] → is_empty xs ≡ false → ⊥
cc_empty xs e h = cc

length_pos : {A : Type 0} (xs : List A) → is_empty xs ≡ false → 0 < length xs
length_pos [] h = cc
length_pos (x ∷ xs) h = omega arith

module _ {B : RingBuffer Message} (L : Laws B) where
  store_as-Conserved :
      (o : Option ((List Message × List Message) × List (List Message × List Message))) (n : ℕ)
      (s : PushConsumer B)
      → Conserved s.inbox
      → Conserved (store_as o n s).inbox
  unfolding store_as
  store_as-Conserved none n s v = v
  store_as-Conserved (some ((all, []), others)) n s v = v
  store_as-Conserved (some ((all, m ∷ ms), others)) n s v = put_in-Conserved L m s.inbox v

  on_store-Conserved :
      (n : ℕ) (s : PushConsumer B) → Conserved s.inbox → Conserved (on_store n s).inbox
  unfolding on_store
  on_store-Conserved n s v = store_as-Conserved (pick n s.arriving) n s v

  poll_once-Conserved :
      (b : Bool) (s : PushConsumer B) → Conserved s.inbox → Conserved (poll_once b s).inbox
  unfolding poll_once
  poll_once-Conserved b s v = ground (arith, v, take_one-Conserved L s.inbox v)

  leave-Conserved : (s : PushConsumer B) → Conserved s.inbox → Conserved (leave s).inbox
  unfolding leave
  leave-Conserved s v = ground (arith, v, drain-Conserved L s.inbox v)

  step-Conserved : (s : PushConsumer B) (e : Event) → Conserved s.inbox → Conserved (step s e).inbox
  unfolding step on_arrive close_up release_ctx
  step-Conserved s (arrive ms) v = ground (arith, v)
  step-Conserved s (store n) v = on_store-Conserved n s v
  step-Conserved s subscribe v = v
  step-Conserved s (poll b) v = poll_once-Conserved b s v
  step-Conserved s finish v = leave-Conserved s v
  step-Conserved s close v = ground (arith, v, shut-Conserved L s.inbox v)
  step-Conserved s release v = ground (arith, v)
  step-Conserved s cancel v = v

  pub run-Conserved :
      (s : PushConsumer B) (es : List Event) → Conserved s.inbox → Conserved (run s es).inbox
  unfolding run
  run-Conserved s [] v = v
  run-Conserved s (e ∷ es) v = run-Conserved (step s e) es (step-Conserved s e v)

  pub new_consumer-Conserved :
      (addresses : List String → Bool) (library : List ConsumerOption → Bool) (q : B.Buf)
      (answer : String → Bool) (conf : Config) {s : PushConsumer B}
      → new_consumer addresses library (some q) answer conf ≡ inr s
      → B.contents q ≡ []
      → Conserved s.inbox
  unfolding new_consumer
  new_consumer-Conserved addresses library q answer conf h e =
      ground (arith, new-Conserved {B = B} q e)

  -- Whatever the library, the application and the goroutines do, in any order, from a new push
  -- consumer on which SyncSubscribe is called once at most: the messages that its queue took are those given to the handler, each once and in the
  -- order in which they were put in, followed by those in the queue.
  pub push_accounts :
      (addresses : List String → Bool) (library : List ConsumerOption → Bool) (q : B.Buf)
      (answer : String → Bool) (conf : Config) (s : PushConsumer B) (es : List Event)
      → new_consumer addresses library (some q) answer conf ≡ inr s
      → B.contents q ≡ []
      → subscriptions es ≤ 1
      → let t = run s es in t.inbox.accepted ≡ t.inbox.handled ++ B.contents t.inbox.queue
  push_accounts addresses library q answer conf s es h e one =
      (run-Conserved s es (new_consumer-Conserved addresses library q answer conf h e)).account

  -- One message less is left in the queue.
  fewer :
      (q : B.Buf) (n : ℕ)
      → is_empty (B.contents q) ≡ false
      → length (B.contents q) < suc n
      → length (B.contents (B.dequeue_to 1 q).1) < n
  fewer q n some_left h = elim (is_empty_cases (B.dequeue_to 1 q).0) [
    | inl e ↦ absurd (cc_empty (B.contents q) (L.some_if_any 1 q (omega arith) e) some_left)
    | inr got ↦ omega (
      arith,
      ap length (L.split 1 q),
      length-append (B.dequeue_to 1 q).0 (B.contents (B.dequeue_to 1 q).1),
      length_pos (B.dequeue_to 1 q).0 got,
    )
  ]

  leaving_stays :
      (n : ℕ) (s : PushConsumer B) → s.stage ≡ leaving → run s (replicate n (poll false)) ≡ s
  unfolding run step poll_once
  leaving_stays zero s h = refl
  leaving_stays (suc n) s h =
      let same : poll_once false s ≡ s = ground arith in
      ap (λ t. run t (replicate n (poll false))) same ∙ leaving_stays n s h

  -- What the rounds of the loop come to with a closed queue.
  record Emptied (s t : PushConsumer B) : Type 0 where
    gone : t.stage ≡ leaving
    nothing : B.contents t.inbox.queue ≡ []
    handled : t.inbox.handled ≡ s.inbox.handled ++ B.contents s.inbox.queue
    blanks : t.inbox.blanks ≡ s.inbox.blanks

  polls_empty :
      (n : ℕ) (s : PushConsumer B)
      → B.is_closed s.inbox.queue ≡ true
      → s.ctx_done ≡ false
      → s.stage ≡ polling
      → length (B.contents s.inbox.queue) < n
      → Emptied s (run s (replicate n (poll false)))
  unfolding run step poll_once take_one
  polls_empty zero s c d st h = absurd (omega arith)
  polls_empty (suc n) s c d st h = elim (is_empty_cases (B.contents s.inbox.queue)) [
    | inl e ↦
        let over : poll_once false s ≡ record s { stage = leaving } = ground arith in
        let all : run s (replicate (suc n) (poll false)) ≡ record s { stage = leaving } =
          ap (λ t. run t (replicate n (poll false))) over
          ∙ leaving_stays n (record s { stage = leaving }) refl in
        rw all (record {
          gone = refl;
          nothing = e;
          handled = rw e (sym (append-nil s.inbox.handled));
          blanks = refl;
        })
    | inr some_left ↦
        let more : poll_once false s ≡ record s { inbox = take_one s.inbox } = ground arith in
        let took = L.split 1 s.inbox.queue in
        let t = record s { inbox = take_one s.inbox } in
        let v =
          polls_empty n t (L.dequeue_keeps 1 s.inbox.queue ∙ c) d st
            (fewer s.inbox.queue n some_left h) in
        let all : run s (replicate (suc n) (poll false)) ≡ run t (replicate n (poll false)) =
          ap (λ u. run u (replicate n (poll false))) more in
        rw all (record {
          gone = v.gone;
          nothing = v.nothing;
          handled =
              v.handled
              ∙ append_assoc s.inbox.handled (B.dequeue_to 1 s.inbox.queue).0
                  (B.contents (B.dequeue_to 1 s.inbox.queue).1)
              ∙ ap (◌++◌ s.inbox.handled) (sym took);
          blanks = v.blanks;
        })
  ]

  run-append : (s : PushConsumer B) (es fs : List Event) → run s (es ++ fs) ≡ run (run s es) fs
  unfolding run
  run-append s [] fs = refl
  run-append s (e ∷ es) fs = run-append (step s e) es fs

  drain-nothing :
      (i : Inbox B)
      → B.contents i.queue ≡ []
      → ((drain i).handled ≡ i.handled) × ((drain i).blanks ≡ i.blanks)
  unfolding drain
  drain-nothing i e =
      let none_taken : (B.dequeue_to 0 i.queue).0 ≡ [] =
        length_zero (B.dequeue_to 0 i.queue).0 (omega (arith, L.bound 0 i.queue)) in
      rw (e, none_taken) (append-nil i.handled, omega arith)

  finishing :
      (s : PushConsumer B)
      → s.stage ≡ leaving
      → B.contents s.inbox.queue ≡ []
      → let t = run s (finish ∷ []) in
        (t.stage ≡ returned)
        × (t.inbox.handled ≡ s.inbox.handled)
        × (t.inbox.blanks ≡ s.inbox.blanks)
  unfolding run step leave
  finishing s st e = let d = drain-nothing s.inbox e in rw st (refl, d.0, d.1)

  closing : PushConsumer B → PushConsumer B
  closing s = record s { draining = true; subscribed = []; inbox = shut s.inbox; shut_down = true }

  run-closing :
      (s : PushConsumer B) (es : List Event)
      → s.draining ≡ false
      → run s (close ∷ es) ≡ run (closing s) es
  unfolding run step close_up closing
  run-closing s es d = rw d refl

  -- From any state that a schedule reaches, in which SyncSubscribe is in its loop, Close was not
  -- called and the context is not done: Close, then more rounds of the loop than messages wait, then
  -- the rest of SyncSubscribe, and SyncSubscribe has returned, the handler was given all that the
  -- queue ever took, in that order, and was not given a zero message since.
  pub push_close_drains :
      (s : PushConsumer B) (n : ℕ)
      → Conserved s.inbox
      → s.draining ≡ false
      → s.ctx_done ≡ false
      → s.stage ≡ polling
      → length (B.contents s.inbox.queue) < n
      → let t = run s (close ∷ replicate n (poll false) ++ finish ∷ []) in
        (t.stage ≡ returned)
        × (t.inbox.handled ≡ s.inbox.accepted)
        × (t.inbox.blanks ≡ s.inbox.blanks)
  unfolding closing shut
  push_close_drains s n v d c st h =
      let kept = L.close_keeps s.inbox.queue in
      let e = polls_empty n (closing s) (L.close_closes s.inbox.queue) c st (rw kept h) in
      let f = finishing (run (closing s) (replicate n (poll false))) e.gone e.nothing in
      rw
        (
          run-closing s (replicate n (poll false) ++ finish ∷ []) d,
          run-append (closing s) (replicate n (poll false)) (finish ∷ []),
        )
        (f.0, f.1 ∙ e.handled ∙ ap (◌++◌ s.inbox.handled) kept ∙ sym v.account, f.2 ∙ e.blanks)
