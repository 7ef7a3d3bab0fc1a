-- ===== src/Rocket/Push/Late.antt =====
-- What becomes of the messages of a callback that is overtaken by Close.
use kmq_utils.Prelude.{
  pick, replace, pick-replace, ℕ, suc, length, replicate, ◌≡◌, refl, sym, ap, ◌∙◌, true, List, [],
  ◌∷◌, ◌++◌, some, append_assoc, append-nil,
}
use kmq_utils.RingBuffer.{RingBuffer, Laws}
use kmq_utils.Rocket.Inbox.{Message, Inbox, put_in}
use kmq_utils.Rocket.Push.{PushConsumer, consume_success, store, store_as, on_store, step, run}

module _ {B : RingBuffer Message} (L : Laws B) where
  put_in-closed :
      (m : Message) (i : Inbox B)
      → B.is_closed i.queue ≡ true
      → put_in m i ≡ record i { lost = i.lost ++ m ∷ [] }
  unfolding put_in
  put_in-closed m i c = let no = L.shut m i.queue c in rw (no, L.refused m i.queue no) refl

  -- The next turn of the callback, with a message left and without one.
  put_turn :
      (s : PushConsumer B) (n : ℕ) (all : List Message) (m : Message) (ms : List Message)
      (others : List (List Message × List Message))
      → pick n s.arriving ≡ some ((all, m ∷ ms), others)
      → on_store n s
        ≡ record s { arriving = replace n (all, ms) s.arriving; inbox = put_in m s.inbox }
  unfolding on_store store_as
  put_turn s n all m ms others e = rw (e, store_as) refl

  last_turn :
      (s : PushConsumer B) (n : ℕ) (all : List Message)
      (others : List (List Message × List Message))
      → pick n s.arriving ≡ some ((all, []), others)
      → on_store n s
        ≡ record s { arriving = others; results = s.results ++ (all, consume_success) ∷ [] }
  unfolding on_store store_as
  last_turn s n all others e = rw (e, store_as) refl

  turns :
      (s : PushConsumer B) (n : ℕ) (all ms : List Message)
      (others : List (List Message × List Message))
      → B.is_closed s.inbox.queue ≡ true
      → pick n s.arriving ≡ some ((all, ms), others)
      → run s (replicate (suc (length ms)) (store n)) ≡ record s {
        arriving = others;
        results = s.results ++ (all, consume_success) ∷ [];
        inbox = record s.inbox { lost = s.inbox.lost ++ ms };
      }
  unfolding run step
  turns s n all [] others c e =
      last_turn s n all others e
      ∙ ap
          (λ l. record s {
            arriving = others;
            results = s.results ++ (all, consume_success) ∷ [];
            inbox = record s.inbox { lost = l };
          })
          (sym (append-nil s.inbox.lost))
  turns s n all (m ∷ ms) others c e =
      let turn = put_turn s n all m ms others e in
      let i = put_in-closed m s.inbox c in
      let t = record s {
        arriving = replace n (all, ms) s.arriving;
        inbox = record s.inbox { lost = s.inbox.lost ++ m ∷ [] };
      } in
      ap (λ x. run x (replicate (suc (length ms)) (store n)))
        (turn ∙ ap (λ b. record s { arriving = replace n (all, ms) s.arriving; inbox = b }) i)
      ∙ turns t n all ms others c (pick-replace n (all, ms) (all, m ∷ ms) s.arriving others e)
      ∙ ap
          (λ l. record s {
            arriving = others;
            results = s.results ++ (all, consume_success) ∷ [];
            inbox = record s.inbox { lost = l };
          })
          (append_assoc s.inbox.lost (m ∷ []) ms)

  -- A callback that read the flag before Close, with the messages ms of its batch left, answers
  -- ConsumeSuccess for the batch after its remaining turns, though the closed queue takes none of ms:
  -- they are neither queued nor handled.
  pub late_success :
      (s : PushConsumer B) (n : ℕ) (all ms : List Message)
      (others : List (List Message × List Message))
      → B.is_closed s.inbox.queue ≡ true
      → pick n s.arriving ≡ some ((all, ms), others)
      → let t = run s (replicate (suc (length ms)) (store n)) in
        (t.results ≡ s.results ++ (all, consume_success) ∷ [])
        × (t.inbox ≡ record s.inbox { lost = s.inbox.lost ++ ms })
        × (t.arriving ≡ others)
  late_success s n all ms others c e =
      let t = turns s n all ms others c e in
      (ap (λ x. x.results) t, ap (λ x. x.inbox) t, ap (λ x. x.arriving) t)
