-- ===== src/Tests/RocketConsumer.antt =====
-- Runs of the two RocketMQ consumers.
use kmq_utils.Prelude.{
  ◌≡◌, refl, inr, true, false, ℕ, zero, suc, ◌≤◌, List, [], ◌∷◌, ◌++◌, some, arith, replicate,
  length, take,
}
use kmq_utils.RingBuffer.{RingBuffer, Items, bounded, bounded-Laws}
use kmq_utils.Rocket.Inbox.{Message, Conserved, Greedy, drain}
use kmq_utils.Rocket.Pull
use kmq_utils.Rocket.Pull.Closing.{Finished, pull_accounts, pull_close_drains}
use kmq_utils.Rocket.Pull.Late.{late_schedule, pull_late_lost}
use kmq_utils.Rocket.Pull.Leak.{pull_leaks}
use kmq_utils.Rocket.Push
use kmq_utils.Rocket.Push.Closing.{push_accounts, push_close_drains}
use kmq_utils.Rocket.Push.Late.{late_success}
use kmq_utils.Tests.Rocket.{conf}

abbrev box : RingBuffer Message
box = bounded 4

abbrev no_messages : Items Message
no_messages = record { items = []; closed = false }

abbrev one : Message
one = record { topic = "t"; queue_id = 1; queue_offset = 7; body = "1" }

abbrev two : Message
two = record { topic = "t"; queue_id = 1; queue_offset = 8; body = "2" }

abbrev push_consumer : Push.PushConsumer box
push_consumer = record {
  conf = conf;
  draining = false;
  ctx_done = false;
  subscribed = "t" ∷ [];
  stage = Push.unstarted;
  inbox = record { queue = no_messages; accepted = []; lost = []; handled = []; blanks = 0 };
  arriving = [];
  results = [];
  shut_down = false;
  ready_calls = 1;
  exit_calls = 0;
}

push_new :
    Push.new_consumer {B = box}
      (λ servers. true)
      (λ options. true)
      (some no_messages)
      (λ topic. true)
      conf
    ≡ inr push_consumer
unfolding Push.new_consumer
push_new = refl

abbrev pushing : List Push.Event
pushing =
    Push.subscribe
    ∷ Push.arrive (one ∷ [])
    ∷ Push.store 0
    ∷ Push.store 0
    ∷ Push.arrive (two ∷ [])
    ∷ Push.poll false
    ∷ Push.close
    ∷ Push.store 0
    ∷ []

push_accounts_example : (Push.run push_consumer pushing).inbox.accepted ≡ one ∷ []
unfolding Push.run
push_accounts_example =
    push_accounts {B = box} (bounded-Laws 4) (λ servers. true) (λ options. true) no_messages
      (λ topic. true) conf push_consumer pushing push_new refl (omega arith)

-- The second message was answered with ConsumeSuccess, and is lost.
pushing_loses : (Push.run push_consumer pushing).inbox.lost ≡ two ∷ []
unfolding Push.run
pushing_loses = refl

abbrev full_push : Push.PushConsumer box
full_push = record push_consumer {
  stage = Push.polling;
  inbox = record push_consumer.inbox {
    queue = record no_messages { items = one ∷ two ∷ [] };
    accepted = one ∷ two ∷ [];
  };
}

full_push-Conserved : Conserved full_push.inbox
full_push-Conserved = record { account = refl }

push_close_drains_example :
    let t = Push.run full_push (Push.close ∷ replicate 3 (Push.poll false) ++ Push.finish ∷ []) in
    (t.stage ≡ Push.returned) × (t.inbox.handled ≡ one ∷ two ∷ []) × (t.inbox.blanks ≡ 0)
push_close_drains_example =
    push_close_drains {B = box} (bounded-Laws 4) full_push 3 full_push-Conserved refl refl refl
      (omega arith)

abbrev late_push : Push.PushConsumer box
late_push = record push_consumer {
  draining = true;
  arriving = (two ∷ [], two ∷ []) ∷ [];
  inbox = record push_consumer.inbox { queue = record no_messages { closed = true } };
}

late_success_example :
    let t = Push.run late_push (Push.store 0 ∷ Push.store 0 ∷ []) in
    (t.results ≡ (two ∷ [], Push.consume_success) ∷ [])
    × (t.inbox ≡ record late_push.inbox { lost = two ∷ [] })
    × (t.arriving ≡ [])
late_success_example =
    late_success {B = box} (bounded-Laws 4) late_push 0 (two ∷ []) (two ∷ []) [] refl refl

abbrev pull_consumer : Pull.PullConsumer box
pull_consumer = record {
  conf = conf;
  draining = false;
  ctx_done = false;
  loops_done = false;
  subscribed = "t" ∷ [];
  stage = Pull.unstarted;
  inbox = record { queue = no_messages; accepted = []; lost = []; handled = []; blanks = 0 };
  pulled = [];
  closer = Pull.uncalled;
  offsets = [];
  shut_down = false;
  ready_calls = 1;
  exit_calls = 0;
}

pull_new :
    Pull.new_consumer {B = box}
      (λ servers. true)
      (λ options. true)
      (some no_messages)
      (λ topic. true)
      conf
    ≡ inr pull_consumer
unfolding Pull.new_consumer
pull_new = refl

abbrev pulling : List Pull.Event
pulling =
    Pull.subscribe
    ∷ Pull.pull_once (Pull.response Pull.found (one ∷ two ∷ []))
    ∷ Pull.look 0
    ∷ Pull.store 0
    ∷ Pull.poll false
    ∷ Pull.ack one Pull.both
    ∷ Pull.close
    ∷ Pull.look 0
    ∷ Pull.store 0
    ∷ Pull.go_on
    ∷ Pull.poll false
    ∷ Pull.finish
    ∷ []

pull_accounts_example : (Pull.run pull_consumer pulling).inbox.accepted ≡ one ∷ []
unfolding Pull.run
pull_accounts_example =
    pull_accounts {B = box} (bounded-Laws 4) (λ servers. true) (λ options. true) no_messages
      (λ topic. true) conf pull_consumer pulling pull_new refl (omega arith)

pull_leaks_example : (Pull.run pull_consumer pulling).loops_done ≡ false
pull_leaks_example = pull_leaks {B = box} pull_consumer pulling tt

pull_acked : (Pull.run pull_consumer pulling).offsets ≡ (1, 7) ∷ []
unfolding Pull.run
pull_acked = refl

length-take_le : {A : Type 0} (n : ℕ) (xs : List A) → n ≤ length xs → length (take n xs) ≡ n
length-take_le zero xs h = refl
length-take_le (suc n) [] h = absurd (omega arith)
length-take_le (suc n) (x ∷ xs) h = omega (arith, length-take_le n xs (omega arith))

box-Greedy : Greedy box
box-Greedy n b h = length-take_le n b.items h

abbrev full_pull : Pull.PullConsumer box
full_pull = record pull_consumer {
  stage = Pull.polling;
  pulled = (true, two ∷ []) ∷ [];
  inbox = record pull_consumer.inbox {
    queue = record no_messages { items = one ∷ two ∷ [] };
    accepted = one ∷ two ∷ [];
  };
}

full_pull-Conserved : Conserved full_pull.inbox
full_pull-Conserved = record { account = refl }

pull_close_drains_example :
    Finished full_pull (
      Pull.run full_pull
        (Pull.close ∷ replicate 4 Pull.go_on ++ Pull.poll false ∷ Pull.finish ∷ Pull.go_on ∷ []))
    × Finished full_pull (
        Pull.run full_pull
          (Pull.close ∷ Pull.go_on ∷ Pull.poll false ∷ Pull.finish ∷ replicate 4 Pull.go_on))
pull_close_drains_example =
    pull_close_drains {B = box} (bounded-Laws 4) box-Greedy full_pull full_pull-Conserved refl refl

pull_late_lost_example :
    let t = Pull.run full_pull (late_schedule 0) in
    (t.closer ≡ Pull.ended)
    × (t.inbox.accepted ≡ one ∷ two ∷ two ∷ [])
    × ((Pull.run t (Pull.poll false ∷ Pull.finish ∷ [])).inbox.handled ≡ one ∷ two ∷ [])
unfolding drain
pull_late_lost_example =
    pull_late_lost {B = box} (bounded-Laws 4) box-Greedy full_pull 0 two [] []
      (Pull.poll false ∷ Pull.finish ∷ []) full_pull-Conserved refl refl refl refl refl
