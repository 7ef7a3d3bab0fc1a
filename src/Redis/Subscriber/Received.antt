-- ===== src/Redis/Subscriber/Received.antt =====
-- What the handler of the Redis subscriber is given (redismq/sub.go, startSubscription), and a
-- subscription that ends without an error (reconnectLoop).
use kmq_utils.Prelude.{
  ◌≡◌, refl, ap, ◌∙◌, inr, Bool, true, false, List, [], ◌∷◌, ◌++◌, append-nil, map, arith,
  if◌then◌else◌,
}
use kmq_utils.Redis.Config.{RedisConfig}
use kmq_utils.Redis.Subscriber.{
  Message, Call, failure, text, unknown, Stage, idle, looping, pinging, subscribed, RedisSub, Event,
  start, turn, receive, subscription_ends, close, release, new_sub, connect_step, turn_as, on_call,
  receive_as, end_as, start_as, close_up, step, run,
}

-- The messages that are strings, and how many errors there are.
unfoldable pub texts : List Call → List Message
texts [] = []
texts (failure ∷ cs) = texts cs
texts (text topic time m ∷ cs) = record { topic = topic; recv_time = time; message = m } ∷ texts cs
texts (unknown topic time ∷ cs) = texts cs

texts-append : (cs ds : List Call) → texts (cs ++ ds) ≡ texts cs ++ texts ds
unfolding texts
texts-append [] ds = refl
texts-append (failure ∷ cs) ds = texts-append cs ds
texts-append (text topic time m ∷ cs) ds =
    ap (λ xs. record { topic = topic; recv_time = time; message = m } ∷ xs) (texts-append cs ds)
texts-append (unknown topic time ∷ cs) ds = texts-append cs ds

record Inv (s : RedisSub) : Type 0 where
  given : s.handled ≡ (if s.conf.has_handler then texts s.received else [])

on_call-Inv : (c : Call) (s : RedisSub) → Inv s → Inv (on_call c s)
unfolding on_call texts
on_call-Inv failure s v = record {
  given =
      ground
        (arith, v.given, texts-append s.received (failure ∷ []), append-nil (texts s.received));
}
on_call-Inv (text topic time m) s v = record {
  given = ground (arith, v.given, texts-append s.received (text topic time m ∷ []));
}
on_call-Inv (unknown topic time) s v = record {
  given = ground (
    arith,
    v.given,
    texts-append s.received (unknown topic time ∷ []),
    append-nil (texts s.received),
  );
}

receive_as-Inv : (x : Stage) (c : Call) (s : RedisSub) → Inv s → Inv (receive_as x c s)
unfolding receive_as
receive_as-Inv subscribed c s v = on_call-Inv c s v
receive_as-Inv _ c s v = v

turn_as-Inv : (x : Stage) (a : Bool) (s : RedisSub) → Inv s → Inv (turn_as x a s)
unfolding turn_as connect_step
turn_as-Inv looping a s v = ground (arith, v.given)
turn_as-Inv pinging true s v = record { given = v.given }
turn_as-Inv pinging false s v = record { given = v.given }
turn_as-Inv _ a s v = v

end_as-Inv : (x : Stage) (s : RedisSub) → Inv s → Inv (end_as x s)
unfolding end_as
end_as-Inv subscribed s v = record { given = v.given }
end_as-Inv _ s v = v

start_as-Inv : (x : Stage) (s : RedisSub) → Inv s → Inv (start_as x s)
unfolding start_as
start_as-Inv idle s v = record { given = v.given }
start_as-Inv _ s v = v

step-Inv : (s : RedisSub) (e : Event) → Inv s → Inv (step s e)
unfolding step close_up
step-Inv s start v = start_as-Inv s.stage s v
step-Inv s (turn a) v = turn_as-Inv s.stage a s v
step-Inv s (receive c) v = receive_as-Inv s.stage c s v
step-Inv s subscription_ends v = end_as-Inv s.stage s v
step-Inv s close v = record { given = v.given }
step-Inv s release v = ground (arith, v.given)

run-Inv : (s : RedisSub) (es : List Event) → Inv s → Inv (run s es)
unfolding run
run-Inv s [] v = v
run-Inv s (e ∷ es) v = run-Inv (step s e) es (step-Inv s e v)

new_sub-Inv : (conf : RedisConfig) (s : RedisSub) → new_sub conf ≡ inr s → Inv s
unfolding new_sub texts
new_sub-Inv conf s h = record { given = ground (arith, h) }

-- In any schedule from a new subscriber a handler is given what the library called back with as a
-- string, in order and once, over all subscriptions, and without a handler nothing is given.
pub sub_accounts :
    (conf : RedisConfig) (s : RedisSub) (es : List Event)
    → new_sub conf ≡ inr s
    → (run s es).handled ≡ (if (run s es).conf.has_handler then texts (run s es).received else [])
sub_accounts conf s es h = (run-Inv s es (new_sub-Inv conf s h)).given

loop-idles :
    (a : Bool) (s : RedisSub)
    → s.stage ≡ looping
    → s.connected ≡ true
    → s.draining ≡ false
    → step s (turn a) ≡ s
unfolding step turn_as
loop-idles a s e c d = rw (e, turn_as) (rw (d, c) refl)

loops-idle :
    (answers : List Bool) (s : RedisSub)
    → s.stage ≡ looping
    → s.connected ≡ true
    → s.draining ≡ false
    → run s (map turn answers) ≡ s
unfolding run
loops-idle [] s e c d = refl
loops-idle (a ∷ answers) s e c d =
    ap (λ x. run x (map turn answers)) (loop-idles a s e c d) ∙ loops-idle answers s e c d

ended : (s : RedisSub) → s.stage ≡ subscribed → end_as s.stage s ≡ record s { stage = looping }
unfolding end_as
ended s e = rw e refl

-- A subscription that ends without an error is never made again: the goroutine stays in its loop with
-- the link marked as connected, for any number of turns, whatever a ping would answer.
pub quiet_end_sticks :
    (s : RedisSub) (answers : List Bool)
    → s.stage ≡ subscribed
    → s.connected ≡ true
    → s.draining ≡ false
    → run s (subscription_ends ∷ map turn answers) ≡ record s { stage = looping }
unfolding run step end_as
quiet_end_sticks s answers e c d =
    ap (λ x. run x (map turn answers)) (ended s e)
    ∙ loops-idle answers (record s { stage = looping }) refl c d
