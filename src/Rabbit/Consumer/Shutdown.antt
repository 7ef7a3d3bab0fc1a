-- ===== src/Rabbit/Consumer/Shutdown.antt =====
-- Shutting the RabbitMQ consumer down: what holds when the connection is closed.
use kmq_utils.Prelude.{
  ℕ, ◌+◌, ◌≡◌, ◌==◌, ◌&&◌, refl, inr, Bool, true, false, List, [], ◌∷◌, ◌++◌, arith, str_eq, String,
  if◌then◌else◌,
}
use kmq_utils.Rabbit.Consumer.{
  ConsumerOption, Action, ack, nack_requeue, manual, Config, Consumer, Event, subscribe, deliver,
  finish, run_returns, leave, close, release, new_consumer, action_of, member, erase, step, run,
}

-- How often a number stands in a list.
abbrev pub times : ℕ → List ℕ → ℕ
times d [] = 0
times d (x ∷ xs) = (if d == x then 1 else 0) + times d xs

-- How many answers there are to a delivery.
abbrev pub told : ℕ → List (ℕ × Action) → ℕ
told d [] = 0
told d (x ∷ xs) = (if d == x.0 then 1 else 0) + told d xs

abbrev pub is_action : Action → Action → Bool
is_action ack ack = true
is_action nack_requeue nack_requeue = true
is_action manual manual = true
is_action _ _ = false

-- How many answers of this action there are to a delivery.
abbrev pub told_as : Action → ℕ → List (ℕ × Action) → ℕ
told_as a d [] = 0
told_as a d (x ∷ xs) = (if d == x.0 && is_action a x.1 then 1 else 0) + told_as a d xs

-- The answer that the setting asks for, to a delivery that the handler has seen.
abbrev pub wanted : Config → Action
wanted conf = if str_eq conf.auto_commit "native" then ack else manual

-- Run calls its function until it returns.
abbrev pub OnlyRunning : Consumer → List Event → Type 0
OnlyRunning c [] = Unit {0}
OnlyRunning c (deliver d ∷ es) = (c.running ≡ true) × OnlyRunning (step c (deliver d)) es
OnlyRunning c (e ∷ es) = OnlyRunning (step c e) es

times-snoc : (d x : ℕ) (xs : List ℕ) → times d (xs ++ x ∷ []) ≡ times d xs + times d (x ∷ [])
times-snoc d x [] = ground arith
times-snoc d x (y ∷ ys) = ground (arith, times-snoc d x ys)

told-snoc :
    (d : ℕ) (x : ℕ × Action) (xs : List (ℕ × Action))
    → told d (xs ++ x ∷ []) ≡ told d xs + told d (x ∷ [])
told-snoc d x [] = ground arith
told-snoc d x (y ∷ ys) = ground (arith, told-snoc d x ys)

told_as-snoc :
    (a : Action) (d : ℕ) (x : ℕ × Action) (xs : List (ℕ × Action))
    → told_as a d (xs ++ x ∷ []) ≡ told_as a d xs + told_as a d (x ∷ [])
told_as-snoc a d x [] = ground arith
told_as-snoc a d x (y ∷ ys) = ground (arith, told_as-snoc a d x ys)

times-erase :
    (d x : ℕ) (xs : List ℕ)
    → member x xs ≡ true
    → times d (erase x xs) + times d (x ∷ []) ≡ times d xs
times-erase d x [] h = cc
times-erase d x (y ∷ ys) h = ground (arith, times-erase d x ys)

is_action-same : (a : Action) → is_action a a ≡ true
is_action-same ack = refl
is_action-same nack_requeue = refl
is_action-same manual = refl

wanted-answers : (conf : Config) → is_action (wanted conf) nack_requeue ≡ false
wanted-answers conf = ground arith

action_of-wanted : (conf : Config) → action_of conf ≡ wanted conf
unfolding action_of
action_of-wanted conf = refl

-- What is told and what is in the handler comes to what arrived, for each delivery, and so for
-- those that reached the handler.
pub record Counted (c : Consumer) (d : ℕ) : Type 0 where
  pub every : told d c.answers + times d c.busy ≡ times d c.arrived
  pub seen :
      times d c.handled
      ≡ (if c.conf.has_handler then told_as (wanted c.conf) d c.answers + times d c.busy else 0)

pub record Inv (c : Consumer) : Type 0 where
  pub shut : c.conn_open ≡ false → (c.is_closed ≡ true) × (c.busy ≡ [])
  pub running : c.running ≡ true → c.subscribed ≡ true
  pub quiet : c.subscribed ≡ false → c.busy ≡ []

erase-nil : (d : ℕ) (xs : List ℕ) → xs ≡ [] → erase d xs ≡ []
erase-nil d [] h = refl
erase-nil d (x ∷ xs) h = cc

step-Counted : (c : Consumer) (e : Event) (d : ℕ) → Counted c d → Counted (step c e) d
unfolding step action_of
step-Counted c subscribe d v = ground arith
step-Counted c (deliver x) d v = ground (
  arith,
  v,
  times-snoc d x c.arrived,
  times-snoc d x c.busy,
  times-snoc d x c.handled,
  told-snoc d (x, nack_requeue) c.answers,
  told_as-snoc (wanted c.conf) d (x, nack_requeue) c.answers,
)
step-Counted c (finish x) d v = ground (
  arith,
  v,
  times-erase d x c.busy,
  told-snoc d (x, wanted c.conf) c.answers,
  told_as-snoc (wanted c.conf) d (x, wanted c.conf) c.answers,
)
step-Counted c run_returns d v = ground arith
step-Counted c leave d v = ground arith
step-Counted c close d v = ground arith
step-Counted c release d v = ground arith

run-Counted : (c : Consumer) (es : List Event) (d : ℕ) → Counted c d → Counted (run c es) d
unfolding run
run-Counted c [] d v = v
run-Counted c (e ∷ es) d v = run-Counted (step c e) es d (step-Counted c e d v)

deliver-Inv : (c : Consumer) (d : ℕ) → c.running ≡ true → Inv c → Inv (step c (deliver d))
unfolding step
deliver-Inv c d r v = ground (arith, v.running r)

finish-Inv : (c : Consumer) (d : ℕ) → Inv c → Inv (step c (finish d))
unfolding step
finish-Inv c d v = ground (arith, erase-nil d c.busy)

pub run-Inv : (c : Consumer) (es : List Event) → OnlyRunning c es → Inv c → Inv (run c es)
unfolding run step
run-Inv c [] o v = v
run-Inv c (deliver d ∷ es) o v = run-Inv _ es o.1 (deliver-Inv c d o.0 v)
run-Inv c (finish d ∷ es) o v = run-Inv _ es o (finish-Inv c d v)
run-Inv c (subscribe ∷ es) o v = run-Inv (step c subscribe) es o (ground arith)
run-Inv c (run_returns ∷ es) o v = run-Inv (step c run_returns) es o (ground arith)
run-Inv c (leave ∷ es) o v = run-Inv (step c leave) es o (ground arith)
run-Inv c (close ∷ es) o v = run-Inv (step c close) es o (ground arith)
run-Inv c (release ∷ es) o v = run-Inv (step c release) es o (ground arith)

new_consumer-Inv :
    (conn : String → Bool) (made : String → List ConsumerOption → Bool) (conf : Config)
    {c : Consumer}
    → new_consumer conn made conf ≡ inr c
    → Inv c
unfolding new_consumer
new_consumer-Inv conn made conf h = ground arith

new_consumer-Counted :
    (conn : String → Bool) (made : String → List ConsumerOption → Bool) (conf : Config)
    {c : Consumer} (d : ℕ)
    → new_consumer conn made conf ≡ inr c
    → Counted c d
unfolding new_consumer
new_consumer-Counted conn made conf d h = ground arith

-- After any schedule from a new consumer in which Run calls its function only until it returns, once
-- the connection is closed: Close was called, no delivery is in the handler, the function has
-- returned once for each time that a delivery d arrived, and it returned, for each time that d was
-- given to the handler, where there is one, the answer that AutoCommit asks for.
pub run_shutdown :
    (conn : String → Bool) (made : String → List ConsumerOption → Bool) (conf : Config)
    (c : Consumer) (es : List Event) (d : ℕ)
    → new_consumer conn made conf ≡ inr c
    → OnlyRunning c es
    → (run c es).conn_open ≡ false
    → let t = run c es in
      (t.is_closed ≡ true)
      × (t.busy ≡ [])
      × (told d t.answers ≡ times d t.arrived)
      × (times d t.handled
          ≡ (if t.conf.has_handler then told_as (wanted t.conf) d t.answers else 0))
run_shutdown conn made conf c es d h o down =
    let v = (run-Inv c es o (new_consumer-Inv conn made conf h)).shut down in
    let k = run-Counted c es d (new_consumer-Counted conn made conf d h) in
    ground (arith, k.every, k.seen, v)

handled-step :
    (c : Consumer) (e : Event)
    → c.is_closed ≡ true
    → ((step c e).handled ≡ c.handled) × ((step c e).is_closed ≡ true)
unfolding step
handled-step c e h = ground arith

-- After Close no further delivery reaches the handler, whatever arrives.
pub closed_freezes :
    (c : Consumer) (es : List Event) → c.is_closed ≡ true → (run c es).handled ≡ c.handled
unfolding run
closed_freezes c [] h = refl
closed_freezes c (e ∷ es) h = ground (arith, handled-step c e h, closed_freezes (step c e) es)

-- No delivery of this list was acknowledged by the consumer itself.
abbrev pub NoneAcked : List (ℕ × Action) → Type 0
NoneAcked [] = Unit {0}
NoneAcked ((d, a) ∷ xs) = (a ≡ ack → ⊥) × NoneAcked xs

NoneAcked-snoc :
    (xs : List (ℕ × Action)) (d : ℕ) (a : Action)
    → NoneAcked xs
    → (a ≡ ack → ⊥)
    → NoneAcked (xs ++ (d, a) ∷ [])
NoneAcked-snoc [] d a h k = (k, tt)
NoneAcked-snoc ((e, b) ∷ xs) d a h k = (h.0, NoneAcked-snoc xs d a h.1 k)

record Manual (c : Consumer) : Type 0 where
  by_hand : str_eq c.conf.auto_commit "native" ≡ false
  unacked : NoneAcked c.answers

step-Manual : (c : Consumer) (e : Event) → Manual c → Manual (step c e)
unfolding step
step-Manual c subscribe v = ground arith
step-Manual c (deliver d) v = ground (arith, NoneAcked-snoc c.answers d nack_requeue v.unacked)
step-Manual c (finish d) v = ground (arith, NoneAcked-snoc c.answers d manual v.unacked)
step-Manual c run_returns v = ground arith
step-Manual c leave v = ground arith
step-Manual c close v = ground arith
step-Manual c release v = ground arith

run-Manual : (c : Consumer) (es : List Event) → Manual c → Manual (run c es)
unfolding run
run-Manual c [] v = v
run-Manual c (e ∷ es) v = run-Manual (step c e) es (step-Manual c e v)

new_consumer-Manual :
    (conn : String → Bool) (made : String → List ConsumerOption → Bool) (conf : Config)
    {c : Consumer}
    → new_consumer conn made conf ≡ inr c
    → str_eq conf.auto_commit "native" ≡ false
    → Manual c
unfolding new_consumer
new_consumer-Manual conn made conf h k = ground arith

-- With AutoCommit other than "native" the consumer never acknowledges a delivery on its own, in any
-- schedule: its answers are requeue and manual.
pub manual_never_acks :
    (conn : String → Bool) (made : String → List ConsumerOption → Bool) (conf : Config)
    (c : Consumer) (es : List Event)
    → new_consumer conn made conf ≡ inr c
    → str_eq conf.auto_commit "native" ≡ false
    → NoneAcked (run c es).answers
manual_never_acks conn made conf c es h k =
    (run-Manual c es (new_consumer-Manual conn made conf h k)).unacked
