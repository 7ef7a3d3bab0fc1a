-- ===== src/Nats/Stream/Limits.antt =====
-- What every sequence of setters keeps of the limits and the topics of a stream.
use kmq_utils.Prelude.{
  ◌≡◌, Bool, false, String, Option, List, [], ◌∷◌, ◌++◌, All, inl, inr, Bool-cases, str_eq, arith,
}
use kmq_utils.Prelude.Int.{ℤ, pos, negsuc, ◌≤ℤ◌}
use kmq_utils.KList.{KList, Laws}
use kmq_utils.Nats.Stream.{
  StreamConfig, ConsumerConfig, StorageType, Compression, RetentionPolicy, DiscardPolicy, limit,
  new_stream, set_storage_type, set_compression, set_retention_policy, set_retention_limits,
  set_max_consumers, set_max_msg_size, set_duplicates, set_discard, add_topic, set_consumer,
  set_main_handler,
}

-- A call of a setter of the stream.
pub data StreamCall : Type 0 where
  storage_type : StorageType → StreamCall
  compression : Compression → StreamCall
  retention_policy : RetentionPolicy → StreamCall
  retention_limits : ℤ → ℤ → ℤ → ℤ → StreamCall
  max_consumers max_msg_size duplicates : ℤ → StreamCall
  discard : DiscardPolicy → StreamCall
  topics : List String → StreamCall
  consumer : Option ConsumerConfig → StreamCall
  handler : Bool → StreamCall

module _ {K : KList String} where
  unfoldable pub call : StreamConfig K → StreamCall → StreamConfig K
  unfolding set_storage_type set_compression set_retention_policy set_retention_limits
      set_max_consumers set_max_msg_size set_duplicates set_discard add_topic set_consumer
      set_main_handler
  call c (storage_type t) = set_storage_type t c
  call c (compression z) = set_compression z c
  call c (retention_policy p) = set_retention_policy p c
  call c (retention_limits m b a s) = set_retention_limits m b a s c
  call c (max_consumers n) = set_max_consumers n c
  call c (max_msg_size n) = set_max_msg_size n c
  call c (duplicates n) = set_duplicates n c
  call c (discard d) = set_discard d c
  call c (topics ts) = add_topic ts c
  call c (consumer o) = set_consumer o c
  call c (handler h) = set_main_handler h c

  unfoldable pub calls : StreamConfig K → List StreamCall → StreamConfig K
  unfolding call
  calls c [] = c
  calls c (k ∷ ks) = calls (call c k) ks

  -- A limit is -1 or a number from 0 on, and no topic is empty.
  pub record IsBounded (c : StreamConfig K) : Type 0 where
    pub consumers : negsuc 0 ≤ℤ c.max_consumers
    pub msgs : negsuc 0 ≤ℤ c.max_msgs
    pub bytes : negsuc 0 ≤ℤ c.max_bytes
    pub age : negsuc 0 ≤ℤ c.max_age
    pub per_subject : negsuc 0 ≤ℤ c.max_msgs_per_subject
    pub size : negsuc 0 ≤ℤ c.max_msg_size
    pub window : pos 0 ≤ℤ c.duplicates
    pub named : All (λ t. str_eq t "" ≡ false) (K.to_slice c.topics)

All-snoc :
    (xs : List String) (x : String)
    → All (λ t. str_eq t "" ≡ false) xs
    → str_eq x "" ≡ false
    → All (λ t. str_eq t "" ≡ false) (xs ++ x ∷ [])
All-snoc [] x a e = (e, tt)
All-snoc (y ∷ ys) x a e = (a.0, All-snoc ys x a.1 e)

limit_ge : (n : ℤ) → negsuc 0 ≤ℤ limit n
limit_ge n = ground arith

module _ {K : KList String} (L : Laws K) where
  add_topic-IsBounded :
      (ts : List String) (c : StreamConfig K) → IsBounded c → IsBounded (add_topic ts c)
  unfolding add_topic
  add_topic-IsBounded [] c v = v
  add_topic-IsBounded (t ∷ ts) c v = elim (Bool-cases (str_eq t "")) [
    | inl e ↦ rw (e, add_topic) (add_topic-IsBounded ts c v)
    | inr e ↦
        rw (e, add_topic)
          (add_topic-IsBounded ts (record c { topics = K.push_back t c.topics })
            record {
              consumers = v.consumers;
              msgs = v.msgs;
              bytes = v.bytes;
              age = v.age;
              per_subject = v.per_subject;
              size = v.size;
              window = v.window;
              named = rw (L.slice_push t c.topics) (All-snoc (K.to_slice c.topics) t v.named e);
            })
  ]

  call-IsBounded : (c : StreamConfig K) (k : StreamCall) → IsBounded c → IsBounded (call c k)
  unfolding call
  call-IsBounded c (storage_type t) v = record {
    consumers = v.consumers;
    msgs = v.msgs;
    bytes = v.bytes;
    age = v.age;
    per_subject = v.per_subject;
    size = v.size;
    window = v.window;
    named = v.named;
  }
  call-IsBounded c (compression z) v = record {
    consumers = v.consumers;
    msgs = v.msgs;
    bytes = v.bytes;
    age = v.age;
    per_subject = v.per_subject;
    size = v.size;
    window = v.window;
    named = v.named;
  }
  call-IsBounded c (retention_policy p) v = record {
    consumers = v.consumers;
    msgs = v.msgs;
    bytes = v.bytes;
    age = v.age;
    per_subject = v.per_subject;
    size = v.size;
    window = v.window;
    named = v.named;
  }
  call-IsBounded c (retention_limits m b a s) v = record {
    consumers = v.consumers;
    msgs = limit_ge m;
    bytes = limit_ge b;
    age = limit_ge a;
    per_subject = limit_ge s;
    size = v.size;
    window = v.window;
    named = v.named;
  }
  call-IsBounded c (max_consumers n) v = record {
    consumers = ground arith;
    msgs = v.msgs;
    bytes = v.bytes;
    age = v.age;
    per_subject = v.per_subject;
    size = v.size;
    window = v.window;
    named = v.named;
  }
  call-IsBounded c (max_msg_size n) v = record {
    consumers = v.consumers;
    msgs = v.msgs;
    bytes = v.bytes;
    age = v.age;
    per_subject = v.per_subject;
    size = ground arith;
    window = v.window;
    named = v.named;
  }
  call-IsBounded c (duplicates n) v = record {
    consumers = v.consumers;
    msgs = v.msgs;
    bytes = v.bytes;
    age = v.age;
    per_subject = v.per_subject;
    size = v.size;
    window = ground arith;
    named = v.named;
  }
  call-IsBounded c (discard d) v = record {
    consumers = v.consumers;
    msgs = v.msgs;
    bytes = v.bytes;
    age = v.age;
    per_subject = v.per_subject;
    size = v.size;
    window = v.window;
    named = v.named;
  }
  call-IsBounded c (topics ts) v = add_topic-IsBounded ts c v
  call-IsBounded c (consumer o) v = record {
    consumers = v.consumers;
    msgs = v.msgs;
    bytes = v.bytes;
    age = v.age;
    per_subject = v.per_subject;
    size = v.size;
    window = v.window;
    named = v.named;
  }
  call-IsBounded c (handler h) v = record {
    consumers = v.consumers;
    msgs = v.msgs;
    bytes = v.bytes;
    age = v.age;
    per_subject = v.per_subject;
    size = v.size;
    window = v.window;
    named = v.named;
  }

  new_stream-IsBounded : (z : Compression) (n : String) → IsBounded (new_stream {K = K} z n)
  unfolding new_stream
  new_stream-IsBounded z n = record {
    consumers = omega arith;
    msgs = omega arith;
    bytes = omega arith;
    age = omega arith;
    per_subject = omega arith;
    size = omega arith;
    window = omega arith;
    named = rw L.slice_empty tt;
  }

  calls-IsBounded :
      (c : StreamConfig K) (ks : List StreamCall) → IsBounded c → IsBounded (calls c ks)
  unfolding calls
  calls-IsBounded c [] v = v
  calls-IsBounded c (k ∷ ks) v = calls-IsBounded (call c k) ks (call-IsBounded c k v)

  -- After any sequence of setters on a new stream each of its six limits is at least -1, the window of
  -- duplicates is not negative, and no topic is empty.
  pub stream-IsBounded :
      (z : Compression) (n : String) (ks : List StreamCall)
      → IsBounded (calls (new_stream {K = K} z n) ks)
  stream-IsBounded z n ks = calls-IsBounded (new_stream z n) ks (new_stream-IsBounded z n)
