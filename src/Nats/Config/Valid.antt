-- ===== src/Nats/Config/Valid.antt =====
-- What every sequence of setters keeps of a NATS configuration.
use kmq_utils.Prelude.{
  ◌≡◌, refl, inl, inr, Bool, true, String, List, [], ◌∷◌, ◌++◌, All, arith, Bool-cases,
}
use kmq_utils.Prelude.Int.{ℤ, pos, ◌≤ℤ◌}
use kmq_utils.KList.{KList, Laws}
use kmq_utils.Nats.Config.{
  ConnConfig, has_scheme, is_version, new_conn, add_servers, set_user_password, set_token,
  enable_reconnect, disable_reconnect, enable_tls, disable_tls, set_name, set_ping,
}

-- A call of a setter of the connection.
pub data ConnCall : Type 0 where
  servers : List String → ConnCall
  user_password : String → String → ConnCall
  token : String → ConnCall
  reconnect : ℤ → ℤ → ℤ → ℤ → ConnCall
  no_reconnect : ConnCall
  tls : String → String → String → Bool → ℤ → ConnCall
  no_tls : ConnCall
  name : String → ConnCall
  ping : ℤ → ℤ → ConnCall

module _ {K : KList String} where
  unfoldable pub call : ConnConfig K → ConnCall → ConnConfig K
  unfolding add_servers set_user_password set_token enable_reconnect disable_reconnect enable_tls
      disable_tls set_name set_ping
  call c (servers urls) = add_servers urls c
  call c (user_password u p) = set_user_password u p c
  call c (token t) = set_token t c
  call c (reconnect m b t w) = enable_reconnect m b t w c
  call c no_reconnect = disable_reconnect c
  call c (tls ca cert key skip version) = enable_tls ca cert key skip version c
  call c no_tls = disable_tls c
  call c (name n) = set_name n c
  call c (ping i r) = set_ping i r c

  unfoldable pub calls : ConnConfig K → List ConnCall → ConnConfig K
  unfolding call
  calls c [] = c
  calls c (k ∷ ks) = calls (call c k) ks

  pub record IsValid (c : ConnConfig K) : Type 0 where
    pub version : is_version c.min_tls_ver ≡ true
    pub interval : pos 0 ≤ℤ c.ping_interval
    pub pings : pos 1 ≤ℤ c.max_pings_out
    pub schemes : All (λ url. has_scheme url ≡ true) (K.to_slice c.servers)

All-snoc :
    (xs : List String) (x : String)
    → All (λ url. has_scheme url ≡ true) xs
    → has_scheme x ≡ true
    → All (λ url. has_scheme url ≡ true) (xs ++ x ∷ [])
All-snoc [] x a e = (e, tt)
All-snoc (y ∷ ys) x a e = (a.0, All-snoc ys x a.1 e)

module _ {K : KList String} (L : Laws K) where
  add_servers-IsValid :
      (urls : List String) (c : ConnConfig K) → IsValid c → IsValid (add_servers urls c)
  unfolding add_servers
  add_servers-IsValid [] c v = v
  add_servers-IsValid (url ∷ urls) c v = elim (Bool-cases (has_scheme url)) [
    | inl e ↦
        rw (e, add_servers)
          (add_servers-IsValid urls (record c { servers = K.push_back url c.servers })
            (record {
              version = v.version;
              interval = v.interval;
              pings = v.pings;
              schemes =
                  rw (L.slice_push url c.servers) (All-snoc (K.to_slice c.servers) url v.schemes e);
            }))
    | inr e ↦ rw (e, add_servers) (add_servers-IsValid urls c v)
  ]

  enable_tls-IsValid :
      (ca cert key : String) (skip : Bool) (version : ℤ) (c : ConnConfig K)
      → IsValid c
      → IsValid (enable_tls ca cert key skip version c)
  unfolding enable_tls
  enable_tls-IsValid ca cert key skip version c v = record {
    version = elim (Bool-cases (is_version version)) [
      | inl e ↦ rw (e, enable_tls) e
      | inr e ↦ rw (e, enable_tls) refl
    ];
    interval = v.interval;
    pings = v.pings;
    schemes = v.schemes;
  }

  set_ping-IsValid : (i r : ℤ) (c : ConnConfig K) → IsValid c → IsValid (set_ping i r c)
  unfolding set_ping
  set_ping-IsValid i r c v = record {
    version = v.version;
    interval = ground arith;
    pings = ground arith;
    schemes = v.schemes;
  }

  call-IsValid : (c : ConnConfig K) (k : ConnCall) → IsValid c → IsValid (call c k)
  unfolding call
  call-IsValid c (servers urls) v = add_servers-IsValid urls c v
  call-IsValid c (user_password u p) v = record {
    version = v.version;
    interval = v.interval;
    pings = v.pings;
    schemes = v.schemes;
  }
  call-IsValid c (token t) v = record {
    version = v.version;
    interval = v.interval;
    pings = v.pings;
    schemes = v.schemes;
  }
  call-IsValid c (reconnect m b t w) v = record {
    version = v.version;
    interval = v.interval;
    pings = v.pings;
    schemes = v.schemes;
  }
  call-IsValid c no_reconnect v = record {
    version = v.version;
    interval = v.interval;
    pings = v.pings;
    schemes = v.schemes;
  }
  call-IsValid c (tls ca cert key skip version) v = enable_tls-IsValid ca cert key skip version c v
  call-IsValid c no_tls v = record {
    version = refl;
    interval = v.interval;
    pings = v.pings;
    schemes = v.schemes;
  }
  call-IsValid c (name n) v = record {
    version = v.version;
    interval = v.interval;
    pings = v.pings;
    schemes = v.schemes;
  }
  call-IsValid c (ping i r) v = set_ping-IsValid i r c v

  new_conn-IsValid : (n : String) → IsValid (new_conn {K = K} n)
  unfolding new_conn
  new_conn-IsValid n = record {
    version = refl;
    interval = omega arith;
    pings = omega arith;
    schemes = rw L.slice_empty tt;
  }

  calls-IsValid : (c : ConnConfig K) (ks : List ConnCall) → IsValid c → IsValid (calls c ks)
  unfolding calls
  calls-IsValid c [] v = v
  calls-IsValid c (k ∷ ks) v = calls-IsValid (call c k) ks (call-IsValid c k v)

  -- After any sequence of setters on a new connection configuration the TLS version is one of the
  -- four, the ping interval is not negative, at least one ping may be out, and every server begins
  -- with a known scheme.
  pub settings-IsValid : (n : String) (ks : List ConnCall) → IsValid (calls (new_conn {K = K} n) ks)
  settings-IsValid n ks = calls-IsValid (new_conn n) ks (new_conn-IsValid n)
