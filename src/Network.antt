-- ===== src/Network.antt =====
-- The configuration of the network and the addresses to begin with
-- (alterchat-core/src/network.rs). The file of known peers is its text, if it can be read; the
-- environment's variable is the list of its parts.
use alter_chat.Base.{
  String, Bool, true, false, ◌||◌, Option, none, some, List, [], ◌∷◌, ◌++◌, ◌≡◌, refl, ap, arith,
  inl, inr, Bool-cases, if◌then◌else◌,
}
use alter_chat.Base.Equality.{◌==◌, string_eq, ==_sound, ==_comm}
use alter_chat.Base.Member.{any}
use alter_chat.Base.Result.{Result, ok, err}
use alter_chat.Db.Json.{Json}

pub data ProxyMode : Type 0 where
  direct : ProxyMode
  tor : ProxyMode
  socks5 : ProxyMode
  i2p : ProxyMode

pub data TransportPreference : Type 0 where
  tcp : TransportPreference
  quic : TransportPreference
  over_tor : TransportPreference

pub record NetworkPrivacyConfig : Type 0 where
  pub proxy_mode : ProxyMode
  pub transport_preference : TransportPreference
  pub proxy_addr : Option String
  pub bootstrap_addrs : List String
  pub mdns_enabled : Bool
  pub dht_server_mode : Bool
  pub relay_enabled : Bool
  pub relay_fallback_enabled : Bool
  pub publish_capabilities : Bool
  pub protocol_versions : List String

unfoldable pub default_config : NetworkPrivacyConfig
default_config = record {
  proxy_mode = direct;
  transport_preference = tcp;
  proxy_addr = none;
  bootstrap_addrs = [];
  mdns_enabled = true;
  dht_server_mode = false;
  relay_enabled = false;
  relay_fallback_enabled = false;
  publish_capabilities = true;
  protocol_versions = "/alterchat/p2p/1.0.0" ∷ [];
}

-- `COMMUNITY_BOOTSTRAP_ADDRS`
abbrev pub community_bootstrap_addrs : List String
community_bootstrap_addrs = []

unfoldable pub resolve_dns_seeds : List String
resolve_dns_seeds = community_bootstrap_addrs

-- The text of the file of known peers.
unfoldable pub save_known_peers : Json (List String) → List String → Result String
save_known_peers J peers = J.to_string peers

unfoldable pub load_known_peers : Json (List String) → Option String → List String
load_known_peers J none = []
load_known_peers J (some content) = elim (J.from_str content) [ ok peers ↦ peers | err e ↦ [] ]

-- `contains`
unfoldable pub contains : List String → String → Bool
contains addrs addr = any (λ a. a == addr) addrs

-- A loop that pushes the addresses that are not there.
unfoldable pub push_new : List String → List String → List String
push_new addrs [] = addrs
push_new addrs (addr ∷ rest) =
    push_new (if contains addrs addr then addrs else addrs ++ addr ∷ []) rest

-- The DNS seeds, if there is nothing else.
unfoldable pub or_seeds : List String → List String
or_seeds [] = resolve_dns_seeds
or_seeds (addr ∷ addrs) = addr ∷ addrs

unfoldable pub effective_bootstrap_addrs : List String → List String → List String
effective_bootstrap_addrs env_bootstrap user_addrs =
    or_seeds (push_new (push_new user_addrs env_bootstrap) community_bootstrap_addrs)

-- No address stands in a list twice.
unfoldable IsDistinct : List String → Type 0
IsDistinct [] = Unit {0}
IsDistinct (addr ∷ addrs) = (contains addrs addr ≡ false) × IsDistinct addrs

contains-append :
    (xs : List String) (addr other : String)
    → contains (xs ++ addr ∷ []) other ≡ contains xs other || (addr == other)
unfolding contains
contains-append [] addr other = ground arith
contains-append (x ∷ xs) addr other = ground (arith, contains-append xs addr other)

append-IsDistinct :
    (xs : List String) (addr : String)
    → IsDistinct xs
    → contains xs addr ≡ false
    → IsDistinct (xs ++ addr ∷ [])
unfolding IsDistinct contains
append-IsDistinct [] addr h new = (refl, tt)
append-IsDistinct (x ∷ xs) addr (h, hs) new = (
  ground (arith, contains-append xs addr x, h, new, ==_comm addr x),
  append-IsDistinct xs addr hs (ground (arith, new)),
)

-- Equal addresses are in a list or not together.
contains_same :
    (xs : List String) (addr other : String)
    → (addr == other) ≡ true
    → contains xs addr ≡ contains xs other
contains_same xs addr other same = ap (contains xs) (==_sound same)

-- What was there stays, what was pushed is there, and no address comes in twice.
push_new_lem :
    (xs ys : List String) (addr : String)
    → contains (push_new xs ys) addr ≡ contains xs addr || contains ys addr
unfolding push_new contains
push_new_lem xs [] addr = ground arith
push_new_lem xs (y ∷ ys) addr = elim (Bool-cases (contains xs y)) [
  | inl there ↦ ground (arith, there, push_new_lem xs ys addr, contains_same xs y addr)
  | inr new ↦ ground (arith, new, push_new_lem (xs ++ y ∷ []) ys addr, contains-append xs y addr)
]

push_new-IsDistinct : (xs ys : List String) → IsDistinct xs → IsDistinct (push_new xs ys)
unfolding push_new
push_new-IsDistinct xs [] h = h
push_new-IsDistinct xs (y ∷ ys) h = elim (Bool-cases (contains xs y)) [
  | inl there ↦ rw there (push_new-IsDistinct xs ys h)
  | inr new ↦ rw new (push_new-IsDistinct (xs ++ y ∷ []) ys (append-IsDistinct xs y h new))
]

or_seeds_same : (addrs : List String) → or_seeds (push_new addrs []) ≡ addrs
unfolding or_seeds push_new resolve_dns_seeds
or_seeds_same [] = refl
or_seeds_same (addr ∷ addrs) = refl

-- The addresses to begin with are those of the user and of the environment, each once, if the
-- user's are distinct.
effective_bootstrap_addrs_lem :
    (env_bootstrap user_addrs : List String) (addr : String)
    → IsDistinct user_addrs
    → (contains (effective_bootstrap_addrs env_bootstrap user_addrs) addr
        ≡ contains user_addrs addr || contains env_bootstrap addr)
      × IsDistinct (effective_bootstrap_addrs env_bootstrap user_addrs)
unfolding effective_bootstrap_addrs
effective_bootstrap_addrs_lem env_bootstrap user_addrs addr h =
    rw (or_seeds_same (push_new user_addrs env_bootstrap))
      (push_new_lem user_addrs env_bootstrap addr, push_new-IsDistinct user_addrs env_bootstrap h)
