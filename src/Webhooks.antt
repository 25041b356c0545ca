-- ===== src/Webhooks.antt =====
-- crates/cowchat-server/src/webhooks.rs: the filter of a subscription, the addresses that a hook may
-- have, the enqueuing of a message and what becomes of a delivery. Parsing a URL, looking up a host
-- and the HTTP request are parameters; signing is left to HMAC.
pub mod Addresses
pub mod Retries
pub mod Worker
pub mod Cursor
pub mod Flights
pub mod Tests
use Prim.Native.Char.{Char, code}
use cowchat4win.Base.{
  ℕ, suc, ◌+◌, ◌-◌, ◌*◌, ◌/◌, ◌%◌, String, Bool, true, false, not, ◌&&◌, ◌||◌, Option, none, some,
  List, [], ◌∷◌, ◌==◌, if◌then◌else◌, any, is_some, is_empty, length, get_elem?, leb, eqb, Result,
  ok, err,
}
use cowchat4win.Protocol.{Json, get, as_str}
use cowchat4win.Models.{ChatMessage, Subscription}
use cowchat4win.Tombstones.{nanos_per_sec}
use cowchat4win.Store.{Store, SubscriptionRow}
use cowchat4win.Store.Messages.{get_message}
use cowchat4win.Store.Subscriptions.{
  PendingDelivery, get_subscription, list_active_subscriptions_for_room, enqueue_delivery,
  delete_delivery, reschedule_delivery, set_subscription_status, advance_subscription_cursor,
  load_due_deliveries,
}

abbrev pub retry_schedule_secs : List ℕ
retry_schedule_secs = 1 ∷ 4 ∷ 16 ∷ 64 ∷ 256 ∷ []

-- `msg.metadata.get(key).and_then(|v| v.as_str())`
unfoldable pub meta_text : String → ChatMessage → Option String
unfolding get as_str
meta_text key msg = elim (get key msg.metadata) [ none ↦ none | some v ↦ as_str v ]

abbrev pub is_kind : Option String → String → Bool
is_kind none want = false
is_kind (some kind) want = want == kind

abbrev pub allowed_by : Option String → String → Bool
allowed_by none name = true
allowed_by (some only) name = name == only

abbrev pub skipped_by : Option String → String → Bool
skipped_by none name = false
skipped_by (some skip) name = name == skip

unfoldable pub matches_filter : Subscription → ChatMessage → Bool
unfolding meta_text
matches_filter sub msg =
    if leb msg.seq sub.last_delivered_seq
    then false
    else if is_kind (meta_text "type" msg) "system"
    then false
    else if sub.exclude_thinking && is_kind (meta_text "type" msg) "thinking"
    then false
    else if not (is_empty sub.kinds) && not (any (is_kind (meta_text "kind" msg)) sub.kinds)
    then false
    else if not (allowed_by sub.only_from msg.agent_name)
    then false
    else not (skipped_by sub.not_from msg.agent_name)

-- An address by its octets, or by its 16-bit segments.
pub data IpAddr : Type 0 where
  v4 : ℕ → ℕ → ℕ → ℕ → IpAddr
  v6 : ℕ → ℕ → ℕ → ℕ → ℕ → ℕ → ℕ → ℕ → IpAddr

-- The tests of Rust's `Ipv4Addr`.
abbrev pub is_private : ℕ → ℕ → Bool
is_private a b = eqb a 10 || eqb a 172 && leb 16 b && leb b 31 || eqb a 192 && eqb b 168

abbrev pub is_loopback : ℕ → Bool
is_loopback a = eqb a 127

abbrev pub is_link_local : ℕ → ℕ → Bool
is_link_local a b = eqb a 169 && eqb b 254

abbrev pub is_multicast : ℕ → Bool
is_multicast a = leb 224 a && leb a 239

abbrev pub is_broadcast : ℕ → ℕ → ℕ → ℕ → Bool
is_broadcast a b c d = eqb a 255 && eqb b 255 && eqb c 255 && eqb d 255

abbrev pub is_unspecified : ℕ → ℕ → ℕ → ℕ → Bool
is_unspecified a b c d = eqb a 0 && eqb b 0 && eqb c 0 && eqb d 0

unfoldable pub is_public_v4 : ℕ → ℕ → ℕ → ℕ → Bool
is_public_v4 a b c d = not (
    is_private a b
    || is_loopback a
    || is_link_local a b
    || is_multicast a
    || is_broadcast a b c d
    || is_unspecified a b c d
    || eqb a 0
    || eqb a 100 && leb 64 b && leb b 127
    || eqb a 198 && (eqb b 18 || eqb b 19)
    || eqb a 169 && eqb b 254 && eqb c 169 && eqb d 254)

abbrev pub high_zero : ℕ → ℕ → ℕ → ℕ → ℕ → Bool
high_zero s0 s1 s2 s3 s4 = eqb s0 0 && eqb s1 0 && eqb s2 0 && eqb s3 0 && eqb s4 0

-- A mask of high bits is a multiple of a power of two.
unfoldable pub is_public_ip : IpAddr → Bool
unfolding is_public_v4
is_public_ip (v4 a b c d) = is_public_v4 a b c d
is_public_ip (v6 s0 s1 s2 s3 s4 s5 s6 s7) = not (
    high_zero s0 s1 s2 s3 s4 && eqb s5 0 && eqb s6 0 && eqb s7 1
    || high_zero s0 s1 s2 s3 s4 && eqb s5 0 && eqb s6 0 && eqb s7 0
    || eqb (s0 / 256) 255
    || eqb (s0 / 512 * 512) 0xfc00
    || eqb (s0 / 64 * 64) 0xfe80
    || high_zero s0 s1 s2 s3 s4
      && eqb s5 0xffff
      && not (is_public_v4 (s6 / 256) (s6 % 256) (s7 / 256) (s7 % 256)))

-- What the code reads of `reqwest::Url`.
pub record Url : Type 0 where
  pub scheme : String
  pub username : String
  pub password : Option String
  pub host : Option String
  pub port : Option ℕ

-- The messages of the refusals, and what the parser and the resolver say.
pub data UrlError : Type 0 where
  invalid_url : String → UrlError
  not_http : UrlError
  credentials : UrlError
  no_host : UrlError
  localhost : UrlError
  no_port : UrlError
  unresolved : String → UrlError
  reserved_address : UrlError

unfoldable pub lower : Char → ℕ
lower c = if leb 65 (code c) && leb (code c) 90 then code c + 32 else code c

unfoldable pub eq_ignore_ascii_case : String → String → Bool
unfolding lower
eq_ignore_ascii_case String.[] String.[] = true
eq_ignore_ascii_case String.[] (String.◌∷◌ d t) = false
eq_ignore_ascii_case (String.◌∷◌ c s) String.[] = false
eq_ignore_ascii_case (String.◌∷◌ c s) (String.◌∷◌ d t) =
    eqb (lower c) (lower d) && eq_ignore_ascii_case s t

unfoldable pub ends_with : String → String → Bool
ends_with end String.[] = end == String.[]
ends_with end (String.◌∷◌ c s) = let rest = ends_with end s in end == String.◌∷◌ c s || rest

unfoldable pub targets_localhost : String → Bool
unfolding eq_ignore_ascii_case ends_with
targets_localhost host = eq_ignore_ascii_case host "localhost" || ends_with ".localhost" host

-- Both parsing and resolution may fail; a lookup that times out is one that fails.
unfoldable pub resolve_public_webhook :
    (String → Result Url String)
    → (String → ℕ → Result (List IpAddr) String)
    → String
    → Bool
    → Result (Url × String × IpAddr) UrlError
unfolding targets_localhost is_public_ip
resolve_public_webhook parse lookup_host raw allow_private = elim (parse raw) [
  | err why ↦ err (invalid_url why)
  | ok url ↦
      if not (url.scheme == "http" || url.scheme == "https")
      then err not_http
      else if not (url.username == "") || is_some url.password
      then err credentials
      else elim url.host [
        | none ↦ err no_host
        | some host ↦
            if not allow_private && targets_localhost host then err localhost else elim url.port [
              | none ↦ err no_port
              | some port ↦ elim (lookup_host host port) [
                | err why ↦ err (unresolved why)
                | ok [] ↦ err reserved_address
                | ok (address ∷ rest) ↦
                    if not allow_private && any (λ a. not (is_public_ip a)) (address ∷ rest)
                    then err reserved_address
                    else ok (url, host, address)
              ]
            ]
      ]
]

pub data Outcome : Type 0 where
  blocked : Outcome
  delivered : Outcome
  failed : String → Outcome

-- What an outcome does to the queue and the subscription, where nothing comes between.
unfoldable pub settle : ℕ → PendingDelivery → Outcome → Store → Store
settle now d blocked s =
    set_subscription_status d.subscription_id "failed" (some (d.attempts + 1)) s
settle now d delivered s =
    advance_subscription_cursor d.subscription_id d.message_seq (delete_delivery d.delivery_id s)
settle now d (failed why) s =
    let new_attempts = d.attempts + 1 in
    elim (get_elem? retry_schedule_secs (new_attempts - 1)) [
      | none ↦
          set_subscription_status d.subscription_id "failed" (some new_attempts)
            (delete_delivery d.delivery_id s)
      | some delay ↦
          reschedule_delivery d.delivery_id (now + delay * nanos_per_sec) new_attempts why s
    ]
