-- ===== src/Ssrf.antt =====
-- api/ssrf.py: where a webhook may be delivered. A URL stands by what `urlparse` finds in it, `none` where
-- it raises a ValueError, and an address by what `ipaddress.ip_address` reads in its text. The DNS and the
-- library `requests` are not part of the repository.
pub mod Ranges
pub mod Pinned
mod Tests
use django_boilerplate.Prelude.{
  ℕ, ◌+◌, ◌-◌, ◌*◌, ◌%◌, ◌^◌, String, Bool, true, false, not, ◌&&◌, ◌||◌, Option, none, some, List,
  [], ◌∷◌, ◌==◌, eqb, any, contains, lower, codes_eq, if◌then◌else◌, Dict, put,
}

-- `bad_port` where reading `port` raises a ValueError: the text is no number, or past 65535.
pub data Port : Type 0 where
  no_port bad_port : Port
  port_number : ℕ → Port

pub record Url : Type 0 where
  pub scheme : String
  pub hostname : Option String
  pub port : Port
  pub path : String
  pub params : String
  pub query : String
  pub fragment : String

pub data Address : Type 0 where
  v4 v6 : (number : ℕ) → Address
  malformed : (text : String) → Address

-- `ipaddress.ip_network`: the first address, and how many bits of an address are free.
pub record Network : Type 0 where
  pub base : ℕ
  pub free_bits : ℕ

abbrev pub net4 : (a b c d prefix : ℕ) → Network
net4 a b c d prefix = record { base = ((a * 256 + b) * 256 + c) * 256 + d; free_bits = 32 - prefix }

abbrev pub net6 : (base prefix : ℕ) → Network
net6 base prefix = record { base = base; free_bits = 128 - prefix }

-- `ip_obj in private_range`
abbrev pub is_in : ℕ → Network → Bool
is_in n r = eqb (n - n % 2 ^ r.free_bits) r.base

abbrev pub private_ipv4_ranges : List Network
private_ipv4_ranges =
    net4 10 0 0 0 8
    ∷ net4 172 16 0 0 12
    ∷ net4 192 168 0 0 16
    ∷ net4 127 0 0 0 8
    ∷ net4 169 254 0 0 16
    ∷ net4 0 0 0 0 8
    ∷ net4 100 64 0 0 10
    ∷ net4 192 0 0 0 24
    ∷ net4 192 0 2 0 24
    ∷ net4 198 18 0 0 15
    ∷ net4 198 51 100 0 24
    ∷ net4 203 0 113 0 24
    ∷ net4 224 0 0 0 4
    ∷ net4 240 0 0 0 4
    ∷ net4 255 255 255 255 32
    ∷ []

abbrev pub private_ipv6_ranges : List Network
private_ipv6_ranges =
    net6 1 128
    ∷ net6 0 128
    ∷ net6 (252 * 2 ^ 120) 7
    ∷ net6 (254 * 2 ^ 120 + 128 * 2 ^ 112) 10
    ∷ net6 (255 * 2 ^ 120) 8
    ∷ net6 (65535 * 2 ^ 32) 96
    ∷ []

unfoldable pub is_private_ip : Address → Bool
is_private_ip (v4 n) = any (is_in n) private_ipv4_ranges
is_private_ip (v6 n) = any (is_in n) private_ipv6_ranges
is_private_ip (malformed text) = true

pub record Settings : Type 0 where
  pub ssrf_protection_enabled : Bool
  pub allowed_schemes : List String
  pub allowed_hosts : List String
  pub blocked_hosts : List String
  pub block_private_ips : Bool

abbrev pub same_host : String → String → Bool
same_host a b = codes_eq (lower a) (lower b)

abbrev pub blocked_hostnames : List String
blocked_hostnames = "metadata.google.internal" ∷ "169.254.169.254" ∷ "metadata" ∷ "localhost" ∷ []

unfoldable pub is_blocked_hostname : Settings → String → Bool
is_blocked_hostname st hostname =
    any (same_host hostname) blocked_hostnames || any (same_host hostname) st.blocked_hosts

pub data SsrfError : Type 0 where
  invalid_scheme blocked_host dns_resolution private_ip : SsrfError

pub data Result (A : Type 0) : Type 0 where
  raised : SsrfError → Result A
  value_error : Result A
  ok : A → Result A

-- `socket.getaddrinfo`, with repeated addresses removed; `none` stands for its exceptions.
abbrev pub Dns : Type 0
Dns = String → Option (List Address)

module _ (dns : Dns) where
  found_addresses : Option (List Address) → Result (List Address)
  found_addresses none = raised dns_resolution
  found_addresses (some []) = raised dns_resolution
  found_addresses (some (a ∷ ips)) = ok (a ∷ ips)

  unfoldable pub resolve_hostname : String → Result (List Address)
  unfolding found_addresses
  resolve_hostname hostname = found_addresses (dns hostname)

unfoldable pub validate_ip_addresses : List Address → Result Unit
validate_ip_addresses ips = if any is_private_ip ips then raised private_ip else ok tt

-- The URL of a call: as given, whose host the library resolves again, or with an address and a port in
-- place of its host.
pub data Target : Type 0 where
  direct : Url → Target
  pinned : (url : Url) → Address → (port : Option ℕ) → Target

-- What `safe_request` gives to `requests.request`.
pub record Post : Type 0 where
  pub target : Target
  pub headers : Dict String
  pub body : String

-- How a call of the library ends: a response, a RequestException, or an exception of another kind.
pub data Answer : Type 0 where
  response : (status_code : ℕ) → (text : String) → Answer
  request_exception : (message : String) → Answer
  other_exception : (message : String) → Answer

-- What a call of the library does: it follows the redirects that servers answer with, since nothing asks
-- it not to, and then it ends. `redirects` are the URLs that it requests after the first.
pub record Exchange : Type 0 where
  pub redirects : List String
  pub answer : Answer

-- A call of the library, with what it did.
pub record Call : Type 0 where
  pub post : Post
  pub exchange : Exchange

-- `if parsed.port`
unfoldable pub read_port : Port → Result (Option ℕ)
read_port no_port = ok none
read_port bad_port = value_error
read_port (port_number n) = if eqb n 0 then ok none else ok (some n)

module _ (dns : Dns) (st : Settings) where
  check_addresses : String → Result (List Address) → Result (String × List Address)
  check_addresses hostname (raised e) = raised e
  check_addresses hostname value_error = value_error
  check_addresses hostname (ok ips) =
      if st.block_private_ips
      then elim (validate_ip_addresses ips) [
        | raised e ↦ raised e
        | value_error ↦ value_error
        | ok u ↦ ok (hostname, ips)
      ]
      else ok (hostname, ips)

  check_host : Option String → Result (String × List Address)
  check_host none = raised blocked_host
  check_host (some hostname) =
      if hostname == ""
      then raised blocked_host
      else if any (same_host hostname) st.allowed_hosts
      then ok (hostname, [])
      else if is_blocked_hostname st hostname
      then raised blocked_host
      else check_addresses hostname (resolve_hostname dns hostname)

  name_of : Option String → String
  name_of none = ""
  name_of (some hostname) = hostname

  unfoldable pub validate_webhook_url : Option Url → Result (String × List Address)
  unfolding name_of check_host check_addresses
  validate_webhook_url none = value_error
  validate_webhook_url (some url) =
      if not st.ssrf_protection_enabled
      then ok (name_of url.hostname, [])
      else if not (contains st.allowed_schemes url.scheme)
      then raised invalid_scheme
      else check_host url.hostname

  module _ (request : Post → Exchange) (headers : Dict String) (body : String) where
    unfoldable pub call : Post → Result Call
    call p = ok record { post = p; exchange = request p }

    call_pinned : Url → (hostname : String) → Address → Result (Option ℕ) → Result Call
    unfolding call
    call_pinned url hostname ip (raised e) = raised e
    call_pinned url hostname ip value_error = value_error
    call_pinned url hostname ip (ok port) =
        call
          record { target = pinned url ip port; headers = put "Host" hostname headers; body = body }

    send : Url → Result (String × List Address) → Result Call
    unfolding call call_pinned read_port
    send url (raised e) = raised e
    send url value_error = value_error
    send url (ok (hostname, [])) =
        call record { target = direct url; headers = headers; body = body }
    send url (ok (hostname, ip ∷ ips)) = call_pinned url hostname ip (read_port url.port)

    -- `request` is `requests.request`, with the method and the timeout that are passed on.
    unfoldable pub safe_request : Option Url → Result Call
    unfolding send
    safe_request none = value_error
    safe_request (some url) = send url (validate_webhook_url (some url))
