-- ===== src/Ssrf/Pinned.antt =====
-- Where the first request of `safe_request` of api/ssrf.py goes. Redirects that follow it are not checked.
use django_boilerplate.Prelude.{
  ◌≡◌, ◌≢◌, ◌⊎◌, Bool-cases, eqb, refl, ℕ, String, Dict, put, true, false, not, inl, inr, Option,
  none, some, List, [], ◌∷◌, arith, ◌==◌, any, contains, if-cases,
}
use django_boilerplate.Ssrf.{
  Url, Port, bad_port, no_port, port_number, Address, Settings, Dns, Result, raised, value_error,
  ok, Target, direct, pinned, Post, Exchange, Call, same_host, blocked_hostnames, is_private_ip,
  read_port, call, call_pinned, is_blocked_hostname, resolve_hostname, found_addresses,
  validate_ip_addresses, check_addresses, check_host, validate_webhook_url, send, safe_request,
}

-- The port that a URL keeps: the one that it has, and none for none and for 0.
abbrev pub IsPortOf : Port → Option ℕ → Type 0
IsPortOf no_port none = Unit
IsPortOf no_port (some m) = ⊥
IsPortOf bad_port kept = ⊥
IsPortOf (port_number n) none = n ≡ 0
IsPortOf (port_number n) (some m) = (m ≡ n) × (n ≢ 0)

module _ (dns : Dns) (st : Settings) where
  -- What is known of a URL that was validated and its addresses.
  IsPassed : Url → Result (String × List Address) → Type 0
  IsPassed url (raised e) = Unit
  IsPassed url value_error = ⊥
  IsPassed url (ok (hostname, [])) =
      (st.ssrf_protection_enabled ≡ false)
      ⊎ ((url.hostname ≡ some hostname) × (any (same_host hostname) st.allowed_hosts ≡ true))
  IsPassed url (ok (hostname, ip ∷ ips)) =
      (contains st.allowed_schemes url.scheme ≡ true)
      × (url.hostname ≡ some hostname)
      × (is_blocked_hostname st hostname ≡ false)
      × (dns hostname ≡ some (ip ∷ ips))
      × (st.block_private_ips ≡ true → any is_private_ip (ip ∷ ips) ≡ false)

  addresses-IsPassed :
      (url : Url) (hostname : String) (o : Option (List Address))
      → dns hostname ≡ o
      → contains st.allowed_schemes url.scheme ≡ true
      → url.hostname ≡ some hostname
      → is_blocked_hostname st hostname ≡ false
      → IsPassed url (check_addresses dns st hostname (found_addresses dns o))
  unfolding IsPassed check_addresses found_addresses validate_ip_addresses
  addresses-IsPassed url hostname none e scheme host free = tt
  addresses-IsPassed url hostname (some []) e scheme host free = tt
  addresses-IsPassed url hostname (some (ip ∷ ips)) e scheme host free =
      if-cases (IsPassed url) st.block_private_ips _ _
        (λ block.
          if-cases
            (λ (v : Result Unit). IsPassed url (elim v [
              | raised e ↦ raised e
              | value_error ↦ value_error
              | ok u ↦ ok (hostname, ip ∷ ips)
            ]))
            (any is_private_ip (ip ∷ ips)) _ _ (λ bad. tt)
            (λ good. (scheme, host, free, e, λ b. good)))
        (λ unchecked. (scheme, host, free, e, λ b. ground (arith, unchecked)))

  host-IsPassed :
      (url : Url) (o : Option String)
      → url.hostname ≡ o
      → contains st.allowed_schemes url.scheme ≡ true
      → IsPassed url (check_host dns st o)
  unfolding IsPassed check_host resolve_hostname
  host-IsPassed url none e scheme = tt
  host-IsPassed url (some hostname) e scheme =
      if-cases (IsPassed url) (hostname == "") _ _ (λ empty. tt)
        (λ named.
          if-cases (IsPassed url) (any (same_host hostname) st.allowed_hosts) _ _
            (λ listed. inr (e, listed))
            (λ unlisted.
              if-cases (IsPassed url) (is_blocked_hostname st hostname) _ _ (λ blocked. tt)
                (λ free. addresses-IsPassed url hostname (dns hostname) refl scheme e free)))

  validated : (url : Url) → IsPassed url (validate_webhook_url dns st (some url))
  unfolding IsPassed validate_webhook_url
  validated url =
      if-cases (IsPassed url) (not st.ssrf_protection_enabled) _ _
        (λ off. inl (ground (arith, off)))
        (λ on.
          if-cases (IsPassed url) (not (contains st.allowed_schemes url.scheme)) _ _ (λ bad. tt)
            (λ good. host-IsPassed url url.hostname refl (ground (arith, good))))

  -- What is promised of the target of a call, and of the headers that go with it.
  abbrev pub IsSafeTarget : Dict String → Url → Dict String → Target → Type 0
  IsSafeTarget headers url sent (direct u) =
      (u ≡ url)
      × (sent ≡ headers)
      × ((st.ssrf_protection_enabled ≡ false)
          ⊎ ((hostname : String) × (url.hostname ≡ some hostname)
              × (any (same_host hostname) st.allowed_hosts ≡ true)))
  IsSafeTarget headers url sent (pinned u ip port) =
      (u ≡ url)
      × IsPortOf url.port port
      × (contains st.allowed_schemes url.scheme ≡ true)
      × ((host : String) × (url.hostname ≡ some host)
          × (sent ≡ put "Host" host headers)
          × (any (same_host host) blocked_hostnames ≡ false)
          × (any (same_host host) st.blocked_hosts ≡ false)
          × ((ips : List Address) × (dns host ≡ some (ip ∷ ips))))
      × (st.block_private_ips ≡ true → is_private_ip ip ≡ false)

  -- A URL that `urlparse` refuses, or whose port cannot be read.
  abbrev pub IsUnreadable : Option Url → Type 0
  IsUnreadable none = Unit
  IsUnreadable (some url) = url.port ≡ bad_port

  listed_nowhere :
      (host : String)
      → is_blocked_hostname st host ≡ false
      → any (same_host host) blocked_hostnames ≡ false
  unfolding is_blocked_hostname
  listed_nowhere host h = elim (Bool-cases (any (same_host host) blocked_hostnames)) [
    | inl listed ↦ absurd (ground (arith, h, listed))
    | inr free ↦ free
  ]

  configured_nowhere :
      (host : String)
      → is_blocked_hostname st host ≡ false
      → any (same_host host) st.blocked_hosts ≡ false
  unfolding is_blocked_hostname
  configured_nowhere host h = elim (Bool-cases (any (same_host host) st.blocked_hosts)) [
    | inl listed ↦ absurd (ground (arith, h, listed))
    | inr free ↦ free
  ]

  IsPortOf-read : (port : Port) (kept : Option ℕ) → read_port port ≡ ok kept → IsPortOf port kept
  unfolding read_port
  IsPortOf-read no_port none h = tt
  IsPortOf-read no_port (some m) h = ground arith
  IsPortOf-read bad_port kept h = absurd (ground arith)
  IsPortOf-read (port_number n) none h = elim (Bool-cases (eqb n 0)) [
    | inl zero ↦ ground arith
    | inr other ↦ absurd (ground arith)
  ]
  IsPortOf-read (port_number n) (some m) h = elim (Bool-cases (eqb n 0)) [
    | inl zero ↦ absurd (ground arith)
    | inr other ↦ (ground arith, ground arith)
  ]

  bad-of_unread : (port : Port) → read_port port ≡ value_error → port ≡ bad_port
  unfolding read_port
  bad-of_unread no_port h = cc
  bad-of_unread bad_port h = refl
  bad-of_unread (port_number n) h = ground arith

  module _ (request : Post → Exchange) (headers : Dict String) (body : String) where
    -- What is promised of the outcome: a call has this body, and what the library does with it is what
    -- comes back.
    abbrev pub IsSafe : Option Url → Result Call → Type 0
    IsSafe url (raised e) = Unit
    IsSafe url value_error = IsUnreadable url
    IsSafe none (ok c) = ⊥
    IsSafe (some url) (ok c) =
        (c.exchange ≡ request c.post)
        × (c.post.body ≡ body)
        × IsSafeTarget headers url c.post.headers c.post.target

    pinned-IsSafe :
        (url : Url) (hostname : String) (ip : Address) (ips : List Address)
        (port : Result (Option ℕ))
        → read_port url.port ≡ port
        → IsPassed url (ok (hostname, ip ∷ ips))
        → IsSafe (some url) (call_pinned dns st request headers body url hostname ip port)
    unfolding IsPassed call_pinned call
    pinned-IsSafe url hostname ip ips (raised e) r h = tt
    pinned-IsSafe url hostname ip ips value_error r h = bad-of_unread url.port r
    pinned-IsSafe url hostname ip ips (ok port) r (scheme, host, free, e, public) = (
      refl,
      refl,
      (
        refl,
        IsPortOf-read url.port port r,
        scheme,
        (
          hostname,
          host,
          refl,
          listed_nowhere hostname free,
          configured_nowhere hostname free,
          (ips, e),
        ),
        λ block. ground (arith, public block),
      ),
    )

    send-IsSafe :
        (url : Url) (r : Result (String × List Address))
        → IsPassed url r
        → IsSafe (some url) (send dns st request headers body url r)
    unfolding IsPassed send call
    send-IsSafe url (raised e) h = tt
    send-IsSafe url value_error h = absurd h
    send-IsSafe url (ok (hostname, [])) (inl off) = (refl, refl, (refl, refl, inl off))
    send-IsSafe url (ok (hostname, [])) (inr (named, listed)) =
        (refl, refl, (refl, refl, inr (hostname, named, listed)))
    send-IsSafe url (ok (hostname, ip ∷ ips)) h =
        pinned-IsSafe url hostname ip ips (read_port url.port) refl h

    -- `safe_request` raises an error of its own, or a ValueError where the URL or its port cannot be read, or
    -- it makes one call of `requests.request` and returns what that does, the redirects that the library
    -- follows included. For the first request of the call: it goes to the URL as it is only if the
    -- protection is off or its host is on the allowlist. Any other is pinned to an address that the one
    -- resolution of its host gave, with the URL's port, if it has one that is not 0, and the host in the
    -- `Host` header; its scheme is allowed, its host is on none of the two blocklists and, where private
    -- addresses are blocked, the address is not private.
    pub requests-IsSafe :
        (url : Option Url) → IsSafe url (safe_request dns st request headers body url)
    unfolding safe_request
    requests-IsSafe none = tt
    requests-IsSafe (some url) =
        send-IsSafe url (validate_webhook_url dns st (some url)) (validated url)
