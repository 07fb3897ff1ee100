-- ===== src/Ssrf/Tests.antt =====
-- Webhook requests to concrete hosts, one of which redirects.
use django_boilerplate.Prelude.{◌≡◌, refl, String, true, some, [], ◌∷◌, ◌==◌, if◌then◌else◌, put}
use django_boilerplate.Ssrf.{
  Port, no_port, bad_port, port_number, Url, v4, Dns, Settings, raised, value_error, ok, pinned,
  Post, response, Exchange, private_ip, is_private_ip, is_blocked_hostname, safe_request,
  resolve_hostname, validate_webhook_url, validate_ip_addresses, read_port, call,
}
use django_boilerplate.Ssrf.Pinned.{IsSafe, requests-IsSafe}

abbrev url : String → Port → Url
url host port = record {
  scheme = "https";
  hostname = some host;
  port = port;
  path = "/hook";
  params = "";
  query = "";
  fragment = "";
}

abbrev settings : Settings
settings = record {
  ssrf_protection_enabled = true;
  allowed_schemes = "https" ∷ [];
  allowed_hosts = [];
  blocked_hosts = "intern" ∷ [];
  block_private_ips = true;
}

-- 8.8.8.8 for one host, 8.8.8.8 and 10.0.0.1 for the others.
abbrev dns : Dns
dns host =
    if host == "example.org"
    then some (v4 134744072 ∷ [])
    else some (v4 134744072 ∷ v4 167772161 ∷ [])

-- A server that redirects every call to the address of a metadata service.
abbrev request : Post → Exchange
request p = record { redirects = "http://169.254.169.254/" ∷ []; answer = response 200 "secret" }

-- The redirect is followed, though the same URL is refused when it is asked for.
redirected_run :
    safe_request dns settings request [] "{}" (some (url "example.org" (port_number 8443)))
    ≡ ok record {
      post = record {
        target = pinned (url "example.org" (port_number 8443)) (v4 134744072) (some 8443);
        headers = ("Host", "example.org") ∷ [];
        body = "{}";
      };
      exchange = record {
        redirects = "http://169.254.169.254/" ∷ [];
        answer = response 200 "secret";
      };
    }
unfolding safe_request validate_webhook_url is_blocked_hostname resolve_hostname
    validate_ip_addresses is_private_ip read_port call put
redirected_run = refl

private_run :
    safe_request dns settings request [] "{}" (some (url "evil.org" no_port)) ≡ raised private_ip
unfolding safe_request validate_webhook_url is_blocked_hostname resolve_hostname
    validate_ip_addresses is_private_ip
private_run = refl

-- The port is read when the addresses are checked, and its error is not one of the module.
bad_port_run :
    safe_request dns settings request [] "{}" (some (url "example.org" bad_port)) ≡ value_error
unfolding safe_request validate_webhook_url is_blocked_hostname resolve_hostname
    validate_ip_addresses is_private_ip read_port
bad_port_run = refl

requests-IsSafe_example :
    IsSafe dns settings request [] "{}"
      (some (url "example.org" (port_number 8443)))
      (safe_request dns settings request [] "{}" (some (url "example.org" (port_number 8443))))
requests-IsSafe_example =
    requests-IsSafe dns settings request [] "{}" (some (url "example.org" (port_number 8443)))
