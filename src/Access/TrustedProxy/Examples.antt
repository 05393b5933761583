-- ===== src/Access/TrustedProxy/Examples.antt =====
-- A client at 9.9.9.9 that sends an X-Real-IP and a CF-Connecting-IP of its own; no proxy is trusted.
use emby_panel.Prelude.{
  ◌≡◌, refl, true, false, none, some, List, [], ◌∷◌, String, str_eq, if◌then◌else◌,
}
use emby_panel.Prelude.Maps.{Map, lookup}
use emby_panel.Access.TrustedProxy.{
  Net, Request, x_real_ip, x_forwarded_for, x_forwarded_proto, is_one_of, remote_address_ip,
  is_trusted_proxy, request_client_key, is_managed_forwarding_header_name,
  set_trusted_forwarding_headers, request_is_https,
}
use emby_panel.Access.TrustedProxy.Forwarding.{forged_headers_removed, untrusted_peer_is_itself}

-- Addresses are their texts, and the one header name in capitals is put in lower case.
abbrev net : Net String String
net = record {
  parse_ip = λ s. some s;
  split_host = λ s. none;
  ip_string = λ ip. ip;
  has_ip = λ network ip. str_eq network ip;
  to_lower = λ s. if str_eq s "Cf-Connecting-Ip" then "cf-connecting-ip" else s;
  trim_space = λ s. s;
  has_comma = λ s. false;
  has_prefix = λ s p. false;
  equal_fold = λ s t. str_eq s t;
}

abbrev forged : Map (List String)
forged = ("Cf-Connecting-Ip", "1.1.1.1" ∷ []) ∷ (x_real_ip, "1.1.1.1" ∷ []) ∷ []

abbrev request : Request
request = record { remote_addr = "9.9.9.9"; header = forged; has_tls = false }

forged-managed : is_managed_forwarding_header_name net "Cf-Connecting-Ip" ≡ true
unfolding is_managed_forwarding_header_name is_one_of
forged-managed = refl

forged_headers_removed_example :
    lookup "Cf-Connecting-Ip" (set_trusted_forwarding_headers net forged (some request) []) ≡ none
forged_headers_removed_example =
    forged_headers_removed net "Cf-Connecting-Ip" forged request [] forged-managed refl refl refl

peer_known : remote_address_ip net request.remote_addr ≡ some "9.9.9.9"
unfolding remote_address_ip
peer_known = refl

peer_untrusted : is_trusted_proxy net (some "9.9.9.9") [] ≡ false
unfolding is_trusted_proxy
peer_untrusted = refl

untrusted_peer_is_itself_example :
    let sent = set_trusted_forwarding_headers net forged (some request) [] in
    (request_client_key net request [] ≡ net.ip_string "9.9.9.9")
    × (lookup x_real_ip sent ≡ some (net.ip_string "9.9.9.9" ∷ []))
    × (lookup x_forwarded_for sent ≡ some (net.ip_string "9.9.9.9" ∷ []))
    × (lookup x_forwarded_proto sent ≡ some ((if request.has_tls then "https" else "http") ∷ []))
    × (request_is_https net request [] ≡ request.has_tls)
untrusted_peer_is_itself_example =
    untrusted_peer_is_itself net forged request [] "9.9.9.9" peer_known peer_untrusted
