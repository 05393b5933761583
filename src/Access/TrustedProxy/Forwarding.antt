-- ===== src/Access/TrustedProxy/Forwarding.antt =====
-- What an upstream and the login limiter are told about a client.
use emby_panel.Prelude.{
  ◌≡◌, ◌∙◌, refl, true, false, Option, none, some, List, [], ◌∷◌, String, arith, str_eq, eq_iff,
  if◌then◌else◌,
}
use emby_panel.Prelude.Maps.{Map, lookup, insert, lookup-insert}
use emby_panel.Access.TrustedProxy.{
  Net, Request, x_real_ip, x_forwarded_for, x_forwarded_proto, remote_address_ip, is_trusted_proxy,
  peer_key, client_key, request_client_key, is_managed_forwarding_header_name,
  remove_client_forwarding_headers, set_client, set_forwarding, set_trusted_forwarding_headers,
  request_is_https,
}

module _ {IP Network : Type 0} (net : Net IP Network) where
  removed :
      (name : String) (h : Map (List String))
      → is_managed_forwarding_header_name net name ≡ true
      → lookup name (remove_client_forwarding_headers net h) ≡ none
  unfolding lookup remove_client_forwarding_headers
  removed name [] managed = refl
  removed name ((k, vs) ∷ h) managed = ground (arith, eq_iff k name, removed name h managed)

  lookup-set_client :
      (name : String) (o : Option IP) (h : Map (List String))
      → str_eq x_real_ip name ≡ false
      → str_eq x_forwarded_for name ≡ false
      → lookup name (set_client net o h) ≡ lookup name h
  unfolding set_client
  lookup-set_client name none h a b = refl
  lookup-set_client name (some ip) h a b = ground (
    arith,
    lookup-insert x_real_ip name (net.ip_string ip ∷ [])
        (insert x_forwarded_for (net.ip_string ip ∷ []) h),
    lookup-insert x_forwarded_for name (net.ip_string ip ∷ []) h,
  )

  -- Of the forwarding headers that a client can forge, none reaches the upstream: the header that
  -- is sent has no managed name but the three that are set here.
  pub forged_headers_removed :
      (name : String) (h : Map (List String)) (inbound : Request) (configured : List Network)
      → is_managed_forwarding_header_name net name ≡ true
      → str_eq x_real_ip name ≡ false
      → str_eq x_forwarded_for name ≡ false
      → str_eq x_forwarded_proto name ≡ false
      → lookup name (set_trusted_forwarding_headers net h (some inbound) configured) ≡ none
  unfolding set_trusted_forwarding_headers set_forwarding
  forged_headers_removed name h inbound configured managed a b c =
      lookup-insert x_forwarded_proto name _ _
      ∙ rw c (
          lookup-set_client name _ (remove_client_forwarding_headers net h) a b
          ∙ removed name h managed)

  -- A peer that is no trusted proxy speaks for itself only: the login limiter counts its own
  -- address, the upstream gets that address in X-Real-IP and X-Forwarded-For and the protocol of
  -- the connection, and the request is https only over TLS, whatever headers it sends.
  pub untrusted_peer_is_itself :
      (h : Map (List String)) (r : Request) (configured : List Network) (ip : IP)
      → remote_address_ip net r.remote_addr ≡ some ip
      → is_trusted_proxy net (some ip) configured ≡ false
      → let sent = set_trusted_forwarding_headers net h (some r) configured in
        (request_client_key net r configured ≡ net.ip_string ip)
        × (lookup x_real_ip sent ≡ some (net.ip_string ip ∷ []))
        × (lookup x_forwarded_for sent ≡ some (net.ip_string ip ∷ []))
        × (lookup x_forwarded_proto sent ≡ some ((if r.has_tls then "https" else "http") ∷ []))
        × (request_is_https net r configured ≡ r.has_tls)
  unfolding request_client_key set_trusted_forwarding_headers request_is_https set_forwarding
      client_key peer_key set_client
  untrusted_peer_is_itself h r configured ip peer untrusted =
      let value = net.ip_string ip ∷ [] in
      let rest = remove_client_forwarding_headers net h in
      let own = insert x_forwarded_for value rest in
      rw (peer, untrusted)
        (
          refl,
          lookup-insert x_forwarded_proto x_real_ip _ _
              ∙ lookup-insert x_real_ip x_real_ip value own,
          lookup-insert x_forwarded_proto x_forwarded_for _ _
              ∙ lookup-insert x_real_ip x_forwarded_for value own
              ∙ lookup-insert x_forwarded_for x_forwarded_for value rest,
          lookup-insert x_forwarded_proto x_forwarded_proto _ _,
          ground arith,
        )
