-- ===== src/Access/TrustedProxy.antt =====
-- trusted_proxy.go: what a request says about its client is believed only from a trusted proxy.
-- Addresses and networks (package net) and the text operations of package strings are parameters.
-- A header is its map from canonical names to values; http.CanonicalHeaderKey makes X-Real-Ip of
-- X-Real-IP, and the names that the code writes out stand here in that form.
mod Examples
pub mod Forwarding
use emby_panel.Prelude.{
  ℕ, Bool, true, false, not, ◌&&◌, ◌||◌, Option, none, some, List, [], ◌∷◌, String, str_eq,
  if◌then◌else◌,
}
use emby_panel.Prelude.Maps.{Map, lookup, insert}

pub record Net (IP Network : Type 0) : Type 0 where
  pub parse_ip : String → Option IP
  pub split_host : String → Option String  -- the host of net.SplitHostPort, or its error
  pub ip_string : IP → String
  pub has_ip : Network → IP → Bool
  pub to_lower : String → String
  pub trim_space : String → String
  pub has_comma : String → Bool
  pub has_prefix : String → String → Bool  -- the text, the prefix
  pub equal_fold : String → String → Bool

pub record Request : Type 0 where
  pub remote_addr : String
  pub header : Map (List String)
  pub has_tls : Bool

abbrev pub x_real_ip : String
x_real_ip = "X-Real-Ip"

abbrev pub x_forwarded_for : String
x_forwarded_for = "X-Forwarded-For"

abbrev pub x_forwarded_proto : String
x_forwarded_proto = "X-Forwarded-Proto"

abbrev pub managed_names : List String
managed_names =
    "cf-connecting-ip" ∷ "cf-connecting-ipv6" ∷ "fastly-client-ip" ∷ "fly-client-ip"
    ∷ "true-client-ip" ∷ "x-appengine-user-ip" ∷ "x-azure-clientip" ∷ "x-client-ip"
    ∷ "x-cluster-client-ip" ∷ "x-envoy-external-address" ∷ "x-original-forwarded-for" ∷ []

pub is_one_of : String → List String → Bool
is_one_of s [] = false
is_one_of s (t ∷ ts) = str_eq s t || is_one_of s ts

-- header.Values, for a canonical name.
pub values : String → Map (List String) → List String
values name h = elim (lookup name h) [ none ↦ [] | some vs ↦ vs ]

module _ {IP Network : Type 0} (net : Net IP Network) where
  open net use {
    parse_ip, split_host, ip_string, has_ip, to_lower, trim_space, has_comma, has_prefix,
    equal_fold,
  }

  pub remote_address_ip : String → Option IP
  remote_address_ip remote_addr = elim (split_host remote_addr) [
    | some host ↦ parse_ip host
    | none ↦ parse_ip remote_addr
  ]

  -- for _, network := range networks
  contains_ip : IP → List Network → Bool
  contains_ip ip [] = false
  contains_ip ip (network ∷ networks) = if has_ip network ip then true else contains_ip ip networks

  pub is_trusted_proxy : Option IP → List Network → Bool
  unfolding contains_ip
  is_trusted_proxy none networks = false
  is_trusted_proxy (some ip) networks = contains_ip ip networks

  single_value : List String → Option String
  single_value [] = none
  single_value (v ∷ []) =
      let value = trim_space v in if str_eq value "" || has_comma value then none else some value
  single_value (_ ∷ _ ∷ _) = none

  pub single_forwarded_header_value : Map (List String) → String → Option String
  unfolding single_value
  single_forwarded_header_value h name = single_value (values name h)

  -- The address in X-Real-IP, if it is a single valid one.
  pub forwarded_ip : Map (List String) → Option IP
  forwarded_ip h = elim (single_forwarded_header_value h x_real_ip) [
    | none ↦ none
    | some value ↦ parse_ip value
  ]

  -- The end of requestClientKey, without a forwarded address.
  peer_key : Option IP → String → String
  peer_key (some ip) remote_addr = ip_string ip
  peer_key none remote_addr = if not (str_eq remote_addr "") then remote_addr else "unknown"

  client_key : Option IP → Option IP → String → String
  unfolding peer_key
  client_key (some forwarded) peer remote_addr = ip_string forwarded
  client_key none peer remote_addr = peer_key peer remote_addr

  pub request_client_key : Request → List Network → String
  unfolding client_key
  request_client_key r trusted =
      let peer = remote_address_ip r.remote_addr in
      client_key (if is_trusted_proxy peer trusted then forwarded_ip r.header else none) peer
        r.remote_addr

  pub is_managed_forwarding_header_name : String → Bool
  is_managed_forwarding_header_name name =
      let lower = to_lower name in
      str_eq lower "forwarded"
      || str_eq lower "x-real-ip"
      || has_prefix lower "x-forwarded-"
      || is_one_of lower managed_names

  -- for name := range header, where a name deletes only itself.
  pub remove_client_forwarding_headers : Map (List String) → Map (List String)
  remove_client_forwarding_headers [] = []
  remove_client_forwarding_headers ((name, vs) ∷ h) =
      let rest = remove_client_forwarding_headers h in
      if is_managed_forwarding_header_name name then rest else (name, vs) ∷ rest

  -- The protocol that X-Forwarded-Proto gives, in place of the connection's own.
  forwarded_proto : Option String → String → String
  forwarded_proto none own = own
  forwarded_proto (some candidate) own =
      if equal_fold candidate "http" || equal_fold candidate "https"
      then to_lower candidate
      else own

  or_else : Option IP → Option IP → Option IP
  or_else none b = b
  or_else (some a) b = some a

  set_client : Option IP → Map (List String) → Map (List String)
  set_client none h = h
  set_client (some ip) h =
      insert x_real_ip (ip_string ip ∷ []) (insert x_forwarded_for (ip_string ip ∷ []) h)

  -- The header.Set calls of setTrustedForwardingHeaders.
  set_forwarding : Request → List Network → Map (List String) → Map (List String)
  unfolding set_client forwarded_proto or_else
  set_forwarding inbound configured h =
      let peer = remote_address_ip inbound.remote_addr in
      let own = if inbound.has_tls then "https" else "http" in
      let trusted = is_trusted_proxy peer configured in
      let client = if trusted then or_else (forwarded_ip inbound.header) peer else peer in
      let proto =
        if trusted
        then forwarded_proto (single_forwarded_header_value inbound.header x_forwarded_proto) own
        else own in
      insert x_forwarded_proto (proto ∷ []) (set_client client h)

  -- `none` is a nil request.
  pub set_trusted_forwarding_headers :
      Map (List String) → Option Request → List Network → Map (List String)
  unfolding set_forwarding
  set_trusted_forwarding_headers h none configured = remove_client_forwarding_headers h
  set_trusted_forwarding_headers h (some inbound) configured =
      set_forwarding inbound configured (remove_client_forwarding_headers h)

  https_by : Option String → Bool
  https_by none = false
  https_by (some proto) = equal_fold proto "https"

  pub request_is_https : Request → List Network → Bool
  unfolding https_by
  request_is_https r trusted =
      if r.has_tls
      then true
      else if not (is_trusted_proxy (remote_address_ip r.remote_addr) trusted)
      then false
      else https_by (single_forwarded_header_value r.header x_forwarded_proto)
