-- ===== src/Examples/Guarding/Wire.antt =====
-- A network of one host, and a client of the proxy that asks for it.
use kerdoos.Prelude.{
  ℕ, zero, suc, String, Bool, true, false, Option, none, some, List, [], ◌∷◌, ◌==◌, if◌then◌else◌,
}
use kerdoos.Scrape.Domain.{Outcome, returned}
use kerdoos.Egress.Safety.{Flags, Address, v4, Lookup, found, gaierror, Parts, Net, ValidatedTarget}
use kerdoos.Egress.Proxy.{Recv, chunk, closed}

abbrev global_flags : Flags
global_flags = record {
  is_private = false;
  is_loopback = false;
  is_link_local = false;
  is_reserved = false;
  is_multicast = false;
  is_unspecified = false;
  is_global = true;
}

abbrev address_of : String → Option Address
address_of s = if s == "93.184.216.34" then some (v4 global_flags) else none

abbrev answer_for : String → ℕ → Lookup
answer_for host port =
    if host == "kabum.com.br" then found ("93.184.216.34" ∷ []) else gaierror host

abbrev parts_of : String → Outcome Parts
parts_of url =
    returned (record { scheme = "https"; hostname = some "kabum.com.br"; port = returned none })

abbrev pub net : Net
net = record {
  lower = λ s. s;
  ip_address = address_of;
  getaddrinfo = answer_for;
  urlsplit = parts_of;
}

abbrev pub shops : List String
shops = "kabum.com.br" ∷ []

abbrev pub is_shop : String → Bool
is_shop host = host == "kabum.com.br"

abbrev pub target : ValidatedTarget
target = record {
  url = "https://kabum.com.br/1";
  scheme = "https";
  host = "kabum.com.br";
  port = 443;
  ip = "93.184.216.34";
}

abbrev pub dial : String → ℕ → Bool
dial ip port = true

abbrev pub request : ℕ → Recv
request zero = chunk "C" "ONNECT kabum.com.br:443 HTTP/1.1\r\n\r\n"
request (suc n) = closed
