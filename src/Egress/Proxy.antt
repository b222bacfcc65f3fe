-- ===== src/Egress/Proxy.antt =====
-- packages/autolycos/src/autolycos/egress_proxy.py: one client of PinningProxy, from its first byte to
-- the tunnel. The sockets, the dialer and the allowlist are parameters; a byte string is the text
-- that latin-1 decodes it to.
pub mod Reading
pub mod Guard
use Prim.Native.Char.{Char, code}
use Prim.Native.String
use kerdoos.Prelude.{
  ℕ, zero, suc, ◌+◌, String, Bool, true, false, not, ◌&&◌, ◌||◌, Option, none, some, List, [], ◌∷◌,
  ◌==◌, nat_eq, ltb, keep, if◌then◌else◌, some_in, is_some,
}
use kerdoos.Scrape.Domain.{Exc, fetch_error, parse_error, other, Outcome, returned, raised}
use kerdoos.Egress.Texts.{
  size, after, partition, rpartition, rstrip, words, is_digit, is_ascii_digit, all_chars,
  value_from,
}
use kerdoos.Egress.Safety.{Net, PinnedAddress, resolve_and_pin}

abbrev pub max_header_bytes : ℕ
max_header_bytes = 65536

-- What one `recv` does: a chunk of at least one byte, the end of the stream, or an OSError, as on a
-- timeout.
pub data Recv : Type 0 where
  chunk : Char → String → Recv
  closed broken : Recv

-- `(head, leftover)`, `(b"", b"")`, or the OSError.
pub data Head : Type 0 where
  head : String → String → Head
  no_head failed : Head

abbrev pub crlf : String
crlf = String.◌∷◌ "\r" (String.◌∷◌ "\n" String.[])

abbrev pub end_of_head : String
end_of_head = String.◌∷◌ "\r" (String.◌∷◌ "\n" crlf)

abbrev pub of_parts : Option (String × String) → Option Head → Option Head
of_parts (some (h, leftover)) more = some (head h leftover)
of_parts none more = more

-- One turn of the loop, with what the next turns do after a chunk.
abbrev pub on_recv : Recv → (String → Option Head) → Option Head
on_recv closed next = some no_head
on_recv broken next = some failed
on_recv (chunk c s) next = next (String.◌∷◌ c s)

-- `_read_head`, from the n-th `recv` on; `none` when the fuel runs out.
unfoldable pub read_head : ℕ → (ℕ → Recv) → ℕ → String → Option Head
unfolding partition size
read_head zero recv n buf = none
read_head (suc fuel) recv n buf = of_parts (partition end_of_head buf) (
    if ltb max_header_bytes (size buf)
    then some no_head
    else on_recv (recv n) (λ s. read_head fuel recv (suc n) (String.◌++◌ buf s)))

-- `int(port_s)`: a superscript is no decimal digit, and more than 4300 digits are refused.
abbrev pub int_of : String → Outcome ℕ
int_of s =
    if not (all_chars is_ascii_digit s) || ltb 4300 (size s)
    then raised (other "ValueError" s)
    else returned (value_from 0 s)

abbrev or_longer : Char → String → Option String → Option String
or_longer c String.[] shorter = if nat_eq (code c) b']' then some String.[] else none
or_longer c (String.◌∷◌ d s) none = none
or_longer c (String.◌∷◌ d s) (some shorter) = some (String.◌∷◌ c shorter)

-- What stands before a last ']'.
unfoldable pub before_bracket : String → Option String
before_bracket String.[] = none
before_bracket (String.◌∷◌ c s) = or_longer c s (before_bracket s)

abbrev or_host : String → Option String → String
or_host host none = host
or_host host (some within) = within

-- `host[1:-1]` of a host in brackets
abbrev pub unwrap : String → String
unwrap String.[] = String.[]
unwrap (String.◌∷◌ c s) =
    if nat_eq (code c) b'[' then or_host (String.◌∷◌ c s) (before_bracket s) else String.◌∷◌ c s

abbrev with_port : String → Outcome ℕ → Outcome (Option (String × ℕ))
with_port host (raised e) = raised e
with_port host (returned p) = returned (some (host, p))

abbrev authority_of : Option (String × String) → Outcome (Option (String × ℕ))
authority_of none = returned none
authority_of (some (host, port)) =
    if (host == "") || (port == "") || not (all_chars is_digit port)
    then returned none
    else with_port (unwrap host) (int_of port)

-- `(host, port)`, or `(None, None)`
unfoldable pub parse_authority : String → Outcome (Option (String × ℕ))
unfolding rpartition all_chars size value_from before_bracket
parse_authority raw = authority_of (rpartition raw)

-- `s.upper() == word`, for a word in capitals
unfoldable pub is_upper_of : String → String → Bool
is_upper_of String.[] String.[] = true
is_upper_of String.[] (String.◌∷◌ c s) = false
is_upper_of (String.◌∷◌ w ws) String.[] = false
is_upper_of (String.◌∷◌ w ws) (String.◌∷◌ c s) =
    (nat_eq (code c) (code w) || nat_eq (code c) (code w + 32)) && is_upper_of ws s

abbrev pub allowed_connect_port : ℕ → Bool
allowed_connect_port p = nat_eq p 80 || nat_eq p 443

pub data Answer : Type 0 where
  bad blocked : Answer

-- What a handler does, in its order.
pub data Effect : Type 0 where
  resolves : String → ℕ → Effect
  dials : String → ℕ → Effect
  replies : Answer → Effect
  tunnels : String → Effect
  closes_upstream closes_client : Effect

-- The handler's effects, and the exception that ends its thread, if one does.
pub record Handled : Type 0 where
  pub effects : List Effect
  pub uncaught : Option Exc

abbrev ends : List Effect → Handled
ends es = record { effects = es; uncaught = none }

abbrev pub and_close : List Effect → List Effect
and_close [] = closes_client ∷ []
and_close (e ∷ es) = e ∷ and_close es

-- The `finally` of the handler.
abbrev pub finally : Handled → Handled
finally h = record { effects = and_close h.effects; uncaught = h.uncaught }

-- `dial ip port` tells whether the upstream connects, `accepts` whether the client takes the 200.
module _ (net : Net) (allowed : String → Bool) (dial : String → ℕ → Bool) (accepts : Bool) where
  abbrev pub dialled : String → ℕ → String → String → Handled
  dialled domain port leftover ip =
      if not (dial ip port)
      then ends (resolves domain port ∷ dials ip port ∷ replies blocked ∷ [])
      else if accepts
      then ends (resolves domain port ∷ dials ip port ∷ tunnels leftover ∷ closes_upstream ∷ [])
      else ends (resolves domain port ∷ dials ip port ∷ closes_upstream ∷ [])

  -- `except (SSRFError, FetchError, ValueError)`, then the handler's own `except OSError`; a
  -- UnicodeError counts as the ValueError that it is.
  abbrev pub on_pin : String → ℕ → String → Outcome PinnedAddress → Handled
  on_pin domain port leftover (returned pin) = dialled domain port leftover pin.ip
  on_pin domain port leftover (raised (fetch_error m)) =
      ends (resolves domain port ∷ replies blocked ∷ [])
  on_pin domain port leftover (raised (parse_error m)) = record {
    effects = resolves domain port ∷ [];
    uncaught = some (parse_error m);
  }
  on_pin domain port leftover (raised (other k m)) =
      if k == "ValueError"
      then ends (resolves domain port ∷ replies blocked ∷ [])
      else if k == "OSError"
      then ends (resolves domain port ∷ [])
      else record { effects = resolves domain port ∷ []; uncaught = some (other k m) }

  abbrev pub on_authority : String → Outcome (Option (String × ℕ)) → Handled
  on_authority leftover (raised e) = record { effects = []; uncaught = some e }
  on_authority leftover (returned none) = ends (replies bad ∷ [])
  on_authority leftover (returned (some (host, port))) =
      let domain = rstrip (net.lower host) in
      if not (allowed domain)
      then ends (replies blocked ∷ [])
      else if not (allowed_connect_port port)
      then ends (replies blocked ∷ [])
      else on_pin domain port leftover (resolve_and_pin net domain port)

  abbrev pub on_words : String → List String → Handled
  on_words leftover (method ∷ authority ∷ version ∷ more) =
      if not (is_upper_of "CONNECT" method)
      then ends (replies bad ∷ [])
      else on_authority leftover (parse_authority authority)
  on_words leftover _ = ends (replies bad ∷ [])

  abbrev pub first_line : String → Option (String × String) → String
  first_line text none = text
  first_line text (some (line, rest)) = line

  abbrev pub on_head : Head → Handled
  on_head no_head = ends []
  on_head failed = ends []
  on_head (head text leftover) =
      if text == ""
      then ends []
      else on_words leftover (words (first_line text (partition crlf text)))

  abbrev pub ran : Option Head → Option Handled
  ran none = none
  ran (some h) = some (finally (on_head h))

  -- `_handle`
  unfoldable pub handle : (ℕ → Recv) → Option Handled
  unfolding read_head parse_authority is_upper_of words partition rstrip resolve_and_pin
  handle recv = ran (read_head (suc (suc max_header_bytes)) recv 0 String.[])

abbrev pub dangerous_browser_args : List String
dangerous_browser_args =
    "--proxy-server" ∷ "--proxy-pac-url" ∷ "--proxy-bypass-list" ∷ "--host-resolver-rules"
    ∷ "--ignore-certificate-errors" ∷ "--allow-insecure-localhost" ∷ []

unfoldable pub strip_dangerous_browser_args : List String → List String
unfolding keep some_in after
strip_dangerous_browser_args args =
    keep (λ a. not (some_in (λ bad. is_some (after bad a)) dangerous_browser_args)) args
