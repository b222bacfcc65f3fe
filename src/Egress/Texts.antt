-- ===== src/Egress/Texts.antt =====
-- The methods of Python's str and bytes that safety.py and egress_proxy.py of
-- packages/autolycos/src/autolycos use. A byte is the character of its code, as latin-1 decodes it.
use Prim.Native.Char.{Char, code}
use kerdoos.Prelude.{
  ℕ, suc, ◌+◌, ◌-◌, ◌*◌, String, Bool, true, false, not, ◌&&◌, ◌||◌, Option, none, some, List, [],
  ◌∷◌, ◌==◌, nat_eq, leb, if◌then◌else◌,
}

-- `len(s)`
unfoldable pub size : String → ℕ
size String.[] = 0
size (String.◌∷◌ c s) = suc (size s)

unfoldable pub all_chars : (Char → Bool) → String → Bool
all_chars p String.[] = true
all_chars p (String.◌∷◌ c s) = p c && all_chars p s

-- `s.endswith(suffix)`
unfoldable pub ends_with : String → String → Bool
ends_with suffix String.[] = String.[] == suffix
ends_with suffix (String.◌∷◌ c s) = (String.◌∷◌ c s == suffix) || ends_with suffix s

-- `s.startswith(prefix)`, with what follows.
unfoldable pub after : String → String → Option String
after String.[] s = some s
after (String.◌∷◌ p ps) String.[] = none
after (String.◌∷◌ p ps) (String.◌∷◌ c s) =
    let rest = after ps s in if nat_eq (code p) (code c) then rest else none

abbrev or_later : Option String → Char → Option (String × String) → Option (String × String)
or_later (some rest) c later = some (String.[], rest)
or_later none c none = none
or_later none c (some (head, rest)) = some (String.◌∷◌ c head, rest)

-- `s.partition(sep)` for a separator that is there.
unfoldable pub partition : String → String → Option (String × String)
unfolding after
partition sep String.[] = none
partition sep (String.◌∷◌ c s) = or_later (after sep (String.◌∷◌ c s)) c (partition sep s)

abbrev or_here : Char → String → Option (String × String) → Option (String × String)
or_here c s (some (head, rest)) = some (String.◌∷◌ c head, rest)
or_here c s none = if nat_eq (code c) b':' then some (String.[], s) else none

-- `s.rpartition(":")` for a colon that is there.
unfoldable pub rpartition : String → Option (String × String)
rpartition String.[] = none
rpartition (String.◌∷◌ c s) = or_here c s (rpartition s)

-- `s.rstrip(".")`
unfoldable pub rstrip : String → String
rstrip String.[] = String.[]
rstrip (String.◌∷◌ c s) =
    let rest = rstrip s in
    if nat_eq (code c) b'.' && (rest == String.[]) then String.[] else String.◌∷◌ c rest

-- ASCII white space, where `bytes.split()` cuts.
abbrev pub is_blank : Char → Bool
is_blank c = nat_eq (code c) 32 || (leb 9 (code c) && leb (code c) 13)

abbrev joined : Char → Bool → List String → List String
joined c true (w ∷ ws) = String.◌∷◌ c w ∷ ws
joined c _ ws = String.◌∷◌ c String.[] ∷ ws

abbrev starts_word : String → Bool
starts_word String.[] = false
starts_word (String.◌∷◌ c s) = not (is_blank c)

-- `s.split()`
unfoldable pub words : String → List String
words String.[] = []
words (String.◌∷◌ c s) =
    let rest = words s in if is_blank c then rest else joined c (starts_word s) rest

-- What `str.isdigit` takes for a digit below 256: 0 to 9, and the superscripts 1, 2 and 3.
abbrev pub is_ascii_digit : Char → Bool
is_ascii_digit c = leb 48 (code c) && leb (code c) 57

abbrev pub is_digit : Char → Bool
is_digit c = is_ascii_digit c || nat_eq (code c) 178 || nat_eq (code c) 179 || nat_eq (code c) 185

unfoldable pub value_from : ℕ → String → ℕ
value_from n String.[] = n
value_from n (String.◌∷◌ c s) = value_from (n * 10 + (code c - 48)) s

abbrev in_first : Char → List String → List String
in_first c [] = []
in_first c (l ∷ ls) = String.◌∷◌ c l ∷ ls

-- `s.split(".")`
unfoldable pub labels : String → List String
labels String.[] = String.[] ∷ []
labels (String.◌∷◌ c s) =
    let rest = labels s in if nat_eq (code c) b'.' then String.[] ∷ rest else in_first c rest
