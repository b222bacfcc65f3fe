-- ===== src/Egress/Proxy/Reading.antt =====
-- `_read_head` of packages/autolycos/src/autolycos/egress_proxy.py, for any peer.
use Prim.{absurd}
use Prim.Native.Char.{Char}
use Prim.Native.String
use text.Mathlib.TextLemmas.{nil-append, cons-append}
use kerdoos.Prelude.{
  ℕ, zero, suc, ◌+◌, ◌≤◌, ◌≡◌, refl, ap, String, Bool, true, false, Option, none, some,
  if◌then◌else◌, ltb, arith,
}
use kerdoos.Egress.Texts.{size, partition}
use kerdoos.Egress.Proxy.{
  Recv, chunk, closed, broken, Head, no_head, failed, end_of_head, of_parts, on_recv,
  max_header_bytes, read_head,
}

pub size-append : (s t : String) → size (String.◌++◌ s t) ≡ size s + size t
unfolding size
size-append String.[] t = ground (arith, ap size (nil-append t))
size-append (String.◌∷◌ c s) t = ground (arith, ap size (cons-append c s t), size-append s t)

-- A result, and what it is.
abbrev pub Ends : Option Head → Type 0
Ends o = (h : Head) × (o ≡ some h)

module _ (recv : ℕ → Recv) where
  parts_by :
      (o : Option (String × String)) (more : Option Head) → Ends more → Ends (of_parts o more)
  parts_by none more e = e
  parts_by (some (h, leftover)) more e = (Head.head h leftover, refl)

  recv_by :
      (r : Recv) (next : String → Option Head)
      → ((c : Char) (s : String) → Ends (next (String.◌∷◌ c s)))
      → Ends (on_recv r next)
  recv_by (chunk c s) next f = f c s
  recv_by closed next f = (no_head, refl)
  recv_by broken next f = (failed, refl)

  turn_by :
      (b : Bool) (more : Option Head)
      → (b ≡ false → Ends more)
      → Ends (if b then some no_head else more)
  turn_by true more f = (no_head, refl)
  turn_by false more f = f refl

  -- Each turn adds a byte to what was read, or is the last.
  read_enough :
      (fuel n : ℕ) (buf : String)
      → 65538 ≤ fuel + size buf
      → 1 ≤ fuel
      → Ends (read_head fuel recv n buf)
  unfolding read_head
  read_enough zero n buf h k = absurd (ground arith)
  read_enough (suc fuel) n buf h k = parts_by (partition end_of_head buf) _ (
      turn_by (ltb max_header_bytes (size buf)) _ (λ e.
        recv_by (recv n) (λ s. read_head fuel recv (suc n) (String.◌++◌ buf s))
          (λ c s.
            read_enough fuel (suc n) (String.◌++◌ buf (String.◌∷◌ c s))
              (ground (arith, h, e, size-append buf (String.◌∷◌ c s))) (ground (arith, h, e)))))

-- Whatever the peer sends and however it cuts it into chunks, 65538 turns of the loop are enough:
-- the reading of the head ends, by the end of the headers, the limit on their size, the end of the
-- stream or an error of the socket.
pub read_head-enough :
    (recv : ℕ → Recv) → Ends (read_head (suc (suc max_header_bytes)) recv 0 String.[])
read_head-enough recv =
    read_enough recv (suc (suc max_header_bytes)) 0 String.[] (ground arith) (ground arith)
