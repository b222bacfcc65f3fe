-- ===== src/Egress/Proxy/Guard.antt =====
-- What a client of packages/autolycos/src/autolycos/egress_proxy.py can make PinningProxy do.
use Prim.{tt}
use kerdoos.Prelude.{
  ℕ, ◌≡◌, ◌⊎◌, inl, inr, refl, ap, ◌∙◌, String, Bool, true, false, not, Option, none, some, List,
  [], ◌∷◌, ◌==◌, count_in, if◌then◌else◌, either_if, All, arith,
}
use kerdoos.Scrape.Domain.{fetch_error, parse_error, other, Outcome, returned, raised}
use kerdoos.Egress.Texts.{partition, words, rstrip}
use kerdoos.Egress.Safety.{Net, PinnedAddress, resolve_and_pin}
use kerdoos.Egress.Safety.Pins.{IsPinned, resolve_and_pin-IsPinned}
use kerdoos.Egress.Proxy.{
  Recv, Head, head, no_head, failed, crlf, allowed_connect_port, Effect, resolves, dials, replies,
  blocked, Handled, dialled, on_pin, on_authority, on_words, first_line, on_head, handle, ran,
  and_close, finally, is_upper_of, parse_authority,
}
use kerdoos.Egress.Proxy.Reading.{read_head-enough}

module _ (net : Net) (allowed : String → Bool) where
  -- A name that may be looked up, with the port.
  abbrev pub IsAllowed : String → ℕ → Type 0
  IsAllowed domain port = (allowed domain ≡ true) × (allowed_connect_port port ≡ true)

  -- A lookup is of an allowed name; a dial is of the safe address pinned by a lookup of one.
  abbrev pub IsGuarded : Effect → Type 0
  IsGuarded (resolves domain port) = IsAllowed domain port
  IsGuarded (dials ip port) =
      (domain : String) × IsAllowed domain port × IsPinned net domain port ip
  IsGuarded _ = Unit {0}

  abbrev pub is_lookup : Effect → Bool
  is_lookup (resolves domain port) = true
  is_lookup _ = false

  -- Every effect is guarded, and there is one lookup at most.
  abbrev pub AreGuarded : List Effect → Type 0
  AreGuarded es = All IsGuarded es × ((count_in is_lookup es ≡ 0) ⊎ (count_in is_lookup es ≡ 1))

  close-All : (es : List Effect) → All IsGuarded es → All IsGuarded (and_close es)
  close-All [] h = (tt, tt)
  close-All (e ∷ es) h = (h.0, close-All es h.1)

  count-close : (es : List Effect) → count_in is_lookup (and_close es) ≡ count_in is_lookup es
  unfolding count_in
  count-close [] = refl
  count-close (e ∷ es) = ground (arith, count-close es)

  module _ (dial : String → ℕ → Bool) (accepts : Bool) where
    abbrev Guards : Handled → Type 0
    Guards h = AreGuarded h.effects

    dialled-Guards :
        (domain : String) (port : ℕ) (leftover ip : String)
        → IsAllowed domain port
        → IsPinned net domain port ip
        → Guards (dialled net allowed dial accepts domain port leftover ip)
    unfolding count_in
    dialled-Guards domain port leftover ip ok pin =
        either_if Guards (not (dial ip port)) _ _ ((ok, ((domain, ok, pin), (tt, tt))), inr refl)
          (either_if Guards accepts _ _ ((ok, ((domain, ok, pin), (tt, (tt, tt)))), inr refl)
            ((ok, ((domain, ok, pin), (tt, tt))), inr refl))

    on_pin-Guards :
        (domain : String) (port : ℕ) (leftover : String) (o : Outcome PinnedAddress)
        → IsAllowed domain port
        → resolve_and_pin net domain port ≡ o
        → Guards (on_pin net allowed dial accepts domain port leftover o)
    unfolding count_in
    on_pin-Guards domain port leftover (returned pin) ok e =
        dialled-Guards domain port leftover pin.ip ok
          (resolve_and_pin-IsPinned net domain port pin e)
    on_pin-Guards domain port leftover (raised (fetch_error m)) ok e = ((ok, (tt, tt)), inr refl)
    on_pin-Guards domain port leftover (raised (parse_error m)) ok e = ((ok, tt), inr refl)
    on_pin-Guards domain port leftover (raised (other k m)) ok e =
        either_if Guards (k == "ValueError") _ _ ((ok, (tt, tt)), inr refl)
          (either_if Guards (k == "OSError") _ _ ((ok, tt), inr refl) ((ok, tt), inr refl))

    authority_by :
        (domain : String) (port : ℕ) (leftover : String) (a b : Bool)
        → allowed domain ≡ a
        → allowed_connect_port port ≡ b
        → (let blocks : Handled = record { effects = replies blocked ∷ []; uncaught = none } in
            Guards (
              if not a
              then blocks
              else if not b
              then blocks
              else on_pin net allowed dial accepts domain port leftover
                  (resolve_and_pin net domain port)))
    unfolding count_in
    authority_by domain port leftover false b e f = ((tt, tt), inl refl)
    authority_by domain port leftover true false e f = ((tt, tt), inl refl)
    authority_by domain port leftover true true e f =
        on_pin-Guards domain port leftover (resolve_and_pin net domain port) (e, f) refl

    on_authority-Guards :
        (leftover : String) (o : Outcome (Option (String × ℕ)))
        → Guards (on_authority net allowed dial accepts leftover o)
    unfolding count_in
    on_authority-Guards leftover (raised e) = (tt, inl refl)
    on_authority-Guards leftover (returned none) = ((tt, tt), inl refl)
    on_authority-Guards leftover (returned (some (host, port))) =
        let domain = rstrip (net.lower host) in
        authority_by domain port leftover (allowed domain) (allowed_connect_port port) refl refl

    on_words-Guards :
        (leftover : String) (ws : List String)
        → Guards (on_words net allowed dial accepts leftover ws)
    unfolding count_in
    on_words-Guards leftover [] = ((tt, tt), inl refl)
    on_words-Guards leftover (a ∷ []) = ((tt, tt), inl refl)
    on_words-Guards leftover (a ∷ b ∷ []) = ((tt, tt), inl refl)
    on_words-Guards leftover (a ∷ b ∷ c ∷ ws) =
        either_if Guards (not (is_upper_of "CONNECT" a)) _ _ ((tt, tt), inl refl)
          (on_authority-Guards leftover (parse_authority b))

    on_head-Guards : (h : Head) → Guards (on_head net allowed dial accepts h)
    unfolding count_in
    on_head-Guards no_head = (tt, inl refl)
    on_head-Guards failed = (tt, inl refl)
    on_head-Guards (head text leftover) =
        either_if Guards (text == "") _ _ (tt, inl refl)
          (on_words-Guards leftover
            (words (first_line net allowed dial accepts text (partition crlf text))))

    same_count : {m n : ℕ} → m ≡ n → (n ≡ 0) ⊎ (n ≡ 1) → (m ≡ 0) ⊎ (m ≡ 1)
    same_count e (inl h) = inl (e ∙ h)
    same_count e (inr h) = inr (e ∙ h)

    finally-Guards : (h : Handled) → Guards h → Guards (finally h)
    finally-Guards h g = (close-All h.effects g.0, same_count (count-close h.effects) g.1)

-- Whatever a client sends, its handler ends, and before that looks up one name at most, which the
-- allowlist allows, for port 80 or 443; and it dials only the address that this lookup gave first,
-- when every address of the answer is safe.
pub handle-AreGuarded :
    (net : Net) (allowed : String → Bool) (dial : String → ℕ → Bool) (accepts : Bool)
    (recv : ℕ → Recv)
    → (h : Handled) × (handle net allowed dial accepts recv ≡ some h)
      × AreGuarded net allowed h.effects
unfolding handle
handle-AreGuarded net allowed dial accepts recv =
    let (h, e) = read_head-enough recv in
    (
      finally (on_head net allowed dial accepts h),
      ap (ran net allowed dial accepts) e,
      finally-Guards net allowed dial accepts (on_head net allowed dial accepts h)
          (on_head-Guards net allowed dial accepts h),
    )
