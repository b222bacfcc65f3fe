-- ===== src/Digest/Prices.antt =====
-- `format_cents` and `_price_field` of packages/kerdoos/src/kerdoos/digest/render.py.
pub mod Readable
use Prim.Native.String
use kerdoos.Prelude.{
  ℕ, suc, ◌/◌, ◌%◌, String, Option, none, some, is_some, ◌==◌, if◌then◌else◌, Bool, ◌||◌, List, [],
  ◌∷◌, ◌++◌,
}
use kerdoos.Scrape.Domain.{ScrapeRecord}
use kerdoos.Digest.Texts.{grouped, pad2, concat}

-- The amount, without the currency.
unfoldable pub amount : ℕ → String
unfolding grouped
amount cents =
    let reais = cents / 100 in grouped (suc reais) reais (String.◌∷◌ "," (pad2 (cents % 100) ""))

unfoldable pub format_cents : Option ℕ → String
unfolding amount
format_cents none = "-"
format_cents (some cents) = String.◌++◌ "R$ " (amount cents)

abbrev pub both : Option ℕ → Option ℕ → List String
both pix card = "pix=" ∷ format_cents pix ∷ " card=" ∷ format_cents card ∷ []

-- `label or 'member'`
abbrev pub tier_label : Option String → String
tier_label none = "member"
tier_label (some l) = if l == "" then "member" else l

-- The pieces of the text.
abbrev pub price_pieces : ScrapeRecord → Option String → List String
price_pieces r label =
    (if is_some r.price_pix_cents || is_some r.price_card_cents
      then both r.price_pix_cents r.price_card_cents
      else "no price" ∷ [])
    ++ (if is_some r.price_pix_member_cents || is_some r.price_card_member_cents
        then "  "
          ∷ tier_label label
          ∷ ": "
          ∷ both r.price_pix_member_cents r.price_card_member_cents
        else [])

unfoldable pub price_field : ScrapeRecord → Option String → String
unfolding format_cents concat
price_field r label = concat (price_pieces r label)
