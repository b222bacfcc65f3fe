-- ===== src/Digest/Render/Forging.antt =====
-- No record forges a line of a digest (packages/kerdoos/src/kerdoos/digest/render.py).
use Prim.{tt}
use Prim.Native.Char.{Char}
use kerdoos.Prelude.{
  ℕ, zero, suc, ◌-◌, ◌/◌, ◌%◌, ◌≡◌, refl, ap, ◌∙◌, String, false, not, ◌&&◌, ◌||◌, Option, none,
  some, List, [], ◌∷◌, map, length, ltb, nat_eq, get_or, ◌==◌, All, All-append, either_if, is_some,
  count_in,
}
use kerdoos.Prelude.Dict.{get}
use kerdoos.Scrape.Domain.{
  ScrapeStatus, ok, indeterminate, unavailable, Availability, in_stock, out_of_stock, unknown,
  ScrapeRecord, ErrorText,
}
use kerdoos.Registry.Jobs.{digit_char}
use kerdoos.Egress.Texts.{all_chars}
use kerdoos.Digest.Texts.{is_break, digits, grouped, pad2, pad3, print_nat}
use kerdoos.Digest.Texts.Clean.{IsOneLine, sanitize_error-IsOneLine}
use kerdoos.Digest.Prices.{amount, format_cents, both, tier_label, price_pieces, price_field}
use kerdoos.Digest.Render.{
  Printing, unknown_source_label, status_padded, availability_value, age_pieces, zone_or_utc,
  scraped_at_label, error_pieces, line_pieces, digest_line, summary, summary_pieces, digest_lines,
  render_digest, is_status,
}
use kerdoos.Digest.Render.Lines.{
  split_lines, append-IsOneLine, concat-IsOneLine, split_lines-join_lines,
}

digit_inline : (d : ℕ) → is_break (digit_char d) ≡ false
digit_inline d =
    let P = λ (c : Char). is_break c ≡ false in
    either_if P (nat_eq d 0) "0" _ refl (
      either_if P (nat_eq d 1) "1" _ refl (
        either_if P (nat_eq d 2) "2" _ refl (
          either_if P (nat_eq d 3) "3" _ refl (
            either_if P (nat_eq d 4) "4" _ refl (
              either_if P (nat_eq d 5) "5" _ refl (
                either_if P (nat_eq d 6) "6" _ refl (
                  either_if P (nat_eq d 7) "7" _ refl
                    (either_if P (nat_eq d 8) "8" _ refl refl))))))))

digit-IsOneLine : (d : ℕ) (s : String) → IsOneLine s → IsOneLine (String.◌∷◌ (digit_char d) s)
unfolding all_chars
digit-IsOneLine d s h = ap (λ b. not b && all_chars (λ c. not (is_break c)) s) (digit_inline d) ∙ h

digits-IsOneLine : (fuel n : ℕ) (s : String) → IsOneLine s → IsOneLine (digits fuel n s)
unfolding digits
digits-IsOneLine zero n s h = h
digits-IsOneLine (suc fuel) n s h =
    either_if IsOneLine (ltb n 10) _ _ (digit-IsOneLine n s h)
      (digits-IsOneLine fuel (n / 10) _ (digit-IsOneLine (n % 10) s h))

print_nat-IsOneLine : (n : ℕ) (s : String) → IsOneLine s → IsOneLine (print_nat n s)
unfolding print_nat
print_nat-IsOneLine n s h = digits-IsOneLine (suc n) n s h

pad3-IsOneLine : (n : ℕ) (s : String) → IsOneLine s → IsOneLine (pad3 n s)
pad3-IsOneLine n s h = digit-IsOneLine (n / 100 % 10) (pad2 n s) (
    digit-IsOneLine (n / 10 % 10) (String.◌∷◌ (digit_char (n % 10)) s)
      (digit-IsOneLine (n % 10) s h))

grouped-IsOneLine : (fuel n : ℕ) (s : String) → IsOneLine s → IsOneLine (grouped fuel n s)
unfolding grouped all_chars
grouped-IsOneLine zero n s h = h
grouped-IsOneLine (suc fuel) n s h =
    either_if IsOneLine (ltb n 1000) _ _ (digits-IsOneLine (suc n) n s h) (
      grouped-IsOneLine fuel (n / 1000) (String.◌∷◌ "." (pad3 (n % 1000) s))
        (pad3-IsOneLine (n % 1000) s h))

format_cents-IsOneLine : (p : Option ℕ) → IsOneLine (format_cents p)
unfolding format_cents amount all_chars
format_cents-IsOneLine none = refl
format_cents-IsOneLine (some cents) = append-IsOneLine "R$ " (amount cents) refl (
    grouped-IsOneLine (suc (cents / 100)) (cents / 100) _ (
      digit-IsOneLine (cents % 100 / 10 % 10) (String.◌∷◌ (digit_char (cents % 100 % 10)) "")
        (digit-IsOneLine (cents % 100 % 10) "" refl)))

both-IsOneLine : (pix card : Option ℕ) → All IsOneLine (both pix card)
unfolding all_chars
both-IsOneLine pix card =
    (refl, (format_cents-IsOneLine pix, (refl, (format_cents-IsOneLine card, tt))))

-- A label that is given is on one line.
abbrev pub IsOneLineIfGiven : Option String → Type 0
IsOneLineIfGiven none = Unit {0}
IsOneLineIfGiven (some l) = IsOneLine l

tier_label-IsOneLine : (l : Option String) → IsOneLineIfGiven l → IsOneLine (tier_label l)
unfolding all_chars
tier_label-IsOneLine none h = refl
tier_label-IsOneLine (some l) h = either_if IsOneLine (l == "") _ _ refl h

price_field-IsOneLine :
    (r : ScrapeRecord) (l : Option String) → IsOneLineIfGiven l → IsOneLine (price_field r l)
unfolding price_field all_chars
price_field-IsOneLine r l h = concat-IsOneLine (price_pieces r l) (
    All-append IsOneLine _ _
      (either_if (All IsOneLine) (is_some r.price_pix_cents || is_some r.price_card_cents) _ _
        (both-IsOneLine r.price_pix_cents r.price_card_cents) (refl, tt))
      (either_if (All IsOneLine)
        (is_some r.price_pix_member_cents || is_some r.price_card_member_cents) _ _
        (
          refl,
          (
            tier_label-IsOneLine l h,
            (refl, both-IsOneLine r.price_pix_member_cents r.price_card_member_cents),
          ),
        )
        tt))

status-IsOneLine : (s : ScrapeStatus) → IsOneLine (status_padded s)
unfolding all_chars
status-IsOneLine ok = refl
status-IsOneLine indeterminate = refl
status-IsOneLine unavailable = refl

availability-IsOneLine : (a : Availability) → IsOneLine (availability_value a)
unfolding all_chars
availability-IsOneLine in_stock = refl
availability-IsOneLine out_of_stock = refl
availability-IsOneLine unknown = refl

age-IsOneLine : (t g : ℕ) → All IsOneLine (age_pieces t g)
unfolding all_chars
age-IsOneLine t g =
    either_if (All IsOneLine) (ltb g t) _ _ (refl, tt)
      (either_if (All IsOneLine) (ltb ((g - t) / 86400) 1) _ _ tt
        (refl, (print_nat-IsOneLine ((g - t) / 86400) "d ago)" refl, tt)))

module _ (printing : Printing)
    (stamps : (t : ℕ) (z : String) → IsOneLine (printing.stamp t z)) where
  error-IsOneLine : (e : Option ErrorText) → All IsOneLine (error_pieces printing e)
  unfolding all_chars
  error-IsOneLine none = tt
  error-IsOneLine (some e) =
      either_if (All IsOneLine) (printing.error_text e == "") _ _ tt
        (refl, ((sanitize_error-IsOneLine (printing.error_text e)).0, (refl, tt)))

  label-IsOneLine :
      (o : Option String) → IsOneLineIfGiven o → IsOneLine (get_or o unknown_source_label)
  unfolding all_chars
  label-IsOneLine none h = refl
  label-IsOneLine (some l) h = h

  stamp-IsOneLine : (t g : ℕ) → IsOneLine (scraped_at_label printing t g "UTC")
  unfolding scraped_at_label all_chars
  stamp-IsOneLine t g =
      concat-IsOneLine ("scraped " ∷ printing.stamp t (zone_or_utc printing "UTC") ∷ age_pieces t g)
        (refl, (stamps t (zone_or_utc printing "UTC"), age-IsOneLine t g))

  digest_line-IsOneLine :
      (labels names : List (String × String)) (generated_at : ℕ) (r : ScrapeRecord)
      → IsOneLineIfGiven (get r.source_id labels)
      → IsOneLineIfGiven (get r.source_id names)
      → IsOneLine (digest_line printing labels names generated_at r)
  unfolding digest_line all_chars
  digest_line-IsOneLine labels names generated_at r hl hn =
      concat-IsOneLine (line_pieces printing labels names generated_at r) (
        refl,
        (
          status-IsOneLine r.status,
          (
            refl,
            (
              label-IsOneLine (get r.source_id names) hn,
              (
                refl,
                (
                  price_field-IsOneLine r (get r.source_id labels) hl,
                  (
                    refl,
                    (
                      availability-IsOneLine r.availability,
                      (refl, (stamp-IsOneLine r.ts generated_at, error-IsOneLine r.error)),
                    ),
                  ),
                ),
              ),
            ),
          ),
        ),
      )

  -- The labels of the records are on one line.
  abbrev pub HasLabels : List (String × String) → List (String × String) → ScrapeRecord → Type 0
  HasLabels labels names r =
      IsOneLineIfGiven (get r.source_id labels) × IsOneLineIfGiven (get r.source_id names)

  lines-IsOneLine :
      (labels names : List (String × String)) (generated_at : ℕ) (rs : List ScrapeRecord)
      → All (HasLabels labels names) rs
      → All IsOneLine (map (digest_line printing labels names generated_at) rs)
  lines-IsOneLine labels names generated_at [] h = tt
  lines-IsOneLine labels names generated_at (r ∷ rs) h = (
    digest_line-IsOneLine labels names generated_at r h.0.0 h.0.1,
    lines-IsOneLine labels names generated_at rs h.1,
  )

  summary-IsOneLine : (rs : List ScrapeRecord) → IsOneLine (summary printing rs)
  unfolding summary all_chars
  summary-IsOneLine rs = concat-IsOneLine (summary_pieces printing rs) (
    refl,
    (
      print_nat-IsOneLine (count_in (λ r. is_status ok r.status) rs) "" refl,
      (
        refl,
        (
          print_nat-IsOneLine (count_in (λ r. is_status indeterminate r.status) rs) "" refl,
          (
            refl,
            (print_nat-IsOneLine (count_in (λ r. is_status unavailable r.status) rs) "" refl, tt),
          ),
        ),
      ),
    ),
  )

-- Where no stamp and no label has a line break, the text of a digest has exactly the lines that the
-- code appends, one for each record, whatever error text a record carries.
pub render_digest-split_lines :
    (printing : Printing) (records : List ScrapeRecord) (generated_at : ℕ)
    (labels names : List (String × String))
    → ((t : ℕ) (z : String) → IsOneLine (printing.stamp t z))
    → ((t : ℕ) → IsOneLine (printing.iso t))
    → All
        (λ r. IsOneLineIfGiven (get r.source_id labels) × IsOneLineIfGiven (get r.source_id names))
        records
    → split_lines (render_digest printing records generated_at labels names)
      ≡ digest_lines printing records generated_at labels names
unfolding render_digest digest_lines all_chars
render_digest-split_lines printing records generated_at labels names stamps isos h =
    split_lines-join_lines _ _ refl (
      concat-IsOneLine ("generated_at: " ∷ printing.iso generated_at ∷ [])
          (refl, (isos generated_at, tt)),
      (
        concat-IsOneLine ("sources: " ∷ print_nat (length records) "" ∷ [])
            (refl, (print_nat-IsOneLine (length records) "" refl, tt)),
        (
          refl,
          All-append IsOneLine (map (digest_line printing labels names generated_at) records) _
              (lines-IsOneLine printing stamps labels names generated_at records h)
              (refl, (summary-IsOneLine printing stamps records, tt)),
        ),
      ),
    )
