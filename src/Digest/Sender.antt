-- ===== src/Digest/Sender.antt =====
-- packages/kerdoos/src/kerdoos/digest: `SmtpDigestSender.send` of smtp_sender.py up to its first
-- attempt, `render_digest_html` of templates.py, `Registry.source_labels` of registry/ports.py, and
-- the choice of the sender in factory.py. Jinja is a parameter, and EmailMessage takes clean headers.
pub mod Recipients
pub mod Timeout
use Prim.Native.Char.{Char, code}
use Prim.Native.String
use kerdoos.Prelude.{
  ℕ, suc, ◌+◌, ◌-◌, ◌*◌, String, Bool, true, false, not, ◌&&◌, ◌||◌, Option, none, some, List, [],
  ◌∷◌, ltb, leb, nat_eq, if◌then◌else◌, ◌==◌, get_or,
}
use kerdoos.Prelude.Int.{pos, negsuc}
use kerdoos.Prelude.Dict.{put}
use kerdoos.Scrape.Domain.{Exc, other, Outcome, returned, raised, ScrapeRecord}
use kerdoos.Registry.{Registry, Product, ProductSource, Entry, iter_sources}
use kerdoos.Registry.Jobs.{DigestJob}
use kerdoos.Egress.Safety.{Net}
use kerdoos.Egress.Texts.{all_chars, labels}
use kerdoos.Settings.{Num, ratio, is_above_zero}
use kerdoos.Digest.Texts.{clean_header, clean_header_block, concat}
use kerdoos.Digest.Render.{Printing, render_digest}
use kerdoos.Digest.View.{DigestView, build_digest_view}
use kerdoos.Digest.Smtp.{
  SmtpSettings, Turn, Event, Answer, answers, fails_with, broken, send_message,
}

-- What stands after the last '@'.
abbrev or_here : Char → String → Option String → Option String
or_here c s (some rest) = some rest
or_here c s none = if nat_eq (code c) b'@' then some s else none

unfoldable pub after_at : String → Option String
after_at String.[] = none
after_at (String.◌∷◌ c s) = or_here c s (after_at s)

abbrev pub is_letter : Char → Bool
is_letter c = (leb 65 (code c) && leb (code c) 90) || (leb 97 (code c) && leb (code c) 122)

abbrev pub is_label_char : Char → Bool
is_label_char c = is_letter c || (leb 48 (code c) && leb (code c) 57) || nat_eq (code c) b'-'

abbrev pub is_label : String → Bool
is_label l = not (l == "") && all_chars is_label_char l

-- A label that begins with "xn--" begins with a letter.
abbrev pub is_top_label : String → Bool
is_top_label String.[] = false
is_top_label (String.◌∷◌ c s) = is_letter c && all_chars is_label_char s

abbrev pub are_labels : List String → Bool
are_labels [] = false
are_labels (l ∷ []) = is_top_label l
are_labels (l ∷ k ∷ ls) = is_label l && are_labels (k ∷ ls)

-- `_VALID_DOMAIN_RE.fullmatch`
abbrev pub is_domain : List String → Bool
is_domain [] = false
is_domain (l ∷ []) = false
is_domain (l ∷ k ∷ ls) = are_labels (l ∷ k ∷ ls)

-- `"," in s`
abbrev pub has_comma : String → Bool
has_comma s = not (all_chars (λ c. not (nat_eq (code c) b',')) s)

abbrev pub unsafe : String → Exc
unsafe to_addr = other "_UnsafeRecipientError" to_addr

-- `to_addr.rsplit("@", 1)[-1]`
abbrev pub domain_of : String → String
domain_of to_addr = get_or (after_at to_addr) to_addr

-- The recipient, `none` where there is none.
unfoldable pub recipient : Option String → Outcome (Option String)
unfolding after_at labels all_chars
recipient none = returned none
recipient (some to_addr) =
    if to_addr == ""
    then returned none
    else if has_comma to_addr
    then raised (unsafe to_addr)
    else if is_domain (labels (domain_of to_addr))
    then returned (some to_addr)
    else raised (unsafe to_addr)

-- `product.name or product.id`
abbrev pub name_or : String → Option String → String
name_or id none = id
name_or id (some n) = if n == "" then id else n

abbrev pub product_label : Product → String
product_label p = name_or p.id p.name

unfoldable pub label_sources :
    Product → List ProductSource → List (String × String) → List (String × String)
unfolding put concat
label_sources p [] d = d
label_sources p (s ∷ ss) d =
    label_sources p ss (put s.source_id (concat (product_label p ∷ " -- " ∷ s.site ∷ [])) d)

unfoldable pub label_products : List Product → List (String × String) → List (String × String)
unfolding label_sources
label_products [] d = d
label_products (p ∷ ps) d = label_products ps (label_sources p p.sources d)

unfoldable pub source_labels : Registry → List (String × String)
unfolding label_products
source_labels registry = label_products registry.products []

unfoldable pub source_urls : List Entry → List (String × String) → List (String × String)
unfolding put
source_urls [] d = d
source_urls (e ∷ es) d = source_urls es (put e.source.source_id e.source.url d)

pub record EmailMessage : Type 0 where
  pub subject : String
  pub from : String
  pub to : String
  pub text : String
  pub html : String

module _ (net : Net) (allowed : String → Bool) (printing : Printing)
    (jinja : DigestView → String) where
  -- The one entry of TEMPLATE_FILES is "default".
  unfoldable pub render_digest_html : String → DigestView → Outcome String
  render_digest_html template_id view =
      if template_id == "default"
      then returned (jinja view)
      else raised (other "ValueError" template_id)

  module _ (m : SmtpSettings) (job : DigestJob) (records : List ScrapeRecord) (generated_at : ℕ)
      (tier2_labels : List (String × String)) where
    abbrev pub message_of :
        String → List (String × String) → Outcome String → Outcome (Option EmailMessage)
    message_of to_addr names (raised e) = raised e
    message_of to_addr names (returned html) = returned (
        some (record {
          subject = clean_header (String.◌++◌ "Kerdoos digest: " job.name);
          from = clean_header m.from_addr;
          to = clean_header to_addr;
          text =
              clean_header_block (render_digest printing records generated_at tier2_labels names);
          html = html;
        }))

    abbrev pub html_of : Outcome DigestView → Outcome String
    html_of (raised e) = raised e
    html_of (returned view) = render_digest_html job.template_id view

    abbrev pub with_entries :
        String → Registry → Outcome (List Entry) → Outcome (Option EmailMessage)
    with_entries to_addr registry (raised e) = raised e
    with_entries to_addr registry (returned es) = message_of to_addr (source_labels registry) (
        html_of (
          build_digest_view net allowed printing job records generated_at tier2_labels
            (source_urls es []) (source_labels registry)))

    abbrev pub to_recipient : Registry → Outcome (Option String) → Outcome (Option EmailMessage)
    to_recipient registry (raised e) = raised e
    to_recipient registry (returned none) = returned none
    to_recipient registry (returned (some to_addr)) =
        with_entries to_addr registry (iter_sources registry)

    -- The message that is sent, if any; `registry` is `config.load(job.owner_id)`.
    unfoldable pub compose : Registry → Option String → Outcome (Option EmailMessage)
    unfolding recipient build_digest_view render_digest render_digest_html iter_sources
        source_labels source_urls clean_header clean_header_block
    compose registry to_addr = to_recipient registry (recipient to_addr)

    abbrev pub sent_message : ℕ → (ℕ → Turn) → Outcome (Option EmailMessage) → List Event × Answer
    sent_message start turn (raised e) = ([], fails_with (broken e))
    sent_message start turn (returned none) = ([], answers false)
    sent_message start turn (returned (some message)) = send_message m start turn

    -- `SmtpDigestSender.send`; `start` and `turn` are of the clock and the server.
    unfoldable pub send : Registry → Option String → ℕ → (ℕ → Turn) → List Event × Answer
    unfolding compose send_message
    send registry to_addr start turn = sent_message start turn (compose registry to_addr)

-- `0 < v < n`
abbrev pub is_between : ℕ → Num → Bool
is_between n (ratio (pos i) d) = ltb 0 i && ltb i (n * suc d)
is_between n v = false

-- `max(0.1, reaper_timeout / 2.0)`; the reaper's timeout is an int.
abbrev pub half_or_tenth : ℕ → Num
half_or_tenth n = if ltb 0 n then ratio (pos n) 1 else ratio (pos 1) 9

unfoldable pub safe_smtp_timeout : Num → ℕ → Num
safe_smtp_timeout smtp_timeout reaper_timeout =
    if is_between reaper_timeout smtp_timeout then smtp_timeout else half_or_tenth reaper_timeout

-- Which sender `build_sender` builds.
pub data Sender : Type 0 where
  log_sender : Sender
  smtp_sender : String → String → Num → Sender

abbrev pub host_and_from : Num → ℕ → Option String → Option String → Sender
host_and_from t reaper none from = log_sender
host_and_from t reaper (some host) none = log_sender
host_and_from t reaper (some host) (some from) =
    if (host == "") || (from == "")
    then log_sender
    else smtp_sender host from (safe_smtp_timeout t reaper)

-- `build_sender`, of `smtp_host`, `smtp_from` and the two timeouts.
unfoldable pub build_sender : Option String → Option String → Num → ℕ → Sender
unfolding safe_smtp_timeout
build_sender smtp_host smtp_from smtp_timeout reaper_timeout =
    host_and_from smtp_timeout reaper_timeout smtp_host smtp_from
