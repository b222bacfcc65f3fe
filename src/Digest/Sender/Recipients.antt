-- ===== src/Digest/Sender/Recipients.antt =====
-- Whom `SmtpDigestSender.send` (packages/kerdoos/src/kerdoos/digest/smtp_sender.py) writes to.
use Prim.{absurd}
use Prim.Native.String
use mathlib.Core.Path.{subst}
use kerdoos.Prelude.{
  ℕ, ◌≡◌, refl, sym, ap, ◌∙◌, String, Bool, true, false, Option, none, some, List, [], ◌∷◌,
  if◌then◌else◌, ◌==◌,
}
use kerdoos.Scrape.Domain.{Outcome, returned, raised, ScrapeRecord}
use kerdoos.Registry.{Registry, Entry, iter_sources}
use kerdoos.Registry.Jobs.{DigestJob}
use kerdoos.Egress.Safety.{Net}
use kerdoos.Egress.Texts.{labels}
use kerdoos.Digest.Texts.{clean_header}
use kerdoos.Digest.Texts.Clean.{IsOneLine, clean_header-IsOneLine}
use kerdoos.Digest.Render.{Printing}
use kerdoos.Digest.View.{DigestView, build_digest_view}
use kerdoos.Digest.Smtp.{SmtpSettings, Turn, Event}
use kerdoos.Digest.Sender.{
  has_comma, is_domain, domain_of, recipient, unsafe, EmailMessage, message_of, html_of,
  with_entries, to_recipient, compose, sent_message, send, source_labels, source_urls,
}

-- One address, without a comma, of a domain whose last label begins with a letter.
abbrev pub IsAddress : Option String → String → Type 0
IsAddress to_addr a =
    (to_addr ≡ some a) × (has_comma a ≡ false) × (is_domain (labels (domain_of a)) ≡ true)

recipient-IsAddress :
    (o : Option String) (a : String) → recipient o ≡ returned (some a) → IsAddress o a
unfolding recipient
recipient-IsAddress none a h = absurd cc
recipient-IsAddress (some b) a h =
    tests (b == "") (has_comma b) (is_domain (labels (domain_of b))) refl refl h
  where
    tests :
        (empty comma good : Bool)
        → has_comma b ≡ comma
        → is_domain (labels (domain_of b)) ≡ good
        → (if empty
            then returned none
            else if comma
            then raised (unsafe b)
            else if good
            then returned (some b)
            else raised (unsafe b))
          ≡ returned (some a)
        → IsAddress (some b) a
    tests true comma good p q k = absurd cc
    tests false true good p q k = absurd cc
    tests false false false p q k = absurd cc
    tests false false true p q k =
        let same : b ≡ a = cc in
        (
          ap some same,
          sym (ap has_comma same) ∙ p,
          sym (ap (λ s. is_domain (labels (domain_of s))) same) ∙ q,
        )

-- The headers of a message to an address are on one line each.
abbrev pub HasHeaders : EmailMessage → String → Type 0
HasHeaders e a = (e.to ≡ clean_header a) × IsOneLine e.subject × IsOneLine e.from × IsOneLine e.to

module _ (net : Net) (allowed : String → Bool) (printing : Printing) (jinja : DigestView → String)
    (m : SmtpSettings) (job : DigestJob) (records : List ScrapeRecord) (generated_at : ℕ)
    (tier2_labels : List (String × String)) where
  message-HasHeaders :
      (a : String) (names : List (String × String)) (o : Outcome String) (e : EmailMessage)
      → message_of net allowed printing jinja m job records generated_at tier2_labels a names o
        ≡ returned (some e)
      → HasHeaders e a
  message-HasHeaders a names (raised x) e h = absurd cc
  message-HasHeaders a names (returned html) e h =
      let subject : clean_header (String.◌++◌ "Kerdoos digest: " job.name) ≡ e.subject = cc in
      let from : clean_header m.from_addr ≡ e.from = cc in
      let to : clean_header a ≡ e.to = cc in
      (
        sym to,
        subst IsOneLine subject (clean_header-IsOneLine (String.◌++◌ "Kerdoos digest: " job.name)),
        subst IsOneLine from (clean_header-IsOneLine m.from_addr),
        subst IsOneLine to (clean_header-IsOneLine a),
      )

  entries-HasHeaders :
      (a : String) (registry : Registry) (o : Outcome (List Entry)) (e : EmailMessage)
      → with_entries net allowed printing jinja m job records generated_at tier2_labels a registry o
        ≡ returned (some e)
      → HasHeaders e a
  entries-HasHeaders a registry (raised x) e h = absurd cc
  entries-HasHeaders a registry (returned es) e h =
      message-HasHeaders a (source_labels registry)
        (html_of net allowed printing jinja m job records generated_at tier2_labels (
          build_digest_view net allowed printing job records generated_at tier2_labels
            (source_urls es []) (source_labels registry)))
        e h

  -- An address of the job's owner, and a message to it.
  abbrev pub Writes : Option String → Outcome (Option EmailMessage) → Type 0
  Writes to_addr o =
      (a : String) × (e : EmailMessage) × IsAddress to_addr a
      × (o ≡ returned (some e))
      × HasHeaders e a

  composed_by :
      (registry : Registry) (to_addr : Option String) (o : Outcome (Option String))
      (e : EmailMessage)
      → recipient to_addr ≡ o
      → to_recipient net allowed printing jinja m job records generated_at tier2_labels registry o
        ≡ returned (some e)
      → (a : String) × IsAddress to_addr a × HasHeaders e a
  composed_by registry to_addr (raised x) e p h = absurd cc
  composed_by registry to_addr (returned none) e p h = absurd cc
  composed_by registry to_addr (returned (some a)) e p h = (
    a,
    recipient-IsAddress to_addr a p,
    entries-HasHeaders a registry (iter_sources registry) e h,
  )

  sent_by :
      (registry : Registry) (to_addr : Option String) (start : ℕ) (turn : ℕ → Turn) (v : Event)
      (vs : List Event) (o : Outcome (Option EmailMessage))
      → compose net allowed printing jinja m job records generated_at tier2_labels registry to_addr
        ≡ o
      → (sent_message net allowed printing jinja m job records generated_at tier2_labels start turn
          o).0
        ≡ v ∷ vs
      → Writes to_addr o
  unfolding compose
  sent_by registry to_addr start turn v vs (raised x) p h = absurd cc
  sent_by registry to_addr start turn v vs (returned none) p h = absurd cc
  sent_by registry to_addr start turn v vs (returned (some e)) p h =
      let c = composed_by registry to_addr (recipient to_addr) e refl p in (c.0, e, c.1, refl, c.2)

-- A server is contacted only with a message to one address, that of the owner: it has no comma, and
-- its domain has two labels or more, of letters, digits and dashes, the last of which begins with a
-- letter. No header of the message has a line break.
pub send-Writes :
    (net : Net) (allowed : String → Bool) (printing : Printing) (jinja : DigestView → String)
    (m : SmtpSettings) (job : DigestJob) (records : List ScrapeRecord) (generated_at : ℕ)
    (tier2_labels : List (String × String)) (registry : Registry) (to_addr : Option String)
    (start : ℕ) (turn : ℕ → Turn) (v : Event) (vs : List Event)
    → (send net allowed printing jinja m job records generated_at tier2_labels registry to_addr
        start turn).0
      ≡ v ∷ vs
    → Writes net allowed printing jinja m job records generated_at tier2_labels to_addr (
        compose net allowed printing jinja m job records generated_at tier2_labels registry to_addr)
unfolding send
send-Writes net allowed printing jinja m job records generated_at tier2_labels registry to_addr
      start turn v vs h =
    sent_by net allowed printing jinja m job records generated_at tier2_labels registry to_addr
      start turn v vs
      (compose net allowed printing jinja m job records generated_at tier2_labels registry to_addr)
      refl h
