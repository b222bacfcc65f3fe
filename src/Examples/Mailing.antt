-- ===== src/Examples/Mailing.antt =====
-- The digest of one record, mailed at the second attempt.
pub mod Letter
use Prim.{tt}
use Prim.Native.String
use kerdoos.Prelude.{ℕ, suc, ◌≤◌, ◌≡◌, refl, true, some, none, List, [], ◌∷◌, arith, All, is_some}
use kerdoos.Prelude.Int.{negsuc}
use kerdoos.Prelude.Dict.{get}
use kerdoos.Scrape.Domain.{returned}
use kerdoos.Settings.{ratio}
use kerdoos.Egress.Texts.{all_chars}
use kerdoos.Digest.Render.{render_digest, digest_lines, scraped_at_label}
use kerdoos.Digest.Render.Lines.{split_lines}
use kerdoos.Digest.Render.Forging.{render_digest-split_lines}
use kerdoos.Digest.Prices.{format_cents, price_field}
use kerdoos.Digest.Prices.Readable.{read_price, format_cents_reads}
use kerdoos.Digest.View.{build_digest_view}
use kerdoos.Digest.View.Links.{MatchesRecords, build_digest_view-MatchesRecords}
use kerdoos.Digest.Smtp.{attempts, sleeps, send_message}
use kerdoos.Digest.Smtp.AtMostOnce.{IsOnce, send_message-IsOnce}
use kerdoos.Digest.Smtp.Deadline.{InTime, send_message-InTime}
use kerdoos.Digest.Sender.{is_between, safe_smtp_timeout, compose, send}
use kerdoos.Digest.Sender.Recipients.{Writes, send-Writes}
use kerdoos.Digest.Sender.Timeout.{safe_smtp_timeout-is_between}
use kerdoos.Examples.Data.{scrape_at, catalogue}
use kerdoos.Examples.Guarding.Wire.{net, is_shop}
use kerdoos.Examples.Mailing.Letter.{
  printing, html_page, settings, letter, turns, turns-IsHonest, urls, seen,
}

send_message-IsOnce_example : IsOnce settings turns 3 (send_message settings 0 turns)
send_message-IsOnce_example = send_message-IsOnce settings 0 turns turns-IsHonest

send_message-InTime_example :
    All (InTime settings (some 300) turns) (send_message settings 0 turns).0
send_message-InTime_example = send_message-InTime settings 0 turns

send-Writes_example :
    Writes net is_shop printing html_page settings letter
      (scrape_at 90 ∷ [])
      100
      []
      (some "ana@example.com")
      (compose net is_shop printing html_page settings letter
        (scrape_at 90 ∷ [])
        100
        []
        catalogue
        (some "ana@example.com"))
unfolding send
send-Writes_example =
    send-Writes net is_shop printing html_page settings letter (scrape_at 90 ∷ []) 100 [] catalogue
      (some "ana@example.com") 0 turns (attempts 0) (sleeps 0 5 ∷ attempts 1 ∷ []) refl

format_cents_reads_example : read_price (format_cents (some 1234567)) ≡ some 1234567
format_cents_reads_example = format_cents_reads 1234567

render_digest-split_lines_example :
    split_lines (render_digest printing (scrape_at 90 ∷ []) 100 [] [])
    ≡ digest_lines printing (scrape_at 90 ∷ []) 100 [] []
unfolding all_chars get
render_digest-split_lines_example =
    render_digest-split_lines printing (scrape_at 90 ∷ []) 100 [] [] (λ t z. refl) (λ t. refl)
      ((tt, tt), tt)

build_digest_view-MatchesRecords_example :
    MatchesRecords net is_shop printing urls (scrape_at 90 ∷ []) (seen ∷ [])
unfolding build_digest_view get price_field scraped_at_label
build_digest_view-MatchesRecords_example =
    build_digest_view-MatchesRecords net is_shop printing letter (scrape_at 90 ∷ []) 100 [] urls []
      (record { job_name = "morning"; generated_at = 100; lines = seen ∷ [] }) refl
