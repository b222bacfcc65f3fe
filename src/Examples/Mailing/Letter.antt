-- ===== src/Examples/Mailing/Letter.antt =====
-- A digest's job, its server, and its printing.
use Prim.{absurd}
use kerdoos.Prelude.{ℕ, zero, suc, refl, String, true, false, none, some, List, [], ◌∷◌}
use kerdoos.Registry.Jobs.{DigestJob}
use kerdoos.Digest.Render.{Printing}
use kerdoos.Digest.View.{DigestView, DigestLineView}
use kerdoos.Digest.Smtp.{SmtpSettings, response_error, accepts, fails, Session, Turn}
use kerdoos.Digest.Smtp.AtMostOnce.{IsHonest}

abbrev pub printing : Printing
printing = record {
  stamp = λ t z. "2026-01-01 08:00";
  known_zone = λ z. true;
  error_text = λ e. "timeout\nforged line";
  iso = λ t. "2026-01-01";
}

abbrev pub html_page : DigestView → String
html_page v = "<html>"

abbrev pub settings : SmtpSettings
settings = record {
  from_addr = "kerdoos@example.com";
  username = none;
  password = none;
  use_tls = true;
  timeout_seconds = 10;
  retry_attempts = 2;
  retry_backoff_seconds = 5;
  send_deadline_seconds = some 300;
}

abbrev pub letter : DigestJob
letter = record {
  id = "j";
  owner_id = "alice";
  name = "morning";
  frequency_kind = "daily";
  schedule_cron = "0 8 * * *";
  timezone = "UTC";
  template_id = "default";
  options = record { show_pix = true; show_card = true; variation_threshold_pct = none };
  enabled = true;
  created_at = none;
  source_ids = "s" ∷ [];
}

abbrev busy_session : Session
busy_session = record {
  connects = none;
  starts_tls = none;
  logs_in = none;
  sends = fails (response_error 451);
  quits = none;
  took = false;
}

abbrev good_session : Session
good_session = record {
  connects = none;
  starts_tls = none;
  logs_in = none;
  sends = accepts [];
  quits = none;
  took = true;
}

-- The server is busy at first.
abbrev pub turns : ℕ → Turn
turns zero = record { session = busy_session; failed_at = 10; woken_at = 15 }
turns (suc n) = record { session = good_session; failed_at = 20; woken_at = 25 }

pub turns-IsHonest : (n : ℕ) → IsHonest (turns n).session
turns-IsHonest zero = record { refused = λ e p q. refl; accepted = λ p. absurd cc }
turns-IsHonest (suc n) = record { refused = λ e p q. absurd cc; accepted = λ p. refl }

abbrev pub urls : List (String × String)
urls = ("s", "https://kabum.com.br/1") ∷ []

abbrev pub seen : DigestLineView
seen = record {
  source_label = "(removed source)";
  status_label = "ok";
  price_line = "pix=R$ 19,99 card=-";
  availability_label = "InStock";
  scraped_at = "scraped 2026-01-01 08:00";
  error = none;
  href = some "https://kabum.com.br/1";
}
