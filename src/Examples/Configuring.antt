-- ===== src/Examples/Configuring.antt =====
-- The config store and the identifiers of the registry at concrete inputs.
pub mod Shop
use Prim.{tt}
use Prim.Native.String.{count}
use kerdoos.ConfigStore.Owners.{Identity, new_owner, ensure_owner, is_alike}
use kerdoos.ConfigStore.Owners.Identities.{Ensures, ensure_owner-Ensures}
use kerdoos.Prelude.Rows.{Unique}
use kerdoos.Prelude.{some_in, ◌≡◌, refl, ℕ, String, none, some, true, false, [], ◌∷◌, ne_of_test}
use kerdoos.Prelude.Int.{pos}
use kerdoos.Scrape.Domain.{returned}
use kerdoos.Registry.Jobs.{
  flag, float, parse_job_options, dump_job_options, count_fields, normalize_schedule,
  make_source_id,
}
use kerdoos.Registry.Jobs.Options.{parse_job_options-stable}
use kerdoos.Registry.Jobs.Schedules.{normalize_schedule-fields}
use kerdoos.Registry.Jobs.SourceIds.{make_source_id-injective}
use kerdoos.ConfigStore.Tables.{load, list_jobs}
use kerdoos.ConfigStore.Operations.{removes_product, deletes_job, apply}
use kerdoos.ConfigStore.Integrity.{IsSound}
use kerdoos.ConfigStore.Integrity.Writes.{apply-IsSound}
use kerdoos.ConfigStore.Tenancy.Writes.{list_jobs-apply}
use kerdoos.Examples.Configuring.Shop.{shop, shop-IsSound}

apply-IsSound_example : IsSound (apply "alice" (removes_product "ssd") shop)
apply-IsSound_example = apply-IsSound "alice" (removes_product "ssd") shop shop-IsSound

list_jobs-apply_example :
    ((load "alice" (apply "bob" (deletes_job "j") shop)).products ≡ (load "alice" shop).products)
    × (list_jobs "alice" (apply "bob" (deletes_job "j") shop) ≡ list_jobs "alice" shop)
list_jobs-apply_example =
    list_jobs-apply "bob" "alice" (deletes_job "j") shop (ne_of_test "bob" "alice" refl)
      shop-IsSound

parse_job_options-stable_example :
    parse_job_options (
      dump_job_options
        (record { show_pix = false; show_card = true; variation_threshold_pct = some 5000 }))
    ≡ returned (record { show_pix = false; show_card = true; variation_threshold_pct = some 5000 })
unfolding parse_job_options
parse_job_options-stable_example =
    parse_job_options-stable
      (("show_pix", flag false) ∷ ("variation_threshold_pct", float (pos 5000)) ∷ [])
      (record { show_pix = false; show_card = true; variation_threshold_pct = some 5000 }) refl

-- A digest of the url that is cut to no character.
abbrev no_digest : String → String
no_digest url = ""

abbrev ssd : String
ssd = "ssd"

abbrev site : String
site = "kabum"

abbrev alice : Identity
alice = record {
  id = "a";
  name = "alice";
  role = "user";
  email = some "alice@kerdoos";
  password_hash = none;
}

abbrev alice_admin : Identity
alice_admin = record alice { role = "admin" }

ensure_owner-Ensures_example :
    Unique is_alike (ensure_owner alice_admin (new_owner alice ∷ [])).0
    × Ensures alice_admin (new_owner alice ∷ []) (ensure_owner alice_admin (new_owner alice ∷ []))
unfolding some_in
ensure_owner-Ensures_example = ensure_owner-Ensures alice_admin (new_owner alice ∷ []) (refl, tt)
