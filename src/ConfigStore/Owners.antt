-- ===== src/ConfigStore/Owners.antt =====
-- packages/kerdoos/src/kerdoos/registry/sqlite_store.py: ensure_owner and get_owner_role, on the owners
-- table. Names are unique, and emails where there are any.
pub mod Identities
use Prim.{tt, absurd}
use kerdoos.Prelude.{
  ◌⊎◌, inl, inr, ◌≡◌, refl, sym, ap, ◌∙◌, String, Bool, true, false, not, ◌&&◌, ◌||◌, Option, none,
  some, List, [], ◌∷◌, ◌==◌, some_in, if◌then◌else◌, first_if, split_if, arith, eq_iff, eq_refl,
  eq_of_test,
}
use kerdoos.Prelude.Rows.{Unique}
use kerdoos.Scrape.Domain.{Outcome, returned, raised}
use kerdoos.Auth.Store.{Owner}
use kerdoos.ConfigStore.Operations.{config_error}

abbrev pub same_email : Option String → Option String → Bool
same_email none other = false
same_email (some e) none = false
same_email (some e) (some f) = f == e

-- What the caller of ensure_owner gives.
pub record Identity : Type 0 where
  pub id : String
  pub name : String
  pub role : String
  pub email : Option String
  pub password_hash : Option String

-- A row of another owner with the name or the email.
abbrev pub clashes : Identity → Owner → Bool
clashes i o = not (o.id == i.id) && ((o.name == i.name) || same_email i.email o.email)

abbrev pub new_owner : Identity → Owner
new_owner i = record {
  id = i.id;
  name = i.name;
  email = i.email;
  role = i.role;
  active = true;
  password_hash = i.password_hash;
}

abbrev pub rewrite : Identity → Owner → Owner
rewrite i o = record o {
  name = i.name;
  email = i.email;
  role = i.role;
  password_hash = i.password_hash;
}

unfoldable pub rewrite_rows : Identity → List Owner → List Owner
rewrite_rows i [] = []
rewrite_rows i (o ∷ os) = (if o.id == i.id then rewrite i o else o) ∷ rewrite_rows i os

-- INSERT … ON CONFLICT(id) DO UPDATE, under the two unique indexes
unfoldable pub ensure_owner : Identity → List Owner → List Owner × Outcome String
unfolding some_in rewrite_rows
ensure_owner i owners =
    if some_in (clashes i) owners then (owners, raised (config_error i.name)) else (
      if some_in (λ o. o.id == i.id) owners then rewrite_rows i owners else new_owner i ∷ owners,
      returned i.id,
    )

unfoldable pub get_owner_role : String → List Owner → Option String
get_owner_role id [] = none
get_owner_role id (o ∷ os) = if o.id == id then some o.role else get_owner_role id os

-- Two rows that a unique index tells apart.
abbrev pub is_alike : Owner → Owner → Bool
is_alike r t = (t.id == r.id) || (t.name == r.name) || same_email r.email t.email
