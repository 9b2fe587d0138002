-- ===== src/Tests/Tables.antt =====
-- The theorems on passwords' rules, permissions, failed sign-ins and pages at concrete inputs.
use nestjs_auth_backend.Base.{
  ℕ, ◌≡◌, ◌↔◌, refl, true, false, Bool, Option, some, String, List, [], ◌∷◌, ◌&&◌, not, arith,
  length, ◌==◌,
}
use Prim.Native.Char.{code}
use nestjs_auth_backend.Entities.{User, AuthPasswordPolicy}
use nestjs_auth_backend.World.{Db, Env, ok}
use nestjs_auth_backend.PasswordPolicy.{check_policy}
use nestjs_auth_backend.PasswordPolicy.Laws.{IsAccepted, check_policy-IsAccepted}
use nestjs_auth_backend.Permissions.{is_empty, parse_permissions}
use nestjs_auth_backend.Permissions.RoundTrip.{
  array_text, HasNo, IsPlain, parse_permissions-array_text,
}
use nestjs_auth_backend.Attempts.Refinement.{
  Attempt, failed, cleared, perform_all, note_all, ledger_of, IsTable, perform_all-note_all,
}
use nestjs_auth_backend.DynamicQuery.{
  nat, text, Tree, leaf, Fields, no_field, field, Operator, i_like, Direction, asc, desc,
  FindOptions, Repository,
}
use nestjs_auth_backend.DynamicQuery.Paths.{Written, at_path-build_nested}
use nestjs_auth_backend.DynamicQuery.Pages.{take, drop}
use nestjs_auth_backend.Users.Listing.{DynamicQueryDto, UserPage, find_all}
use nestjs_auth_backend.Users.Listing.Complete.{users_of_pages, find_all_complete}
use nestjs_auth_backend.Tests.Data.{toy, world, store, ana, bob}

abbrev policy : AuthPasswordPolicy
policy = record {
  min_length = 8;
  max_length = 20;
  require_uppercase = true;
  require_lowercase = true;
  require_numbers = true;
  require_special = false;
  is_active = true;
}

check_policy-IsAccepted_example :
    (check_policy "Secret2026" (some policy) ≡ true) ↔ IsAccepted policy "Secret2026"
check_policy-IsAccepted_example = check_policy-IsAccepted "Secret2026" policy

abbrev quoting_env : Env
quoting_env = record toy { pg_array = array_text }

-- The Boolean form of `HasNo`.
abbrev has_no : ℕ → String → Bool
has_no k String.[] = true
has_no k (String.◌∷◌ c s) = not (code c == k) && has_no k s

has_no-HasNo : (k : ℕ) (s : String) → has_no k s ≡ true → HasNo k s
has_no-HasNo k String.[] h = tt
has_no-HasNo k (String.◌∷◌ c s) h = (ground (arith, h), has_no-HasNo k s (ground (arith, h)))

plain :
    (p : String)
    → is_empty p ≡ false
    → has_no b',' p ≡ true
    → has_no b'"' p ≡ true
    → has_no b'\\' p ≡ true
    → IsPlain p
plain p e h k m = (e, has_no-HasNo _ p h, has_no-HasNo _ p k, has_no-HasNo _ p m)

parse_permissions-array_text_example :
    parse_permissions (quoting_env.pg_array ("users:read:id" ∷ "{all}" ∷ []))
    ≡ "users:read:id" ∷ "{all}" ∷ []
parse_permissions-array_text_example =
    parse_permissions-array_text quoting_env ("users:read:id" ∷ "{all}" ∷ []) (λ xs. refl)
      (plain "users:read:id" refl refl refl refl, (plain "{all}" refl refl refl refl, tt))

abbrev day : List Attempt
day = failed "ana@x.org" "::1" 2_000 ∷ failed "bob@x.org" "::1" 3_000 ∷ cleared "ana@x.org" ∷ []

world-IsTable : IsTable world
world-IsTable = (((refl, tt), (tt, tt)), (omega arith, (omega arith, tt)))

perform_all-note_all_example :
    ledger_of (perform_all day world).db "bob@x.org" ≡ note_all day (ledger_of store) "bob@x.org"
perform_all-note_all_example = perform_all-note_all day world "bob@x.org" refl world-IsTable

abbrev by_email : Fields Direction
by_email = field "email" (leaf desc) no_field

abbrev by_role_id : Fields Direction
by_role_id =
    field "email" (leaf desc)
      (field "role" (Tree.object (field "id" (leaf desc) no_field)) no_field)

abbrev by_role_id_and_name : Fields Direction
by_role_id_and_name = field "email" (leaf desc) (
    field "role" (Tree.object (field "id" (leaf desc) (field "name" (leaf asc) no_field))) no_field)

at_path-build_nested_example : Written "role" ("name" ∷ []) asc by_role_id by_role_id_and_name
at_path-build_nested_example =
    at_path-build_nested "role" ("name" ∷ []) asc by_role_id by_role_id_and_name (refl, (refl, tt))
      refl

-- A repository that holds the users in the order of the table.
abbrev all_users : Option (List (Fields Operator)) → Fields Direction → Db → List User
all_users conditions order d = d.users

abbrev users_repo : Repository User
users_repo = record {
  columns = "id" ∷ "name" ∷ "email" ∷ [];
  relations = "role" ∷ "identityType" ∷ [];
  properties = "id" ∷ "name" ∷ "email" ∷ "role" ∷ [];
  find_and_count_rows = λ o d. (
    take o.take (drop o.skip (all_users o.where_any o.order d)),
    length (all_users o.where_any o.order d),
  );
}

abbrev ana_query : DynamicQueryDto
ana_query = record {
  page = nat 1;
  limit = nat 10;
  sort = some "email desc";
  filters = ("name", text "a") ∷ [];
}

abbrev ana_options : FindOptions
ana_options = record {
  where_any = some (field "name" (leaf (i_like (text "a"))) no_field ∷ []);
  order = by_email;
  relations = some ("role" ∷ []);
  skip = 0;
  take = 10;
  select_only = some ("id" ∷ "name" ∷ "email" ∷ "role" ∷ "role" ∷ []);
}

find_all_complete_example :
    (out : UserPage) × ((find_all users_repo ana_query world).0 ≡ ok out)
    × (out.total_items ≡ 2)
    × (users_of_pages users_repo ana_query 10 out.pages world ≡ ana ∷ bob ∷ [])
find_all_complete_example =
    find_all_complete users_repo all_users ana_query 10 ana_options world (λ o d. refl) refl
      (omega arith) refl
