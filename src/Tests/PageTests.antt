-- ===== src/Tests/PageTests.antt =====
-- Lists, money columns and settings at concrete inputs.
use mathlib.Core.List.{Perm}
use gameclub_backend.Prelude.{
  ℕ, ◌≡◌, refl, none, some, Bool, true, false, List, [], ◌∷◌, arith, leb, ltb, codes, ◌==◌,
  if◌then◌else◌, Bool-cases, inl, inr,
}
use gameclub_backend.Prelude.Int.{pos, negsuc}
use gameclub_backend.Common.Errors.{ok}
use gameclub_backend.Common.Listing.{Scan, select, list_page, order_by, place}
use gameclub_backend.Common.Listing.Pages.{
  Reorders, Apart, all_pages, Sorted, all_pages-Sorted, read_pages,
}
use gameclub_backend.Common.Pagination.{page_of, paginate, skip, total_pages}
use gameclub_backend.Money.{integer}
use gameclub_backend.Money.Column.{
  from_column, to_column, from_column-to_column, parse_int, skip_spaces, signed_prefix, take_digits,
}
use gameclub_backend.Money.Text.{numeral_value}
use gameclub_backend.Entities.Club.{DebtTransaction}
use gameclub_backend.Debt.{ledger_sum}
use gameclub_backend.Debt.Service.{get_ledger}
use gameclub_backend.Debt.Statement.{entry_of, total, newer, get_ledger-ledger_sum}
use gameclub_backend.Config.{
  Text, Environment, production, validate_env, auth_config, database_config, is_port, includes,
  is_valid, read_node_env, check_production, weak, starts_with, same_codes,
}
use gameclub_backend.Config.Secrets.{IsStrong, validate_env-IsStrong}
use gameclub_backend.Tests.DebtTests.{paid_off}

leb_total : (a b : ℕ) → leb a b ≡ false → leb b a ≡ true
leb_total a b h = ground arith

leb_trans : (a b c : ℕ) → leb a b ≡ true → leb b c ≡ true → leb a c ≡ true
leb_trans a b c h k = ground arith

abbrev numbers : List ℕ
numbers = 4 ∷ 9 ∷ 1 ∷ 3 ∷ 2 ∷ []

abbrev small : ℕ → Bool
small n = ltb n 5

-- The second page's query finds two rows the other way round.
abbrev found_order : ℕ → Scan ℕ
found_order page (a ∷ b ∷ rows) = if page == 2 then b ∷ a ∷ rows else a ∷ b ∷ rows
found_order page rows = rows

same_rows : {A : Type 0} → (rows : List A) → Reorders rows rows
same_rows [] = Reorders.nothing
same_rows (r ∷ rows) = Reorders.keeps r (same_rows rows)

finds_small : (page : ℕ) → Reorders (select small numbers) (found_order page (select small numbers))
unfolding select
finds_small page = elim (Bool-cases (page == 2)) [
  | inl e ↦ rw e (Reorders.swaps 4 1 (3 ∷ 2 ∷ []))
  | inr e ↦ rw e (same_rows (4 ∷ 1 ∷ 3 ∷ 2 ∷ []))
]

numbers-Apart : Apart leb (select small numbers)
unfolding select
numbers-Apart = ((refl, (refl, (refl, tt))), ((refl, (refl, tt)), ((refl, tt), (tt, tt))))

all_pages-Sorted_example :
    Perm
      (all_pages (λ q. list_page small leb (found_order q.page) numbers q) 3)
      (select small numbers)
    × Sorted leb (all_pages (λ q. list_page small leb (found_order q.page) numbers q) 3)
all_pages-Sorted_example =
    all_pages-Sorted leb leb_total leb_trans small numbers found_order finds_small numbers-Apart 3
      (omega arith)

in_order :
    all_pages (λ q. list_page small leb (found_order q.page) numbers q) 3 ≡ 1 ∷ 2 ∷ 3 ∷ 4 ∷ []
unfolding all_pages read_pages list_page select order_by place page_of paginate skip total_pages
in_order = refl

abbrev as_stored : ℕ → Scan DebtTransaction
as_stored page rows = rows

distinct_times : Apart newer (select (entry_of 21) paid_off.ledger)
unfolding select
distinct_times = ((refl, tt), (tt, tt))

get_ledger-ledger_sum_example :
    (total (all_pages (λ q. get_ledger 21 (as_stored q.page) q paid_off) 2)
      ≡ ledger_sum 21 paid_off.ledger)
    × Sorted newer (all_pages (λ q. get_ledger 21 (as_stored q.page) q paid_off) 2)
get_ledger-ledger_sum_example =
    get_ledger-ledger_sum 21 2 paid_off as_stored (omega arith)
      (λ page. same_rows (select (entry_of 21) paid_off.ledger)) distinct_times

from_column-to_column_example :
    from_column (to_column (some (negsuc 149))) ≡ some (integer (negsuc 149))
from_column-to_column_example = from_column-to_column (some (negsuc 149)) refl

-- `parseInt` stops at the first character that is no digit.
parses : parse_int (codes " +12a3") ≡ integer (pos 12)
unfolding parse_int skip_spaces signed_prefix take_digits numeral_value
parses = refl

abbrev secret : Text
secret = codes "0123456789abcdef0123456789abcdef"

abbrev env : Environment
env = record {
  node_env = some (codes "production");
  port = some (codes "4040");
  api_prefix = none;
  api_version = none;
  cors_origins = none;
  trust_proxy = none;
  db_host = some (codes "db");
  db_port = some (codes "5432");
  db_username = some (codes "club");
  db_password = some (codes "pw");
  db_database = some (codes "club");
  db_synchronize = none;
  db_logging = none;
  jwt_access_secret = some secret;
  jwt_refresh_secret = some secret;
  jwt_access_ttl = none;
  jwt_refresh_ttl = none;
  jwt_refresh_ttl_ms = none;
  cookie_domain = none;
  cookie_secure = none;
}

passes : validate_env parse_int env ≡ ok production
unfolding validate_env is_valid is_port read_node_env check_production weak includes starts_with
    same_codes parse_int skip_spaces signed_prefix take_digits numeral_value
passes = refl

validate_env-IsStrong_example :
    (some secret ≡ some (auth_config env).access_secret)
    × IsStrong (auth_config env).access_secret
    × (some secret ≡ some (auth_config env).refresh_secret)
    × IsStrong (auth_config env).refresh_secret
    × ((database_config env).synchronize ≡ false)
    × (is_port parse_int (some (codes "4040")) ≡ true)
    × (is_port parse_int (some (codes "5432")) ≡ true)
validate_env-IsStrong_example = validate_env-IsStrong parse_int env passes
