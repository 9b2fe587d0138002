-- ===== src/Users/Listing.antt =====
-- `findAll` of src/modules/users/users.service.ts and `findByUserId` of
-- src/modules/users/session/session.service.ts: lists in pages.
pub mod Complete
use Prim.Native.Nat.{◌/◌}
use nestjs_auth_backend.Base.{
  ℕ, ◌+◌, ◌-◌, Option, none, some, String, List, [], ◌∷◌, if◌then◌else◌, str_eq,
}
use nestjs_auth_backend.Entities.{User, UserSession}
use nestjs_auth_backend.World.{Action, ◌>>=◌, ◌>>◌, pure}
use nestjs_auth_backend.DynamicQuery.{
  Num, nat, Value, number, Filters, Repository, get_safe_select, find_and_count,
}
use nestjs_auth_backend.Users.Lookup.{find_one}

-- `DynamicQueryDto`, its numbers behind `Number(...)`.
pub record DynamicQueryDto : Type 0 where
  pub page : Num
  pub limit : Num
  pub sort : Option String
  pub filters : Filters

pub record UserPage : Type 0 where
  pub users : List User
  pub pages : ℕ
  pub total_items : ℕ

abbrev pub user_fields : List String
user_fields =
    "id" ∷ "avatar" ∷ "name" ∷ "lastname" ∷ "document" ∷ "email" ∷ "role" ∷ "status" ∷ "createdAt"
    ∷ "updatedAt" ∷ "role" ∷ "identityType" ∷ []

-- `Math.ceil(total / limit)`
abbrev pub page_count : ℕ → Num → ℕ
page_count total (nat limit) = (total + (limit - 1)) / limit
page_count total _ = 0

-- `UsersService.findAll`
unfoldable pub find_all : Repository User → DynamicQueryDto → Action UserPage
find_all repo q = do
  found ← find_and_count repo q.filters q.page q.limit q.sort (get_safe_select repo user_fields)
  pure (record { users = found.0; pages = page_count found.1 q.limit; total_items = found.1 })

-- `filters[key] = value`
abbrev pub set_filter : String → Value → Filters → Filters
set_filter key value [] = (key, value) ∷ []
set_filter key value ((k, v) ∷ rest) =
    let later = set_filter key value rest in
    if str_eq k key then (k, value) ∷ rest else (k, v) ∷ later

-- `SessionService.findByUserId`
unfoldable pub find_by_user_id :
    Repository UserSession → DynamicQueryDto → ℕ → Action (List UserSession × ℕ)
find_by_user_id repo q id =
    find_one id
    >> find_and_count repo (set_filter "user.id" (number (nat id)) q.filters) q.page q.limit q.sort
        none
