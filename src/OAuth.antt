-- ===== src/OAuth.antt =====
-- src/modules/users/oauth/oauth.service.ts: the accounts of OAuth providers that users linked.
pub mod Strategies
use nestjs_auth_backend.Base.{
  ℕ, Bool, ◌&&◌, not, Option, none, some, String, List, ◌==◌, str_eq, is_some, find, select,
  insert_row, delete_where,
}
use nestjs_auth_backend.Errors.{oauth_provider_not_found}
use nestjs_auth_backend.Entities.{UserAccountOAuth, OAuthProvider, provider_eq, User}
use nestjs_auth_backend.World.{
  Db, Action, ◌>>=◌, ◌>>◌, pure, query, execute, draw, try_catch, throw_if, direct, Conn,
}
use nestjs_auth_backend.Users.Lookup.{user_by_id}

-- `OAuthProfile` (src/common/interfaces/oauth-profile.interface.ts)
pub record OAuthProfile : Type 0 where
  pub provider : OAuthProvider
  pub provider_id : String
  pub email : String
  pub name : String
  pub lastname : Option String
  pub avatar : Option String
  pub is_active : Bool

abbrev pub is_account : String → OAuthProvider → UserAccountOAuth → Bool
is_account provider_id provider o =
    str_eq o.provider_id provider_id && provider_eq o.provider provider

abbrev pub oauth_account : String → OAuthProvider → Db → Option UserAccountOAuth
oauth_account provider_id provider d = find (is_account provider_id provider) d.oauths

abbrev pub insert_oauth : Conn → ℕ → OAuthProfile → Option UserAccountOAuth → Action (Unit {0})
insert_oauth repo user_id profile (some o) = pure tt
insert_oauth repo user_id profile none = do
  id ← draw
  try_catch (
      execute repo (λ d. record d {
        oauths =
            insert_row
              (record {
                id = id;
                user = user_id;
                provider = profile.provider;
                provider_id = profile.provider_id;
                avatar = profile.avatar;
                is_active = profile.is_active;
              })
              d.oauths;
      }))

-- `create`; its lookup stands outside the `try`.
unfoldable pub create_oauth : Conn → ℕ → OAuthProfile → Action (Unit {0})
create_oauth repo user_id profile =
    query direct (oauth_account profile.provider_id profile.provider)
    >>= insert_oauth repo user_id profile

-- `findAllOAuthWithUser`
unfoldable pub find_all_oauth_with_user : ℕ → Action (List UserAccountOAuth)
find_all_oauth_with_user user_id =
    try_catch (query direct (λ d. select (λ o. o.user == user_id) d.oauths))

abbrev pub owner_of : Db → Option UserAccountOAuth → Option User
owner_of d none = none
owner_of d (some o) = user_by_id o.user d

-- `getUserWithProviderAndProviderId`
unfoldable pub get_user_with_provider : String → OAuthProvider → Action (Option User)
get_user_with_provider provider_id provider =
    try_catch (query direct (λ d. owner_of d (oauth_account provider_id provider d)))

abbrev pub is_linked : ℕ → OAuthProvider → UserAccountOAuth → Bool
is_linked user_id provider o = o.user == user_id && provider_eq o.provider provider

-- `delete`
unfoldable pub delete_oauth : ℕ → OAuthProvider → Action (Unit {0})
delete_oauth user_id provider = do
  found ← try_catch (query direct (λ d. find (is_linked user_id provider) d.oauths))
  throw_if (not (is_some found)) oauth_provider_not_found
  try_catch (
      execute direct
        (λ d. record d { oauths = delete_where (is_linked user_id provider) d.oauths }))
