-- ===== src/Requests.antt =====
-- What the handlers read of an HTTP request: src/common/helpers/request-info.helper.ts,
-- src/common/helpers/session.helper.ts, and the transforms of the DTOs in src/modules/auth/dto.
pub mod Location
pub mod Rules
use Prim.Native.Char.{Char, code}
use Prim.Native.String.{char_at}
use nestjs_auth_backend.Base.{
  ◌-◌, Bool, true, false, ◌||◌, Option, none, some, String, List, [], ◌∷◌, if◌then◌else◌, ◌==◌,
  str_eq,
}
use nestjs_auth_backend.Permissions.{trim, split_code, is_empty}
use nestjs_auth_backend.World.{Action, ◌>>=◌, pure, draw, Env}
use nestjs_auth_backend.UserSessions.{ClientInfo}
use nestjs_auth_backend.Auth.SignIn.{Request}
use nestjs_auth_backend.PasswordPolicy.{is_upper}
use nestjs_auth_backend.Guards.{Http}

-- A request as it comes in, with the verdict of the validation pipe on its body.
pub record Incoming : Type 0 where
  pub http : Http
  pub forwarded_for : Option String
  pub remote_address : Option String
  pub user_agent : Option String
  pub device_cookie : Option String
  pub is_valid : Bool

abbrev pub or_empty : Option String → String
or_empty none = ""
or_empty (some s) = s

abbrev pub head_text : List String → String
head_text [] = ""
head_text (s ∷ rest) = s

-- `a || b` of texts
abbrev pub or_text : String → String → String
or_text a b = if is_empty a then b else a

-- `s` behind the prefix `p`, if it starts with it.
abbrev pub after_prefix : String → String → Option String
after_prefix String.[] s = some s
after_prefix (String.◌∷◌ c p) String.[] = none
after_prefix (String.◌∷◌ c p) (String.◌∷◌ d s) = if code c == code d then after_prefix p s else none

-- `s.replace(p, '')`: the first occurrence.
abbrev pub remove_first : String → String → String
remove_first p String.[] = String.[]
remove_first p (String.◌∷◌ c s) =
    let rest = remove_first p s in
    elim (after_prefix p (String.◌∷◌ c s)) [ none ↦ String.◌∷◌ c rest | some t ↦ t ]

-- `s.includes(p)`
abbrev pub includes : String → String → Bool
includes p String.[] = is_empty p
includes p (String.◌∷◌ c s) =
    (elim (after_prefix p (String.◌∷◌ c s)) [ none ↦ false | some t ↦ true ]) || includes p s

-- `getIPFromRequest`
unfoldable pub get_ip : Incoming → String
get_ip r =
    let ip =
      or_text (head_text (split_code b',' (or_empty r.forwarded_for)))
        (or_empty r.remote_address) in
    trim (remove_first "::ffff:" (if str_eq ip "::1" then "127.0.0.1" else ip))

-- `getClientInfo`, less the browser, the system and the location, which no table keeps.
unfoldable pub get_client_info : Env → Incoming → ClientInfo
unfolding get_ip
get_client_info env r =
    let agent = or_empty r.user_agent in
    record {
      ip = get_ip r;
      user_agent = agent;
      device =
          or_text (or_empty (env.device_type agent))
            (if includes "Mobile" agent then "Mobile" else "Desktop");
    }

unfoldable pub request_of : Env → Incoming → Request
unfolding get_ip get_client_info
request_of env r = record {
  ip = get_ip r;
  user_agent = r.user_agent;
  client = get_client_info env r;
}

-- `ensureDeviceId`: the device of the cookie, or a new one.
unfoldable pub ensure_device_id : Env → Incoming → Action String
ensure_device_id env r =
    if is_empty (or_empty r.device_cookie)
    then (draw >>= λ seed. pure (env.uuidv7 seed))
    else pure (or_empty r.device_cookie)

-- `toLowerCase`, of ASCII letters.
abbrev pub lower_char : Char → Char
lower_char c = if is_upper (code c) then char_at "abcdefghijklmnopqrstuvwxyz" (code c - b'A') else c

abbrev pub to_lower_case : String → String
to_lower_case String.[] = String.[]
to_lower_case (String.◌∷◌ c s) = String.◌∷◌ (lower_char c) (to_lower_case s)

-- The transform of `LoginDto.email`.
abbrev pub login_email : String → String
login_email s = to_lower_case (trim s)

-- The transform of `CreateUserDto.email`.
abbrev pub user_email : String → String
user_email s = trim (to_lower_case s)
