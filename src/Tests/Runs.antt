-- ===== src/Tests/Runs.antt =====
-- Runs of the permissions, the blocks and the statuses of errors.
use nestjs_auth_backend.Base.{◌≡◌, refl, none, some, [], ◌∷◌}
use nestjs_auth_backend.Permissions.{parse_permissions}
use nestjs_auth_backend.Attempts.{calculate_block}

quoted_set :
    parse_permissions " {\"users:read\", roles:write } " ≡ "users:read" ∷ "roles:write" ∷ []
unfolding parse_permissions
quoted_set = refl

empty_set : parse_permissions "{}" ≡ []
unfolding parse_permissions
empty_set = refl

four_failures : calculate_block 1_000 4 ≡ none
unfolding calculate_block
four_failures = refl

ten_failures : calculate_block 1_000 10 ≡ some 1_801_000
unfolding calculate_block
ten_failures = refl
