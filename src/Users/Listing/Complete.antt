-- ===== src/Users/Listing/Complete.antt =====
-- The pages of `findAll` of src/modules/users/users.service.ts together.
use nestjs_auth_backend.Base.{
  ℕ, zero, suc, ◌*◌, ◌≤◌, ◌≡◌, refl, ap, ◌∙◌, Option, some, List, [], ◌++◌, arith, length,
}
use nestjs_auth_backend.Entities.{User}
use nestjs_auth_backend.World.{World, Db, Result, ok, err}
use nestjs_auth_backend.DynamicQuery.{
  nat, Fields, Operator, Direction, FindOptions, Repository, get_safe_select, options_of,
}
use nestjs_auth_backend.DynamicQuery.Pages.{
  take, drop, take_all, first_pages, first_pages_lem, ceil-covers, IsPaged, find_and_count-page,
}
use nestjs_auth_backend.Users.Listing.{DynamicQueryDto, UserPage, user_fields, page_count, find_all}

abbrev users_of : Result UserPage → List User
users_of (ok page) = page.users
users_of (err e) = []

-- A request for one page.
abbrev at_page : DynamicQueryDto → ℕ → ℕ → DynamicQueryDto
at_page q page limit = record q { page = nat page; limit = nat limit }

-- The users of the pages 1, ..., k, each asked for in the same world.
abbrev pub users_of_pages : Repository User → DynamicQueryDto → ℕ → ℕ → World → List User
users_of_pages repo q limit zero w = []
users_of_pages repo q limit (suc k) w =
    users_of_pages repo q limit k w ++ users_of (find_all repo (at_page q (suc k) limit) w).0

module _ (repo : Repository User)
    (matches : Option (List (Fields Operator)) → Fields Direction → Db → List User)
    (q : DynamicQueryDto) (limit : ℕ) (o : FindOptions) (w : World) (paged : IsPaged repo matches)
    (calm : w.faults ≡ []) (large : 10 ≤ limit)
    (sound : options_of repo q.filters 1 limit q.sort (get_safe_select repo user_fields)
      ≡ some o) where
  abbrev rows : List User
  rows = matches o.where_any o.order w.db

  page_of :
      (page : ℕ)
      → (find_all repo (at_page q (suc page) limit) w).0
        ≡ ok (record {
          users = take limit (drop (page * limit) rows);
          pages = page_count (length rows) (nat limit);
          total_items = length rows;
        })
  unfolding find_all
  page_of page = ground (
    arith,
    find_and_count-page repo matches q.filters page limit q.sort (get_safe_select repo user_fields)
        o w paged calm large sound,
  )

  pages_of : (k : ℕ) → users_of_pages repo q limit k w ≡ first_pages limit k rows
  pages_of zero = refl
  pages_of (suc k) =
      ap (λ xs. xs ++ users_of (find_all repo (at_page q (suc k) limit) w).0) (pages_of k)
      ∙ ap (λ r. first_pages limit k rows ++ users_of r) (page_of k)

  -- Where no external call fails, for a repository that cuts pages out as TypeORM documents it, a
  -- page size of at least 10, and filters and an order that `findAndCount` can build: the first
  -- page of `findAll` is answered, with the number of all matching users, and the users of as many
  -- pages as it says, one after the other, are all matching users in their order.
  pub find_all_complete :
      (out : UserPage) × ((find_all repo (record q { page = nat 1; limit = nat limit }) w).0
        ≡ ok out)
      × (out.total_items ≡ length (matches o.where_any o.order w.db))
      × (users_of_pages repo q limit out.pages w ≡ matches o.where_any o.order w.db)
  find_all_complete =
      let count = page_count (length rows) (nat limit) in
      (
        record {
          users = take limit (drop (0 * limit) rows);
          pages = page_count (length rows) (nat limit);
          total_items = length rows;
        },
        page_of 0,
        refl,
        pages_of count
            ∙ first_pages_lem limit count rows
            ∙ take_all (count * limit) rows (ceil-covers (length rows) limit (omega arith)),
      )
