-- ===== src/Panel/Users.antt =====
-- The table user_list of vps/store.py.
pub mod Refinement
use kui_local_multi_exit.Prelude.{
  ℕ, String, ◌==◌, Bool, true, false, Option, none, some, List, [], ◌∷◌, if◌then◌else◌,
}
use kui_local_multi_exit.Prelude.Dict
use kui_local_multi_exit.Prelude.Dict.{Dict}
use kui_local_multi_exit.Prelude.Int.{ℤ, pos}
use kui_local_multi_exit.Prelude.Exec.{
  Exec, pure, raise, gets, modify, integrity_error, key_error, ◌>>=◌, ◌>>◌,
}
use kui_local_multi_exit.Json.{Json, str, num}
use kui_local_multi_exit.Panel.{Row, write_fields, check_fields, check_values, is_some}

-- user_list by user names, with the other columns.
abbrev pub Users : Type 0
Users = Dict Row

abbrev pub user_fields : List String
user_fields =
    "password" ∷ "enable" ∷ "traffic_used" ∷ "traffic_limit" ∷ "expire_time" ∷ "sub_token" ∷ []

-- The row that `add_user` inserts, with the defaults of the table; `token` is what
-- `secrets.token_urlsafe(16)` draws.
abbrev pub new_user : String → ℤ → ℤ → String → ℕ → Row
new_user password_hash traffic_limit expire_time token now =
    ("password", str password_hash)
    ∷ ("enable", num (pos 1))
    ∷ ("traffic_used", num (pos 0))
    ∷ ("traffic_limit", num traffic_limit)
    ∷ ("expire_time", num expire_time)
    ∷ ("sub_token", str token)
    ∷ ("created_at", num (pos now))
    ∷ []

-- UPDATE … WHERE username = ?
unfoldable pub update_where : String → (Row → Row) → Users → Users
update_where name f [] = []
update_where name f ((k, row) ∷ users) =
    let rest = update_where name f users in if k == name then (k, f row) ∷ rest else (k, row) ∷ rest

abbrev pub get_user : String → Users → Option Row
get_user name = Dict.get name

-- INSERT, by the row that has the key already
abbrev insert : String → Row → Option Row → Exec Users Unit
insert name row (some old) = raise (integrity_error "UNIQUE constraint failed: user_list.username")
insert name row none = modify (Dict.put name row)

-- The parameters of the INSERT that are numbers.
abbrev pub given_limits : ℤ → ℤ → Row
given_limits limit expires = ("traffic_limit", num limit) ∷ ("expire_time", num expires) ∷ []

unfoldable pub add_user : String → String → ℤ → ℤ → String → ℕ → Exec Users (Option Row)
add_user name password_hash traffic_limit expire_time token now = do
  check_values true (given_limits traffic_limit expire_time)
  taken ← gets (Dict.get name)
  insert name (new_user password_hash traffic_limit expire_time token now) taken
  gets (get_user name)

abbrev or_key_error : String → Option Row → Exec Users (Option Row)
or_key_error name none = raise (key_error name)
or_key_error name (some row) = pure (some row)

unfoldable pub update_user : String → Row → Exec Users (Option Row)
update_user name fields = do
  check_fields user_fields fields
  there ← gets (get_user name)
  check_values (is_some there) fields
  modify (update_where name (write_fields fields))
  user ← gets (get_user name)
  or_key_error name user

unfoldable pub delete_user : String → Exec Users (Option Row)
delete_user name = do modify (Dict.pop name); pure none
