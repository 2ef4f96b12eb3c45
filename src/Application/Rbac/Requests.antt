-- ===== src/Application/Rbac/Requests.antt =====
-- Requests of the service of roles one after the other, and what they may not change: the role
-- named `admin` and who holds it.
use fast_stream_template.Common.{
  Bool, List, Option, String, Uuid, ℕ, [], ◌∷◌, find, none, some, str_eq, ◌==◌, true, false, ◌≡◌,
}
use fast_stream_template.Domain.User.{User}
use fast_stream_template.Infrastructure.RoleRepo.{RoleRow, RoleTables}
use fast_stream_template.Application.Rbac.{create_role, default_role_admin}
use fast_stream_template.Application.Rbac.Calls.{Call, run, tables_of}
use fast_stream_template.Application.Rbac.Effects.{holds}

-- A request of the service: a new role, or one of the calls
pub data Request : Type 0 where
  create : (drawn : Uuid) (id_of : ℕ → Uuid) (name : String) (description : Option String) → Request
  call : (users : List User) (id_of : ℕ → Uuid) (c : Call) → Request

-- The tables, which a refused request leaves as they were
abbrev pub after : RoleTables → Option RoleTables → RoleTables
after db none = db
after db (some db') = db'

abbrev pub serve : Request → RoleTables → RoleTables
serve (create drawn id_of name description) db =
    after db (tables_of (create_role drawn id_of name description db))
serve (call users id_of c) db = after db (run users id_of c db)

unfoldable pub serve_all : List Request → RoleTables → RoleTables
serve_all [] db = db
serve_all (q ∷ qs) db = serve_all qs (serve q db)

-- The row that a role's id finds is there and named `admin`.
abbrev pub is_admin : Option RoleRow → Bool
is_admin none = false
is_admin (some row) = str_eq row.name default_role_admin

abbrev pub named_admin : Uuid → RoleTables → Bool
named_admin r db = is_admin (find (λ (row : RoleRow). row.id == r) db.roles)

-- If the role of the id is the one named `admin`, it still is, and its holders still hold it.
abbrev pub Stays : Uuid → RoleTables → RoleTables → Type 0
Stays r db db' =
    named_admin r db ≡ true
    → (named_admin r db' ≡ true) × ((u : Uuid) → holds db u r ≡ true → holds db' u r ≡ true)
