-- ===== src/Service/Users/Tests.antt =====
-- The methods on accounts and roles at concrete inputs, in the world of Service.Sample.
use storemesh_user_service.Base.{
  ℕ, ◌+◌, ◌-◌, ◌*◌, ◌/◌, ◌≤◌, ◌<◌, ◌≡◌, ◌⊎◌, ◌++◌, refl, ◌↔◌, [], ◌∷◌, arith,
}
use storemesh_user_service.Base.Int.{ℤ, pos, pos_part}
use storemesh_user_service.Go.Text.{Text, text, ◌==◌, trim_space, to_lower, len, Unicode}
use storemesh_user_service.Go.Text.Laws.{UnicodeLaws}
use storemesh_user_service.Go.Errors.{Error, other}
use storemesh_user_service.Go.Action.{Result, ok, err, raise}
use storemesh_user_service.Domain.{
  User, CreateUserRequest, UpdateUserRequest, ListUsersRequest, ListUsersResponse,
}
use storemesh_user_service.Service.{UserService, normalize_email, context}
use storemesh_user_service.Service.Sample.{
  World, alice, sample_service, sample_world, sample_platform, map_store,
}
use storemesh_user_service.Service.Users.{
  Float64, new_user, create_user, update_user, list_users, assign_role, revoke_role, delete_user,
}
use storemesh_user_service.Service.Users.Roles.{revocation_first}
use storemesh_user_service.Service.Users.Accounts.{
  Created, create_user_iff, Updated, update_user_ok, create_user_four_characters,
}
use storemesh_user_service.Service.Users.Pages.{FloatLaws, IsPaged, list_users_pages}

abbrev same_case : Unicode
same_case = sample_platform.unicode

same_case_laws : UnicodeLaws same_case
same_case_laws = record { to_lower_idem = λ c. refl; to_lower_space = λ c. refl }

abbrev registration : CreateUserRequest
registration = record {
  email = text " b@b.c";
  password = text "longenough";
  first_name = text " Bo ";
  last_name = text "B";
  phone = text "";
}

abbrev registered : User
registered = record {
  id = text "u2";
  email = text "b@b.c";
  password_hash = text "#longenough";
  first_name = text "Bo";
  last_name = text "B";
  phone = text "";
  status = text "active";
  roles = record { id = text ""; name = text "customer"; description = text "" } ∷ [];
  created_at = pos 0;
  updated_at = pos 0;
}

registers : create_user sample_service registration sample_world ≡ (ok registered, sample_world)
unfolding create_user normalize_email ◌==◌ trim_space to_lower len
registers = refl

create_user_iff_example :
    (create_user sample_service registration sample_world ≡ (ok registered, sample_world))
    ↔ Created sample_service registration sample_world registered sample_world
create_user_iff_example =
    create_user_iff sample_service registration sample_world registered sample_world

abbrev change : UpdateUserRequest
change = record { id = text " u1"; first_name = text "Alan"; last_name = text " "; phone = text "" }

abbrev changed : User
changed = record alice { first_name = text "Alan" }

updates : update_user sample_service change sample_world ≡ (ok changed, sample_world)
unfolding update_user ◌==◌ trim_space
updates = refl

update_user_ok_example : Updated sample_service change sample_world changed sample_world
update_user_ok_example =
    update_user_ok sample_service change sample_world changed sample_world updates

-- Four times "é".
abbrev four_characters : CreateUserRequest
four_characters = record registration { password = 0xe9 ∷ 0xe9 ∷ 0xe9 ∷ 0xe9 ∷ [] }

abbrev hashed : CreateUserRequest → Result Text
hashed req = (sample_service.platform.generate_from_password req.password sample_world).0

abbrev short_user : Text → User
short_user hash = new_user sample_service (text "b@b.c") hash registration

create_user_four_characters_example :
    ((hash : Text) × (hashed four_characters ≡ ok hash)
      × (create_user sample_service four_characters sample_world
          ≡ sample_service.users.create (short_user hash) sample_world))
    ⊎ ((e : Error) × (hashed four_characters ≡ err e)
        × (create_user sample_service four_characters sample_world
            ≡ (err (context (text "hash password: ") e), sample_world)))
unfolding normalize_email trim_space to_lower
create_user_four_characters_example =
    create_user_four_characters sample_service four_characters sample_world (λ h. cc h)
      (omega arith) (omega arith)

four_characters_pass : create_user sample_service four_characters sample_world ≡ (
  ok (record registered { password_hash = text "#" ++ four_characters.password }),
  sample_world,
)
unfolding create_user normalize_email ◌==◌ trim_space to_lower len
four_characters_pass = refl

-- Sessions that cannot be deleted.
abbrev down : Error
down = other (text "redis: connection refused")

abbrev sessionless : UserService World
sessionless = record sample_service {
  sessions = record map_store { delete_all_for_user = λ id. raise down };
}

revocation_first_example :
    (assign_role sessionless (text "u1") (text "admin") sample_world
      ≡ (err (context (text "revoke user sessions: ") down), sample_world))
    × (revoke_role sessionless (text "u1") (text "admin") sample_world
        ≡ (err (context (text "revoke user sessions: ") down), sample_world))
    × (delete_user sessionless (text "u1") sample_world
        ≡ (err (context (text "revoke user sessions: ") down), sample_world))
unfolding trim_space to_lower
revocation_first_example =
    revocation_first sessionless (text "u1") (text "admin") sample_world down refl (λ h. cc h)
      (λ h. cc h)

-- Exact quotients in place of floats.
abbrev exact : Float64 (ℕ × ℕ)
exact = record {
  of_int = λ z. (pos_part z, 1);
  divide = λ a b. (a.0, b.0);
  ceil = λ q. ((q.0 + q.1 - 1) / q.1, 1);
  to_int = λ q. pos q.0;
}

exact_laws : FloatLaws exact
exact_laws = record { ceil_exact = λ a b small low high. refl }

abbrev query : ListUsersRequest
query = record { status = text ""; page = pos 0; per_page = pos 1000 }

abbrev listed : ListUsersResponse
listed = record {
  users = alice ∷ [];
  total_items = pos 1;
  total_pages = pos 1;
  page = pos 1;
  per_page = pos 20;
}

lists : list_users sample_service exact query sample_world ≡ (ok listed, sample_world)
unfolding list_users
lists = refl

list_users_pages_example :
    IsPaged query (pos 1) (pos 20)
    × (sample_service.users.list
          (record { status = text ""; page = pos 1; per_page = pos 20 })
          sample_world
        ≡ (ok (alice ∷ [], pos 1), sample_world))
    × (pages : ℕ) × (size : ℕ) × ◌≡◌ {A = ℤ} (pos 1) (pos pages)
    × ◌≡◌ {A = ℤ} (pos 20) (pos size)
    × (1 ≤ pages * size)
    × (pages * size < 1 + size)
list_users_pages_example =
    list_users_pages sample_service exact exact_laws query sample_world listed sample_world 1 lists
      refl (omega arith)
