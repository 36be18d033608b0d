-- ===== src/Repository/Models/Mapper.antt =====
-- `toUserModel` and `toDomainUser`: what a row keeps on its way through the domain type.
use storemesh_user_service.Base.{◌≡◌, ap, ◌∙◌, [], true, false, some, arith}
use storemesh_user_service.Go.Text.{text, ◌==◌}
use storemesh_user_service.Go.Text.Laws.{eq_iff}
use storemesh_user_service.Go.Action.{ok, map_ok}
use storemesh_user_service.Repository.Models.{
  Uuids, UuidLaws, UserModel, to_user_model, to_domain_user, parse_user_id, id_of, model_of,
  status_of,
}

module _ {S : Type 0} (uuids : Uuids S) (laws : UuidLaws uuids) where
  id_of-to_string : (m : UserModel) → id_of uuids (uuids.to_string m.id) ≡ ok m.id
  unfolding parse_user_id
  id_of-to_string m = ground (
    arith,
    eq_iff (uuids.to_string m.id) (text ""),
    laws.to_string_given m.id,
    laws.parse_to_string m.id,
  )

  -- A row that is not deleted and active at once comes back from its domain user with every column,
  -- and without its roles.
  pub to_user_model-to_domain_user :
      (m : UserModel)
      → (m.deleted ≡ true → m.is_active ≡ false)
      → to_user_model uuids (some (to_domain_user uuids m)) ≡ ok (record m { roles = [] })
  unfolding to_user_model to_domain_user status_of ◌==◌
  to_user_model-to_domain_user m h =
      ap (map_ok (model_of uuids (to_domain_user uuids m))) (id_of-to_string m) ∙ ground arith
