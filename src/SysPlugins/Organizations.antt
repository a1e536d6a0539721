-- ===== src/SysPlugins/Organizations.antt =====
-- libs/sys-plugins/organization/src/lib/organization.service.ts. A property of a transfer object is
-- `none` where the object does not have it. The id of a new organization is an argument. The query
-- `findAll` only hands a filter to the database and is left out.
pub mod Unique
use oksai_cc_api_server.Base.{
  String, Bool, true, false, not, Option, none, some, if◌then◌else◌, ◌==◌, string_eq, ◌&&◌,
}
use oksai_cc_api_server.Base.Exec.{Result, ok, err, Exec, ◌>>=◌, continue}
use oksai_cc_api_server.Base.Http.{HttpError, bad_request, not_found}
use oksai_cc_api_server.Orm.{
  Repository, create_entity, store_entity, remove_entity, given, given_optional, flushed,
}

pub data OrganizationStatus : Type 0 where
  active suspended inactive : OrganizationStatus

-- the properties that the entity and both transfer objects have as optional ones
pub record OrganizationDetails : Type 0 where
  pub logo : Option String
  pub website : Option String
  pub phone_number : Option String
  pub email : Option String
  pub currency : Option String
  pub time_zone : Option String
  pub address : Option String
  pub city : Option String
  pub country : Option String
  pub postal_code : Option String
  pub description : Option String

pub record Organization : Type 0 where
  pub id : String
  pub tenant_id : String
  pub name : String
  pub slug : String
  pub status : OrganizationStatus
  pub details : OrganizationDetails

pub record CreateOrganizationDto : Type 0 where
  pub name : String
  pub slug : String
  pub status : Option OrganizationStatus
  pub details : OrganizationDetails

pub record UpdateOrganizationDto : Type 0 where
  pub id : Option String
  pub name : Option String
  pub slug : Option String
  pub status : Option OrganizationStatus
  pub details : OrganizationDetails

unfoldable pub new_organization : String → CreateOrganizationDto → String → Organization
new_organization id dto tenant_id = record {
  id = id;
  tenant_id = tenant_id;
  name = dto.name;
  slug = dto.slug;
  status = given dto.status active;
  details = dto.details;
}

unfoldable pub assign_details : OrganizationDetails → OrganizationDetails → OrganizationDetails
assign_details new old = record {
  logo = given_optional new.logo old.logo;
  website = given_optional new.website old.website;
  phone_number = given_optional new.phone_number old.phone_number;
  email = given_optional new.email old.email;
  currency = given_optional new.currency old.currency;
  time_zone = given_optional new.time_zone old.time_zone;
  address = given_optional new.address old.address;
  city = given_optional new.city old.city;
  country = given_optional new.country old.country;
  postal_code = given_optional new.postal_code old.postal_code;
  description = given_optional new.description old.description;
}

-- `Object.assign(organization, dto)`
unfoldable pub assign_organization : UpdateOrganizationDto → Organization → Organization
unfolding assign_details
assign_organization dto o = record o {
  id = given dto.id o.id;
  name = given dto.name o.name;
  slug = given dto.slug o.slug;
  status = given dto.status o.status;
  details = assign_details dto.details o.details;
}

module _ {S : Type 0} (repo : Repository Organization S) where
  unfoldable pub create_unless :
      String → CreateOrganizationDto → String → Option Organization → Exec HttpError S Organization
  create_unless id dto tenant_id (some o) s = (err (bad_request "已存在使用此组织标识的租户"), s)
  create_unless id dto tenant_id none s = create_entity repo (new_organization id dto tenant_id) s

  unfoldable pub create : String → CreateOrganizationDto → String → Exec HttpError S Organization
  unfolding create_unless
  create id dto tenant_id s =
      create_unless id dto tenant_id
        (repo.find_one (λ o. o.slug == dto.slug && o.tenant_id == tenant_id) s) s

  abbrev pub or_not_found : Option Organization → Exec HttpError S Organization
  or_not_found none s = (err (not_found "Organization not found"), s)
  or_not_found (some o) s = (ok o, s)

  unfoldable pub find_one : String → Exec HttpError S Organization
  find_one id s = or_not_found (repo.find_one (λ o. o.id == id) s) s

  unfoldable pub find_by_slug : String → String → Exec HttpError S Organization
  find_by_slug slug tenant_id s =
      or_not_found (repo.find_one (λ o. o.slug == slug && o.tenant_id == tenant_id) s) s

  -- the organization that `update` looks for, if the slug is given, not empty and a new one
  abbrev pub other_with : Organization → Option String → S → Option Organization
  other_with o none s = none
  other_with o (some slug) s =
      if not (slug == "") && not (slug == o.slug)
      then repo.find_one (λ q. q.slug == slug && q.tenant_id == o.tenant_id) s
      else none

  unfoldable pub update_unless :
      UpdateOrganizationDto → Organization → Option Organization → Exec HttpError S Organization
  update_unless dto o (some other) s =
      (err (bad_request "Organization with this slug already exists"), s)
  update_unless dto o none s = store_entity repo o.id (assign_organization dto o) s

  unfoldable pub update : String → UpdateOrganizationDto → Exec HttpError S Organization
  unfolding find_one update_unless
  update id dto = do o ← find_one id; λ s. update_unless dto o (other_with o dto.slug s) s

  unfoldable pub remove : String → Exec HttpError S Unit
  unfolding find_one
  remove id = do o ← find_one id; remove_entity repo o.id

  unfoldable pub suspend : String → Exec HttpError S Organization
  unfolding find_one
  suspend id = do o ← find_one id; store_entity repo o.id (record o { status = suspended })

  unfoldable pub activate : String → Exec HttpError S Organization
  unfolding find_one
  activate id = do o ← find_one id; store_entity repo o.id (record o { status = active })
