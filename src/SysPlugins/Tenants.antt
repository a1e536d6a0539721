-- ===== src/SysPlugins/Tenants.antt =====
-- libs/sys-plugins/tenant/src/lib/tenant.service.ts. A property of a transfer object is `none` where
-- it is undefined. The id of a new tenant, which the entity draws at random, is an argument. The
-- query `findAll` only hands a filter to the database and is left out.
pub mod Unique
use oksai_cc_api_server.Base.{
  ℕ, String, Bool, true, false, not, Option, none, some, if◌then◌else◌, ◌==◌, string_eq, ◌&&◌,
}
use oksai_cc_api_server.Base.Exec.{Result, ok, err, Exec, ◌>>=◌, continue}
use oksai_cc_api_server.Base.Http.{HttpError, bad_request, not_found}
use oksai_cc_api_server.Orm.{
  Repository, create_entity, store_entity, remove_entity, given, given_optional, flushed,
}
use Prim.Native.String.{◌++◌ as concat}

pub data TenantStatus : Type 0 where
  active suspended inactive : TenantStatus

pub data TenantType : Type 0 where
  organization individual : TenantType

pub record Tenant : Type 0 where
  pub id : String
  pub name : String
  pub slug : String
  pub logo : Option String
  pub website : Option String
  pub description : Option String
  pub status : TenantStatus
  pub type : TenantType
  pub trial_end_date : Option String
  pub subscription_plan : Option String
  pub max_users : Option ℕ
  pub allow_self_registration : Option Bool
  pub contact_email : Option String
  pub contact_phone : Option String
  pub address : Option String
  pub city : Option String
  pub country : Option String
  pub locale : Option String
  pub timezone : Option String

-- the properties that both transfer objects have
pub record TenantDetails : Type 0 where
  pub logo : Option String
  pub website : Option String
  pub description : Option String
  pub status : Option TenantStatus
  pub type : Option TenantType
  pub trial_end_date : Option String
  pub subscription_plan : Option String
  pub max_users : Option ℕ
  pub allow_self_registration : Option Bool
  pub contact_email : Option String
  pub contact_phone : Option String
  pub address : Option String
  pub city : Option String
  pub country : Option String
  pub locale : Option String
  pub timezone : Option String

pub record CreateTenantDto : Type 0 where
  pub name : String
  pub slug : String
  pub details : TenantDetails

pub record UpdateTenantDto : Type 0 where
  pub name : Option String
  pub slug : Option String
  pub details : TenantDetails

-- the object that `create` hands to the repository
unfoldable pub new_tenant : String → CreateTenantDto → Tenant
new_tenant id dto = record {
  id = id;
  name = dto.name;
  slug = dto.slug;
  logo = dto.details.logo;
  website = dto.details.website;
  description = dto.details.description;
  status = given dto.details.status active;
  type = given dto.details.type organization;
  trial_end_date = dto.details.trial_end_date;
  subscription_plan = dto.details.subscription_plan;
  max_users = some (given dto.details.max_users 0);
  allow_self_registration = some (given dto.details.allow_self_registration true);
  contact_email = dto.details.contact_email;
  contact_phone = dto.details.contact_phone;
  address = dto.details.address;
  city = dto.details.city;
  country = dto.details.country;
  locale = some (given dto.details.locale "en");
  timezone = some (given dto.details.timezone "UTC");
}

-- the assignments of `update`
unfoldable pub updated_tenant : UpdateTenantDto → Tenant → Tenant
updated_tenant dto t = record t {
  name = given dto.name t.name;
  slug = given dto.slug t.slug;
  status = given dto.details.status t.status;
  type = given dto.details.type t.type;
  logo = given_optional dto.details.logo t.logo;
  website = given_optional dto.details.website t.website;
  description = given_optional dto.details.description t.description;
  contact_email = given_optional dto.details.contact_email t.contact_email;
  contact_phone = given_optional dto.details.contact_phone t.contact_phone;
  address = given_optional dto.details.address t.address;
  city = given_optional dto.details.city t.city;
  country = given_optional dto.details.country t.country;
  locale = given_optional dto.details.locale t.locale;
  timezone = given_optional dto.details.timezone t.timezone;
}

abbrev pub slug_is_taken : HttpError
slug_is_taken = bad_request "已存在使用此租户标识的租户"

module _ {S : Type 0} (repo : Repository Tenant S) where
  unfoldable pub create_unless : String → CreateTenantDto → Option Tenant → Exec HttpError S Tenant
  create_unless id dto (some t) s = (err slug_is_taken, s)
  create_unless id dto none s = create_entity repo (new_tenant id dto) s

  unfoldable pub create : String → CreateTenantDto → Exec HttpError S Tenant
  unfolding create_unless
  create id dto s = create_unless id dto (repo.find_one (λ t. t.slug == dto.slug) s) s

  abbrev pub or_not_found : String → Option Tenant → Exec HttpError S Tenant
  or_not_found id none s = (err (not_found (concat (concat "未找到 ID 为 " id) " 的租户")), s)
  or_not_found id (some t) s = (ok t, s)

  unfoldable pub find_one : String → Exec HttpError S Tenant
  find_one id s = or_not_found id (repo.find_one (λ t. t.id == id) s) s

  unfoldable pub find_by_slug : String → Exec HttpError S Tenant
  find_by_slug slug s = elim (repo.find_one (λ t. t.slug == slug) s) [
    | none ↦ (err (not_found (concat (concat "未找到标识为 " slug) " 的租户")), s)
    | some t ↦ (ok t, s)
  ]

  -- the other tenant that `update` looks for, if the new slug is neither undefined nor empty
  abbrev pub other_with : String → Option String → S → Option Tenant
  other_with id none s = none
  other_with id (some slug) s =
      if slug == "" then none else repo.find_one (λ t. t.slug == slug && not (t.id == id)) s

  unfoldable pub update_unless : UpdateTenantDto → Tenant → Option Tenant → Exec HttpError S Tenant
  update_unless dto t (some other) s = (err slug_is_taken, s)
  update_unless dto t none s = store_entity repo t.id (updated_tenant dto t) s

  unfoldable pub update : String → UpdateTenantDto → Exec HttpError S Tenant
  unfolding find_one update_unless
  update id dto = do t ← find_one id; λ s. update_unless dto t (other_with id dto.slug s) s

  unfoldable pub remove : String → Exec HttpError S Unit
  unfolding find_one
  remove id = do t ← find_one id; remove_entity repo t.id

  unfoldable pub suspend : String → Exec HttpError S Tenant
  unfolding find_one
  suspend id = do t ← find_one id; store_entity repo t.id (record t { status = suspended })

  unfoldable pub activate : String → Exec HttpError S Tenant
  unfolding find_one
  activate id = do t ← find_one id; store_entity repo t.id (record t { status = active })
