-- ===== src/SysPlugins/Roles/Guard.antt =====
-- libs/sys-plugins/role/src/lib/guards/permissions.guard.ts and the decorator that it reads,
-- decorators/permissions.decorator.ts.
use oksai_cc_api_server.Base.{
  String, Bool, true, false, Option, none, some, List, [], ◌∷◌, if◌then◌else◌, ◌==◌, string_eq,
  ◌&&◌, ◌||◌,
}
use oksai_cc_api_server.Base.Exec.{Result, ok, err}

pub record PermissionsMetadata : Type 0 where
  pub type : String
  pub action : String
  pub resource : Option String

-- What the reflector finds under the key: nothing, an array, or an object that is none.
pub data Metadata : Type 0 where
  undefined : Metadata
  array : List PermissionsMetadata → Metadata
  single : PermissionsMetadata → Metadata

-- the decorator: `SetMetadata(PERMISSIONS_KEY, metadata)`
abbrev pub set_permissions : PermissionsMetadata → Metadata
set_permissions m = single m

pub record UserPermission : Type 0 where
  pub type : String
  pub action : String
  pub resource : Option String

-- `request.user`; its list is `none` where it is missing or no array
pub record GuardUser : Type 0 where
  pub role : String
  pub permissions : Option (List UserPermission)

pub data GuardError : Type 0 where
  not_logged_in : GuardError
  no_permission : PermissionsMetadata → GuardError
  not_iterable : GuardError

-- `!wanted || own === wanted`
abbrev pub matches_field : String → String → Bool
matches_field wanted own = wanted == "" || own == wanted

abbrev pub matches_optional : Option String → Option String → Bool
matches_optional none own = true
matches_optional (some wanted) none = wanted == ""
matches_optional (some wanted) (some own) = matches_field wanted own

unfoldable pub fits : PermissionsMetadata → UserPermission → Bool
fits p own =
    matches_field p.type own.type
    && matches_field p.action own.action
    && matches_optional p.resource own.resource

unfoldable pub some_fits : PermissionsMetadata → List UserPermission → Bool
unfolding fits
some_fits p [] = false
some_fits p (own ∷ owns) = fits p own || some_fits p owns

unfoldable pub fits_listed : PermissionsMetadata → Option (List UserPermission) → Bool
unfolding some_fits
fits_listed p none = false
fits_listed p (some owns) = some_fits p owns

unfoldable pub has_permission : GuardUser → PermissionsMetadata → Bool
unfolding fits_listed
has_permission u p = if u.role == "ADMIN" then true else fits_listed p u.permissions

-- the loop of `canActivate`
unfoldable pub check_all : GuardUser → List PermissionsMetadata → Result GuardError Bool
unfolding has_permission
check_all u [] = ok true
check_all u (p ∷ ps) =
    let rest = check_all u ps in if has_permission u p then rest else err (no_permission p)

unfoldable pub check_user : Option GuardUser → List PermissionsMetadata → Result GuardError Bool
unfolding check_all
check_user none ps = err not_logged_in
check_user (some u) ps = check_all u ps

abbrev pub check_single : Option GuardUser → Result GuardError Bool
check_single none = err not_logged_in
check_single (some u) = err not_iterable

unfoldable pub can_activate : Metadata → Option GuardUser → Result GuardError Bool
unfolding check_user
can_activate undefined user = ok true
can_activate (array []) user = ok true
can_activate (array (p ∷ ps)) user = check_user user (p ∷ ps)
can_activate (single p) user = check_single user
