-- ===== src/Workspace/Rows.antt =====
-- The tables of backend/models/orm/access.py and the statements of `AccessRepository`
-- (backend/repositories/access_repo.py) on them. Every SELECT through the ORM leaves out the rows
-- that are softly deleted (`_apply_soft_delete_filter` of backend/models/orm/base.py); a role has no such mark.
use dewflow.Base.{
  ℕ, String, Bool, true, false, ◌&&◌, ◌||◌, not, Option, none, some, List, [], ◌∷◌, any, keep,
  length, ◌==◌, if◌then◌else◌, is_none, is_some, str_eq, update_where, find,
}

-- `WorkspaceRole`
pub data WorkspaceRole : Type 0 where
  owner admin member viewer : WorkspaceRole

pub record Workspace : Type 0 where
  pub id : ℕ
  pub name : String
  pub slug : String
  pub owner_id : Option ℕ
  pub deleted_at : Option ℕ

pub record UserWorkspaceRole : Type 0 where
  pub id : ℕ
  pub user_id : ℕ
  pub workspace_id : ℕ
  pub role : WorkspaceRole

pub record User : Type 0 where
  pub id : ℕ
  pub is_superuser : Bool

pub record AccessDb : Type 0 where
  pub workspaces : List Workspace
  pub roles : List UserWorkspaceRole
  pub users : List User

-- The codes of the application's exceptions here, and the database's own error.
pub data AppError : Type 0 where
  forbidden user_not_found workspace_not_found workspace_member_not_found : AppError
  workspace_member_already_exists workspace_owner_required last_workspace_owner : AppError
  workspace_slug_exists integrity_error : AppError

pub data Result (A : Type 0) : Type 0 where
  done : A → Result A
  raised : AppError → Result A

infixl 5 ◌>>=◌
abbrev pub ◌>>=◌ : {A B : Type 0} → Result A → (A → Result B) → Result B
done a >>= f = f a
raised e >>= f = raised e

abbrev pub is_owner : WorkspaceRole → Bool
is_owner owner = true
is_owner _ = false

abbrev pub workspace_key : Workspace → ℕ
workspace_key w = w.id

abbrev pub role_key : UserWorkspaceRole → ℕ
role_key r = r.id

abbrev pub user_key : User → ℕ
user_key u = u.id

-- `scalars().first()` of a condition
unfoldable pub first {ℓ} : {A : Type ℓ} → (A → Bool) → List A → Option A
first test [] = none
first test (x ∷ xs) = if test x then some x else first test xs

abbrev pub member_is : ℕ → ℕ → UserWorkspaceRole → Bool
member_is user_id workspace_id r = r.user_id == user_id && r.workspace_id == workspace_id

-- The unique constraint makes it the one row that `scalar_one_or_none` asks for.
unfoldable pub get_workspace_member : ℕ → ℕ → AccessDb → Option UserWorkspaceRole
get_workspace_member user_id workspace_id db = first (member_is user_id workspace_id) db.roles

abbrev pub role_of : Option UserWorkspaceRole → Option WorkspaceRole
role_of none = none
role_of (some r) = some r.role

unfoldable pub get_workspace_role : ℕ → ℕ → AccessDb → Option WorkspaceRole
unfolding get_workspace_member
get_workspace_role user_id workspace_id db = role_of (get_workspace_member user_id workspace_id db)

unfoldable pub get_workspace : ℕ → AccessDb → Option Workspace
get_workspace workspace_id db =
    first (λ w. w.id == workspace_id && is_none w.deleted_at) db.workspaces

unfoldable pub get_workspace_by_slug : String → AccessDb → Option Workspace
get_workspace_by_slug slug db =
    first (λ w. str_eq w.slug slug && is_none w.deleted_at) db.workspaces

unfoldable pub get_user : ℕ → AccessDb → Option User
get_user user_id db = find user_key user_id db.users

-- The partial unique index on the slugs and the primary key.
abbrev pub clashes : Workspace → Workspace → Bool
clashes new w = w.id == new.id || str_eq w.slug new.slug && is_none w.deleted_at

unfoldable pub create_workspace_row : Workspace → AccessDb → Result AccessDb
create_workspace_row new db =
    if any (clashes new) db.workspaces
    then raised integrity_error
    else done (record db { workspaces = new ∷ db.workspaces })

-- A field of `model_dump(exclude_unset=True)`: not set by the request, set to null, or to a text.
pub data Field : Type 0 where
  unset null : Field
  value : String → Field

pub record WorkspaceUpdate : Type 0 where
  pub name : Field
  pub slug : Field

abbrev pub is_null : Field → Bool
is_null null = true
is_null _ = false

abbrev pub assigned : Field → String → String
assigned (value b) a = b
assigned _ a = a

abbrev pub updated : WorkspaceUpdate → Workspace → Workspace
updated obj_in w = record w {
  name = assigned obj_in.name w.name;
  slug = assigned obj_in.slug w.slug;
}

abbrev pub slug_taken : Workspace → Workspace → Bool
slug_taken new w =
    not (w.id == new.id) && is_none new.deleted_at && is_none w.deleted_at && str_eq w.slug new.slug

-- Neither column may be null, and the index holds for the new slug.
unfoldable pub update_workspace_row : Workspace → WorkspaceUpdate → AccessDb → Result AccessDb
update_workspace_row w obj_in db =
    if is_null obj_in.name
      || is_null obj_in.slug
      || any (slug_taken (updated obj_in w)) db.workspaces
    then raised integrity_error
    else done
        (record db { workspaces = update_where (λ x. x.id == w.id) (updated obj_in) db.workspaces })

unfoldable pub soft_delete_workspace : ℕ → Workspace → AccessDb → AccessDb
soft_delete_workspace now w db = record db {
  workspaces =
      update_where (λ x. x.id == w.id) (λ x. record x { deleted_at = some now }) db.workspaces;
}

unfoldable pub add_workspace_role : UserWorkspaceRole → AccessDb → Result AccessDb
add_workspace_role new db =
    if is_some (find role_key new.id db.roles)
      || is_some (first (member_is new.user_id new.workspace_id) db.roles)
    then raised integrity_error
    else done (record db { roles = new ∷ db.roles })

abbrev pub with_role : WorkspaceRole → UserWorkspaceRole → UserWorkspaceRole
with_role role r = record r { role = role }

unfoldable pub update_workspace_role : UserWorkspaceRole → WorkspaceRole → AccessDb → AccessDb
update_workspace_role user_role role db = record db {
  roles = update_where (λ r. r.id == user_role.id) (with_role role) db.roles;
}

unfoldable pub remove_role : UserWorkspaceRole → AccessDb → AccessDb
remove_role user_role db = record db { roles = keep (λ r. not (r.id == user_role.id)) db.roles }

abbrev pub owns : ℕ → UserWorkspaceRole → Bool
owns workspace_id r = r.workspace_id == workspace_id && is_owner r.role

unfoldable pub count_workspace_owners : ℕ → AccessDb → ℕ
count_workspace_owners workspace_id db = length (keep (owns workspace_id) db.roles)
