-- ===== src/Frame/Tests.antt =====
-- web/src/app/App.tsx at concrete users and projects.
use accp.Prelude.{◌≡◌, refl, true, false, [], ◌∷◌, none, some}
use accp.Text.{Text, codes, text_eq}
use accp.Json.{str, obj, member, end, property}
use accp.Routing.{project, approvals, management, audit}
use accp.ProjectData.{Doc, Membership, Console, empty_content}
use accp.Frame.{
  Access, is_allowed, management_entry, screen, current_access, current_project, is_some,
  current_roles, org_admin, has_project_role,
}
use accp.Frame.Pages.{IsJust, screen-by_access}

abbrev user : Doc
user = record { id = codes "u1"; updated_at = []; fields = obj end }

abbrev pay : Doc
pay = record {
  id = codes "p1";
  updated_at = [];
  fields = obj (member (codes "status") (str (codes "ACTIVE")) end);
}

abbrev reviewing : Membership
reviewing = record {
  id = codes "u1";
  organization_id = codes "o1";
  project_id = codes "p1";
  display_name = codes "Mia";
  roles = codes "REVIEWER" ∷ [];
  membership_active = none;
  account_active = none;
  active = true;
  version = 1;
}

abbrev console : Console Text
console = record {
  projects = pay ∷ [];
  project_id = codes "p1";
  data_project_id = codes "p1";
  content = record empty_content { members = reviewing ∷ [] };
  error = none;
  loaded = true;
  updated = [];
  project_unavailable = false;
  refresh_generation = 1;
  last_task_check = [];
  me = some (codes "u1");
  asked = [];
}

found : is_some (current_project Text console) ≡ true
unfolding current_project text_eq
found = refl

screen-by_access_example :
    IsJust
      (is_allowed (current_access Text user console) approvals)
      approvals
      (screen Text (project (codes "p1") approvals none false) (codes "token") (some user) console)
screen-by_access_example =
    screen-by_access (codes "p1") approvals none (codes "token") user console refl refl refl found

approvals_allowed :
    (is_allowed (current_access Text user console) approvals ≡ true)
    × (is_allowed (current_access Text user console) management ≡ false)
unfolding is_allowed current_access current_project current_roles has_project_role org_admin text_eq
    property
approvals_allowed = (refl, refl)

-- A reviewer who administers nothing.
abbrev reviewer : Access
reviewer = record {
  roles = codes "REVIEWER" ∷ [];
  admin = false;
  is_org_admin = false;
  reviewer = true;
}

management_entry_run : management_entry reviewer ≡ some audit
unfolding management_entry
management_entry_run = refl
