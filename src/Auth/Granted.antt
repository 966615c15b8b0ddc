-- ===== src/Auth/Granted.antt =====
-- What a user needs for a page or a tool.

use internal_portal_ceo_dash.Base.{
  ℕ, ◌≡◌, refl, ap, ◌∙◌, String, Bool, false, ◌&&◌, ◌||◌, Option, none, some, List, [], ◌∷◌, ◌++◌,
  any, ◌==◌, str_eq, str_in, eq_iff, arith, Bool-cases, inl, inr,
}
use internal_portal_ceo_dash.Base.Dict
use internal_portal_ceo_dash.Base.Dict.{Dict, get-put}
use internal_portal_ceo_dash.Rbac.{
  UserRow, RoleRow, NavigationRow, McpToolRow, RoleGroupRow, Access,
}
use internal_portal_ceo_dash.Auth.Permissions.{
  GroupAction, Catalog, find_current, roles_of, is_super_role, has_role, codes_with, pairs_with,
  all_pairs, page_rows, actions_with, group_rows, tool_rows, distinct, list_at, add_pair, add_pairs,
  permissions_of, permissions_if, get_my_permissions, can_page, user_can_access_page, can_tool,
  user_can_use_mcp_tool,
}

-- whether a pair is among rows
abbrev pub holds : String → String → List (String × String) → Bool
holds p a rows = any (λ r. str_eq r.0 p && str_eq r.1 a) rows

-- whether an identifier has a code
abbrev pub has_code : ℕ → String → List (ℕ × String) → Bool
has_code id code rows = any (λ r. r.0 == id && str_eq r.1 code) rows

-- what the tables grant a user with some roles on a page, and on a tool
abbrev pub group_has : ℕ → String → String → List GroupAction → Bool
group_has group page action rows =
    any
      (λ a.
        a.permission_group_id == group && (str_eq a.api_module_code page && str_eq a.action action))
      rows

abbrev pub grants_page : Catalog → Access → List RoleRow → String → String → Bool
grants_page cat db roles page action =
    any
      (λ n.
        (has_role n.role_id roles && n.is_allowed)
        && (has_code n.navigation_item_id page db.navigation_items
            && has_code n.action_id action db.permission_actions))
      db.navigation
    || any
        (λ g.
          has_role g.role_id roles && group_has g.permission_group_id page action cat.group_actions)
        db.role_groups

abbrev grants_tool : Access → List RoleRow → String → Bool
grants_tool db roles tool =
    any
      (λ t.
        (has_role t.role_id roles && t.is_allowed) && has_code t.mcp_tool_id tool db.mcp_tool_codes)
      db.mcp_tools

str_in-append :
    (s : String) (xs ys : List String) → str_in s (xs ++ ys) ≡ (str_in s xs || str_in s ys)
str_in-append s [] ys = refl
str_in-append s (x ∷ xs) ys = ground (arith, str_in-append s xs ys)

holds-append :
    (p a : String) (xs ys : List (String × String))
    → holds p a (xs ++ ys) ≡ (holds p a xs || holds p a ys)
holds-append p a [] ys = refl
holds-append p a (x ∷ xs) ys = ground (arith, holds-append p a xs ys)

str_in-codes :
    (id : ℕ) (code : String) (rows : List (ℕ × String))
    → str_in code (codes_with id rows) ≡ has_code id code rows
unfolding codes_with
str_in-codes id code [] = refl
str_in-codes id code (r ∷ rows) =
    ground (arith, str_in-codes id code rows, eq_iff code r.1, eq_iff r.1 code)

holds-pairs_with :
    (q p a : String) (actions : List String)
    → holds p a (pairs_with q actions) ≡ (str_eq q p && str_in a actions)
holds-pairs_with q p a [] = ground arith
holds-pairs_with q p a (b ∷ actions) =
    ground (arith, holds-pairs_with q p a actions, eq_iff a b, eq_iff b a)

holds-all_pairs :
    (p a : String) (pages actions : List String)
    → holds p a (all_pairs pages actions) ≡ (str_in p pages && str_in a actions)
unfolding all_pairs
holds-all_pairs p a [] actions = refl
holds-all_pairs p a (q ∷ pages) actions = ground (
  arith,
  holds-append p a (pairs_with q actions) (all_pairs pages actions),
  holds-pairs_with q p a actions,
  holds-all_pairs p a pages actions,
  eq_iff p q,
  eq_iff q p,
)

-- adding pairs one by one gives each page's actions
list_at-add_pair :
    (p a q b : String) (d : Dict (List String))
    → str_in b (list_at q (add_pair p a d)) ≡ (str_in b (list_at q d) || (str_eq p q && str_eq a b))
unfolding add_pair
list_at-add_pair p a q b d = ground (
  arith,
  get-put p q (list_at p d ++ a ∷ []) d,
  str_in-append b (list_at p d) (a ∷ []),
  eq_iff p q,
  eq_iff a b,
  eq_iff b a,
)

list_at-add_pairs :
    (q b : String) (rows : List (String × String)) (d : Dict (List String))
    → str_in b (list_at q (add_pairs rows d)) ≡ (str_in b (list_at q d) || holds q b rows)
unfolding add_pairs
list_at-add_pairs q b [] d = ground arith
list_at-add_pairs q b (r ∷ rows) d =
    ground (arith, list_at-add_pairs q b rows (add_pair r.0 r.1 d), list_at-add_pair r.0 r.1 q b d)

str_in-distinct : (t : String) (ts : List String) → str_in t (distinct ts) ≡ str_in t ts
unfolding distinct
str_in-distinct t [] = refl
str_in-distinct t (s ∷ ts) = ground (arith, str_in-distinct t ts, str_in-distinct s ts, eq_iff t s)

module _ (cat : Catalog) (db : Access) (roles : List RoleRow) where
  holds-page_rows :
      (p a : String) (rows : List NavigationRow)
      → holds p a (page_rows db.navigation_items db.permission_actions roles rows)
        ≡ any
            (λ n.
              (has_role n.role_id roles && n.is_allowed)
              && (has_code n.navigation_item_id p db.navigation_items
                  && has_code n.action_id a db.permission_actions))
            rows
  unfolding page_rows
  holds-page_rows p a [] = refl
  holds-page_rows p a (n ∷ rows) =
      let pages = codes_with n.navigation_item_id db.navigation_items in
      let actions = codes_with n.action_id db.permission_actions in
      let rest = page_rows db.navigation_items db.permission_actions roles rows in
      let joined =
        holds-append p a (all_pairs pages actions) rest
        ∙ ap (λ b. b || holds p a rest)
            (rw
              (
                holds-all_pairs p a pages actions,
                str_in-codes n.navigation_item_id p db.navigation_items,
                str_in-codes n.action_id a db.permission_actions,
              )
              refl) in
      elim (Bool-cases (has_role n.role_id roles && n.is_allowed)) [
        | inl own ↦ rw own (
            joined
            ∙ ap
                (λ b.
                  (has_code n.navigation_item_id p db.navigation_items
                    && has_code n.action_id a db.permission_actions)
                  || b)
                (holds-page_rows p a rows))
        | inr other ↦ rw other (holds-page_rows p a rows)
      ]

  holds-actions_with :
      (p a : String) (group : ℕ) (rows : List GroupAction)
      → holds p a (actions_with group rows) ≡ group_has group p a rows
  unfolding actions_with
  holds-actions_with p a group [] = refl
  holds-actions_with p a group (x ∷ rows) = ground (arith, holds-actions_with p a group rows)

  holds-group_rows :
      (p a : String) (rows : List RoleGroupRow)
      → holds p a (group_rows cat.group_actions roles rows)
        ≡ any
            (λ g. has_role g.role_id roles && group_has g.permission_group_id p a cat.group_actions)
            rows
  unfolding group_rows
  holds-group_rows p a [] = refl
  holds-group_rows p a (g ∷ rows) =
      let rest = group_rows cat.group_actions roles rows in
      let joined =
        holds-append p a (actions_with g.permission_group_id cat.group_actions) rest
        ∙ ap (λ b. b || holds p a rest)
            (holds-actions_with p a g.permission_group_id cat.group_actions) in
      elim (Bool-cases (has_role g.role_id roles)) [
        | inl own ↦ rw own (
            joined
            ∙ ap (λ b. group_has g.permission_group_id p a cat.group_actions || b)
                (holds-group_rows p a rows))
        | inr other ↦ rw other (holds-group_rows p a rows)
      ]

  str_in-tool_rows :
      (tool : String) (rows : List McpToolRow)
      → str_in tool (tool_rows db.mcp_tool_codes roles rows)
        ≡ any
            (λ t.
              (has_role t.role_id roles && t.is_allowed)
              && has_code t.mcp_tool_id tool db.mcp_tool_codes)
            rows
  unfolding tool_rows
  str_in-tool_rows tool [] = refl
  str_in-tool_rows tool (t ∷ rows) =
      let rest = tool_rows db.mcp_tool_codes roles rows in
      let joined =
        str_in-append tool (codes_with t.mcp_tool_id db.mcp_tool_codes) rest
        ∙ ap (λ b. b || str_in tool rest) (str_in-codes t.mcp_tool_id tool db.mcp_tool_codes) in
      elim (Bool-cases (has_role t.role_id roles && t.is_allowed)) [
        | inl own ↦ rw own (
            joined
            ∙ ap (λ b. has_code t.mcp_tool_id tool db.mcp_tool_codes || b)
                (str_in-tool_rows tool rows))
        | inr other ↦ rw other (str_in-tool_rows tool rows)
      ]

  can_page-permissions :
      (u : UserRow) (page action : String)
      → can_page page action (some (permissions_of cat db u roles))
        ≡ (u.is_super_admin || (any is_super_role roles || grants_page cat db roles page action))
  unfolding permissions_of Dict.get
  can_page-permissions u page action =
      let pages = page_rows db.navigation_items db.permission_actions roles db.navigation in
      let groups = group_rows cat.group_actions roles db.role_groups in
      let listed =
        list_at-add_pairs page action groups (add_pairs pages [])
        ∙ ap (λ b. b || holds page action groups) (list_at-add_pairs page action pages []) in
      ground (
        arith,
        listed,
        holds-page_rows page action db.navigation,
        holds-group_rows page action db.role_groups,
      )

  can_tool-permissions :
      (u : UserRow) (tool : String)
      → can_tool tool (some (permissions_of cat db u roles))
        ≡ (u.is_super_admin || (any is_super_role roles || grants_tool db roles tool))
  unfolding permissions_of
  can_tool-permissions u tool = ground (
    arith,
    str_in-distinct tool (tool_rows db.mcp_tool_codes roles db.mcp_tools),
    str_in-tool_rows tool db.mcp_tools,
  )

abbrev pub super_or : Option UserRow → List RoleRow → Bool → Bool
super_or none roles granted = false
super_or (some u) roles granted = u.is_super_admin || (any is_super_role roles || granted)

-- A user may act on a page exactly when the user is there, active and not deleted, and is a super
-- administrator, has a role SUPER_ADMIN, or has a role that allows the action on the page, by a row of
-- its own or by a permission group.
pub user_can_access_page-grants :
    (cat : Catalog) (db : Access) (user_id : ℕ) (page action : String)
    → let roles = roles_of user_id db.roles db.user_roles in
      user_can_access_page cat db user_id page action
      ≡ super_or (find_current user_id db.users) roles (grants_page cat db roles page action)
unfolding user_can_access_page get_my_permissions
user_can_access_page-grants cat db user_id page action = by_user (find_current user_id db.users)
  where
    by_user :
        (o : Option UserRow)
        → can_page page action (permissions_if cat db user_id o)
          ≡ super_or o
              (roles_of user_id db.roles db.user_roles)
              (grants_page cat db (roles_of user_id db.roles db.user_roles) page action)
    by_user none = refl
    by_user (some u) =
        can_page-permissions cat db (roles_of user_id db.roles db.user_roles) u page action

-- A user may use a tool exactly when the user is there, active and not deleted, and is a super
-- administrator, has a role SUPER_ADMIN, or has a role that allows the tool.
user_can_use_mcp_tool-grants :
    (cat : Catalog) (db : Access) (user_id : ℕ) (tool : String)
    → let roles = roles_of user_id db.roles db.user_roles in
      user_can_use_mcp_tool cat db user_id tool
      ≡ super_or (find_current user_id db.users) roles (grants_tool db roles tool)
unfolding user_can_use_mcp_tool get_my_permissions
user_can_use_mcp_tool-grants cat db user_id tool = by_user (find_current user_id db.users)
  where
    by_user :
        (o : Option UserRow)
        → can_tool tool (permissions_if cat db user_id o)
          ≡ super_or o
              (roles_of user_id db.roles db.user_roles)
              (grants_tool db (roles_of user_id db.roles db.user_roles) tool)
    by_user none = refl
    by_user (some u) = can_tool-permissions cat db (roles_of user_id db.roles db.user_roles) u tool
