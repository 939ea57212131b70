-- ===== src/Shell/Layout.antt =====
-- Where things stand: the widths of frontend/src/components/layout/sidebar.tsx and of the space beside it
-- in frontend/src/app/dashboard/layout.tsx and frontend/src/components/layout/dashboard-shell.tsx, in
-- pixels, and the redirect of frontend/src/app/page.tsx.
use org_log.Prelude.{ℕ, ◌+◌, ◌≡◌, refl, String, Bool, true, if◌then◌else◌}
use org_log.Sidebar.{Sidebar, toggle}

unfoldable pub sidebar_width : Bool → ℕ
sidebar_width collapsed = if collapsed then 72 else 260

-- `DashboardShell` of the layout.
unfoldable pub content_padding : Bool → ℕ
content_padding collapsed = if collapsed then 72 else 260

-- `DashboardShell` of dashboard-shell.tsx, which no page uses.
abbrev pub fixed_padding : ℕ
fixed_padding = 260

-- `redirect` of the start page.
abbrev pub home : String
home = "/login"

-- Through a click on the toggle, the content begins where the sidebar ends; with the fixed padding it
-- begins 188 pixels behind a sidebar that is collapsed.
pub content-toggle :
    (s : Sidebar)
    → (content_padding (toggle s).collapsed ≡ sidebar_width (toggle s).collapsed)
      × (sidebar_width true + 188 ≡ fixed_padding)
unfolding content_padding sidebar_width
content-toggle s = (refl, refl)
