-- ===== src/Lib.antt =====
-- OrgLog's dashboard (frontend/src): a web client, in which a user signs in, picks a project, follows
-- its logs live over a WebSocket, and searches, filters and counts those that are stored. This library
-- models the client's state and its operations as pure functions on explicit states, and proves
-- what keeps them correct.
--
-- The parts, with their files here and in the repository:
--   Types, Config         frontend/src/lib/types and lib/constants/config.ts: the shapes and constants.
--   Browser               what the client uses of WebSocket, setTimeout and localStorage. A socket
--                         keeps whether its handlers are set and whether close() was called; its
--                         close event comes later, if handlers are left. The storage is an
--                         association list.
--   Controls, Header      components/ui (select, status-dot, badge, button; the others in
--                         Controls.Plain) and
--                         components/layout/header.tsx.
--   Live                  lib/providers/live-logs-provider.tsx: the live connection. One record for
--                         the React state, the refs, and the sockets and timeouts that the browser
--                         holds for the component; one function for each handler and callback;
--                         Live.Events is the machine that takes any sequence of events;
--                         Live.Link is an abstract link, off, up or waiting, with what each event
--                         does to it, which forgets what the browser holds.
--   Hook                  lib/hooks/use-websocket.ts: the older hook, in the same form.
--   Api                   lib/api: URLs, headers, the settling of a response, the endpoints.
--   Auth                  lib/providers/auth-provider.tsx, the guard of app/dashboard/layout.tsx
--                         (Auth.Guard), and the forms of app/login/page.tsx and
--                         app/register/page.tsx (Auth.Pages; what they show: Auth.Forms). An async
--                         function is a chain in a small monad of replies with a session. The
--                         server's replies are an interface, AuthApi, which Auth.Client fills with
--                         what the client of lib/api makes of fetch.
--   Projects              lib/providers/project-provider.tsx: the projects and the one that is shown.
--                         Projects.Races lets the answers come between other operations.
--   App                   app/dashboard/layout.tsx: the providers together, with the guard that mounts
--                         and unmounts them and the storage that they share.
--   Shell                 DashboardShell of app/dashboard/layout.tsx: App with the sidebar and the form for
--                         a first project inside, each with its own state; Shell.Layout has the widths,
--                         and the redirect of app/page.tsx.
--   Explorer              app/dashboard/logs/page.tsx and components/logs/log-pagination.tsx:
--                         filters, query, pages;
--                         components/logs/log-filters.tsx (Explorer.FilterForm).
--   Queries               lib/hooks/use-logs.ts and lib/providers/query-provider.tsx: the key, the call
--                         and the options of each query; Queries.Observer is the interface of the
--                         library behind useQuery, with its documented behaviour.
--   Site                  The pages of app/dashboard in the shell: the queries that each of them renders
--                         (page.tsx, analytics/page.tsx, logs/page.tsx), and what it shows of the
--                         results (Site.View).
--   LiveTail              app/dashboard/live/page.tsx (its bar: LiveTail.ControlBar; the messages
--                         without their order, as a quotient: LiveTail.Bag) and
--                         components/logs/live-log-stream.tsx.
--   Table                 components/logs/log-table.tsx (the details of a row: Table.Details).
--   Sidebar, NoProject    components/layout/sidebar.tsx (its links in Sidebar.Navigation,
--                         what it shows of projects and user in Sidebar.Account),
--                         lib/providers/sidebar-provider.tsx and components/layout/no-project.tsx.
--   Analytics             app/dashboard/analytics/page.tsx and app/dashboard/page.tsx, with
--                         components/dashboard/level-distribution-chart.tsx (Analytics.Shares),
--                         formatNumber of lib/utils/format.ts (Analytics.Numbers), the cards
--                         (Analytics.StatCard), the charts and the table (Analytics.Services,
--                         Analytics.Trend, Analytics.Recent), and the two pages as a whole
--                         (Analytics.Pages).
--   Prelude, Examples     shared helpers; concrete inputs.
--
-- How they meet: Auth keeps the token that Api sends with each request; the guard mounts Projects only
-- for a signed-in user; Projects gives the project id that a render hands to Live and to Explorer;
-- LiveTail shows the messages of Live, and Table the entries that Explorer's query has found; the Sidebar
-- switches and creates projects and signs the user out; Site renders the queries of a page with the project
-- that Shell shows, whenever Shell or the page changes.
--
-- Conventions: numbers are natural numbers; where the source subtracts it cuts at 0, which is what
-- subtraction does here. JSON.parse, JSON.stringify, Date, trim, toFixed and fetch are parameters, as are the
-- server's answers: each theorem holds for all of them. setState is applied at once, in program order;
-- a closure's variables (the project of a socket or a timeout) are kept with the closure. The only
-- recursion is on lists and on a number of failures, so that nothing needs fuel.
--
-- The configured addresses are taken to be valid: that `new URL` and `new WebSocket` throw on one that is
-- not is left out, as is the call of authApi.logout, whose answer the provider ignores. A form is submitted
-- and answered in one step: what is typed in between is left out. The push of the guard to /login is
-- what `redirect` of Auth.Guard says, apart from the pushes of the provider in `visited`.
--
-- In App, an answer about projects that comes while their provider is gone only reaches the storage.
-- Two answers that come late, after another component of the same kind was mounted, are followed by
-- themselves: to a fetch of the projects in App.Late, to the check on mount in Auth.Check.
--
-- The cache of react-query is a parameter: what a hook returns is a function of the events that its component
-- and its queries have had, about which IsDocumented of Queries.Observer says what the library's
-- documentation does, while the browser is online. Retries and refetches are answers that come at any time.
--
-- Not modelled: markup, styles and icons, the formatting of dates, the charts of
-- recharts, the server (app/, migrations/) and its Python client (sdk/).
pub mod Prelude
pub mod Types
pub mod Config
pub mod Controls
pub mod Browser
pub mod Live
pub mod Header
pub mod Hook
pub mod Api
pub mod Auth
pub mod Projects
pub mod Queries
pub mod Site
pub mod Explorer
pub mod LiveTail
pub mod Table
pub mod Sidebar
pub mod Analytics
pub mod NoProject
pub mod App
pub mod Shell
pub mod Examples
