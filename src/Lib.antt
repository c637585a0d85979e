-- ===== src/Lib.antt =====
-- Prompt Studio backend: people edit shared design documents over HTTP and over a websocket.
--
-- The service functions of app/modules/*/service.py work on one database session each. Core holds
-- the roles, errors and texts (app/core). Store holds the rows of the ORM models and the session:
-- a `World` has the rows as the session sees them, the rows as last committed, and the process
-- around it. An `Action` is a service call, which reads and writes the world and returns or raises
-- an `AppError`; `request` runs one over its own session and drops what it did not commit.
--
-- - Projects/Access models app/modules/projects/access.py and `_membership_match`.
-- - Projects/Feed models `add_activity` and `record_edit` of app/modules/projects/service.py and
--   `record` of app/modules/audit/service.py.
-- - Projects/Documents models the document half of app/modules/projects/service.py: `save_doc`,
--   the snapshots, their pruning, and restoring one.
-- - Projects/Members models invitations, roles, removal, leaving and claiming (`invite_member` to
--   `mark_opened`); Projects/Links the public link; Projects/Comments the comments;
--   Projects/Lifecycle creating a project, changing its metadata, the trash and restoring.
-- - Projects/Listing models the lists of app/modules/projects/service.py: `list_projects`,
--   `role_map`, `list_members`, `list_versions` and `list_activity`.
-- - Projects/Handlers models the handlers of app/modules/projects/router.py, a handler `f` under
--   the name `f_route`, and Projects/Routes the role that each route demands before its handler
--   runs; Projects/Serializers what of a row a response shows
--   (app/modules/projects/serializers.py).
-- - Auth/Routes models handlers of app/modules/auth/router.py.
-- - Auth models app/modules/auth/service.py: Auth/Sessions the refresh tokens, their rotation and
--   the denylist, Auth/Login the password check and the lockout, Auth/Logout signing out of one
--   device and the end of one session. What the jwt and hashing libraries do for
--   app/core/security.py is the record `TokenLibrary`, an argument of these operations.
-- - Auth/Guards models app/modules/auth/dependencies.py; Auth/Register and Auth/Passwords the
--   registration, the passwords and the confirmation of an address in app/modules/auth/service.py;
--   Core/Passwords the password rule of app/core/security.py; Users the making of an account in
--   app/modules/users/service.py.
-- - Projects/Schemas models the document checks of app/modules/projects/schemas.py; what the json
--   and schema libraries do is the record `JsonLibrary`.
-- - Collab/Socket models app/modules/collab/router.py: one websocket, from its handshake
--   (Handshake) over its messages (Serve) to its departure. It is run over its arrivals: what the
--   others did in the meanwhile, and what came then.
-- - Core/RateLimit models app/core/rate_limit.py: the quotas (their text is read in Parse) and the
--   counting (Window). The redis client is the record `CounterStore`, and `IsCounterFor` is what
--   redis documents of one counter.
-- - Core/Pagination models app/core/pagination.py, and Rbac the permission table of
--   app/modules/rbac/permissions.py.
-- - Admin models app/modules/admin/service.py: who may manage whom, and `delete_user`;
--   Admin/Accounts `update_user` and `create_user`, under the names `update_account` and
--   `create_account`; Admin/Projects its `delete_project`; Admin/Routes the guarded routes of
--   app/modules/admin/router.py.
-- - Collab models app/modules/collab/hub.py: the rooms of one worker, presence, delivery and
--   eviction.
--
-- Modelling choices. Ids come from one supply, so that two rows never share one (the program draws
-- random uuids). Times are microseconds. A base version is a natural number: the program also
-- takes a negative one, which conflicts with every stored version. `lower` maps the ASCII letters.
-- A query that expects at most one row is the first row that matches. A row lock is the order in
-- which requests run. Redis is a flag, a hash and a log; the expiry of presence entries is not
-- modelled. What other libraries compute is an argument: the public token that is drawn, the
-- invitation's token, the text of a time. The database session flushes no write on its own, and
-- each query here reads rows that were committed or flushed before it. A failing send is an id in
-- `gone`. A socket is numbered before it is let in, so that a refusal has somewhere to be written
-- down. The digits that a password may have are those of Unicode 15.1. The bearer header is read
-- by the framework, and is here the token that it held.
--
-- Delivery runs on fuel, three rounds: one to send, one for the roster after the sockets that were
-- gone are reaped, and one more if the socket that was left out of the first turns out to be gone
-- too.
mod Prelude
pub mod Core
pub mod Store
pub mod Collab
pub mod Projects
pub mod Rbac
pub mod Users
pub mod Auth
pub mod Admin
pub mod Tests
