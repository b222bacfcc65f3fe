-- ===== src/Web.antt =====
-- packages/kerdoos/src/kerdoos/interfaces: what the WebUI and the MCP server do before a use-case is
-- called. FastAPI, Starlette and the MCP SDK are not modelled: a request is the values that a
-- handler reads of it.
pub mod Cookies
pub mod Guards
pub mod Logins
