-- ===== src/Handler/Pages.antt =====
-- `Index`, `MyIP` and `Info` of internal/handler/handler.go. The format of times and the bytes of the
-- page are arguments.
use looking_glass.Common.{ℕ, Option, none, some, ite, Text, Text-discrete, codes}
use looking_glass.Bgp.Store.{stats}
use looking_glass.Handler.{Request, client_ip}
use looking_glass.Handler.Gate.{Env}
use looking_glass.Handler.State.{State, Response, json}

-- `Index`; `none` is `http.NotFound`.
unfoldable pub index : Text → Text → Option Text
index page path = ite (Text-discrete path (codes "/")) (some page) none

-- `MyIP`
abbrev pub my_ip : Env → Request → Response Text
my_ip env r = json (client_ip env.client r)

abbrev pub bgp_updated : (ℕ → Text) → Option ℕ → Text
bgp_updated format none = codes "not loaded"
bgp_updated format (some loaded_at) = format loaded_at

-- `Info`: the number of routes, and when they were loaded.
unfoldable pub info : (ℕ → Text) → State → Response (ℕ × Text)
info format s = json ((stats s.store).0, bgp_updated format (stats s.store).1)
