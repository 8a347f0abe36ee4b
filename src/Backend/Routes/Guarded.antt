-- ===== src/Backend/Routes/Guarded.antt =====
-- What the routes of cmd/trackeroo-backend/main.go guard, whatever http.ServeMux finds.
use trackeroo.Base.{◌≡◌, ◌≢◌, refl, ap, sym, ◌∙◌, List, [], ◌∷◌, ◌++◌, map, Bytes, codes, returned}
use trackeroo.Backend.Http.{
  Handler, Request, Writer, warning, write, write_header, set_header, content_type,
  application_json,
}
use trackeroo.Backend.Router.{
  Router, new_router, add_handler, add_middleware, add_subroute, finalize, mount,
  create_stack-foldr, mount-path,
}
use trackeroo.Backend.Server.{Server}
use trackeroo.Backend.Db.{get_device_key}
use trackeroo.Backend.Token.Acceptance.{Carries}
use trackeroo.Backend.Middleware.{unauthorized, auth, mqtt_auth, log_line, caught, status_level}
use trackeroo.Backend.Middleware.Guards.{
  Admits, enters, rejects, auth-Admits, AdmitsDevice, mqtt_auth-AdmitsDevice,
}
use trackeroo.Backend.Middleware.Stack.{entered, main_stack, main_stack_lem}
use trackeroo.Backend.Routes.{
  Serve, Surroundings, device_routes, devices_router, user_routes, users_router, publish_routes,
  publish_router, main_routes, main_router,
}

-- the two parts of the API that are for admins
pub data AdminPart : Type 0 where
  devices_part users_part : AdminPart

abbrev pub prefix_of : AdminPart → Bytes
prefix_of devices_part = codes "/devices"
prefix_of users_part = codes "/users"

prefix_of-ne-nil : (p : AdminPart) → prefix_of p ≢ []
prefix_of-ne-nil devices_part e = cc
prefix_of-ne-nil users_part e = cc

abbrev pub under : AdminPart → Bytes → Request → Request
under p rest r = record r { path = prefix_of p ++ rest }

-- what goes out to a request that is not let in
abbrev pub denied : Writer → Writer
denied w = unauthorized (set_header content_type application_json (entered w))

module _ (serve : Serve) (x : Surroundings) where
  abbrev pub router_of : AdminPart → Handler Server
  router_of devices_part = devices_router serve x
  router_of users_part = users_router serve x

  -- the same router without the guard
  abbrev pub routes_of : AdminPart → Router Server
  routes_of devices_part = device_routes serve x
  routes_of users_part = user_routes serve x

  one_middleware :
      (p : AdminPart) (m : Handler Server → Handler Server)
      → finalize serve (add_middleware m (routes_of p)) ≡ m (finalize serve (routes_of p))
  unfolding finalize add_middleware add_handler new_router device_routes user_routes
  one_middleware devices_part m =
      create_stack-foldr (m ∷ []) _ ∙ ap m (sym (create_stack-foldr [] _))
  one_middleware users_part m = create_stack-foldr (m ∷ []) _ ∙ ap m (sym (create_stack-foldr [] _))

  router_of_lem : (p : AdminPart) → router_of p ≡ auth x.jwt x.host (finalize serve (routes_of p))
  router_of_lem devices_part =
      unfold devices_router in one_middleware devices_part (auth x.jwt x.host)
  router_of_lem users_part = unfold users_router in one_middleware users_part (auth x.jwt x.host)

  -- The routers of the devices and of the users answer 401 to every request whose Authorization
  -- header is not the valid token of an admin, and leave the server as it was; the others reach the
  -- routes, with the JSON content type set and nothing else changed.
  pub router_of-Admits :
      (p : AdminPart) (r : Request) (s : Server) (w : Writer)
      → Admits x.jwt x.host (finalize serve (routes_of p)) r s w (router_of p r (s, w))
  router_of-Admits p r s w =
      rw (router_of_lem p) (auth-Admits x.jwt x.host (finalize serve (routes_of p)) r s w)

  -- the patterns that the main mux knows
  abbrev pub main_entries : List (Bytes × Handler Server)
  main_entries = (main_routes serve x).handlers ++ map mount (main_routes serve x).subroutes

  main_router_lem : main_router serve x ≡ main_stack (serve main_entries)
  unfolding main_router finalize main_routes add_middleware add_handler add_subroute new_router
  main_router_lem = refl

  rejected :
      (p : AdminPart) (r : Request) (s : Server) (w : Writer)
      → ¬ Carries x.jwt x.host (r.header (codes "Authorization")) (codes "admin")
      → router_of p r (s, w)
        ≡ ((s, unauthorized (set_header content_type application_json w)), returned tt)
  rejected p r s w n = elim (router_of-Admits p r s w) [
    | enters c e ↦ absurd (n c)
    | rejects c e ↦ e
  ]

  log_denied :
      (s : Server) (w : Writer)
      → log_line (caught ((s, denied w), returned tt))
        ≡ ((s, record (denied w) { access_log = w.access_log ++ (warning, 401) ∷ [] }), returned tt)
  unfolding log_line caught unauthorized write write_header set_header status_level
  log_denied s w = refl

  -- Whatever the path behind `/devices` or `/users`, a request that the main mux gives to one of the
  -- two and that has no valid token of an admin is answered by 401 and the text "Unauthorized!",
  -- logged as a warning, and leaves the server as it was.
  pub main_router_denies :
      (p : AdminPart) (rest : Bytes) (r : Request) (s : Server) (w : Writer)
      → ((sw : Server × Writer)
          → serve main_entries (under p rest r) sw
            ≡ (mount (prefix_of p ++ b'/' ∷ [], router_of p)).1 (under p rest r) sw)
      → ¬ Carries x.jwt x.host (r.header (codes "Authorization")) (codes "admin")
      → main_router serve x (under p rest r) (s, w)
        ≡ ((s, record (denied w) { access_log = w.access_log ++ (warning, 401) ∷ [] }), returned tt)
  main_router_denies p rest r s w found n =
      ap (λ h. h (under p rest r) (s, w)) main_router_lem
      ∙ main_stack_lem (serve main_entries) (under p rest r) s w
      ∙ ap (λ e. log_line (caught e))
          (found (s, entered w)
            ∙ ap (λ h. h (s, entered w))
                (mount-path (prefix_of p) rest (router_of p) r (prefix_of-ne-nil p))
            ∙ rejected p (record r { path = rest }) s (entered w) n)
      ∙ log_denied s w

  -- The router of `/tdm/` lets in exactly the requests with a token of the device that they name.
  pub publish_router-AdmitsDevice :
      (r : Request) (s : Server) (w : Writer)
      → AdmitsDevice x.jwt
          (finalize serve (publish_routes serve x))
          r
          w
          (get_device_key (x.up 0) (r.header (codes "Username")) s)
          (publish_router serve x r (s, w))
  unfolding publish_router finalize add_middleware publish_routes add_handler new_router
  publish_router-AdmitsDevice r s w =
      rw
        (
          create_stack-foldr (mqtt_auth x.jwt (x.up 0) ∷ []) (serve _),
          create_stack-foldr [] (serve _),
        )
        (mqtt_auth-AdmitsDevice x.jwt (x.up 0) _ r s w)
