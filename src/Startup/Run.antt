-- ===== src/Startup/Run.antt =====
-- main.go: what `main` and `run` do around the servers: the files of the runtime path, the three hooks
-- that start the servers, and the routes that they register. The first error ends the start.
pub mod Routes
pub mod Port
pub mod Served
mod Tests
use nimo_os_gateway.Base.{
  ℕ, Bool, true, false, not, Option, none, some, List, [], ◌∷◌, ◌++◌, Text, codes, same, Error,
  Result, ok, err, Act, done, ◌>>◌, decimal, if◌then◌else◌,
}
use nimo_os_gateway.Paths.{join_path}
use nimo_os_gateway.Addresses.{join_host_port}
use nimo_os_gateway.State.{Settings, State, ConfigHook, Outcome, set_gateway_port, add_config_hook}
use nimo_os_gateway.Management.{Surroundings, Route, Management, create_route}
use nimo_os_gateway.Api.{Process}
use nimo_os_gateway.Startup.{pick_port}

-- The machine that the servers run on. `serve_static` is the call of `Serve` for the static files,
-- which returns when that server has ended.
pub record Machine (W : Type 0) : Type 1 where
  pub listen : Text → W → Result Text × W
  pub is_free : W → ℕ → Bool
  pub getpid : W → ℕ
  pub mkdir_all : Text → Act W
  pub write_file : (path content : Text) → Act W
  pub remove : Text → Act W
  pub serve_static : Act W
  pub management_url_filename : Text
  pub static_url_filename : Text

abbrev pub localhost : Text
localhost = codes "127.0.0.1"

-- The paths of the management server that the gateway forwards.
unfoldable pub management_paths : List Text
management_paths =
    codes "/v1/gateway/port"
    ∷ codes "/v1/gateway/components"
    ∷ codes "/v1/gateway/device-info"
    ∷ codes "/v1/gateway/lan-discovery"
    ∷ codes "/v1/gateway/ssl"
    ∷ codes "/v1/gateway/ssl/upload"
    ∷ codes "/v1/gateway/ssl/ca"
    ∷ []

abbrev pub http_url : Text → Text
http_url addr = codes "http://" ++ addr

module _ {W : Type 0} (m : Machine W) where
  open m use {getpid, mkdir_all, write_file, remove}

  -- `writePidFile`
  unfoldable pub write_pid_file : Text → Act W
  unfolding join_path decimal
  write_pid_file runtime_path w =
      write_file (join_path runtime_path (codes "gateway.pid")) (decimal (getpid w)) w

  -- `writeAddressFile`
  unfoldable pub write_address_file : (runtime_path filename address : Text) → Act W
  unfolding join_path
  write_address_file runtime_path filename address =
      mkdir_all runtime_path >> write_file (join_path runtime_path filename) address

  -- `cleanupFiles`: an error is logged, and the next file is tried.
  unfoldable pub cleanup_files : Text → List Text → W → W
  unfolding join_path
  cleanup_files runtime_path [] w = w
  cleanup_files runtime_path (f ∷ fs) w =
      cleanup_files runtime_path fs (remove (join_path runtime_path f) w).1

module _ {env : Surroundings} {W : Type 0} where
  abbrev pub with_outcome : Process env W → Option Error × W → Option Error × Process env W
  with_outcome p (e, w) = (e, record p { world = w })

  -- An action on the world alone.
  abbrev pub on_world : Act W → Act (Process env W)
  on_world act p = with_outcome p (act p.world)

  abbrev pub with_table :
      Process env W → Option Error × Management env.Url × env.Sys → Option Error × Process env W
  with_table p (e, g, s) = (e, record p { table = g; disk = s })

  unfoldable pub register : Route → Act (Process env W)
  unfolding create_route
  register route p =
      with_table p (create_route env p.state.settings.runtime_path route p.table p.disk)

  -- The calls of `CreateRoute`, one after the other, for one target.
  unfoldable pub register_all : Text → List Text → Act (Process env W)
  unfolding register
  register_all target [] = done
  register_all target (path ∷ paths) =
      register (record { path = path; target = target }) >> register_all target paths

module _ {env : Surroundings} {W : Type 0} (m : Machine W) where
  open m use {listen, is_free, serve_static, management_url_filename, static_url_filename}

  abbrev pub after_listen :
      (Text → Act (Process env W)) → Process env W → Result Text × W → Option Error × Process env W
  after_listen k p (err e, w) = (some e, record p { world = w })
  after_listen k p (ok addr, w) = k addr (record p { world = w })

  -- A listener on a port of the system's choice, for this machine alone.
  abbrev pub listen_then : (Text → Act (Process env W)) → Act (Process env W)
  listen_then k p = after_listen k p (listen (join_host_port localhost (codes "0")) p.world)

  abbrev pub publish_address : Text → Text → Act (Process env W)
  publish_address filename target p =
      on_world (write_address_file m p.state.settings.runtime_path filename target) p

  -- the hook of the management server
  unfoldable pub start_management : Act (Process env W)
  unfolding write_address_file
  start_management = listen_then λ addr.
      publish_address management_url_filename (http_url addr)
      >> register_all (http_url addr) management_paths

  -- the hook of the static files, up to the call of `Serve`
  unfoldable pub publish_static : Act (Process env W)
  unfolding write_address_file
  publish_static = listen_then λ addr.
      publish_address static_url_filename (http_url addr)
      >> register (record { path = codes "/"; target = http_url addr })

  module _ (reload : ConfigHook W) where
    abbrev pub with_state : Process env W → Outcome W → Option Error × Process env W
    with_state p (e, c, w) = (e, record p { state = c; world = w })

    -- A port is looked for when none is configured.
    abbrev pub take_port : Text → Act (Process env W)
    take_port port p =
        if same port []
        then (some (codes "No port available for gateway to use"), p)
        else with_state p (set_gateway_port port p.state p.world)

    unfoldable pub choose_port : Act (Process env W)
    choose_port p =
        if same p.state.settings.gateway_port []
        then take_port (pick_port (is_free p.world)) p
        else (none, p)

    abbrev add_reload : Act (Process env W)
    add_reload p = (none, record p { state = add_config_hook reload p.state })

    abbrev reload_now : Act (Process env W)
    reload_now p = on_world (reload p.state.settings) p

    -- the hook of the gateway
    unfoldable pub start_gateway : Act (Process env W)
    unfolding add_config_hook
    start_gateway = choose_port >> add_reload >> reload_now

    -- The three hooks in their order, up to the call of `Serve` that lasts as long as the program.
    unfoldable pub start_all : Act (Process env W)
    start_all = start_management >> start_gateway >> publish_static

    -- `run`
    unfoldable pub run : Act (Process env W)
    unfolding start_all
    run = start_all >> on_world serve_static
