-- ===== src/Api/Reach.antt =====
-- What no sequence of calls of the management API can break.
use nimo_os_gateway.Base.{ℕ, ◌≡◌, Option, Text}
use nimo_os_gateway.State.{State}
use nimo_os_gateway.Management.{Surroundings, Management}
use nimo_os_gateway.Management.Table.{IsConsistent}
use nimo_os_gateway.Gateway.{Request}
use nimo_os_gateway.Api.{Echo, Binder, Process, Reply}
use nimo_os_gateway.Api.Upload.{Files}
use nimo_os_gateway.Api.Server.{Sights, manage}

module _ {env : Surroundings} {W : Type 0} where
  -- The table is consistent, and the files are where they were.
  pub record IsSound (runtime_path : Text) (p : Process env W) : Type 0 where
    pub table : IsConsistent env p.table
    pub path : p.state.settings.runtime_path ≡ runtime_path

  module _ (bind : Binder) (files : Files W) (runtime_path : Text) where
    module _ (echo : Echo) (validate : Text → Option ℕ) where
      module _ (sights : Sights W) (unmatched : Request → Reply) where
        -- The processes that requests to the management server lead to.
        pub data Reaches (p : Process env W) : Process env W → Type 0 where
          here : Reaches p p
          call :
              {q : Process env W} (r : Request)
              → Reaches p q
              → Reaches p (manage bind files sights echo validate unmatched r q).1
