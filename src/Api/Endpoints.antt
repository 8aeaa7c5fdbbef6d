-- ===== src/Api/Endpoints.antt =====
-- route/management_route.go: the endpoints that change the process, as they are registered.
use nimo_os_gateway.Management.{Surroundings}
use nimo_os_gateway.Api.{Binder, Process, Handler, post_route, put_port, put_ssl}
use nimo_os_gateway.Api.Upload.{Files, upload}

-- The endpoints of the API that change the process.
pub data Change : Type 0 where
  route_change port_change ssl_change upload_change : Change

module _ {env : Surroundings} {W : Type 0} (bind : Binder) (files : Files W) where
  unfoldable pub change_handler : Change → Handler (Process env W)
  unfolding post_route put_port put_ssl upload
  change_handler route_change = post_route bind
  change_handler port_change = put_port bind
  change_handler ssl_change = put_ssl bind
  change_handler upload_change = upload files
