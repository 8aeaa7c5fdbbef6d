-- ===== src/Addresses/Ports.antt =====
-- The port of an address of a listener is read back.
use nimo_os_gateway.Base.{◌≡◌, refl, codes, ok, err}
use nimo_os_gateway.Addresses.{split_host_port, join_host_port}

wildcard_port : split_host_port (codes "[::]:8080") ≡ ok (codes "::", codes "8080")
unfolding split_host_port
wildcard_port = refl

loopback_port : split_host_port (codes "127.0.0.1:80") ≡ ok (codes "127.0.0.1", codes "80")
unfolding split_host_port
loopback_port = refl

bare_ipv6 : split_host_port (codes "::1:80") ≡ err (codes "too many colons in address")
unfolding split_host_port
bare_ipv6 = refl

joined : join_host_port (codes "::1") (codes "80") ≡ codes "[::1]:80"
unfolding join_host_port
joined = refl
