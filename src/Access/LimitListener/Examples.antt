-- ===== src/Access/LimitListener/Examples.antt =====
-- One connection of a listener with a limit of one.
use emby_panel.Prelude.{◌+◌, ◌≤◌, ◌≡◌, refl, arith}
use emby_panel.Access.LimitListener.{
  Listener, limit_listener, take_permit, accept_connection, takes, accepts, Reach, here, next,
}
use emby_panel.Access.LimitListener.Permits.{open_connections, connections_limited}

abbrev waiting : Listener
waiting = take_permit (limit_listener 1)

abbrev connected : Listener
connected = accept_connection waiting

one_connection : Reach (limit_listener 1) connected
unfolding limit_listener take_permit
one_connection = next (next here (takes (ground arith) refl)) (accepts (ground arith) refl)

connections_limited_example :
    (connected.permits ≡ connected.accepting + open_connections connected.connections)
    × (connected.accepting + open_connections connected.connections ≤ 1)
connections_limited_example = connections_limited 1 connected one_connection
