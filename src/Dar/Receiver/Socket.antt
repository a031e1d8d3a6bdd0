-- ===== src/Dar/Receiver/Socket.antt =====
-- The socket of the receiver of alerts: init_dar_socket of SCMultipath/dar/alerts_receiver.c and the
-- thread that reads it.
use premium.Base.{List, [], ◌∷◌, Bool, true, false, Option, none, some, if◌then◌else◌}
use premium.Dar.Receiver.{Dar, Read, failed, Ending, handle_darshana_client_loop}

-- What socket and bind come to.
pub data DarSocket : Type 0 where
  socket_fails bind_fails socket_bound : DarSocket

-- Whether it returns a descriptor, or -1. A bind that fails ends the process, which is `none`.
unfoldable pub init_dar_socket : DarSocket → Option Bool
init_dar_socket socket_fails = some false
init_dar_socket bind_fails = none
init_dar_socket socket_bound = some true

-- read of the descriptor -1 fails.
unfoldable pub handle_darshana_client_thread_function : Bool → Bool → List Read → Dar → Ending × Dar
handle_darshana_client_thread_function returns opened reads d =
    handle_darshana_client_loop returns 0 (if opened then reads else failed ∷ []) d
