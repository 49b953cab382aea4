-- ===== src/System/Channels.antt =====
-- The wrappers for channels, shared memory, sockets and the network of sdk/src/syscall.c.
use axiome_toolchain.Base.{ℕ}
use axiome_toolchain.World.{World}
use axiome_toolchain.System.Sys
use axiome_toolchain.System.Call.{Kernel, syscall, int_call, long_of_int, long_of_unsigned}

module _ {K : Type 0} (kernel : Kernel K) where
  unfoldable pub ipc_create : World K → ℕ × World K
  ipc_create w = int_call kernel Sys.ipc_create 0 0 0 0 0 0 w

  unfoldable pub ipc_send : ℕ → ℕ → ℕ → World K → ℕ × World K
  ipc_send chan buf len w = syscall kernel Sys.ipc_send (long_of_int chan) buf len 0 0 0 w

  unfoldable pub ipc_recv : ℕ → ℕ → ℕ → World K → ℕ × World K
  ipc_recv chan buf max w = syscall kernel Sys.ipc_recv (long_of_int chan) buf max 0 0 0 w

  unfoldable pub shm_create : ℕ → World K → ℕ × World K
  shm_create bytes w = syscall kernel Sys.shm_create bytes 0 0 0 0 0 w

  unfoldable pub shm_attach : ℕ → World K → ℕ × World K
  shm_attach id w = syscall kernel Sys.shm_attach id 0 0 0 0 0 w

  unfoldable pub sock_create : ℕ → ℕ → ℕ → World K → ℕ × World K
  sock_create domain type proto w =
      int_call kernel Sys.socket_create (long_of_int domain) (long_of_int type) (long_of_int proto)
        0 0 0 w

  unfoldable pub sock_bind : ℕ → ℕ → ℕ → World K → ℕ × World K
  sock_bind fd addr addrlen w =
      int_call kernel Sys.socket_bind (long_of_int fd) addr (long_of_int addrlen) 0 0 0 w

  unfoldable pub sock_connect : ℕ → ℕ → ℕ → World K → ℕ × World K
  sock_connect fd addr addrlen w =
      int_call kernel Sys.socket_connect (long_of_int fd) addr (long_of_int addrlen) 0 0 0 w

  unfoldable pub sock_listen : ℕ → World K → ℕ × World K
  sock_listen fd w = int_call kernel Sys.socket_listen (long_of_int fd) 0 0 0 0 0 w

  unfoldable pub sock_accept : ℕ → World K → ℕ × World K
  sock_accept fd w = int_call kernel Sys.socket_accept (long_of_int fd) 0 0 0 0 0 w

  unfoldable pub sock_send : ℕ → ℕ → ℕ → World K → ℕ × World K
  sock_send fd buf len w = syscall kernel Sys.socket_send (long_of_int fd) buf len 0 0 0 w

  unfoldable pub sock_recv : ℕ → ℕ → ℕ → World K → ℕ × World K
  sock_recv fd buf max w = syscall kernel Sys.socket_recv (long_of_int fd) buf max 0 0 0 w

  unfoldable pub sock_close : ℕ → World K → ℕ × World K
  sock_close fd w = int_call kernel Sys.socket_close (long_of_int fd) 0 0 0 0 0 w

  unfoldable pub dns_resolve : ℕ → ℕ → World K → ℕ × World K
  dns_resolve name ip_out w = int_call kernel Sys.dns_resolve name ip_out 0 0 0 0 w

  unfoldable pub ping : ℕ → ℕ → ℕ → World K → ℕ × World K
  ping dst_be32 timeout_ms rtt_us w =
      int_call kernel Sys.ping (long_of_unsigned dst_be32) (long_of_unsigned timeout_ms) rtt_us 0 0
        0 w
