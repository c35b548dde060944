-- ===== src/TcpUdp/Sessions.antt =====
-- The sockets of src/tcp_udp/tcp_udp.c through sequences of calls: no call opens a descriptor, so none
-- closes one.
use backend_in_c.Prelude.{
  ℕ, ◌≡◌, refl, ap, ◌∙◌, List, [], ◌∷◌, ◌++◌, Option, none, some, true, false,
}
use backend_in_c.Common.Words.{negsuc}
use backend_in_c.TcpUdp.{
  UdpSocket, closed_fd, after_close, udp_create, udp_bind, udp_connect, udp_close, udp_destroy,
}

pub data UdpCall : Type 0 where
  bind_call connect_call close_call : UdpCall

abbrev pub udp_step : UdpCall → UdpSocket → Option UdpSocket × List ℕ
udp_step bind_call s = ((udp_bind (some s)).1, [])
udp_step connect_call s = ((udp_connect (some s)).1, [])
udp_step close_call s = udp_close (some s)

-- The descriptors that a sequence of calls closes, the destruction of the socket at its end included.
abbrev pub udp_closed : List UdpCall → UdpSocket → List ℕ
udp_closed [] s = udp_destroy (some s)
udp_closed (x ∷ xs) s =
    let (s', fds) = udp_step x s in fds ++ (elim s' [ none ↦ [] | some t ↦ udp_closed xs t ])

udp_closed-none : (xs : List UdpCall) (s : UdpSocket) → s.sockfd ≡ negsuc 0 → udp_closed xs s ≡ []
unfolding udp_bind udp_connect udp_close udp_destroy closed_fd after_close
udp_closed-none [] s e = ap closed_fd e
udp_closed-none (bind_call ∷ xs) s e = udp_closed-none xs (record s { is_bound = true }) e
udp_closed-none (connect_call ∷ xs) s e = udp_closed-none xs (record s { is_connected = true }) e
udp_closed-none (close_call ∷ xs) s e =
    ap
      (λ fd.
        closed_fd fd
        ++ udp_closed xs
            (record s { sockfd = after_close fd; is_bound = false; is_connected = false }))
      e
    ∙ udp_closed-none xs (record s { sockfd = negsuc 0; is_bound = false; is_connected = false })
        refl

-- Whatever is done with a datagram socket from its creation to its destruction, no descriptor is closed:
-- none was opened.
pub udp_create-closed : (xs : List UdpCall) → udp_closed xs udp_create ≡ []
unfolding udp_create
udp_create-closed xs = udp_closed-none xs udp_create refl
