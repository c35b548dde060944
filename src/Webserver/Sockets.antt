-- ===== src/Webserver/Sockets.antt =====
-- The socket of src/webserver/webserver.c through starts and stops.
use backend_in_c.Prelude.{
  ℕ, ◌≡◌, refl, sym, ap, subst, ◌∙◌, List, [], ◌∷◌, Option, none, some, Bool, true, false, ◌==◌,
  if_true, if_false, arith,
}
use backend_in_c.Common.{ErrorCode}
use backend_in_c.Common.Words.{ℤ, pos, negsuc}
use backend_in_c.Webserver.{
  Handler, Webserver, Answers, close_fd, bring_up, create, set_handler, start, stop, destroy,
}

-- A call on a server, with what the system answers.
pub data ServerCall (U : Type 0) : Type 0 where
  start_call : Answers → ServerCall U
  stop_call : ServerCall U
  set_handler_call : Option (Handler U) → Option U → ServerCall U

abbrev pub State : Type 0 → Type 0
State U = Option (Webserver U) × List ℕ

abbrev pub perform : {U : Type 0} → ServerCall U → State U → State U
perform (start_call os) (server, fds) =
    let (code, server', fds') = start os server fds in (server', fds')
perform stop_call (server, fds) = stop server fds
perform (set_handler_call handler user_data) (server, fds) =
    ((set_handler handler user_data server).1, fds)

abbrev pub perform_all : {U : Type 0} → List (ServerCall U) → State U → State U
perform_all [] s = s
perform_all (x ∷ xs) s = perform_all xs (perform x s)

-- The server has its socket open if it runs, and otherwise none, next to the descriptors `others`.
pub data Listens {U : Type 0} (others : List ℕ) : State U → Type 0 where
  idle : (server : Webserver U) → server.is_running ≡ false → Listens others (some server, others)
  listening :
      (server : Webserver U) (fd : ℕ)
      → server.is_running ≡ true
      → server.socket_fd ≡ pos fd
      → Listens others (some server, fd ∷ others)

close_fd-first : (fd : ℕ) (fds : List ℕ) → close_fd (pos fd) (fd ∷ fds) ≡ fds
unfolding close_fd
close_fd-first fd fds = let same : fd == fd ≡ true = ground arith in rw (close_fd, same) refl

close_made :
    {U : Type 0} (others : List ℕ) (server : Webserver U) (fd : ℕ)
    → server.socket_fd ≡ pos fd
    → close_fd server.socket_fd (fd ∷ others) ≡ others
close_made others server fd made =
    ap (λ t. close_fd t (fd ∷ others)) made ∙ close_fd-first fd others

-- A start that fails after the socket was made has closed it again.
closed-Listens :
    {U : Type 0} (others : List ℕ) (server : Webserver U) (fd : ℕ)
    → server.is_running ≡ false
    → Listens others (some (record server { socket_fd = pos fd }), close_fd (pos fd) (fd ∷ others))
closed-Listens others server fd off =
    subst (λ t. Listens others (some (record server { socket_fd = pos fd }), t))
      (sym (close_fd-first fd others)) (idle (record server { socket_fd = pos fd }) off)

bring_up-Listens :
    {U : Type 0} (socket : Option ℕ) (setsockopt bind listen thread : Bool) (others : List ℕ)
    (server : Webserver U)
    → server.is_running ≡ false
    → let (code, server', fds) = bring_up socket setsockopt bind listen thread server others in
      Listens others (server', fds)
unfolding bring_up
bring_up-Listens none a b l t others server off = idle (record server { socket_fd = negsuc 0 }) off
bring_up-Listens (some fd) false b l t others server off = closed-Listens others server fd off
bring_up-Listens (some fd) true false l t others server off = closed-Listens others server fd off
bring_up-Listens (some fd) true true false t others server off = closed-Listens others server fd off
bring_up-Listens (some fd) true true true false others server off =
    closed-Listens others server fd off
bring_up-Listens (some fd) true true true true others server off =
    listening (record server { socket_fd = pos fd; is_running = true }) fd refl refl

perform-Listens :
    {U : Type 0} (x : ServerCall U) {others : List ℕ} (s : State U)
    → Listens others s
    → Listens others (perform x s)
unfolding start stop set_handler
perform-Listens {U} (start_call os) {others} s (idle server off) =
    subst {A = ErrorCode × Option (Webserver U) × List ℕ} (λ t. Listens others (t.1, t.2))
      (sym (if_false _ _ off))
      (bring_up-Listens os.socket os.setsockopt os.bind os.listen os.pthread_create others server
        off)
perform-Listens {U} (start_call os) {others} s (listening server fd on made) =
    subst {A = ErrorCode × Option (Webserver U) × List ℕ} (λ t. Listens others (t.1, t.2))
      (sym (if_true _ _ on)) (listening server fd on made)
perform-Listens stop_call {others} s (idle server off) =
    subst (Listens others) (sym (if_false _ _ off)) (idle server off)
perform-Listens stop_call {others} s (listening server fd on made) =
    subst (Listens others)
      (sym (
        if_true _ _ on
        ∙ ap (λ t. (some (record server { is_running = false }), t))
            (close_made others server fd made)))
      (idle (record server { is_running = false }) refl)
perform-Listens (set_handler_call handler user_data) s (idle server off) =
    idle (record server { handler = handler; user_data = user_data }) off
perform-Listens (set_handler_call handler user_data) s (listening server fd on made) =
    listening (record server { handler = handler; user_data = user_data }) fd on made

perform_all-Listens :
    {U : Type 0} (xs : List (ServerCall U)) {others : List ℕ} (s : State U)
    → Listens others s
    → Listens others (perform_all xs s)
perform_all-Listens [] s h = h
perform_all-Listens (x ∷ xs) s h = perform_all-Listens xs (perform x s) (perform-Listens x s h)

-- After any starts, whatever the system answered, stops and changes of the handler, a server that
-- `webserver_create` made has exactly its own socket open if it runs, and none if it does not, next to
-- what was open before.
pub create-Listens :
    {U : Type 0} (port : ℤ) (others : List ℕ) (xs : List (ServerCall U))
    → Listens others (perform_all xs (some (create port), others))
unfolding create
create-Listens port others xs =
    perform_all-Listens xs (some (create port), others) (idle (create port) refl)

destroy-Listens :
    {U : Type 0} (others : List ℕ) (s : State U) → Listens others s → destroy s.0 s.1 ≡ others
unfolding destroy stop
destroy-Listens others s (idle server off) = if_false _ _ off
destroy-Listens {U} others s (listening server fd on made) =
    if_true _ _ on ∙ ap (λ (t : State U). t.1) (if_true _ _ on) ∙ close_made others server fd made

-- After any such calls, `webserver_destroy` leaves open what was open before the server was created.
pub destroy-closes :
    {U : Type 0} (port : ℤ) (others : List ℕ) (xs : List (ServerCall U))
    → let s = perform_all xs (some (create port), others) in destroy s.0 s.1 ≡ others
destroy-closes port others xs =
    destroy-Listens others (perform_all xs (some (create port), others))
      (create-Listens port others xs)
