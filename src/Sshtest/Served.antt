-- ===== src/Sshtest/Served.antt =====
-- The requests that the test server answers, and the connections that it closes.
use auto_tunnel.Prelude.{
  ℕ, ◌≡◌, refl, sym, ap, ◌∙◌, Option, none, some, List, [], ◌∷◌, ◌++◌, append_assoc, append-nil,
  Bool-cases, inl, inr, if◌then◌else◌,
}
use auto_tunnel.Sshtest.{
  Server, Request, Answer, channel_closed, is_exec, refuse, run_exec, handle_session, registered,
  drop_connections, close_server, Call, connects, drops, closes, called, calls,
}

-- The requests before the first that asks for a command, and that one.
abbrev pub first_exec : List Request → List Request × Option Request
first_exec [] = ([], none)
first_exec (r ∷ rs) =
    let rest = first_exec rs in if is_exec r then ([], some r) else (r ∷ rest.0, rest.1)

abbrev pub refusals : List Request → List Answer
refusals [] = []
refusals (r ∷ rs) = refuse r ++ refusals rs

abbrev pub ended_by : Server → Option Request → Server × List Answer
ended_by s none = (s, channel_closed ∷ [])
ended_by s (some r) = run_exec s r.payload

-- A session refuses what comes before the first request for a command, where a reply is wanted, then
-- runs that command, or refuses it if it cannot be read, and answers nothing that comes after it.
pub handle_session_lem :
    (s : Server) (rs : List Request)
    → handle_session s rs ≡ (
      (ended_by s (first_exec rs).1).0,
      refusals (first_exec rs).0 ++ (ended_by s (first_exec rs).1).1,
    )
unfolding handle_session
handle_session_lem s [] = refl
handle_session_lem s (r ∷ rs) = elim (Bool-cases (is_exec r)) [
  | inl e ↦ rw e refl
  | inr e ↦ rw e (
      ap (λ (x : Server × List Answer). (x.0, refuse r ++ x.1)) (handle_session_lem s rs)
      ∙ ap (λ x. ((ended_by s (first_exec rs).1).0, x)) (sym (append_assoc (refuse r) _ _)))
]

abbrev pub connected : List Call → List ℕ
connected [] = []
connected (connects conn ∷ cs) = conn ∷ connected cs
connected (drops ∷ cs) = connected cs
connected (closes ∷ cs) = connected cs

called_lem :
    (s : Server) (c : Call) → (called s c).1 ++ (called s c).0.conns ≡ s.conns ++ connected (c ∷ [])
unfolding called registered drop_connections close_server
called_lem s (connects conn) = refl
called_lem s drops = refl
called_lem s closes = elim (Bool-cases s.closed) [
  | inl e ↦ rw e (sym (append-nil s.conns))
  | inr e ↦ rw e refl
]

connected_cons :
    (c : Call) (cs : List Call) → connected (c ∷ []) ++ connected cs ≡ connected (c ∷ cs)
connected_cons (connects conn) cs = refl
connected_cons drops cs = refl
connected_cons closes cs = refl

-- Whatever connects and whichever calls close connections, each connection is closed once or is still
-- one of the server's, and they are closed in the order in which they came.
pub calls-conns :
    (s : Server) (cs : List Call) → (calls s cs).1 ++ (calls s cs).0.conns ≡ s.conns ++ connected cs
unfolding calls
calls-conns s [] = sym (append-nil s.conns)
calls-conns s (c ∷ cs) =
    let (after, ended) = called s c in
    append_assoc ended (calls after cs).1 (calls after cs).0.conns
    ∙ ap (λ x. ended ++ x) (calls-conns after cs)
    ∙ sym (append_assoc ended after.conns (connected cs))
    ∙ ap (λ x. x ++ connected cs) (called_lem s c)
    ∙ append_assoc s.conns (connected (c ∷ [])) (connected cs)
    ∙ ap (λ x. s.conns ++ x) (connected_cons c cs)
