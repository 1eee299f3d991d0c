-- ===== src/TcpServer/Run.antt =====
-- The actions of a server and its connections, and the runs that they make.
use muzi.Prelude.{ℕ, ◌≡◌, Bool, List, [], ◌∷◌, Option, some}
use muzi.TcpConnection.Run.{Op}
use muzi.TcpServer.{
  TcpServer, start, new_connection, run_establish, operate, remove_connection_in_loop, run_destroy,
  at_client, with_clients,
}

pub data Action : Type 0 where
  call_start : (ℕ → ℕ) → Bool → Action
  accept : Action
  establishing removing destroying : ℕ → Action
  operating : Op → ℕ → Action

unfoldable pub step : Action → TcpServer → Option TcpServer
step (call_start loop_of has_callback) s = start loop_of has_callback s
step accept s = new_connection s
step (establishing i) s = with_clients s (at_client run_establish i s.clients)
step (removing i) s = with_clients s (at_client remove_connection_in_loop i s.clients)
step (destroying i) s = with_clients s (at_client run_destroy i s.clients)
step (operating o i) s = with_clients s (at_client (operate o) i s.clients)

pub data Run : TcpServer → List Action → TcpServer → Type 0 where
  done : (s : TcpServer) → Run s [] s
  after :
      {s s₁ s₂ : TcpServer} (a : Action) {acts : List Action}
      → step a s ≡ some s₁
      → Run s₁ acts s₂
      → Run s (a ∷ acts) s₂

-- What every action keeps, a run keeps.
pub Run-keeps {ℓ} :
    (P : TcpServer → Type ℓ)
    → ((a : Action) (s s₁ : TcpServer) → step a s ≡ some s₁ → P s → P s₁)
    → {acts : List Action} {s s' : TcpServer} → Run s acts s'
    → P s
    → P s'
Run-keeps P keep (done s) h = h
Run-keeps P keep (after a e rest) h = Run-keeps P keep rest (keep a _ _ e h)
