-- ===== src/TcpClient/Steps.antt =====
-- What holds of a client and its connector between the actions of its loop.
use muzi.Prelude.{
  ℕ, ◌+◌, ◌≡◌, refl, ap, ◌∙◌, Bool, true, false, not, ◌&&◌, List, [], ◌∷◌, Option, none, some,
  arith, length, ltb, ◌==◌, if◌then◌else◌,
}
use muzi.Connector.{
  Effect, Result, close, new_connection, cancel_timer, run_after, queue_reset_channel,
}
use muzi.Connector.Sockets.{sound}
use muzi.Connector.Calls.{news, queued, stale, is_connected, quiet}
use muzi.TcpConnection.{init as new_connection_object, establish_connection}
use muzi.TcpClient.{TcpClient, new_connection_in_loop, run_effects, with_connector}
use muzi.TcpClient.Current.{all_fine, outside, all_fine-outside}

-- connection_ is one of the connections, and the connector is connected.
abbrev pub current_ok : Option ℕ → ℕ → Bool → Bool
current_ok none k b = true
current_ok (some n) k b = ltb n k && b

abbrev pub in_step : TcpClient → Bool
in_step s =
    sound s.connector
    && (s.connector.new_connection_callback
        && ((s.resets == stale s.connector.channel)
            && (current_ok s.connection (length s.connections) (is_connected s.connector.state)
                && all_fine s.connection s.connections)))

-- What an action leaves, which fails an assertion exactly with `fails`.
abbrev pub next : (fails : Bool) → Option TcpClient → Bool
next fails none = fails
next fails (some s) = not fails && in_step s

run_effects-quiet :
    (fails : Bool) (es : List Effect) (s : TcpClient)
    → news es ≡ 0
    → next fails (run_effects es s)
      ≡ (not fails && in_step (record s { resets = s.resets + queued es }))
run_effects-quiet b [] s h = ap (λ k. not b && in_step (record s { resets = k })) (omega arith)
run_effects-quiet b (close fd ∷ es) s h = run_effects-quiet b es s h
run_effects-quiet b (new_connection fd ∷ es) s h = absurd (omega (arith, h))
run_effects-quiet b (cancel_timer i ∷ es) s h = run_effects-quiet b es s h
run_effects-quiet b (run_after d ∷ es) s h = run_effects-quiet b es s h
run_effects-quiet b (queue_reset_channel ∷ es) s h =
    run_effects-quiet b es (record s { resets = s.resets + 1 }) h
    ∙ ap (λ k. not b && in_step (record s { resets = k })) (omega arith)

current_ok-connected :
    (current : Option ℕ) (k : ℕ) (stays b : Bool)
    → current_ok current k stays ≡ true
    → (if stays then b else true) ≡ true
    → current_ok current k b ≡ true
current_ok-connected none k stays b h q = refl
current_ok-connected (some n) k stays b h q = ground arith

-- A call that makes no connection.
pub quiet-next :
    (fails stays : Bool) (s : TcpClient) (r : Result)
    → quiet fails stays s.resets r ≡ true
    → current_ok s.connection (length s.connections) stays ≡ true
    → all_fine s.connection s.connections ≡ true
    → next fails (with_connector s r) ≡ true
quiet-next fails stays s none q o f = q
quiet-next fails stays s (some (c', es)) q o f =
    let ok =
      current_ok-connected s.connection (length s.connections) stays (is_connected c'.state) o
        (ground (arith, q)) in
    let calm : news es ≡ 0 = ground (arith, q) in
    run_effects-quiet fails es (record s { connector = c' }) calm ∙ ground (arith, q, ok, f)

-- NewConnection() of a client without a connection.
pub new_connection_in_loop-next :
    (s : TcpClient)
    → in_step s ≡ true
    → s.connection ≡ none
    → is_connected s.connector.state ≡ true
    → next false (new_connection_in_loop s) ≡ true
unfolding new_connection_in_loop new_connection_object establish_connection
new_connection_in_loop-next s h e k =
    let o : outside s.connection (length s.connections) ≡ true = rw e refl in
    let f =
      all_fine-outside s.connection (some (length s.connections)) s.connections o (ground arith)
        (ground (arith, h)) in
    ground (arith, h, f, k)
