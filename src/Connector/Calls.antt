-- ===== src/Connector/Calls.antt =====
-- What the owner of a connector relies on: which of its calls make a connection or queue
-- ResetChannel(), and that none fails unless it starts a new attempt while ResetChannel() is queued.
use muzi.Prelude.{
  ℕ, suc, ◌+◌, ◌≡◌, ◌⊎◌, inl, inr, refl, Bool, true, false, not, ◌&&◌, List, [], ◌∷◌, Option, none,
  some, arith, ltb, ◌==◌, if◌then◌else◌,
}
use muzi.Connector.{
  State, disconnected, connecting, connected, Watched, Connector, Effect, close, new_connection,
  cancel_timer, run_after, queue_reset_channel, Errno, success, in_progress, intr, is_conn, again,
  addr_in_use, addr_not_avail, conn_refused, net_unreach, acces, perm, af_no_support, already,
  bad_f, fault, not_sock, unknown, Result, is_connecting, is_disconnected, retry, connecting_to,
  connect_result, connect_to, start_in_loop, start, restart_in_loop, remove_and_reset_channel,
  init_retry_delay_ms, stop_in_loop, stop, handle_connected, handle_write, reset_channel,
}
use muzi.Connector.Sockets.{sound, start_op, timer_op, restart_op, stop_op, write_op, step}

abbrev pub news : List Effect → ℕ
news [] = 0
news (close fd ∷ es) = news es
news (new_connection fd ∷ es) = suc (news es)
news (cancel_timer i ∷ es) = news es
news (run_after d ∷ es) = news es
news (queue_reset_channel ∷ es) = news es

abbrev pub queued : List Effect → ℕ
queued [] = 0
queued (close fd ∷ es) = queued es
queued (new_connection fd ∷ es) = queued es
queued (cancel_timer i ∷ es) = queued es
queued (run_after d ∷ es) = queued es
queued (queue_reset_channel ∷ es) = suc (queued es)

-- A channel that waits for ResetChannel().
abbrev pub stale : Option Watched → ℕ
stale none = 0
stale (some w) = if w.in_poller then 0 else 1

abbrev pub is_connected : State → Bool
is_connected connected = true
is_connected _ = false

-- A call makes no connection, and queues ResetChannel() for a channel that it takes out of the
-- poller; with `stays` it leaves the connector connected. It fails an assertion exactly with `fails`.
abbrev pub quiet : (fails stays : Bool) → ℕ → Result → Bool
quiet fails stays k none = fails
quiet fails stays k (some (c', es)) =
    not fails
    && (sound c'
        && (c'.new_connection_callback
            && ((stale c'.channel == k + queued es)
                && ((news es == 0) && (if stays then is_connected c'.state else true)))))

abbrev pub ready : Connector → Bool
ready c = sound c && (c.new_connection_callback && (stale c.channel == 0))

-- The results of connect(2) with which Connect() goes on to Connecting().
abbrev pub opens : Errno → Bool
opens success = true
opens in_progress = true
opens intr = true
opens is_conn = true
opens _ = false

connect_result-quiet :
    (timer fd : ℕ) (e : Errno) (c : Connector)
    → is_connecting c.state ≡ false
    → sound c ≡ true
    → c.new_connection_callback ≡ true
    → quiet
        (opens e && ltb 0 (stale c.channel))
        false
        (stale c.channel)
        (connect_result timer fd e c)
      ≡ true
unfolding connect_result connecting_to retry
connect_result-quiet timer fd success c d s n = ground arith
connect_result-quiet timer fd in_progress c d s n = ground arith
connect_result-quiet timer fd intr c d s n = ground arith
connect_result-quiet timer fd is_conn c d s n = ground arith
connect_result-quiet timer fd again c d s n = ground arith
connect_result-quiet timer fd addr_in_use c d s n = ground arith
connect_result-quiet timer fd addr_not_avail c d s n = ground arith
connect_result-quiet timer fd conn_refused c d s n = ground arith
connect_result-quiet timer fd net_unreach c d s n = ground arith
connect_result-quiet timer fd acces c d s n = ground arith
connect_result-quiet timer fd perm c d s n = ground arith
connect_result-quiet timer fd af_no_support c d s n = ground arith
connect_result-quiet timer fd already c d s n = ground arith
connect_result-quiet timer fd bad_f c d s n = ground arith
connect_result-quiet timer fd fault c d s n = ground arith
connect_result-quiet timer fd not_sock c d s n = ground arith
connect_result-quiet timer fd unknown c d s n = ground arith

pub start-quiet :
    (timer fd : ℕ) (e : Errno) (c : Connector)
    → sound c ≡ true
    → c.new_connection_callback ≡ true
    → quiet
        ((opens e && is_disconnected c.state) && ltb 0 (stale c.channel))
        (is_connected c.state)
        (stale c.channel)
        (step timer fd (start_op e) c)
      ≡ true
unfolding step start start_in_loop connect_to
start-quiet timer fd e c s n =
    let b = connect_result-quiet timer fd e (record c { connect = true }) in ground arith

pub timer-quiet :
    (timer fd : ℕ) (e : Errno) (c : Connector)
    → sound c ≡ true
    → c.new_connection_callback ≡ true
    → quiet
        ((opens e && (c.connect && is_disconnected c.state)) && ltb 0 (stale c.channel))
        (is_connected c.state)
        (stale c.channel)
        (step timer fd (timer_op e) c)
      ≡ true
unfolding step start_in_loop connect_to
timer-quiet timer fd e c s n = let b = connect_result-quiet timer fd e c in ground arith

pub restart-quiet :
    (timer fd : ℕ) (e : Errno) (c : Connector)
    → is_connecting c.state ≡ false
    → sound c ≡ true
    → c.new_connection_callback ≡ true
    → quiet
        (opens e && ltb 0 (stale c.channel))
        false
        (stale c.channel)
        (step timer fd (restart_op e) c)
      ≡ true
unfolding step restart_in_loop start_in_loop connect_to
restart-quiet timer fd e c d s n =
    connect_result-quiet timer fd e
      (record c { connect = true; state = disconnected; retry_delay = init_retry_delay_ms }) refl
      (ground arith) n

pub stop-quiet :
    (timer fd : ℕ) (c : Connector)
    → sound c ≡ true
    → c.new_connection_callback ≡ true
    → quiet false (is_connected c.state) (stale c.channel) (step timer fd stop_op c) ≡ true
unfolding step stop stop_in_loop retry remove_and_reset_channel
stop-quiet timer fd c s b = ground arith

-- HandleWrite() makes a connection, or is quiet.
abbrev pub MadeOrQuiet : Result → Type 0
MadeOrQuiet r =
    (quiet false false 0 r ≡ true)
    ⊎ ((c' : Connector) × (fd : ℕ) × (r ≡ some (c', queue_reset_channel ∷ new_connection fd ∷ []))
        × (is_connected c'.state ≡ true)
        × (quiet false true 0 (some (c', queue_reset_channel ∷ [])) ≡ true))

pub handle_write-made :
    (timer fd : ℕ) (error self : Bool) (c : Connector)
    → is_connecting c.state ≡ true
    → ready c ≡ true
    → MadeOrQuiet (step timer fd (write_op error self) c)
unfolding step handle_write handle_connected remove_and_reset_channel retry
handle_write-made timer fd error self c k s = watched error self c.channel refl
  where
    watched :
        (error self : Bool) (ch : Option Watched)
        → c.channel ≡ ch
        → MadeOrQuiet (step timer fd (write_op error self) c)
    watched error self none e = absurd (ground arith)
    watched true self (some w) e = inl (ground arith)
    watched false true (some w) e = inl (ground arith)
    watched false false (some w) e =
        let b : c.new_connection_callback ≡ true = ground arith in
        let p : w.in_poller ≡ true = ground arith in
        rw (k, e, p, b) (inr (_, w.fd, refl, refl, refl))

pub reset_channel_lem : (c : Connector) → reset_channel c ≡ record c { channel = none }
unfolding reset_channel
reset_channel_lem c = refl

-- A connection attempt that is under way.
abbrev pub trying : ℕ → Connector → Connector
trying fd c = record c {
  connect = true;
  state = connecting;
  retry_delay = init_retry_delay_ms;
  channel = some (record { fd = fd; in_poller = true });
}

pub restart_lem :
    (timer fd : ℕ) (c : Connector)
    → c.channel ≡ none
    → step timer fd (restart_op in_progress) c ≡ some (trying fd c, [])
unfolding step restart_in_loop start_in_loop connect_to connect_result connecting_to
restart_lem timer fd c e = rw e refl

pub restart-stale :
    (timer fd : ℕ) (c : Connector)
    → stale c.channel ≡ 1
    → step timer fd (restart_op in_progress) c ≡ none
unfolding step restart_in_loop start_in_loop connect_to connect_result connecting_to
restart-stale timer fd c e = watched c.channel refl
  where
    watched :
        (ch : Option Watched) → c.channel ≡ ch → step timer fd (restart_op in_progress) c ≡ none
    watched none q = absurd (ground (arith, e, q))
    watched (some w) q = rw q refl

-- Start() of a connector that is connected only sets connect_.
pub start-connected :
    (timer fd : ℕ) (e : Errno) (c : Connector)
    → is_connected c.state ≡ true
    → step timer fd (start_op e) c ≡ some (record c { connect = true }, [])
unfolding step start start_in_loop
start-connected timer fd e c h =
    let q : is_disconnected c.state ≡ false = ground (arith, h) in rw q refl
