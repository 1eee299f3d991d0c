-- ===== src/TcpConnection/Accepted.antt =====
-- Over a run, the kernel gets the bytes that the connection has accepted.
use mathlib.Core.List.{append-nil, append_assoc}
use mathlib.Core.Path.{subst}
use muzi.Prelude.{
  ℕ, ◌≤◌, ◌≡◌, ◌≢◌, ◌⊎◌, inl, inr, refl, sym, ap, ◌∙◌, List, [], ◌∷◌, ◌++◌, none, some, arith,
  length, take, ltb, if◌then◌else◌, Bool-cases, le→ltb,
}
use muzi.TcpConnection.{
  TcpConnection, connected, disconnected, Effect, Result, connection, close, message,
  write_complete, high_water, wrote, shut_down_on_write, Written, got, failed, is, taken,
  writes_directly, handle_close, force_close_in_loop, shut_down_in_loop, shut_down,
  send_buffer_in_loop, send_in_loop, send, send_buffer, force_close, establish_connection,
  destroy_connection, start_read_in_loop, stop_read_in_loop, handle_read,
}
use muzi.TcpConnection.Stream.{
  kernel_bytes, stray, send_in_loop_lem, send_buffer_in_loop_lem, handle_write_lem,
}
use muzi.TcpConnection.Run.{
  Op, establish, shut, force, destroy, start_read, stop_read, send_bytes, send_stored, readable,
  writable, step, Run, done, after,
}

-- The bytes that an operation is given while the connection takes them.
abbrev pub given : Op → TcpConnection → List ℕ
given (send_bytes bytes beyond r) c = if is c connected then bytes else []
given (send_stored buf) c = if is c connected then buf else []
given _ c = []

-- A direct write takes all the bytes or none.
abbrev pub IsWhole : Op → TcpConnection → Type 0
IsWhole (send_bytes bytes beyond r) c =
    (taken (writes_directly c) r ≡ 0) ⊎ (taken (writes_directly c) r ≡ length bytes)
IsWhole _ c = Unit

-- What is said of the connection behind a step, if the step returns.
abbrev pub behind {ℓ} : {A : Type ℓ} → A → (TcpConnection → A) → Result → A
behind a f none = a
behind a f (some (c, es)) = f c

-- Both over the operations of a run.
abbrev pub accepted : List Op → TcpConnection → List ℕ
accepted [] c = []
accepted (o ∷ ops) c = given o c ++ behind [] (accepted ops) (step o c)

abbrev pub AllWhole : List Op → TcpConnection → Type 0
AllWhole [] c = Unit
AllWhole (o ∷ ops) c = IsWhole o c × behind Unit (AllWhole ops) (step o c)

-- What a step is to do with the bytes.
abbrev Streams : TcpConnection → List ℕ → TcpConnection × List Effect → Type 0
Streams c bytes (c', es) = kernel_bytes es ++ c'.output_buffer ≡ c.output_buffer ++ bytes

abbrev StreamsResult : TcpConnection → List ℕ → Result → Type 0
StreamsResult c bytes none = Unit
StreamsResult c bytes (some r) = Streams c bytes r

-- An operation that leaves the output buffer alone.
abbrev Quiet : TcpConnection → Result → Type 0
Quiet c none = Unit
Quiet c (some (c', es)) = (c'.output_buffer ≡ c.output_buffer) × (kernel_bytes es ≡ [])

Quiet-Streams : (c : TcpConnection) (r : Result) → Quiet c r → StreamsResult c [] r
Quiet-Streams c none q = tt
Quiet-Streams c (some (c', es)) (e, f) = rw (e, f) (sym (append-nil c.output_buffer))

stray-IsWhole :
    (c : TcpConnection) (bytes beyond : List ℕ) (r : Written)
    → IsWhole (send_bytes bytes beyond r) c
    → (stray c bytes beyond r ≡ []) × (taken (writes_directly c) r ≤ length bytes)
stray-IsWhole c bytes beyond r (inl e) = (
  ap (λ w. if ltb w (length bytes) then take w beyond else []) e ∙ ground arith,
  omega (arith, e),
)
stray-IsWhole c bytes beyond r (inr e) =
    let w = taken (writes_directly c) r in
    (
      ap (λ b. if b then take w beyond else []) (le→ltb w (length bytes) (omega (arith, e))),
      omega (arith, e),
    )

-- An operation that runs while the connection is up.
while_up :
    (c : TcpConnection) (bytes : List ℕ) (r : TcpConnection × List Effect)
    → (c.state ≢ disconnected → Streams c bytes r)
    → Streams c (if is c connected then bytes else []) (if is c connected then r else (c, []))
while_up c bytes r h = elim (Bool-cases (is c connected)) [
  | inl up ↦ rw up (h (ground (arith, up)))
  | inr not_up ↦ rw not_up (sym (append-nil c.output_buffer))
]

send-Streams :
    (c : TcpConnection) (bytes beyond : List ℕ) (r : Written)
    → IsWhole (send_bytes bytes beyond r) c
    → c.state ≢ disconnected
    → Streams c bytes (send_in_loop c bytes beyond r)
send-Streams c bytes beyond r whole up =
    let (clean, fits) = stray-IsWhole c bytes beyond r whole in
    send_in_loop_lem c bytes beyond r up fits
    ∙ ap (λ l. c.output_buffer ++ (bytes ++ l)) clean
    ∙ ap (λ l. c.output_buffer ++ l) (append-nil bytes)

send_buffer-Streams :
    (c : TcpConnection) (buf : List ℕ)
    → c.state ≢ disconnected
    → Streams c buf (send_buffer_in_loop c buf)
send_buffer-Streams c buf up =
    let (stored, _, none_out) = send_buffer_in_loop_lem c buf up in
    ap (λ l. l ++ (send_buffer_in_loop c buf).0.output_buffer) none_out ∙ stored

step-Streams : (o : Op) (c : TcpConnection) → IsWhole o c → StreamsResult c (given o c) (step o c)
unfolding step establish_connection shut_down shut_down_in_loop force_close force_close_in_loop
    handle_close destroy_connection start_read_in_loop stop_read_in_loop handle_read send
    send_buffer
step-Streams establish c w = Quiet-Streams c (step establish c) (ground arith)
step-Streams shut c w = Quiet-Streams c (step shut c) (ground arith)
step-Streams force c w = Quiet-Streams c (step force c) (ground arith)
step-Streams destroy c w = Quiet-Streams c (step destroy c) (ground arith)
step-Streams start_read c w = Quiet-Streams c (step start_read c) (ground arith)
step-Streams stop_read c w = Quiet-Streams c (step stop_read c) (ground arith)
step-Streams (readable failed) c w = Quiet-Streams c (step (readable failed) c) (ground arith)
step-Streams (readable (got [])) c w = Quiet-Streams c (step (readable (got [])) c) (ground arith)
step-Streams (readable (got (x ∷ xs))) c w =
    Quiet-Streams c (step (readable (got (x ∷ xs))) c) (ground arith)
step-Streams (send_bytes bytes beyond r) c w = while_up c bytes _ (send-Streams c bytes beyond r w)
step-Streams (send_stored buf) c w = while_up c buf _ (send_buffer-Streams c buf)
step-Streams (writable r) c w = handle_write_lem c r ∙ sym (append-nil c.output_buffer)

kernel_bytes-append :
    (es fs : List Effect) → kernel_bytes (es ++ fs) ≡ kernel_bytes es ++ kernel_bytes fs
kernel_bytes-append [] fs = refl
kernel_bytes-append (wrote bytes ∷ es) fs =
    rw (kernel_bytes-append es fs) (sym (append_assoc bytes (kernel_bytes es) (kernel_bytes fs)))
kernel_bytes-append (close ∷ es) fs = kernel_bytes-append es fs
kernel_bytes-append (connection ∷ es) fs = kernel_bytes-append es fs
kernel_bytes-append (message ∷ es) fs = kernel_bytes-append es fs
kernel_bytes-append (write_complete ∷ es) fs = kernel_bytes-append es fs
kernel_bytes-append (high_water n ∷ es) fs = kernel_bytes-append es fs
kernel_bytes-append (shut_down_on_write ∷ es) fs = kernel_bytes-append es fs

-- Over any run in which no direct write takes a part of its bytes only: what the kernel gets,
-- followed by what is stored at the end, is what was stored at the start followed by the bytes
-- that the connection has accepted, in their order.
pub kernel_bytes-accepted :
    {c c' : TcpConnection} {ops : List Op} {es : List Effect}
    → Run c ops es c'
    → AllWhole ops c
    → kernel_bytes es ++ c'.output_buffer ≡ c.output_buffer ++ accepted ops c
kernel_bytes-accepted (done c) w = sym (append-nil c.output_buffer)
kernel_bytes-accepted {c} {c'} (after {c₁ = c₁} {es = es} {fs = fs} o {ops = ops} e rest) (w, ws) =
    let first = subst (StreamsResult c (given o c)) e (step-Streams o c w) in
    let later = kernel_bytes-accepted rest (subst (behind Unit (AllWhole ops)) e ws) in
    rw
      (
        e,
        kernel_bytes-append es fs,
        append_assoc (kernel_bytes es) (kernel_bytes fs) c'.output_buffer,
      )
      (ap (λ l. kernel_bytes es ++ l) later
        ∙ sym (append_assoc (kernel_bytes es) c₁.output_buffer (accepted ops c₁))
        ∙ ap (λ l. l ++ accepted ops c₁) first
        ∙ append_assoc c.output_buffer (given o c) (accepted ops c₁))
