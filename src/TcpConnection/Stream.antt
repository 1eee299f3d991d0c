-- ===== src/TcpConnection/Stream.antt =====
-- The bytes that a connection is given leave it in order, and once.
use muzi.Prelude.{
  is_empty→nil, ℕ, zero, suc, ◌+◌, ◌-◌, ◌≤◌, ◌<◌, ◌≡◌, ◌≢◌, ◌⊎◌, inl, inr, refl, sym, ap, ◌∙◌, Bool,
  true, false, List, [], ◌∷◌, ◌++◌, arith, length, take, drop, ltb, if◌then◌else◌, Bool-cases,
  ltb→lt, take-append-drop, length-drop, le→ltb, lt→ltb,
}
use mathlib.Core.List.{append-nil, append_assoc}
use muzi.ChainBuffer.Bytes.{drop-append_le}
use muzi.TcpConnection.{
  TcpConnection, disconnected, Effect, connection, close, message, write_complete, high_water,
  wrote, shut_down_on_write, Written, done, failed, is, when, taken, writes_directly,
  send_remaining, send_in_loop, send_buffer_in_loop, shut_down_in_loop, after_write, handle_write,
}

-- The bytes handed to the kernel.
abbrev pub kernel_bytes : List Effect → List ℕ
kernel_bytes [] = []
kernel_bytes (wrote bytes ∷ es) = bytes ++ kernel_bytes es
kernel_bytes (connection ∷ es) = kernel_bytes es
kernel_bytes (close ∷ es) = kernel_bytes es
kernel_bytes (message ∷ es) = kernel_bytes es
kernel_bytes (write_complete ∷ es) = kernel_bytes es
kernel_bytes (high_water n ∷ es) = kernel_bytes es
kernel_bytes (shut_down_on_write ∷ es) = kernel_bytes es

-- The bytes behind a message that a direct write of a part of it drags along.
abbrev pub stray : TcpConnection → List ℕ → List ℕ → Written → List ℕ
stray c bytes beyond r =
    let w = taken (writes_directly c) r in if ltb w (length bytes) then take w beyond else []

not_disconnected : (c : TcpConnection) → c.state ≢ disconnected → is c disconnected ≡ false
not_disconnected c up = ground arith

kernel_bytes_parts :
    (n : ℕ) (bytes : List ℕ) (b : Bool) (later : List Effect)
    → kernel_bytes later ≡ []
    → kernel_bytes
        ((if ltb 0 n then wrote (take n bytes) ∷ [] else []) ++ (when b write_complete ++ later))
      ≡ take n bytes
kernel_bytes_parts zero bytes true later h = h
kernel_bytes_parts zero bytes false later h = h
kernel_bytes_parts (suc n) bytes b later h =
    let tail : kernel_bytes (when b write_complete ++ later) ≡ [] = ground (arith, h) in
    rw (lt→ltb 0 (suc n) (omega arith)) (ap (λ l. take (suc n) bytes ++ l) tail ∙ append-nil _)

module _ (c : TcpConnection) (bytes beyond : List ℕ) where
  send_remaining_some :
      (written : ℕ)
      → written < length bytes
      → (send_remaining c bytes beyond written).0.output_buffer
        ≡ c.output_buffer ++ take (length bytes) (drop written (bytes ++ beyond))
  unfolding send_remaining
  send_remaining_some written h = rw (lt→ltb 0 (length bytes - written) (omega arith)) refl

  send_remaining_all :
      (written : ℕ)
      → length bytes ≤ written
      → (send_remaining c bytes beyond written).0.output_buffer ≡ c.output_buffer
  unfolding send_remaining
  send_remaining_all written h = rw (le→ltb 0 (length bytes - written) (omega arith)) refl

  send_remaining_quiet : (written : ℕ) → kernel_bytes (send_remaining c bytes beyond written).1 ≡ []
  unfolding send_remaining
  send_remaining_quiet written = ground arith

  send_in_loop-output :
      (r : Written)
      → c.state ≢ disconnected
      → (send_in_loop c bytes beyond r).0.output_buffer
        ≡ (send_remaining c bytes beyond (taken (writes_directly c) r)).0.output_buffer
  unfolding send_in_loop
  send_in_loop-output r up = rw (not_disconnected c up)

  send_in_loop-kernel_bytes :
      (r : Written)
      → c.state ≢ disconnected
      → kernel_bytes (send_in_loop c bytes beyond r).1 ≡ take (taken (writes_directly c) r) bytes
  unfolding send_in_loop
  send_in_loop-kernel_bytes r up =
      let n = taken (writes_directly c) r in
      rw (not_disconnected c up)
        (kernel_bytes_parts n bytes _ (send_remaining c bytes beyond n).1 (send_remaining_quiet n))

drop_all : (n : ℕ) (xs : List ℕ) → length xs ≤ n → drop n xs ≡ []
drop_all zero [] h = refl
drop_all zero (x ∷ xs) h = absurd (omega arith)
drop_all (suc n) [] h = refl
drop_all (suc n) (x ∷ xs) h = drop_all n xs (omega arith)

take-append_more :
    (k n : ℕ) (xs ys : List ℕ) → n ≡ length xs + k → take n (xs ++ ys) ≡ xs ++ take k ys
take-append_more k n [] ys h = ap (λ m. take m ys) (omega (arith, h))
take-append_more k zero (x ∷ xs) ys h = absurd (omega (arith, h))
take-append_more k (suc n) (x ∷ xs) ys h =
    ap (λ l. x ∷ l) (take-append_more k n xs ys (omega (arith, h)))

-- The piece of memory of the message's length that starts `w` bytes into the message.
shifted :
    (w : ℕ) (bytes beyond : List ℕ)
    → w ≤ length bytes
    → take (length bytes) (drop w (bytes ++ beyond)) ≡ drop w bytes ++ take w beyond
shifted w bytes beyond h =
    ap (take (length bytes)) (drop-append_le w bytes beyond h)
    ∙ take-append_more w (length bytes) (drop w bytes) beyond (omega (arith, length-drop w bytes))

-- Bytes taken off the front go before what is stored only where nothing is stored.
in_order :
    (w : ℕ) (out bytes extra : List ℕ)
    → (w ≡ 0) ⊎ (out ≡ [])
    → take w bytes ++ (out ++ (drop w bytes ++ extra)) ≡ out ++ (bytes ++ extra)
in_order w out bytes extra (inl e) = rw e refl
in_order w out bytes extra (inr e) = rw e (
    sym (append_assoc (take w bytes) (drop w bytes) extra)
    ∙ ap (λ l. l ++ extra) (take-append-drop w bytes))

taken_order :
    (c : TcpConnection) (r : Written) → (taken (writes_directly c) r ≡ 0) ⊎ (c.output_buffer ≡ [])
taken_order c r = elim (Bool-cases (writes_directly c)) [
  | inl direct ↦ inr (is_empty→nil c.output_buffer (ground (arith, direct)))
  | inr waits ↦ inl (ap (λ b. taken b r) waits)
]

-- SendInLoop() of a connection that is not down, whose write(2) takes no more bytes than it is
-- given: what the kernel gets, followed by the new output buffer, is the old output buffer, the
-- bytes sent and, where the write takes a part of them, as many stray bytes from behind them.
pub send_in_loop_lem :
    (c : TcpConnection) (bytes beyond : List ℕ) (r : Written)
    → c.state ≢ disconnected
    → taken (writes_directly c) r ≤ length bytes
    → let (c', es) = send_in_loop c bytes beyond r in
      kernel_bytes es ++ c'.output_buffer ≡ c.output_buffer ++ (bytes ++ stray c bytes beyond r)
send_in_loop_lem c bytes beyond r up fits =
    let w = taken (writes_directly c) r in
    let out = c.output_buffer in
    rw (send_in_loop-kernel_bytes c bytes beyond r up, send_in_loop-output c bytes beyond r up)
      (elim (Bool-cases (ltb w (length bytes))) [
        | inl part ↦
            ap (λ l. take w bytes ++ l)
              (send_remaining_some c bytes beyond w (ltb→lt w (length bytes) part)
                ∙ ap (λ l. out ++ l) (shifted w bytes beyond fits))
            ∙ in_order w out bytes (take w beyond) (taken_order c r)
            ∙ ap (λ b. out ++ (bytes ++ (if b then take w beyond else []))) (sym part)
        | inr whole ↦
            let all : length bytes ≤ w = ground (arith, whole) in
            ap (λ l. take w bytes ++ l)
              (send_remaining_all c bytes beyond w all
                ∙ sym (append-nil out)
                ∙ ap (λ l. out ++ (l ++ [])) (sym (drop_all w bytes all)))
            ∙ in_order w out bytes [] (taken_order c r)
            ∙ ap (λ b. out ++ (bytes ++ (if b then take w beyond else []))) (sym whole)
      ])

-- SendInLoop(const Buffer &) of a connection that is not down stores all the bytes behind those
-- that wait, waits for room to write, and hands nothing to the kernel.
pub send_buffer_in_loop_lem :
    (c : TcpConnection) (buf : List ℕ)
    → c.state ≢ disconnected
    → let (c', es) = send_buffer_in_loop c buf in
      (c'.output_buffer ≡ c.output_buffer ++ buf) × (c'.writing ≡ true) × (kernel_bytes es ≡ [])
unfolding send_buffer_in_loop
send_buffer_in_loop_lem c buf up = rw (not_disconnected c up) (refl, refl, ground arith)

after_write_lem :
    (c : TcpConnection) (n : ℕ)
    → ((after_write c n).0.output_buffer ≡ drop n c.output_buffer)
      × (kernel_bytes (after_write c n).1 ≡ [])
unfolding after_write shut_down_in_loop
after_write_lem c n = ground arith

pub either :
    (b : Bool) {x y : TcpConnection × List Effect} (P : TcpConnection × List Effect → Type 0)
    → P x
    → P y
    → P (if b then x else y)
either true P px py = px
either false P px py = py

-- HandleWrite() hands the kernel bytes off the front of the output buffer: what the kernel gets,
-- followed by what is left, is what was stored.
pub handle_write_lem :
    (c : TcpConnection) (r : Written)
    → let (c', es) = handle_write c r in kernel_bytes es ++ c'.output_buffer ≡ c.output_buffer
unfolding handle_write
handle_write_lem c failed = refl
handle_write_lem c (done n) =
    let (left, quiet) = after_write_lem c n in
    either c.writing (λ p. kernel_bytes p.1 ++ p.0.output_buffer ≡ c.output_buffer)
      (rw (left, quiet, append-nil (take n c.output_buffer)) (take-append-drop n c.output_buffer))
      refl
