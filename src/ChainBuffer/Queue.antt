-- ===== src/ChainBuffer/Queue.antt =====
-- Sequences of operations of a chain buffer, and of a queue of bytes to compare them with.
use mathlib.Core.Path.{subst}
use muzi.Prelude.{
  ℕ, ◌+◌, ◌^◌, ◌≡◌, refl, sym, ap, inl, inr, List, [], ◌∷◌, ◌++◌, Option, none, some, arith, length,
  take, drop, ltb, leb, Bool-cases, if◌then◌else◌,
}
use muzi.ChainBuffer.{
  ChainBuffer, append, retrive, retrive_all, retrive_as_string, retrive_all_as_string, shrink,
}
use muzi.ChainBuffer.Invariant.{contents, IsValid, length-contents, retrive_all-IsValid}
use muzi.ChainBuffer.Append.{append_lem}
use muzi.ChainBuffer.Retrive.{retrive_lem}
use muzi.ChainBuffer.Peek.{retrive_as_string_lem, retrive_all_as_string_lem}
use muzi.ChainBuffer.Trim.{shrink_lem}
use muzi.ChainBuffer.Vectors.{received, with_sent, read_fd}
use muzi.ChainBuffer.Sockets.{read_fd_lem}

-- Append(), ReadFd() of the bytes that the kernel has, Retrive(), RetriveAsString(),
-- RetriveAllAsString(), RetriveAll() and Shrink().
pub data Op : Type 0 where
  put receive : List ℕ → Op
  skip take_out reserve : ℕ → Op
  take_all clear : Op

-- The bytes that come out of an operation, and what is left.
abbrev pub Step {ℓ} : Type ℓ → Type ℓ
Step A = Option (List ℕ × A)

-- A queue of fewer than 2^64 bytes.
abbrev pub put_in : List ℕ → List ℕ → Step (List ℕ)
put_in xs q = if ltb (length q + length xs) (2 ^ 64) then some ([], q ++ xs) else none

abbrev pub queue_step : Op → List ℕ → Step (List ℕ)
queue_step (put xs) q = put_in xs q
queue_step (receive xs) q = put_in xs q
queue_step (skip n) q = if leb n (length q) then some ([], drop n q) else none
queue_step (take_out n) q = if leb n (length q) then some (take n q, drop n q) else none
queue_step (reserve n) q = some ([], q)
queue_step take_all q = some (q, [])
queue_step clear q = some ([], [])

abbrev pub buffer_step : ℕ → Op → ChainBuffer → Step ChainBuffer
buffer_step size (put xs) b = with_sent size [] (append size b xs)
buffer_step size (receive xs) b = with_sent size [] (read_fd size b (received xs))
buffer_step size (skip n) b = with_sent size [] (retrive size b n)
buffer_step size (take_out n) b = retrive_as_string size b n
buffer_step size (reserve n) b = with_sent size [] (shrink size b n)
buffer_step size take_all b = retrive_all_as_string size b
buffer_step size clear b = some ([], retrive_all size b)

-- The operations in turn, with all that comes out.
module _ {ℓ} {A : Type ℓ} (step : Op → A → Step A) where
  abbrev pub behind : List ℕ → Step A → Step A
  behind out none = none
  behind out (some (more, a)) = some (out ++ more, a)

  abbrev pub and_next : (A → Step A) → Step A → Step A
  and_next f none = none
  and_next f (some (out, a)) = behind out (f a)

  abbrev pub run : List Op → A → Step A
  run [] a = some ([], a)
  run (o ∷ ops) a = and_next (run ops) (step o a)

-- What a step of a buffer is to a step of the queue.
module _ {A : Type 0} (Valid : A → Type 0) (content : A → List ℕ) where
  abbrev pub Follows : Step A → List ℕ → List ℕ → Type 0
  Follows r out q = (a : A) × (r ≡ some (out, a)) × Valid a × (content a ≡ q)

  abbrev pub FollowsStep : Step A → Step (List ℕ) → Type 0
  FollowsStep r none = Unit
  FollowsStep r (some (out, q)) = Follows r out q

  -- Steps that follow the queue's make runs that do.
  module _ (step : Op → A → Step A)
      (follows : (o : Op) (a : A)
        → Valid a
        → FollowsStep (step o a) (queue_step o (content a))) where
    behind_lem :
        (out : List ℕ) (r : Step A) (s : Step (List ℕ))
        → FollowsStep r s
        → FollowsStep (behind step out r) (behind queue_step out s)
    behind_lem out r none f = tt
    behind_lem out r (some (more, q)) (a, e, v, c) = (a, ap (behind step out) e, v, c)

    pub run_follows :
        (ops : List Op) (a : A)
        → Valid a
        → FollowsStep (run step ops a) (run queue_step ops (content a))
    run_follows [] a v = (a, refl, v, refl)
    run_follows (o ∷ ops) a v =
        next (step o a) (queue_step o (content a)) (follows o a v) (run_follows ops)
      where
        next :
            (r : Step A) (s : Step (List ℕ))
            → FollowsStep r s
            → ((b : A) → Valid b → FollowsStep (run step ops b) (run queue_step ops (content b)))
            → FollowsStep
                (and_next step (run step ops) r)
                (and_next queue_step (run queue_step ops) s)
        next r none f rest = tt
        next r (some (out, q)) (b, e, w, c) rest =
            let f = behind_lem out (run step ops b) (run queue_step ops (content b)) (rest b w) in
            let g =
              subst
                (λ l.
                  FollowsStep (behind step out (run step ops b))
                    (behind queue_step out (run queue_step ops l)))
                c f in
            subst
              (λ x.
                FollowsStep (and_next step (run step ops) x)
                  (behind queue_step out (run queue_step ops q)))
              (sym e) g

module _ (size : ℕ) {b : ChainBuffer} (v : IsValid size b) where
  quiet :
      (r : Option ChainBuffer) (q : List ℕ)
      → (b' : ChainBuffer) × (r ≡ some b') × IsValid size b' × (contents size b' ≡ q)
      → Follows (IsValid size) (contents size) (with_sent size [] r) [] q
  quiet r q (b', e, v', c) = (b', ap (with_sent size []) e, v', c)

  pub step_lem :
      (o : Op)
      → FollowsStep
          (IsValid size)
          (contents size)
          (buffer_step size o b)
          (queue_step o (contents size b))
  step_lem (put xs) = elim (Bool-cases (ltb (length (contents size b) + length xs) (2 ^ 64))) [
    | inl fits ↦
        rw fits (
          quiet (append size b xs) _
            (append_lem size xs v (ground (arith, length-contents size v))))
    | inr over ↦ rw over tt
  ]
  step_lem (receive xs) = elim (Bool-cases (ltb (length (contents size b) + length xs) (2 ^ 64))) [
    | inl fits ↦ rw fits (
        quiet (read_fd size b (received xs)) _
          (read_fd_lem size xs v (ground (arith, length-contents size v))))
    | inr over ↦ rw over tt
  ]
  step_lem (skip n) = elim (Bool-cases (leb n (length (contents size b)))) [
    | inl in_queue ↦
        rw in_queue (
          quiet (retrive size b n) _
            (retrive_lem size n v (ground (arith, length-contents size v))))
    | inr over ↦ rw over tt
  ]
  step_lem (take_out n) = elim (Bool-cases (leb n (length (contents size b)))) [
    | inl in_queue ↦
        rw in_queue (retrive_as_string_lem size n v (ground (arith, length-contents size v)))
    | inr over ↦ rw over tt
  ]
  step_lem (reserve n) =
      let (b', e, v', c, _) = shrink_lem size n v in quiet (shrink size b n) _ (b', e, v', c)
  step_lem take_all =
      let (e, v', c) = retrive_all_as_string_lem size v in (retrive_all size b, e, v', c)
  step_lem clear = let (v', c) = retrive_all-IsValid size v in (retrive_all size b, refl, v', c)

-- Any sequence of operations that a queue of bytes allows ends on a valid buffer, gives out the same
-- bytes, and leaves a valid buffer that holds the same bytes.
pub run_lem :
    (size : ℕ) (ops : List Op) {b : ChainBuffer} {out q : List ℕ}
    → IsValid size b
    → run queue_step ops (contents size b) ≡ some (out, q)
    → (b' : ChainBuffer) × (run (buffer_step size) ops b ≡ some (out, b'))
      × IsValid size b'
      × (contents size b' ≡ q)
run_lem size ops {b} v e =
    subst (FollowsStep (IsValid size) (contents size) (run (buffer_step size) ops b)) e (
      run_follows (IsValid size) (contents size) (buffer_step size) (λ o b v. step_lem size v o) ops
        b v)
