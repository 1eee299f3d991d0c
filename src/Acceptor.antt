-- ===== src/Acceptor.antt =====
-- muzi/net/acceptor.h and acceptor.cc: the listening socket of a server. What accept4(2), the
-- second accept(2) and open(2) answer is an argument; socket::Accept() ends the program on an error
-- that is not listed. A descriptor is an integer, -1 where a call has failed.
pub mod Descriptors
mod Examples
use muzi.Prelude.{
  ℕ, suc, zero, ◌+◌, Bool, true, false, not, ◌&&◌, List, [], ◌∷◌, Option, none, some, ℤ, pos,
  negsuc, if◌then◌else◌,
}

-- An answer to socket::Accept(). With EMFILE come the answer to accept(2) once the idle file is
-- closed, and the descriptor of the idle file when it is opened again.
pub data Accepted : Type 0 where
  connection : ℕ → Accepted
  emfile : Option ℕ → ℕ → Accepted
  eagain eintr econnaborted : Accepted

-- A call of cb_ with a descriptor, and socket::Close() of one.
pub data Effect : Type 0 where
  handed closed : ℤ → Effect

-- `reading` and `in_poller` are the state of chanel_, `has_callback` says whether cb_ is set.
pub record Acceptor : Type 0 where
  pub has_callback : Bool
  pub listening : Bool
  pub reading : Bool
  pub in_poller : Bool
  pub dummy_fd : ℤ

-- Acceptor(), with the descriptor of the idle file, and SetNewConnectionCallBack().
unfoldable pub init : ℕ → Bool → Acceptor
init idle_fd has_callback = record {
  has_callback = has_callback;
  listening = false;
  reading = false;
  in_poller = false;
  dummy_fd = pos idle_fd;
}

pub listen : Acceptor → Acceptor
listen a = record a { listening = true; reading = true; in_poller = true }

-- StopInLoop(): Remove() asserts that the channel is in the poller.
pub stop_in_loop : Acceptor → Option Acceptor
stop_in_loop a =
    if a.in_poller then some (record a { reading = false; in_poller = false }) else none

abbrev pub deliver : Acceptor → ℤ → Effect
deliver a fd = if a.has_callback then handed fd else closed fd

abbrev pub second_fd : Option ℕ → ℤ
second_fd none = negsuc 0
second_fd (some fd) = pos fd

-- HandleRead() for the answers of the calls in turn, and whether its loop has ended with them.
unfoldable pub handle_read : List Accepted → Acceptor → Acceptor × List Effect × Bool
handle_read [] a = (a, [], false)
handle_read (connection zero ∷ rest) a = (a, [], true)
handle_read (connection (suc n) ∷ rest) a =
    let (a', es, ended) = handle_read rest a in (a', deliver a (pos (suc n)) ∷ es, ended)
handle_read (emfile second idle_fd ∷ rest) a =
    let (a', es, ended) = handle_read rest (record a { dummy_fd = pos idle_fd }) in
    (a', closed a.dummy_fd ∷ closed (second_fd second) ∷ es, ended)
handle_read (eagain ∷ rest) a = (a, [], true)
handle_read (eintr ∷ rest) a =
    let (a', es, ended) = handle_read rest a in (a', deliver a (negsuc 0) ∷ es, ended)
handle_read (econnaborted ∷ rest) a =
    let (a', es, ended) = handle_read rest a in (a', deliver a (negsuc 0) ∷ es, ended)
