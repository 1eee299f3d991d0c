-- ===== src/Acceptor/Examples.antt =====
-- Tests of the acceptor, and its theorems at concrete answers.
use muzi.Prelude.{◌+◌, ◌≡◌, refl, true, List, [], ◌∷◌, some, pos, negsuc}
use muzi.Acceptor.{
  Accepted, connection, emfile, eagain, econnaborted, handed, closed, init, handle_read, listen,
  stop_in_loop,
}
use muzi.Acceptor.Descriptors.{opened, left_open, disposed, is_fd, handle_read_lem}

-- A connection comes, the descriptors are used up, and a peer gives up.
abbrev answers : List Accepted
answers = connection 7 ∷ emfile (some 3) 3 ∷ econnaborted ∷ eagain ∷ []

handle_read-answers :
    handle_read answers (init 3 true)
    ≡ (init 3 true, handed (pos 7) ∷ closed (pos 3) ∷ closed (pos 3) ∷ handed (negsuc 0) ∷ [], true)
unfolding init handle_read
handle_read-answers = refl

stop-listen : stop_in_loop (listen (init 3 true)) ≡ some (record (init 3 true) { listening = true })
unfolding init stop_in_loop listen
stop-listen = refl

handle_read_example :
    is_fd 3 (init 3 true).dummy_fd + opened 3 answers
    ≡ disposed 3 (handle_read answers (init 3 true)).1
      + (is_fd 3 (handle_read answers (init 3 true)).0.dummy_fd + left_open 3 answers)
handle_read_example = handle_read_lem answers (init 3 true) 3
