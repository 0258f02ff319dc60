-- ===== src/Exam/Deaf.antt =====
-- A client of the server of test_practic that leaves and comes back.
use protocoale_de_comunicati.Common.{
  ℕ, ◌≡◌, refl, true, false, Bool-cases, none, some, List, [], ◌∷◌, ◌==◌, if◌then◌else◌, arith, ok,
  ◌>>=◌, Returns,
}
use protocoale_de_comunicati.Common.Maps.{str_eq, str_eq_iff, erase, nat_key, string_key}
use protocoale_de_comunicati.Exam.{
  Server, TcpClient, is_active, activate, deactivate, disconnect, greet, reconnect,
}

is_active-deactivate :
    (nickname : List ℕ) (cs : List TcpClient) → is_active nickname (deactivate nickname cs) ≡ false
unfolding is_active deactivate
is_active-deactivate nickname [] = refl
is_active-deactivate nickname (c ∷ cs) =
    ground (arith, is_active-deactivate nickname cs, Bool-cases (str_eq c.nickname nickname))

is_active-activate :
    (c : TcpClient) (cs : List TcpClient) → is_active c.nickname (activate c cs) ≡ true
unfolding activate is_active
is_active-activate c cs = ground (arith, str_eq_iff c.nickname c.nickname)

-- What is known of a client that has come back on descriptor `fd`: it counts as active, and texts for
-- its number go to `fd`; but the set of descriptors is the one that its leaving has left.
abbrev pub IsBack : (fd i : ℕ) → TcpClient → Server → Server → Type 0
IsBack fd i c s s' =
    (is_active c.nickname s'.active_clients ≡ true)
    × (s'.active_nrs_sockets c.number ≡ some fd)
    × (s'.active_socket_client fd ≡ some c)
    × ((j : ℕ) → s'.read_fds j ≡ (if j == i then false else s.read_fds j))

-- When a client leaves and comes back with its nickname, on a descriptor that belongs to no client, it
-- is again a client of the server with its number, and is sent the texts for it; but its descriptor
-- is not put into the set for `select`, so that the server does not read what the client sends.
pub disconnect-IsBack :
    (s : Server) (i fd : ℕ) (c : TcpClient)
    → s.active_socket_client i ≡ some c
    → s.all_clients c.nickname ≡ some c
    → (erase i s.active_socket_client) fd ≡ none
    → Returns (λ s'. IsBack fd i c s s') (disconnect i s >>= λ s'. ok (greet fd c.nickname s'))
unfolding disconnect greet reconnect
disconnect-IsBack s i fd c here known free =
    rw (here, Returns, is_active-deactivate c.nickname s.active_clients, known)
      (
        is_active-activate c (deactivate c.nickname s.active_clients),
        ground arith,
        ground (arith, free),
        λ j. refl,
      )
