-- ===== src/Ping/Replies.antt =====
-- The replies that ping and traceroute of laboratoare/lab-05 wait for, among whatever else the raw
-- socket receives.
use protocoale_de_comunicati.Common.{
  ℕ, zero, suc, ◌+◌, ◌<◌, ◌≡◌, refl, subst, arith, Bool, true, false, List, [], ◌∷◌, ◌++◌, ◌==◌,
  take, length, htons, Memory, write_bytes, ok,
}
use protocoale_de_comunicati.Router.Frames.{ip_saddr, icmp_type}
use protocoale_de_comunicati.Ping.{
  Station, packet_len, request, relevant_packet, time_packet, Hop, hops, traceroute,
}

-- A frame in the buffer of the reply.
abbrev pub landed : Memory → List ℕ → Memory
landed stack frame = write_bytes stack 0 (take packet_len frame)

abbrev pub after : Memory → List (List ℕ) → Memory
after stack [] = stack
after stack (f ∷ fs) = after (landed stack f) fs

-- Frames that `relevant_packet` discards, whatever the buffer holds behind them.
abbrev pub AreDiscarded : Station → List (List ℕ) → Type 0
AreDiscarded s [] = Unit
AreDiscarded s (f ∷ fs) =
    ((stack : Memory) → relevant_packet s (landed stack f) ≡ false) × AreDiscarded s fs

pub time_packet_skips :
    (s : Station) (stack : Memory) (noise : List (List ℕ)) (frame : List ℕ) (rest : List (List ℕ))
    → AreDiscarded s noise
    → relevant_packet s (landed (after stack noise) frame) ≡ true
    → time_packet s stack (noise ++ frame ∷ rest) ≡ ok (landed (after stack noise) frame, rest)
unfolding time_packet
time_packet_skips s stack [] frame rest d taken = rw taken refl
time_packet_skips s stack (f ∷ fs) frame rest (dropped, d) taken =
    rw (dropped stack) (time_packet_skips s (landed stack f) fs frame rest d taken)

-- What arrives in a round: frames that are discarded, and a reply from `addr`.
pub record Round : Type 0 where
  pub noise : List (List ℕ)
  pub reply : List ℕ
  pub addr : ℕ

abbrev pub arrivals : List Round → List (List ℕ) → List (List ℕ)
arrivals [] rest = rest
arrivals (r ∷ rs) rest = r.noise ++ r.reply ∷ arrivals rs rest

pub record IsRound (s : Station) (echoed : Bool) (r : Round) : Type 0 where
  pub discarded : AreDiscarded s r.noise
  pub taken : (stack : Memory) → relevant_packet s (landed stack r.reply) ≡ true
  pub from : (stack : Memory) → ip_saddr (landed stack r.reply) ≡ r.addr
  pub is_echo : (stack : Memory) → (icmp_type (landed stack r.reply) == 0) ≡ echoed

-- Replies of routers on the way, none of which is an echo reply.
abbrev pub AreOnTheWay : Station → List Round → Type 0
AreOnTheWay s [] = Unit
AreOnTheWay s (r ∷ rs) = IsRound s false r × AreOnTheWay s rs

-- The requests of consecutive rounds, and the lines.
abbrev pub requests : Station → (daddr : ℕ) → (count counter : ℕ) → List (List ℕ)
requests s daddr zero counter = []
requests s daddr (suc count) counter =
    request s daddr counter 42 (htons counter) ∷ requests s daddr count (counter + 1)

abbrev pub lines_of : List Round → (counter : ℕ) → List Hop
lines_of [] counter = []
lines_of (r ∷ rs) counter =
    record { counter = counter; rip_addr = r.addr } ∷ lines_of rs (counter + 1)

hops_ends :
    (s : Station) (daddr : ℕ) (rs : List Round) (last : Round) (left counter : ℕ)
    (rest : List (List ℕ))
    → length rs < left
    → AreOnTheWay s rs
    → IsRound s true last
    → hops s daddr left counter (arrivals (rs ++ last ∷ []) rest)
      ≡ ok (record {
        sent = requests s daddr (suc (length rs)) counter;
        lines = lines_of (rs ++ last ∷ []) counter;
        received = rest;
      })
unfolding hops
hops_ends s daddr rs last zero counter rest lt way v = absurd (omega arith)
hops_ends s daddr [] last (suc left) counter rest lt way v =
    let stack : Memory = after (s.stack counter) last.noise in
    rw
      (
        time_packet_skips s (s.stack counter) last.noise last.reply rest v.discarded
            (v.taken stack),
        v.from stack,
        v.is_echo stack,
      )
      refl
hops_ends s daddr (r ∷ rs) last (suc left) counter rest lt (w, way) v =
    let stack : Memory = after (s.stack counter) r.noise in
    rw
      (
        time_packet_skips s (s.stack counter) r.noise r.reply _ w.discarded (w.taken stack),
        w.from stack,
        w.is_echo stack,
        hops_ends s daddr rs last left (counter + 1) rest (omega arith) way v,
      )
      refl

hops_give_up :
    (s : Station) (daddr : ℕ) (rs : List Round) (counter : ℕ) (rest : List (List ℕ))
    → AreOnTheWay s rs
    → hops s daddr (length rs) counter (arrivals rs rest)
      ≡ ok (record {
        sent = requests s daddr (length rs) counter;
        lines = lines_of rs counter;
        received = rest;
      })
unfolding hops
hops_give_up s daddr [] counter rest way = refl
hops_give_up s daddr (r ∷ rs) counter rest (w, way) =
    let stack : Memory = after (s.stack counter) r.noise in
    rw
      (
        time_packet_skips s (s.stack counter) r.noise r.reply _ w.discarded (w.taken stack),
        w.from stack,
        w.is_echo stack,
        hops_give_up s daddr rs (counter + 1) rest way,
      )
      refl

-- When up to 63 routers on the way answer and then an echo reply comes, traceroute ends there: it has
-- sent one request for each reply, with the TTLs 1, 2, ... and the sequence numbers that go with them,
-- and has printed the senders of the replies in order. What else arrives before a reply is passed
-- over.
pub traceroute_ends :
    (s : Station) (daddr : ℕ) (rs : List Round) (last : Round) (rest : List (List ℕ))
    → length rs < 64
    → AreOnTheWay s rs
    → IsRound s true last
    → traceroute s daddr (arrivals (rs ++ last ∷ []) rest)
      ≡ ok (record {
        sent = requests s daddr (suc (length rs)) 1;
        lines = lines_of (rs ++ last ∷ []) 1;
        received = rest;
      })
unfolding traceroute
traceroute_ends s daddr rs last rest lt way v = hops_ends s daddr rs last 64 1 rest lt way v

-- When 64 routers answer and no echo reply comes, traceroute ends after these 64.
traceroute_gives_up :
    (s : Station) (daddr : ℕ) (rs : List Round) (rest : List (List ℕ))
    → length rs ≡ 64
    → AreOnTheWay s rs
    → traceroute s daddr (arrivals rs rest)
      ≡ ok (record { sent = requests s daddr 64 1; lines = lines_of rs 1; received = rest })
unfolding traceroute
traceroute_gives_up s daddr rs rest full way =
    subst
      (λ n.
        hops s daddr n 1 (arrivals rs rest)
        ≡ ok (record { sent = requests s daddr n 1; lines = lines_of rs 1; received = rest }))
      full (hops_give_up s daddr rs 1 rest way)
