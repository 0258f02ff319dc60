-- ===== src/Subscriber.antt =====
-- The client of tema2: tema2/subscriber_helper.cpp, and a turn of the loop of tema2/subscriber.cpp.
-- What `fgets`, `recv` and `send` return is a parameter, and so is the text of an address and of a
-- number with a fraction.
use protocoale_de_comunicati.Common.{
  ℕ, zero, suc, ◌+◌, ◌-◌, ◌*◌, ◌^◌, Bool, true, false, ◌||◌, Option, none, some, List, [], ◌∷◌,
  ◌++◌, ltb, ◌==◌, if◌then◌else◌, length, take, drop, Outcome, ok, exited, fault, ◌>>=◌, codes,
}
use protocoale_de_comunicati.Common.Maps.{str_eq}
use protocoale_de_comunicati.Http.Requests.{decimal}
use protocoale_de_comunicati.Broker.{SubMessage, byte_at, topic_len}
pub mod Typed
pub mod Id

abbrev pub buflen : ℕ
buflen = 1568

-- What main sends first: the argument without its NUL, from a buffer that it is copied into.
unfoldable pub send_id : (send_fails : Bool) → (id_client : List ℕ) → Outcome (List ℕ)
send_id send_fails id_client =
    if ltb (length id_client) buflen then (if send_fails then exited else ok id_client) else fault

-- `char` in a set of delimiters.
unfoldable pub is_delim : (delims : List ℕ) → ℕ → Bool
is_delim [] c = false
is_delim (d ∷ delims) c = c == d || is_delim delims c

unfoldable pub skip_delims : (delims : List ℕ) → List ℕ → List ℕ
unfolding is_delim
skip_delims delims [] = []
skip_delims delims (c ∷ cs) =
    let rest = skip_delims delims cs in if is_delim delims c then rest else c ∷ cs

-- A token and what comes after the delimiter behind it.
unfoldable pub token : (delims : List ℕ) → List ℕ → List ℕ × List ℕ
unfolding is_delim
token delims [] = ([], [])
token delims (c ∷ cs) =
    let (t, rest) = token delims cs in if is_delim delims c then ([], cs) else (c ∷ t, rest)

-- `strtok` on the text at its saved pointer: the token and the next saved pointer.
unfoldable pub strtok : (delims : List ℕ) → List ℕ → Option (List ℕ × List ℕ)
unfolding skip_delims token
strtok delims text = elim (skip_delims delims text) [
  | [] ↦ none
  | c ∷ cs ↦ some (token delims (c ∷ cs))
]

-- `n` bytes, those of the list and zeros.
unfoldable pub padded : (n : ℕ) → List ℕ → List ℕ
padded zero bytes = []
padded (suc n) [] = 0 ∷ padded n []
padded (suc n) (c ∷ bytes) = c ∷ padded n bytes

-- A `client_request`: 51 bytes of topic, `sf`, `req_type`. A topic of more than 53 bytes is written
-- outside it.
unfoldable pub client_request : (topic : List ℕ) → (sf req_type : ℕ) → Outcome (List ℕ)
unfolding padded
client_request topic sf req_type =
    if ltb 53 (length topic)
    then fault
    else ok (padded (topic_len + 1) topic ++ (sf ∷ req_type ∷ []))

-- `send_fails` says whether `send` returns an error. The result is what is sent.
unfoldable pub subscribe : (send_fails : Bool) → (topic : List ℕ) → (sf : ℕ) → Outcome (List ℕ)
unfolding client_request
subscribe send_fails topic sf =
    client_request topic sf b'0' >>= λ bytes. if send_fails then exited else ok bytes

unfoldable pub unsubscribe : (send_fails : Bool) → (topic : List ℕ) → Outcome (List ℕ)
unfolding client_request
unsubscribe send_fails topic =
    client_request topic 0 b'1' >>= λ bytes. if send_fails then exited else ok bytes

-- The first character of `sf`, which has one.
abbrev pub first : List ℕ → ℕ
first [] = 0
first (c ∷ cs) = c

abbrev pub space : List ℕ
space = 32 ∷ []

abbrev pub space_or_newline : List ℕ
space_or_newline = 32 ∷ 10 ∷ []

abbrev pub command_subscribe : (send_fails : Bool) → (rest : List ℕ) → Outcome (List ℕ)
command_subscribe send_fails rest = elim (strtok space rest) [
  | none ↦ ok []
  | some (topic, rest') ↦ elim (strtok space_or_newline rest') [
    | none ↦ ok []
    | some (sf, rest'') ↦ subscribe send_fails topic (first sf)
  ]
]

abbrev pub command_unsubscribe : (send_fails : Bool) → (rest : List ℕ) → Outcome (List ℕ)
command_unsubscribe send_fails rest = elim (strtok space_or_newline rest) [
  | none ↦ ok []
  | some (topic, rest') ↦ unsubscribe send_fails topic
]

-- The line that `fgets` has read, without the NUL at its end; it is empty at the end of the input.
-- `strncmp` reads through `NULL` if there is no command. What is sent, if anything.
unfoldable pub handle_stdin_message : (send_fails : Bool) → (line : List ℕ) → Outcome (List ℕ)
unfolding str_eq subscribe unsubscribe
handle_stdin_message send_fails line =
    if str_eq (take 4 line) (codes "exit") then exited else elim (strtok space line) [
      | none ↦ fault
      | some (command, rest) ↦
          if str_eq command (codes "subscribe")
          then command_subscribe send_fails rest
          else if str_eq command (codes "unsubscribe")
          then command_unsubscribe send_fails rest
          else ok []
    ]

-- A number of four bytes in network order.
abbrev pub net32 : List ℕ → ℕ → ℕ
net32 bytes at =
    byte_at bytes at * 2 ^ 24
    + byte_at bytes (at + 1) * 2 ^ 16
    + byte_at bytes (at + 2) * 2 ^ 8
    + byte_at bytes (at + 3)

abbrev pub net16 : List ℕ → ℕ → ℕ
net16 bytes at = byte_at bytes at * 2 ^ 8 + byte_at bytes (at + 1)

-- What the standard library writes: an address, a `float` that is a hundredth of a number with two
-- digits after the point, and a number divided by ten some times, with as many digits.
pub record Texts : Type 0 where
  pub address : ℕ → List ℕ
  pub hundredth : ℕ → List ℕ
  pub fraction : (n power_of_ten : ℕ) → List ℕ

-- The bytes before the first 0.
abbrev pub c_text : List ℕ → List ℕ
c_text [] = []
c_text (zero ∷ bytes) = []
c_text (suc c ∷ bytes) = suc c ∷ c_text bytes

unfoldable pub print_value : Texts → (data_type : ℕ) → (content : List ℕ) → List ℕ
unfolding decimal
print_value texts data_type content =
    let sign = if byte_at content 0 == 1 then codes "-" else [] in
    if data_type == 0
    then codes "INT - " ++ (sign ++ (decimal (net32 content 1) ++ codes "\n"))
    else if data_type == 1
    then codes "SHORT_REAL - " ++ (texts.hundredth (net16 content 0) ++ codes "\n")
    else if data_type == 2
    then codes "FLOAT - "
      ++ (sign ++ (texts.fraction (net32 content 1) (byte_at content 5) ++ codes "\n"))
    else if data_type == 3
    then codes "STRING - " ++ (c_text content ++ codes "\n")
    else []

unfoldable pub print_output : Texts → SubMessage → List ℕ
unfolding print_value
print_output texts response =
    texts.address response.from_station
    ++ (codes " - "
        ++ (c_text response.message.topic
            ++ (codes " - "
                ++ print_value texts response.message.data_type response.message.content)))

-- What `recv` brings from the server: an error, the end, or a message.
pub data Received : Type 0 where
  error : Received
  closed : Received
  message : SubMessage → Received

-- The text that is printed. At the end the socket is closed.
unfoldable pub handle_server_message : Texts → Received → Outcome (List ℕ)
unfolding print_output
handle_server_message texts error = exited
handle_server_message texts closed = ok []
handle_server_message texts (message response) = ok (print_output texts response)

-- A turn of the loop: what is sent and what is printed.
unfoldable pub turn :
    Texts
    → (input_ready server_ready send_fails : Bool) → (line : List ℕ) → Received
    → Outcome (List ℕ × List ℕ)
unfolding handle_stdin_message handle_server_message
turn texts input_ready server_ready send_fails line received =
    if input_ready
    then (handle_stdin_message send_fails line >>= λ sent. ok (sent, []))
    else if server_ready
    then (handle_server_message texts received >>= λ printed. ok ([], printed))
    else ok ([], [])
