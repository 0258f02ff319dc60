-- ===== src/Mail/Dialogue.antt =====
-- The dialogue of laboratoare/lab-11/send_mail.c with a server.
use mathlib.Core.List.{append_assoc}
use protocoale_de_comunicati.Common.{
  ℕ, zero, suc, ◌+◌, ◌-◌, ◌<◌, ◌≡◌, refl, ap, ◌∙◌, Bool, true, false, ◌||◌, arith, some, List, [],
  ◌∷◌, ◌++◌, length, ◌==◌, codes, ok, exited,
}
use protocoale_de_comunicati.Mail.{
  maxlen, Read, byte, read_from, read_line, begins_with, after_reply, send_command, write_data,
  main,
}

-- Lines as the server sends them, and what comes after them.
abbrev pub line_then : List ℕ → List Read → List Read
line_then [] rest = byte 10 ∷ rest
line_then (c ∷ cs) rest = byte c ∷ line_then cs rest

abbrev pub has_newline : List ℕ → Bool
has_newline [] = false
has_newline (c ∷ cs) = c == 10 || has_newline cs

-- A line that fits the buffer.
abbrev pub IsLine : List ℕ → Type 0
IsLine l = (has_newline l ≡ false) × (length l + 2 < maxlen - 1)

-- The line is a reply that begins as expected.
abbrev pub IsReply : (expected : List ℕ) → List ℕ → Type 0
IsReply expected l = IsLine l × (begins_with (l ++ (10 ∷ [])) expected ≡ true)

read_from-line :
    (left n : ℕ) (text l : List ℕ) (rest : List Read)
    → has_newline l ≡ false
    → length l < left
    → read_from left n text (line_then l rest)
      ≡ record { count = some (n + length l); text = text ++ (l ++ (10 ∷ [])); rest = rest }
unfolding read_from
read_from-line zero n text l rest v lt = absurd (omega arith)
read_from-line (suc left) n text [] rest v lt = grind arith
read_from-line (suc left) n text (c ∷ cs) rest none_in lt =
    let plain : (c == 10) ≡ false = ground arith in
    let v : has_newline cs ≡ false = ground arith in
    rw
      (
        plain,
        read_from-line left (n + 1) (text ++ (c ∷ [])) cs rest v (omega arith),
        append_assoc text (c ∷ []) (cs ++ (10 ∷ [])),
      )
      (grind arith)

read_line-line :
    (l : List ℕ) (rest : List Read)
    → IsLine l
    → read_line (maxlen - 1) (line_then l rest)
      ≡ record { count = some (1 + length l); text = l ++ (10 ∷ []); rest = rest }
unfolding read_line
read_line-line l rest (v, short) = read_from-line 498 1 [] l rest v (omega arith)

send_command-reply :
    (sendbuf expected l : List ℕ) (rest : List Read)
    → IsReply expected l
    → send_command sendbuf expected (line_then l rest) ≡ ok (sendbuf ++ (13 ∷ 10 ∷ []), rest)
unfolding send_command after_reply
send_command-reply sendbuf expected l rest (v, good) =
    ap (after_reply sendbuf expected) (read_line-line l rest v) ∙ rw good refl

send_command-refused :
    (sendbuf expected l : List ℕ) (rest : List Read)
    → IsLine l
    → begins_with (l ++ (10 ∷ [])) expected ≡ false
    → send_command sendbuf expected (line_then l rest) ≡ exited
unfolding send_command after_reply
send_command-refused sendbuf expected l rest v bad =
    ap (after_reply sendbuf expected) (read_line-line l rest v) ∙ rw bad refl

abbrev pub command : List ℕ → List ℕ
command text = text ++ (13 ∷ 10 ∷ [])

-- With a server that greets and replies as expected to each of the six commands, in lines that fit the
-- buffer, and a mail that fits too, the client writes the six commands, the mail among them, in order
-- and each once, and ends.
pub main_delivers :
    (fine_name : List ℕ) (chunks : List (List ℕ))
    (mail greeting helo from to enter sent quit : List ℕ) (rest : List Read)
    → write_data fine_name chunks ≡ ok mail
    → IsLine greeting
    → IsReply (codes "250") helo
    → IsReply (codes "250") from
    → IsReply (codes "250") to
    → IsReply (codes "354") enter
    → IsReply (codes "250") sent
    → IsReply (codes "221") quit
    → main fine_name chunks (
        line_then greeting (
          line_then helo (
            line_then from
              (line_then to (line_then enter (line_then sent (line_then quit rest)))))))
      ≡ ok (
          command (codes "HELO localhost")
          ++ (command (codes "MAIL FROM: <adresademain@email.com>")
              ++ (command (codes "RCPT TO: <lucrariLaBloc@bormasina.ro>")
                  ++ (command (codes "DATA") ++ (command mail ++ command (codes "QUIT"))))))
unfolding main
main_delivers fine_name chunks mail greeting helo from to enter sent quit rest fits g a b c d e f =
    rw
      (
        read_line-line greeting
            (line_then helo (
              line_then from
                (line_then to (line_then enter (line_then sent (line_then quit rest))))))
            g,
        send_command-reply (codes "HELO localhost") (codes "250") helo
            (line_then from (line_then to (line_then enter (line_then sent (line_then quit rest)))))
            a,
        send_command-reply (codes "MAIL FROM: <adresademain@email.com>") (codes "250") from
            (line_then to (line_then enter (line_then sent (line_then quit rest)))) b,
        send_command-reply (codes "RCPT TO: <lucrariLaBloc@bormasina.ro>") (codes "250") to
            (line_then enter (line_then sent (line_then quit rest))) c,
        send_command-reply (codes "DATA") (codes "354") enter (line_then sent (line_then quit rest))
            d,
        fits,
        send_command-reply mail (codes "250") sent (line_then quit rest) e,
        send_command-reply (codes "QUIT") (codes "221") quit rest f,
      )
      refl
