-- ===== src/Tests/MailTests.antt =====
-- The theorems on the SMTP client, each applied to a server and to a file.
use protocoale_de_comunicati.Common.{ℕ, zero, suc, ◌≡◌, refl, arith, List, [], ◌∷◌, ◌++◌, codes, ok}
use protocoale_de_comunicati.Mail.{
  begins_with, snprintf, mail_headers, print_all, c_string, attach_chunk, attach, write_data, main,
}
use protocoale_de_comunicati.Mail.Dialogue.{line_then, command, main_delivers}
use protocoale_de_comunicati.Mail.Attachment.{prologue}

abbrev trailer : List ℕ
trailer = 13 ∷ 10 ∷ codes "--bor" ++ (13 ∷ 10 ∷ codes ".")

abbrev mail : List ℕ
mail = prologue (codes "a.txt") ++ (codes "hi" ++ trailer)

main_delivers_example :
    main (codes "a.txt") (codes "hi" ∷ []) (
      line_then (codes "220 hello") (
        line_then (codes "250 ok") (
          line_then (codes "250 ok") (
            line_then (codes "250 ok") (
              line_then
                (codes "354 go on")
                (line_then (codes "250 ok") (line_then (codes "221 bye") [])))))))
    ≡ ok (
        command (codes "HELO localhost")
        ++ (command (codes "MAIL FROM: <adresademain@email.com>")
            ++ (command (codes "RCPT TO: <lucrariLaBloc@bormasina.ro>")
                ++ (command (codes "DATA") ++ (command mail ++ command (codes "QUIT"))))))
unfolding begins_with write_data attach attach_chunk c_string print_all mail_headers snprintf
main_delivers_example =
    main_delivers (codes "a.txt") (codes "hi" ∷ []) mail (codes "220 hello") (codes "250 ok")
      (codes "250 ok") (codes "250 ok") (codes "354 go on") (codes "250 ok") (codes "221 bye") []
      refl (refl, omega arith) ((refl, omega arith), refl) ((refl, omega arith), refl)
      ((refl, omega arith), refl) ((refl, omega arith), refl) ((refl, omega arith), refl)
      ((refl, omega arith), refl)

abbrev many : ℕ → List ℕ
many zero = []
many (suc n) = 97 ∷ many n
