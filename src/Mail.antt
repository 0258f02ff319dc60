-- ===== src/Mail.antt =====
-- The SMTP client of laboratoare/lab-11/send_mail.c. What the socket and the file give is a parameter.
pub mod Dialogue
pub mod Attachment
use protocoale_de_comunicati.Common.{
  ℕ, zero, suc, ◌+◌, ◌-◌, ◌<◌, Bool, true, false, ◌&&◌, Option, none, some, List, [], ◌∷◌, ◌++◌,
  length, take, leb, ltb, ◌==◌, if◌then◌else◌, codes, Outcome, ok, exited, fault, ◌>>=◌,
}

abbrev pub maxlen : ℕ
maxlen = 500

-- What a `read` of one byte returns; the end of a list of reads is the end of the stream.
pub data Read : Type 0 where
  byte : ℕ → Read
  interrupted : Read
  failed : Read

-- What `read_line` returns, `none` for `-1`, what stands in the buffer, and what is left to read.
pub record Line : Type 0 where
  pub count : Option ℕ
  pub text : List ℕ
  pub rest : List Read

-- The loop of `read_line` at `n`, with `left` turns to go and `text` in the buffer.
unfoldable pub read_from : (left n : ℕ) → (text : List ℕ) → List Read → Line
read_from zero n text reads = record { count = some n; text = text; rest = reads }
read_from (suc left) n text [] = record {
  count = some (if n == 1 then 0 else n);
  text = text;
  rest = [];
}
read_from (suc left) n text (byte c ∷ reads) =
    let more = read_from left (n + 1) (text ++ (c ∷ [])) reads in
    if c == 10 then record { count = some n; text = text ++ (c ∷ []); rest = reads } else more
read_from (suc left) n text (interrupted ∷ reads) = read_from left (n + 1) text reads
read_from (suc left) n text (failed ∷ reads) = record { count = none; text = text; rest = reads }

unfoldable pub read_line : (len : ℕ) → List Read → Line
unfolding read_from
read_line len reads = read_from (len - 1) 1 [] reads

-- `strstr(s, expected) == s`.
unfoldable pub begins_with : (s expected : List ℕ) → Bool
begins_with s [] = true
begins_with [] (e ∷ es) = false
begins_with (c ∷ s) (e ∷ es) = c == e && begins_with s es

-- `send_command` once the line is read. After an error of `read_line` the NUL is written in front of
-- the buffer.
unfoldable pub after_reply : (sendbuf expected : List ℕ) → Line → Outcome (List ℕ × List Read)
unfolding begins_with
after_reply sendbuf expected line = elim line.count [
  | none ↦ fault
  | some n ↦
      if begins_with line.text expected then ok (sendbuf ++ (13 ∷ 10 ∷ []), line.rest) else exited
]

-- `send_command`: the bytes written, and what is left to read.
unfoldable pub send_command : (sendbuf expected : List ℕ) → List Read → Outcome (List ℕ × List Read)
unfolding read_line after_reply
send_command sendbuf expected reads = after_reply sendbuf expected (read_line (maxlen - 1) reads)

-- `snprintf` behind what stands in the buffer, which it cuts at the end of it.
unfoldable pub snprintf : (buffer text : List ℕ) → List ℕ
snprintf buffer text = buffer ++ take (maxlen - length buffer - 1) text

-- The headers of `write_data`.
unfoldable pub mail_headers : (fine_name : List ℕ) → List (List ℕ)
mail_headers fine_name =
    (codes "MIME-Version: 1.0" ++ (13 ∷ 10 ∷ []))
    ∷ (codes "FROM: adresademain@email.com" ++ (13 ∷ 10 ∷ []))
    ∷ (codes "To: lucrariLaBloc@bormasina.ro" ++ (13 ∷ 10 ∷ []))
    ∷ (codes "Subject: Bormasina" ++ (13 ∷ 10 ∷ []))
    ∷ (codes "Content-Type: multipart/mixed; boundary=bor" ++ (13 ∷ 10 ∷ 13 ∷ 10 ∷ []))
    ∷ (codes "--bor" ++ (13 ∷ 10 ∷ []))
    ∷ (codes "Content-Type: text/plain" ++ (13 ∷ 10 ∷ 13 ∷ 10 ∷ []))
    ∷ (codes "Incredibil, pauza de 2 ore." ++ (13 ∷ 10 ∷ 13 ∷ 10 ∷ []))
    ∷ (codes "--bor" ++ (13 ∷ 10 ∷ []))
    ∷ (codes "Content-Type: text/plain" ++ (13 ∷ 10 ∷ []))
    ∷ (codes "Content-Disposition: attachment; filename="
        ++ (34 ∷ (fine_name ++ (34 ∷ 13 ∷ 10 ∷ 13 ∷ 10 ∷ []))))
    ∷ []

unfoldable pub print_all : (buffer : List ℕ) → List (List ℕ) → List ℕ
unfolding snprintf
print_all buffer [] = buffer
print_all buffer (t ∷ ts) = print_all (snprintf buffer t) ts

-- The bytes before a NUL.
unfoldable pub c_string : List ℕ → List ℕ
c_string [] = []
c_string (c ∷ cs) = let rest = c_string cs in if c == 0 then [] else c ∷ rest

-- One turn of the loop over the file: a chunk of 200 bytes has its NUL written behind `aux_buff`, and
-- what is printed is bounded by 200 and not by what is left of the buffer.
unfoldable pub attach_chunk : (buffer chunk : List ℕ) → Outcome (List ℕ)
unfolding c_string
attach_chunk buffer chunk =
    let text = take 199 (c_string chunk) in
    if leb 200 (length chunk)
    then fault
    else if ltb (length buffer + length text) maxlen
    then ok (buffer ++ text)
    else fault

-- The loop over what `fread` returns, up to the first chunk without bytes.
unfoldable pub attach : (buffer : List ℕ) → (chunks : List (List ℕ)) → Outcome (List ℕ)
unfolding attach_chunk
attach buffer [] = ok buffer
attach buffer ([] ∷ chunks) = ok buffer
attach buffer ((c ∷ cs) ∷ chunks) = attach_chunk buffer (c ∷ cs) >>= λ b. attach b chunks

unfoldable pub write_data : (fine_name : List ℕ) → (chunks : List (List ℕ)) → Outcome (List ℕ)
unfolding print_all mail_headers snprintf attach
write_data fine_name chunks = attach (print_all [] (mail_headers fine_name)) chunks >>= λ b.
    ok (snprintf b (13 ∷ 10 ∷ codes "--bor" ++ (13 ∷ 10 ∷ codes ".")))

-- `main`, once connected: the greeting is read and not looked at.
unfoldable pub main : (fine_name : List ℕ) → (chunks : List (List ℕ)) → List Read → Outcome (List ℕ)
unfolding read_line write_data send_command
main fine_name chunks reads =
    let greeting = read_line (maxlen - 1) reads in
    do
      (helo, r1) ← send_command (codes "HELO localhost") (codes "250") greeting.rest
      (from, r2) ← send_command (codes "MAIL FROM: <adresademain@email.com>") (codes "250") r1
      (to, r3) ← send_command (codes "RCPT TO: <lucrariLaBloc@bormasina.ro>") (codes "250") r2
      (data_line, r4) ← send_command (codes "DATA") (codes "354") r3
      mail ← write_data fine_name chunks
      (sent, r5) ← send_command mail (codes "250") r4
      (quit, r6) ← send_command (codes "QUIT") (codes "221") r5
      ok (helo ++ (from ++ (to ++ (data_line ++ (sent ++ quit)))))
