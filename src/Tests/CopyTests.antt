-- ===== src/Tests/CopyTests.antt =====
-- A file of two bytes copied over the link of laboratoare/lab-02.
use protocoale_de_comunicati.Common.{List, arith, ◌≡◌, refl, [], ◌∷◌, ok, codes, Returns}
use protocoale_de_comunicati.FileCopy.{File, Action, send, recv}
use protocoale_de_comunicati.FileCopy.Copies.{AreCopied, messages, AreInStep, copies, send-recv}

abbrev hello : File
hello = record { name = codes "a"; size = 2; reads = codes "hi" ∷ [] }

hello-AreCopied : AreCopied (hello ∷ [])
hello-AreCopied = (
  record {
    name_ends = (λ e. absurd (omega (arith, e)), tt);
    name_short = omega arith;
    size_small = omega arith;
    regular = (refl, omega arith, omega arith);
  },
  tt,
)

send-recv_example :
    Returns
      (λ actions.
        (rs : List Action) × (recv (messages actions) ≡ ok (copies (hello ∷ []), rs))
        × AreInStep actions rs)
      (send (λ i. 0) (hello ∷ []))
send-recv_example = send-recv (λ i. 0) (hello ∷ []) hello-AreCopied (omega arith)
