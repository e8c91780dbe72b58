-- ===== src/Tests/Detect.antt =====
-- Runs of the protocol detection, and an example of its theorem.
use red_couch.Base.{◌≡◌, refl, inl, inr, arith, [], ◌∷◌, List, Bytes, codes}
use red_couch.Ascii.Data.Delivery.{pieces}
use red_couch.Server.Detect.{text, handle_conn}
use red_couch.Server.Detect.Pieces.{Detects, handle_conn-Detects}

-- an empty line, then a command in two reads
abbrev arriving : List Bytes
arriving = codes "\r\n" ∷ codes "ge" ∷ codes "t k\r\n" ∷ []

text_detected : handle_conn (pieces arriving) ≡ text (codes "ge") (pieces (codes "t k\r\n" ∷ []))
unfolding handle_conn
text_detected = refl

handle_conn-Detects_example : Detects (codes "get k\r\n") (handle_conn (pieces arriving))
handle_conn-Detects_example =
    handle_conn-Detects arriving (codes "\r\n") (codes "get k\r\n") refl (inl refl, (inr refl, tt))
      (omega arith, omega arith)
