-- ===== src/Pegasus/Tpd/Datagram/Lines.antt =====
-- apps/pegasus/tpd/client.go `decodeDatagram`: every line is accounted for.
use pegasus_suite.Prelude.{
  ℕ, ◌+◌, ◌≡◌, refl, ap, Option-cases, none, some, List, [], ◌∷◌, length, arith, if◌then◌else◌, inl,
  inr, ◌⊎◌,
}
use pegasus_suite.Prelude.Int.{ℤ, eq_ℤ}
use pegasus_suite.Prelude.Float.{Float64}
use pegasus_suite.Pegasus.Packet.{Progress}
use pegasus_suite.Pegasus.Tpd.Datagram.{Decoder, progress_packet_kind, progress_of, decode_lines}

list_cases : (l : List ℕ) → (l ≡ []) ⊎ ((c : ℕ) × (b : List ℕ) × (l ≡ c ∷ b))
list_cases [] = inl refl
list_cases (c ∷ b) = inr (c, b, refl)

module _ {fl : Float64} (d : Decoder fl) where
  -- the lines that are not blank, without the space around them
  unfoldable pub texts : List (List ℕ) → List (List ℕ)
  texts [] = []
  texts (l ∷ ls) =
      let rest = texts ls in elim (d.trim_space l) [ [] ↦ rest | c ∷ b ↦ (c ∷ b) ∷ rest ]

  -- those that decode, in order
  unfoldable pub decoded : List (List ℕ) → List (ℤ × Progress fl)
  decoded [] = []
  decoded (t ∷ ts) = let rest = decoded ts in elim (d.packet t) [ none ↦ rest | some p ↦ p ∷ rest ]

  -- Of a datagram of lines, the packets delivered are, in order, those of the progress kind among the
  -- lines that decode; and the lines that decode and those counted as bad are together all the lines
  -- that are not blank.
  pub decode_lines_lem :
      (lines : List (List ℕ))
      → ((decode_lines d lines).0 ≡ progress_of d (decoded (texts lines)))
        × (length (decoded (texts lines)) + (decode_lines d lines).1 ≡ length (texts lines))
  unfolding decode_lines texts decoded progress_of
  decode_lines_lem [] = (refl, omega arith)
  decode_lines_lem (line ∷ lines) =
      let (packets, count) = decode_lines_lem lines in
      elim (list_cases (d.trim_space line)) [
        | inl blank ↦ rw (blank, decode_lines, texts) (packets, count)
        | inr (c, b, text) ↦ elim (Option-cases (d.packet (c ∷ b))) [
          | inl bad ↦ rw (text, bad, decode_lines, texts, decoded) (packets, omega (arith, count))
          | inr ((kind, p), good) ↦
              rw (text, good, decode_lines, texts, decoded, progress_of)
                (
                  ap (λ l. if eq_ℤ kind progress_packet_kind then p ∷ l else l) packets,
                  omega (arith, count),
                )
        ]
      ]
