-- ===== src/Pegasus/Tpd/Datagram/Tests.antt =====
-- apps/pegasus/tpd/client.go on a toy encoding: the byte 5 is a packet, 6 one of another kind.
use pegasus_suite.Prelude.{
  ℕ, ◌+◌, ◌≡◌, refl, some, none, List, [], ◌∷◌, length, ◌==◌, if◌then◌else◌,
}
use pegasus_suite.Prelude.Int.{pos}
use pegasus_suite.Prelude.Toy.{toy_float}
use pegasus_suite.Pegasus.Samples.{packet_at}
use pegasus_suite.Pegasus.Tpd.Datagram.{
  Decoder, lines_of, progress_of, decode_lines, decode_datagram,
}
use pegasus_suite.Pegasus.Tpd.Datagram.Lines.{texts, decoded, decode_lines_lem}

abbrev decoder : Decoder toy_float
decoder = record {
  trim_space = λ b. b;
  packet = λ b. elim b [
    | [] ↦ none
    | c ∷ rest ↦
        if c == 5
        then some (pos 5, packet_at "2s" (pos 9000))
        else if c == 6
        then some (pos 6, packet_at "2s" (pos 9000))
        else none
  ];
  batch = λ b. none;
}

abbrev datagram : List ℕ
datagram = 5 ∷ 10 ∷ 7 ∷ 10 ∷ 10 ∷ 6 ∷ 10 ∷ 5 ∷ []

two_packets :
    decode_datagram decoder datagram
    ≡ (packet_at "2s" (pos 9000) ∷ packet_at "2s" (pos 9000) ∷ [], 1)
unfolding decode_datagram lines_of decode_lines
two_packets = refl

decode_lines_lem_example :
    ((decode_lines decoder (lines_of datagram)).0
      ≡ progress_of decoder (decoded decoder (texts decoder (lines_of datagram))))
    × (length (decoded decoder (texts decoder (lines_of datagram)))
          + (decode_lines decoder (lines_of datagram)).1
        ≡ length (texts decoder (lines_of datagram)))
decode_lines_lem_example = decode_lines_lem decoder (lines_of datagram)
