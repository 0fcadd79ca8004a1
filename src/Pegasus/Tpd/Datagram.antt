-- ===== src/Pegasus/Tpd/Datagram.antt =====
-- apps/pegasus/tpd/client.go: the packets of one datagram, what they become, and the watch over a silent
-- feed. A datagram is its bytes. The socket, and the recovery from a panic in a handler, are left out.
mod Lines
mod Tests
use pegasus_suite.Prelude.{
  ℕ, suc, ◌+◌, ◌*◌, Bool, true, false, not, Option, none, some, String, List, [], ◌∷◌, ltb, ◌==◌,
  if◌then◌else◌,
}
use pegasus_suite.Prelude.Assoc.{Assoc}
use pegasus_suite.Prelude.Int.{ℤ, pos, eq_ℤ, lt_ℤ}
use pegasus_suite.Prelude.Float.{Float64}
use pegasus_suite.Prelude.Time.{GoTime}
use pegasus_suite.Pegasus.Core.{RaceRef}
use pegasus_suite.Pegasus.Packet.{Progress}
use pegasus_suite.Pegasus.Tpd.{Race}
use pegasus_suite.Pegasus.Tpd.RaceList.{RaceList, due_within}
use pegasus_suite.Pegasus.Tpd.Tracker.{Tracker, ref}

-- bytes.TrimSpace, and encoding/json at a packet and at a list of packets; a packet with its `Kind`
pub record Decoder (fl : Float64) : Type 0 where
  pub trim_space : List ℕ → List ℕ
  pub packet : List ℕ → Option (ℤ × Progress fl)
  pub batch : List ℕ → Option (List (ℤ × Progress fl))

abbrev pub progress_packet_kind : ℤ
progress_packet_kind = pos 5

abbrev on_first : ℕ → List (List ℕ) → List (List ℕ)
on_first c [] = (c ∷ []) ∷ []
on_first c (line ∷ lines) = (c ∷ line) ∷ lines

-- the lines that the loop cuts off; a newline at the very end starts no other line
unfoldable pub lines_of : List ℕ → List (List ℕ)
lines_of [] = []
lines_of (c ∷ b) = let rest = lines_of b in if c == 10 then [] ∷ rest else on_first c rest

module _ {fl : Float64} (d : Decoder fl) where
  -- the packets that `fn` is called with, of a list that was decoded
  unfoldable pub progress_of : List (ℤ × Progress fl) → List (Progress fl)
  progress_of [] = []
  progress_of ((kind, p) ∷ rest) =
      let more = progress_of rest in if eq_ℤ kind progress_packet_kind then p ∷ more else more

  -- the loop over the lines: the packets, and how many lines failed to decode
  unfoldable pub decode_lines : List (List ℕ) → List (Progress fl) × ℕ
  decode_lines [] = ([], 0)
  decode_lines (line ∷ lines) =
      let (more, bad) = decode_lines lines in
      elim (d.trim_space line) [
        | [] ↦ (more, bad)
        | c ∷ b ↦ elim (d.packet (c ∷ b)) [
          | none ↦ (more, suc bad)
          | some (kind, p) ↦ (if eq_ℤ kind progress_packet_kind then p ∷ more else more, bad)
        ]
      ]

  -- `decodeDatagram`
  unfoldable pub decode_datagram : List ℕ → List (Progress fl) × ℕ
  decode_datagram datagram = elim (d.trim_space datagram) [
    | [] ↦ ([], 0)
    | c ∷ b ↦
        if c == b'['
        then (elim (d.batch (c ∷ b)) [ none ↦ ([], 1) | some packets ↦ (progress_of packets, 0) ])
        else decode_lines (lines_of (c ∷ b))
  ]

-- the counters of `Client`, with its tracker
pub record Client (fl : Float64) (tm : GoTime) : Type 0 where
  pub tracker : Tracker fl tm
  pub last_packet : ℕ
  pub dropped : ℕ
  pub received : ℕ

module _ {fl : Float64} {tm : GoTime} where
  -- the calls of `Ref`, the i-th with its readings of the clock, and what the handler is called with
  unfoldable pub deliver :
      (String → Option (Race fl tm))
      → (ℕ → tm.Time × tm.Time)
      → ℕ
      → List (Progress fl)
      → Tracker fl tm
      → Tracker fl tm × List (Progress fl × RaceRef fl)
  deliver list clock i [] t = (t, [])
  deliver list clock i (p ∷ packets) t =
      let (t', found) = ref list p (clock i).0 (clock i).1 t in
      let (t'', rest) = deliver list clock (suc i) packets t' in
      (t'', elim found [ none ↦ rest | some r ↦ (p, r) ∷ rest ])

  -- `handleDatagram`
  unfoldable pub handle_datagram :
      Decoder fl
      → (String → Option (Race fl tm))
      → (ℕ → tm.Time × tm.Time)
      → List ℕ
      → Client fl tm
      → Client fl tm × List (Progress fl × RaceRef fl)
  handle_datagram d list clock datagram c =
      let (packets, bad) = decode_datagram d datagram in
      let (t, out) = deliver list clock 0 packets c.tracker in
      (record c { tracker = t; dropped = c.dropped + bad }, out)

  -- one round of `read`, for a datagram that arrives at this reading of the clock
  unfoldable pub read_datagram :
      Decoder fl
      → (String → Option (Race fl tm))
      → (ℕ → tm.Time × tm.Time)
      → ℕ
      → List ℕ
      → Client fl tm
      → Client fl tm × List (Progress fl × RaceRef fl)
  read_datagram d list clock now datagram c =
      handle_datagram d list clock datagram
        (record c { last_packet = now; received = suc c.received })

  -- one tick of `watchQuiet`: the race that is due while the feed has been silent for a minute. `due`
  -- is `RaceDueWithin` of the race list.
  unfoldable pub watch_quiet : ℕ → Client fl tm → Option (Race fl tm) → Option (Race fl tm)
  watch_quiet now c due = if ltb now (c.last_packet + 60 * 1000000000) then none else due
