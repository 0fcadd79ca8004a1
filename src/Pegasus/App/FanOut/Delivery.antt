-- ===== src/Pegasus/App/FanOut/Delivery.antt =====
-- apps/pegasus/app.go: which processes a message reaches.
use pegasus_suite.Prelude.{
  ◌≡◌, refl, String, Bool, true, false, ◌&&◌, ◌||◌, none, some, List, [], ◌∷◌, ◌++◌, ltb, length,
  arith, if_case, str_eq, if◌then◌else◌,
}
use pegasus_suite.Prelude.Int.{ℤ}
use pegasus_suite.Prelude.Assoc.{Assoc, string_eq, lookup, lookup-insert_self, lookup-erase_self}
use pegasus_suite.Prelude.Float.{Float64}
use pegasus_suite.Prelude.Time.{GoTime}
use pegasus_suite.Clients.{ProcessKey, key_eq}
use pegasus_suite.Pegasus.Core.{RaceRef}
use pegasus_suite.Engine.Stake.{active}
use pegasus_suite.Pegasus.Process.{Process, offer_triple_s, offer_tpd, wants, staked_scope}
use pegasus_suite.Pegasus.Strategy.Field.{RaceMessage, is_finished}
use pegasus_suite.Pegasus.TripleS.{FeedMessage}
use pegasus_suite.Pegasus.TripleS
use pegasus_suite.Pegasus.TripleS.Refs.{ref-scope}
use pegasus_suite.Pegasus.Strategy.TpdLeader.Runs.{LeaderMessage}
use pegasus_suite.Pegasus.App.{Clients, Member, App}
use pegasus_suite.Pegasus.App.FanOut.{
  offer_all, after_fan_out, fan_out, on_tpd, on_triple_s, canonical,
}

-- what an inbox of at most 100 messages holds after one more was offered
abbrev pub queued : {M : Type 0} → M → List M → List M
queued m inbox = if ltb (length inbox) 100 then inbox ++ m ∷ [] else inbox

module _ {fl : Float64} {tm : GoTime} where
  -- a process is running, and has settings for the scope of the race with a stake that is active
  unfoldable pub is_for : RaceRef fl → Process fl tm → Bool
  is_for ref p = p.running && (elim (lookup ref.scope p.settings.scopes) [
    | none ↦ false
    | some scope ↦ active fl scope.stake
  ])

  wants-is_for : (ref : RaceRef fl) (p : Process fl tm) → wants ref p ≡ is_for ref p
  unfolding wants staked_scope is_for
  wants-is_for ref p = ground arith

  -- messages of this race are for some process
  unfoldable pub for_any : RaceRef fl → Assoc ProcessKey (Member fl tm) → Bool
  for_any ref [] = false
  for_any ref ((key, m) ∷ rest) = is_for ref m.process || for_any ref rest

  -- an offer that a process takes if messages of this race are for it, and that then puts the message
  -- into its inbox
  abbrev Takes :
      RaceRef fl → (Process fl tm → Process fl tm) → (Process fl tm → Process fl tm × Bool) → Type 0
  Takes ref put offer =
      (p : Process fl tm) → offer p ≡ (if is_for ref p then (put p, true) else (p, false))

  abbrev pub delivered : RaceRef fl → (Process fl tm → Process fl tm) → Member fl tm → Member fl tm
  delivered ref put m = if is_for ref m.process then record m { process = put m.process } else m

  module _ (ref : RaceRef fl) (put : Process fl tm → Process fl tm)
      (offer : Process fl tm → Process fl tm × Bool) (takes : Takes ref put offer) where
    offer_all-wanted :
        (procs : Assoc ProcessKey (Member fl tm)) → (offer_all offer procs).1 ≡ for_any ref procs
    unfolding offer_all for_any
    offer_all-wanted [] = refl
    offer_all-wanted ((key, x) ∷ rest) = ground (arith, takes x.process, offer_all-wanted rest)

    offer_all-lookup :
        (key : ProcessKey) (procs : Assoc ProcessKey (Member fl tm))
        → lookup key (offer_all offer procs).0
          ≡ (elim (lookup key procs) [ none ↦ none | some x ↦ some (delivered ref put x) ])
    unfolding offer_all lookup
    offer_all-lookup key [] = refl
    offer_all-lookup key ((j, x) ∷ rest) =
        ground (arith, takes x.process, offer_all-lookup key rest)

  offer_triple_s-Takes :
      (m : RaceMessage fl) (ref : RaceRef fl)
      → Takes ref (λ p. record p { triple_s = queued (m, ref) p.triple_s }) (offer_triple_s m ref)
  unfolding offer_triple_s
  offer_triple_s-Takes m ref p = ground (arith, wants-is_for ref p)

  offer_tpd-Takes :
      (m : LeaderMessage fl tm) → Takes m.ref (λ p. record p { tpd = queued m p.tpd }) (offer_tpd m)
  unfolding offer_tpd
  offer_tpd-Takes m p = ground (arith, wants-is_for m.ref p)

module _ {fl : Float64} {tm : GoTime} {W : Type 0} (c : Clients fl W) where
  -- What a message does to an application: every process that it is for gets it, and only those; a
  -- race that is for no process is noted, and a race that has finished is noted no more.
  unfoldable pub Delivers :
      RaceRef fl → (Process fl tm → Process fl tm) → App tm c → App tm c → Type 0
  Delivers ref put a a' =
      ((key : ProcessKey)
        → lookup key a'.procs
          ≡ (elim (lookup key a.procs) [ none ↦ none | some x ↦ some (delivered ref put x) ]))
      × (is_finished ref.status ≡ true → lookup ref.key a'.unmatched ≡ none)
      × (is_finished ref.status ≡ false
          → for_any ref a.procs ≡ false
          → lookup ref.key a'.unmatched ≡ some tt)

  fan_out-Delivers :
      (ref : RaceRef fl) (put : Process fl tm → Process fl tm)
      (offer : Process fl tm → Process fl tm × Bool)
      → Takes ref put offer
      → (a : App tm c) → Delivers ref put a (fan_out c offer ref a)
  unfolding Delivers fan_out after_fan_out
  fan_out-Delivers ref put offer takes a = (
    λ key. ground (arith, offer_all-lookup ref put offer takes key a.procs),
    λ f. ground (arith, f, lookup-erase_self ref.key a.unmatched),
    λ f w. ground (
      arith,
      f,
      w,
      offer_all-wanted ref put offer takes a.procs,
      lookup-insert_self ref.key tt a.unmatched,
    ),
  )

  -- `onTPD` of a packet whose race has a scope: every process that is running and has an active stake
  -- for the scope gets the packet, with the name of the venue in its canonical form, at the end of its
  -- inbox, unless that holds 100 packets or more; nothing else of it changes, nor does any other
  -- process; if no process is running with such a stake the race is noted as unmatched, and a race that
  -- has finished is not noted any more.
  pub on_tpd-Delivers :
      (normalise_track : String → String) (m : LeaderMessage fl tm) (a : App tm c)
      → str_eq m.ref.scope "" ≡ false
      → let ref = canonical normalise_track m.ref in
        Delivers ref
          (λ p. record p { tpd = queued (record m { ref = ref }) p.tpd })
          a
          (on_tpd c normalise_track m a)
  unfolding on_tpd
  on_tpd-Delivers normalise_track m a h =
      let ref = canonical normalise_track m.ref in
      let put : Process fl tm → Process fl tm =
        λ p. record p { tpd = queued (record m { ref = ref }) p.tpd } in
      if_case (Delivers ref put a) (str_eq m.ref.scope "") _ _ (λ e. absurd (ground (arith, e, h)))
        (λ e. fan_out-Delivers ref put _ (offer_tpd-Takes (record m { ref = ref })) a)

  -- `onTripleS` of a message whose race gets through: as for a packet of TPD.
  pub on_triple_s-Delivers :
      (normalise_track : String → String) (itoa : ℤ → String) (m : FeedMessage fl) (r : RaceRef fl)
      (a : App tm c)
      → TripleS.ref itoa m ≡ some r
      → let ref = canonical normalise_track r in
        Delivers ref
          (λ p. record p { triple_s = queued (m.message, ref) p.triple_s })
          a
          (on_triple_s c normalise_track itoa m a)
  unfolding on_triple_s
  on_triple_s-Delivers normalise_track itoa m r a h =
      let ref = canonical normalise_track r in
      let put : Process fl tm → Process fl tm =
        λ p. record p { triple_s = queued (m.message, ref) p.triple_s } in
      rw (on_triple_s, h)
        (if_case (Delivers ref put a) (str_eq r.scope "") _ _
          (λ e. absurd (ground (arith, e, ref-scope itoa m r h)))
          (λ e. fan_out-Delivers ref put _ (offer_triple_s-Takes m.message ref) a))
