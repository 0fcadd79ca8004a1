-- ===== src/Pegasus/App/Status.antt =====
-- apps/pegasus/app.go: what `Status` shows, whatever feeds start, fail and stop.
use pegasus_suite.Prelude.{
  ◌≡◌, refl, ℕ, ◌==◌, ◌+◌, Bool, false, not, Option, none, some, List, [], ◌∷◌, arith, is_some,
  if_case,
}
use pegasus_suite.Prelude.Float.{Float64}
use pegasus_suite.Prelude.Time.{GoTime}
use pegasus_suite.Clients.{result_case}
use pegasus_suite.Pegasus.Settings.{TripleS, Tpd}
use pegasus_suite.Pegasus.App.{
  Feed, feed_triple_s, feed_tpd, AppError, FeedStatus, Clients, Documents, App, new, feed_settings,
  setup_betfair, start_feeds, start, stop, mark_feeds, on_feed_fatal,
}

-- No status, or one line for each feed, which says whether the feed has a client.
pub ShowsClients : Option (List FeedStatus) → Bool → Bool → Type 0
ShowsClients none t p = Unit
ShowsClients (some []) t p = ⊥
ShowsClients (some (x ∷ [])) t p = ⊥
ShowsClients (some (x ∷ y ∷ [])) t p =
    (x.key ≡ feed_triple_s) × (y.key ≡ feed_tpd) × (x.running ≡ t) × (y.running ≡ p)
ShowsClients (some (x ∷ y ∷ z ∷ rest)) t p = ⊥

mark_feeds-triple_s :
    (feeds : Option (List FeedStatus)) (e : AppError) (t p : Bool)
    → ShowsClients feeds t p
    → ShowsClients (mark_feeds feed_triple_s e feeds) false p
unfolding ShowsClients
mark_feeds-triple_s none e t p h = tt
mark_feeds-triple_s (some []) e t p h = h
mark_feeds-triple_s (some (x ∷ [])) e t p h = h
mark_feeds-triple_s (some (x ∷ y ∷ [])) e t p h = ground (arith, h)
mark_feeds-triple_s (some (x ∷ y ∷ z ∷ rest)) e t p h = h

mark_feeds-tpd :
    (feeds : Option (List FeedStatus)) (e : AppError) (t p : Bool)
    → ShowsClients feeds t p
    → ShowsClients (mark_feeds feed_tpd e feeds) t false
unfolding ShowsClients
mark_feeds-tpd none e t p h = tt
mark_feeds-tpd (some []) e t p h = h
mark_feeds-tpd (some (x ∷ [])) e t p h = h
mark_feeds-tpd (some (x ∷ y ∷ [])) e t p h = ground (arith, h)
mark_feeds-tpd (some (x ∷ y ∷ z ∷ rest)) e t p h = h

module _ {fl : Float64} {tm : GoTime} {W : Type 0} (c : Clients fl W) where
  unfoldable pub IsShown : App tm c → Type 0
  IsShown a = ShowsClients a.feeds (is_some a.triple_s) (is_some a.tpd)

  stop-IsShown : (a : App tm c) (w : W) → IsShown (stop c a w).0
  unfolding IsShown ShowsClients stop
  stop-IsShown a w = tt

  on_feed_fatal-IsShown :
      (gen : ℕ) (feed : Feed) (e : AppError) (a : App tm c) (w : W)
      → IsShown a
      → IsShown (on_feed_fatal c gen feed e a w).0
  unfolding IsShown on_feed_fatal
  on_feed_fatal-IsShown gen feed_triple_s e a w h =
      if_case (λ (x : App tm c × W). IsShown x.0) (not (gen == a.gen)) _ _ (λ g. h)
        (λ g. mark_feeds-triple_s a.feeds e (is_some a.triple_s) (is_some a.tpd) h)
  on_feed_fatal-IsShown gen feed_tpd e a w h =
      if_case (λ (x : App tm c × W). IsShown x.0) (not (gen == a.gen)) _ _ (λ g. h)
        (λ g. mark_feeds-tpd a.feeds e (is_some a.triple_s) (is_some a.tpd) h)

  module _ (docs : Documents) where
    start_feeds-IsShown :
        (t : TripleS) (p : Tpd) (bf : c.Betfair) (a : App tm c) (w : W)
        → IsShown (start_feeds c docs t p bf a w).0
    unfolding IsShown ShowsClients start_feeds
    start_feeds-IsShown t p bf a w = (refl, refl, refl, refl)

    start-IsShown : (a : App tm c) (w : W) → IsShown a → IsShown (start c docs a w).0.0
    unfolding IsShown start
    start-IsShown a w h =
        let P : (App tm c × W) × Option AppError → Type 0 = λ x. IsShown x.0.0 in
        result_case P (feed_settings docs) _ _ (λ e f. h)
          (λ s f.
            result_case P (setup_betfair c docs w).1 _ _ (λ e g. h)
              (λ bf g.
                start_feeds-IsShown s.0 s.1 bf (record a { gen = a.gen + 1 })
                  (setup_betfair c docs w).0))

  -- what may happen to the feeds of an application, in any order; a start reads the settings documents
  -- as they are then, and a callback of a client carries the generation that it was made in
  pub data Moves : App tm c → App tm c → Type 0 where
    here : {a : App tm c} → Moves a a
    starts :
        {a b : App tm c} (docs : Documents) (w : W) → Moves (start c docs a w).0.0 b → Moves a b
    stops : {a b : App tm c} (w : W) → Moves (stop c a w).0 b → Moves a b
    fails :
        {a b : App tm c} (gen : ℕ) (feed : Feed) (e : AppError) (w : W)
        → Moves (on_feed_fatal c gen feed e a w).0 b
        → Moves a b

  Moves-IsShown : {a b : App tm c} → Moves a b → IsShown a → IsShown b
  Moves-IsShown here h = h
  Moves-IsShown {a = a} (starts docs w m) h = Moves-IsShown m (start-IsShown docs a w h)
  Moves-IsShown {a = a} (stops w m) h = Moves-IsShown m (stop-IsShown a w)
  Moves-IsShown {a = a} (fails gen feed e w m) h =
      Moves-IsShown m (on_feed_fatal-IsShown gen feed e a w h)

-- Whatever starts (each with settings documents of its own, failed ones included), stops and failures
-- of feeds happen to a new application, failures reported late by clients of an earlier start included: `Status` shows nothing, or one line
-- for each feed, and the line says that the feed is running exactly when the feed has a client.
pub moves-IsShown :
    {fl : Float64} {tm : GoTime} {W : Type 0} (c : Clients fl W) (a : App tm c)
    → Moves c (new tm c) a
    → IsShown c a
unfolding IsShown ShowsClients new
moves-IsShown c a m = Moves-IsShown c m tt
