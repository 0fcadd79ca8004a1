-- ===== src/Pegasus/Venues/TripleS.antt =====
-- apps/pegasus/core/mapping.go: the Betmatic venues by Triple-S venue name.
use pegasus_suite.Prelude.{String, true, false, [], ◌∷◌}
use pegasus_suite.Prelude.Assoc.{Assoc}
use pegasus_suite.Betting.{BetmaticVenue}

abbrev pub triples_to_betmatic : Assoc String BetmaticVenue
triples_to_betmatic =
    ("townsville", record { name = "TOWNSVILLE"; is_metro = false })
    ∷ ("toowoomba", record { name = "TOOWOOMBA"; is_metro = false })
    ∷ ("thevalley", record { name = "MOONEE VALLEY"; is_metro = true })
    ∷ ("sunshinecoastpolytrack", record { name = "SUNSHINE COAST"; is_metro = false })
    ∷ ("sunshinecoast", record { name = "SUNSHINE COAST"; is_metro = false })
    ∷ ("sportsbetsandownlakeside", record { name = "SANDOWN"; is_metro = true })
    ∷ ("sportsbetsandownhillside", record { name = "SANDOWN"; is_metro = true })
    ∷ ("sportsbetpakenhamsynthetic", record { name = "PAKENHAM"; is_metro = false })
    ∷ ("sportsbetballaratsynthetic", record { name = "BALLARAT"; is_metro = false })
    ∷ ("sportsbetballarat", record { name = "BALLARAT"; is_metro = false })
    ∷ ("sportsbetgawler", record { name = "GAWLER"; is_metro = false })
    ∷ ("southsidepakenhamsynthetic", record { name = "PAKENHAM"; is_metro = false })
    ∷ ("southsidepakenham", record { name = "PAKENHAM"; is_metro = false })
    ∷ ("southsidecranbourne", record { name = "CRANBOURNE"; is_metro = false })
    ∷ ("rockhampton", record { name = "ROCKHAMPTON"; is_metro = false })
    ∷ ("picklebetparkwarwick", record { name = "WARWICK"; is_metro = false })
    ∷ ("morphettvilleparks", record { name = "MORPHETTVILLE"; is_metro = true })
    ∷ ("morphettville", record { name = "MORPHETTVILLE"; is_metro = true })
    ∷ ("mornington", record { name = "MORNINGTON"; is_metro = false })
    ∷ ("mackay", record { name = "MACKAY"; is_metro = false })
    ∷ ("ladbrokesgeelong", record { name = "GEELONG"; is_metro = false })
    ∷ ("ladbrokescannonpark", record { name = "CAIRNS"; is_metro = false })
    ∷ ("kilcoy", record { name = "KILCOY"; is_metro = false })
    ∷ ("ipswich", record { name = "IPSWICH"; is_metro = false })
    ∷ ("gatton", record { name = "GATTON"; is_metro = false })
    ∷ ("flemington", record { name = "FLEMINGTON"; is_metro = true })
    ∷ ("eaglefarm", record { name = "EAGLE FARM"; is_metro = true })
    ∷ ("doomben", record { name = "DOOMBEN"; is_metro = true })
    ∷ ("dalby", record { name = "DALBY"; is_metro = false })
    ∷ ("caulfieldheath", record { name = "CAULFIELD"; is_metro = true })
    ∷ ("caulfield", record { name = "CAULFIELD"; is_metro = true })
    ∷ ("balaklava", record { name = "BALAKLAVA"; is_metro = false })
    ∷ ("thomasfarmsrcmurraybridge", record { name = "MURRAY BRIDGE"; is_metro = false })
    ∷ ("bendigo", record { name = "BENDIGO"; is_metro = false })
    ∷ ("aquisparkgoldcoastpoly", record { name = "GOLD COAST"; is_metro = false })
    ∷ ("aquisparkgoldcoast", record { name = "GOLD COAST"; is_metro = false })
    ∷ ("albionpark", record { name = "ALBION PARK"; is_metro = true })
    ∷ ("albury", record { name = "ALBURY"; is_metro = false })
    ∷ ("ballarat", record { name = "BALLARAT"; is_metro = false })
    ∷ ("bathurst", record { name = "BATHURST"; is_metro = false })
    ∷ ("cranbourne", record { name = "CRANBOURNE"; is_metro = false })
    ∷ ("geelong", record { name = "GEELONG"; is_metro = false })
    ∷ ("goulburn", record { name = "GOULBURN"; is_metro = false })
    ∷ ("kilmore", record { name = "KILMORE"; is_metro = false })
    ∷ ("marburg", record { name = "MARBURG"; is_metro = false })
    ∷ ("melton", record { name = "MELTON"; is_metro = true })
    ∷ ("mildura", record { name = "MILDURA"; is_metro = false })
    ∷ ("newcastle", record { name = "NEWCASTLE"; is_metro = false })
    ∷ ("penrith", record { name = "PENRITH"; is_metro = false })
    ∷ ("redcliffe", record { name = "REDCLIFFE"; is_metro = false })
    ∷ ("riverinapaceway", record { name = "WAGGA"; is_metro = false })
    ∷ ("shepparton", record { name = "SHEPPARTON"; is_metro = false })
    ∷ ("tabcorpparkmenangle", record { name = "MENANGLE"; is_metro = true })
    ∷ ("tamworth", record { name = "TAMWORTH"; is_metro = false })
    ∷ ("young", record { name = "YOUNG"; is_metro = false })
    ∷ []
