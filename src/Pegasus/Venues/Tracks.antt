-- ===== src/Pegasus/Venues/Tracks.antt =====
-- apps/pegasus/core/mapping.go: the tables of Betfair tracks.
use pegasus_suite.Prelude.{String, [], ◌∷◌}
use pegasus_suite.Prelude.Assoc.{Assoc}

-- keyed by Triple-S venue name
abbrev pub triples_to_betfair : Assoc String String
triples_to_betfair =
    ("aquisparkgoldcoast", "goldcoast")
    ∷ ("aquisparkgoldcoastpoly", "goldcoast")
    ∷ ("bendigo", "bendigo")
    ∷ ("balaklava", "balaklava")
    ∷ ("caulfield", "caulfield")
    ∷ ("caulfieldheath", "caulfield")
    ∷ ("dalby", "dalby")
    ∷ ("doomben", "doomben")
    ∷ ("eaglefarm", "eaglefarm")
    ∷ ("flemington", "flemington")
    ∷ ("gatton", "gatton")
    ∷ ("ipswich", "ipswich")
    ∷ ("kilcoy", "kilcoy")
    ∷ ("ladbrokescannonpark", "cairns")
    ∷ ("ladbrokesgeelong", "geelong")
    ∷ ("mackay", "mackay")
    ∷ ("mornington", "mornington")
    ∷ ("morphettville", "morphettville")
    ∷ ("morphettvilleparks", "morphettville")
    ∷ ("picklebetparkwarwick", "warwick")
    ∷ ("rockhampton", "rockhampton")
    ∷ ("southsidecranbourne", "cranbourne")
    ∷ ("southsidepakenham", "pakenham")
    ∷ ("southsidepakenhamsynthetic", "pakenham")
    ∷ ("sportsbetpakenhamsynthetic", "pakenham")
    ∷ ("sportsbetgawler", "gawler")
    ∷ ("sportsbetsandownhillside", "sandown")
    ∷ ("sportsbetsandownlakeside", "sandown")
    ∷ ("sportsbetballarat", "ballarat")
    ∷ ("sportsbetballaratsynthetic", "ballarat")
    ∷ ("sunshinecoast", "sunshinecoast")
    ∷ ("sunshinecoastpolytrack", "sunshinecoast")
    ∷ ("thevalley", "mooneevalley")
    ∷ ("thomasfarmsrcmurraybridge", "murraybridge")
    ∷ ("toowoomba", "toowoomba")
    ∷ ("townsville", "townsville")
    ∷ ("albionpark", "albionpark")
    ∷ ("albury", "albury")
    ∷ ("ballarat", "ballarat")
    ∷ ("bathurst", "bathurst")
    ∷ ("cranbourne", "cranbourne")
    ∷ ("geelong", "geelong")
    ∷ ("goulburn", "goulburn")
    ∷ ("kilmore", "kilmore")
    ∷ ("marburg", "marburg")
    ∷ ("melton", "melton")
    ∷ ("mildura", "mildura")
    ∷ ("newcastle", "newcastle")
    ∷ ("penrith", "penrith")
    ∷ ("redcliffe", "redcliffe")
    ∷ ("riverinapaceway", "wagga")
    ∷ ("shepparton", "shepparton")
    ∷ ("tabcorpparkmenangle", "menangle")
    ∷ ("tamworth", "tamworth")
    ∷ ("young", "young")
    ∷ []

-- keyed by TPD course code
abbrev pub tpd_to_betfair : Assoc String String
tpd_to_betfair =
    ("98", "belmontpark")
    ∷ ("82", "canterburypark")
    ∷ ("97", "churchilldowns")
    ∷ ("78", "colonialdowns")
    ∷ ("79", "delmar")
    ∷ ("EP", "ellispark")
    ∷ ("FG", "fairgrounds")
    ∷ ("86", "gulfstreampark")
    ∷ ("89", "horseshoeindianapolis")
    ∷ ("75", "keeneland")
    ∷ ("73", "laurelpark")
    ∷ ("70", "louisianadowns")
    ∷ ("84", "monmouthpark")
    ∷ ("81", "oaklawnpark")
    ∷ ("74", "pimlico")
    ∷ ("80", "samhouston")
    ∷ ("94", "santaanita")
    ∷ ("ST", "saratoga")
    ∷ ("85", "tampabaydowns")
    ∷ ("87", "meadowlands")
    ∷ ("88", "hoosierpark")
    ∷ ("95", "turfwaypark")
    ∷ ("90", "woodbine")
    ∷ ("91", "woodbine")
    ∷ ("01", "ascot")
    ∷ ("03", "bangor")
    ∷ ("04", "bath")
    ∷ ("06", "brighton")
    ∷ ("11", "chepstow")
    ∷ ("12", "chester")
    ∷ ("14", "doncaster")
    ∷ ("17", "fakenham")
    ∷ ("64", "ffoslas")
    ∷ ("19", "fontwell")
    ∷ ("23", "hereford")
    ∷ ("24", "hexham")
    ∷ ("30", "lingfield")
    ∷ ("34", "newbury")
    ∷ ("35", "newcastle")
    ∷ ("37", "newtonabbot")
    ∷ ("40", "plumpton")
    ∷ ("43", "ripon")
    ∷ ("46", "sedgefield")
    ∷ ("47", "southwell")
    ∷ ("53", "uttoxeter")
    ∷ ("57", "windsor")
    ∷ ("58", "wolverhampton")
    ∷ ("59", "worcester")
    ∷ ("61", "yarmouth")
    ∷ ("31", "aintree")
    ∷ ("02", "ayr")
    ∷ ("05", "beverley")
    ∷ ("07", "carlisle")
    ∷ ("08", "cartmel")
    ∷ ("09", "catterick")
    ∷ ("65", "greatleighs")
    ∷ ("10", "cheltenham")
    ∷ ("16", "epsom")
    ∷ ("13", "exeter")
    ∷ ("20", "goodwood")
    ∷ ("21", "hamilton")
    ∷ ("22", "haydock")
    ∷ ("25", "huntingdon")
    ∷ ("26", "kelso")
    ∷ ("27", "kempton")
    ∷ ("29", "leicester")
    ∷ ("32", "ludlow")
    ∷ ("33", "marketrasen")
    ∷ ("15", "musselburgh")
    ∷ ("36", "newmarket")
    ∷ ("38", "nottingham")
    ∷ ("39", "perth")
    ∷ ("41", "pontefract")
    ∷ ("42", "redcar")
    ∷ ("44", "salisbury")
    ∷ ("45", "sandown")
    ∷ ("48", "stratford")
    ∷ ("49", "taunton")
    ∷ ("51", "thirsk")
    ∷ ("54", "warwick")
    ∷ ("55", "wetherby")
    ∷ ("56", "wincanton")
    ∷ ("62", "york")
    ∷ []
