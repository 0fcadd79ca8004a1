-- ===== src/Pegasus/Venues/Tpd.antt =====
-- apps/pegasus/core/mapping.go: the Betmatic venues by TPD course code.
use pegasus_suite.Prelude.{String, false, [], ◌∷◌}
use pegasus_suite.Prelude.Assoc.{Assoc}
use pegasus_suite.Betting.{BetmaticVenue}

abbrev pub tpd_to_betmatic : Assoc String BetmaticVenue
tpd_to_betmatic =
    ("98", record { name = "BELMONT PARK USA"; is_metro = false })
    ∷ ("82", record { name = "CANTERBURY PARK USA"; is_metro = false })
    ∷ ("97", record { name = "CHURCHILL DOWNS"; is_metro = false })
    ∷ ("78", record { name = "COLONIAL DOWNS"; is_metro = false })
    ∷ ("79", record { name = "DEL MAR"; is_metro = false })
    ∷ ("EP", record { name = "ELLIS PARK"; is_metro = false })
    ∷ ("FG", record { name = "FAIR GROUNDS"; is_metro = false })
    ∷ ("86", record { name = "GULFSTREAM PARK"; is_metro = false })
    ∷ ("89", record { name = "HORSESHOE INDIANAPOLIS"; is_metro = false })
    ∷ ("75", record { name = "KEENELAND"; is_metro = false })
    ∷ ("73", record { name = "LAUREL PARK"; is_metro = false })
    ∷ ("70", record { name = "LOUISIANA DOWNS"; is_metro = false })
    ∷ ("84", record { name = "MONMOUTH PARK"; is_metro = false })
    ∷ ("81", record { name = "OAKLAWN"; is_metro = false })
    ∷ ("74", record { name = "PIMLICO"; is_metro = false })
    ∷ ("80", record { name = "SAM HOUSTON"; is_metro = false })
    ∷ ("94", record { name = "SANTA ANITA PARK"; is_metro = false })
    ∷ ("ST", record { name = "SARATOGA"; is_metro = false })
    ∷ ("85", record { name = "TAMPA BAY DOWNS"; is_metro = false })
    ∷ ("87", record { name = "MEADOWLANDS"; is_metro = false })
    ∷ ("88", record { name = "HOOSIER PARK"; is_metro = false })
    ∷ ("95", record { name = "TURFWAY PARK"; is_metro = false })
    ∷ ("90", record { name = "WOODBINE"; is_metro = false })
    ∷ ("91", record { name = "MOHAWK"; is_metro = false })
    ∷ ("1", record { name = "ASCOT UK"; is_metro = false })
    ∷ ("2", record { name = "AYR"; is_metro = false })
    ∷ ("3", record { name = "BANGOR ON DEE"; is_metro = false })
    ∷ ("4", record { name = "BATH"; is_metro = false })
    ∷ ("5", record { name = "BEVERLEY"; is_metro = false })
    ∷ ("6", record { name = "BRIGHTON"; is_metro = false })
    ∷ ("7", record { name = "CARLISLE"; is_metro = false })
    ∷ ("8", record { name = "CARTMEL"; is_metro = false })
    ∷ ("9", record { name = "CATTERICK BRIDGE"; is_metro = false })
    ∷ ("10", record { name = "CHELTENHAM UK"; is_metro = false })
    ∷ ("11", record { name = "CHEPSTOW"; is_metro = false })
    ∷ ("12", record { name = "CHESTER"; is_metro = false })
    ∷ ("13", record { name = "EXETER"; is_metro = false })
    ∷ ("14", record { name = "DONCASTER"; is_metro = false })
    ∷ ("15", record { name = "MUSSELBURGH"; is_metro = false })
    ∷ ("16", record { name = "EPSOM DOWNS"; is_metro = false })
    ∷ ("17", record { name = "FAKENHAM"; is_metro = false })
    ∷ ("19", record { name = "FONTWELL PARK"; is_metro = false })
    ∷ ("20", record { name = "GOODWOOD"; is_metro = false })
    ∷ ("21", record { name = "HAMILTON PARK"; is_metro = false })
    ∷ ("22", record { name = "HAYDOCK PARK"; is_metro = false })
    ∷ ("23", record { name = "HEREFORD"; is_metro = false })
    ∷ ("24", record { name = "HEXHAM"; is_metro = false })
    ∷ ("25", record { name = "HUNTINGDON"; is_metro = false })
    ∷ ("26", record { name = "KELSO"; is_metro = false })
    ∷ ("27", record { name = "KEMPTON PARK"; is_metro = false })
    ∷ ("29", record { name = "LEICESTER"; is_metro = false })
    ∷ ("30", record { name = "LINGFIELD"; is_metro = false })
    ∷ ("31", record { name = "AINTREE"; is_metro = false })
    ∷ ("32", record { name = "LUDLOW"; is_metro = false })
    ∷ ("33", record { name = "MARKET RASEN"; is_metro = false })
    ∷ ("34", record { name = "NEWBURY"; is_metro = false })
    ∷ ("35", record { name = "NEWCASTLE UK"; is_metro = false })
    ∷ ("36", record { name = "NEWMARKET UK"; is_metro = false })
    ∷ ("37", record { name = "NEWTON ABBOT"; is_metro = false })
    ∷ ("38", record { name = "NOTTINGHAM"; is_metro = false })
    ∷ ("39", record { name = "PERTH UK"; is_metro = false })
    ∷ ("40", record { name = "PLUMPTON"; is_metro = false })
    ∷ ("41", record { name = "PONTEFRACT"; is_metro = false })
    ∷ ("42", record { name = "REDCAR"; is_metro = false })
    ∷ ("43", record { name = "RIPON"; is_metro = false })
    ∷ ("44", record { name = "SALISBURY"; is_metro = false })
    ∷ ("45", record { name = "SANDOWN PARK UK"; is_metro = false })
    ∷ ("46", record { name = "SEDGEFIELD"; is_metro = false })
    ∷ ("47", record { name = "SOUTHWELL"; is_metro = false })
    ∷ ("48", record { name = "STRATFORD AVON"; is_metro = false })
    ∷ ("49", record { name = "TAUNTON"; is_metro = false })
    ∷ ("51", record { name = "THIRSK"; is_metro = false })
    ∷ ("53", record { name = "UTTOXETER"; is_metro = false })
    ∷ ("54", record { name = "WARWICK UK"; is_metro = false })
    ∷ ("55", record { name = "WETHERBY"; is_metro = false })
    ∷ ("56", record { name = "WINCANTON"; is_metro = false })
    ∷ ("57", record { name = "WINDSOR"; is_metro = false })
    ∷ ("58", record { name = "WOLVERHAMPTON"; is_metro = false })
    ∷ ("59", record { name = "WORCESTER"; is_metro = false })
    ∷ ("61", record { name = "YARMOUTH"; is_metro = false })
    ∷ ("62", record { name = "YORK"; is_metro = false })
    ∷ ("64", record { name = "FFOS LAS"; is_metro = false })
    ∷ ("65", record { name = "CHELMSFORD CITY"; is_metro = false })
    ∷ []
