-- ===== src/Pegasus/Tpd/Courses.antt =====
-- apps/pegasus/tpd/courses.go: the racing code of each TPD course.
use pegasus_suite.Prelude.{String, [], ◌∷◌}
use pegasus_suite.Prelude.Assoc.{Assoc}
use pegasus_suite.Betting.{RacingCode, thoroughbred, harness}

abbrev pub course_codes : Assoc String RacingCode
course_codes =
    ("01", thoroughbred)
    ∷ ("03", thoroughbred)
    ∷ ("04", thoroughbred)
    ∷ ("06", thoroughbred)
    ∷ ("11", thoroughbred)
    ∷ ("12", thoroughbred)
    ∷ ("14", thoroughbred)
    ∷ ("17", thoroughbred)
    ∷ ("19", thoroughbred)
    ∷ ("23", thoroughbred)
    ∷ ("24", thoroughbred)
    ∷ ("30", thoroughbred)
    ∷ ("34", thoroughbred)
    ∷ ("35", thoroughbred)
    ∷ ("37", thoroughbred)
    ∷ ("40", thoroughbred)
    ∷ ("43", thoroughbred)
    ∷ ("46", thoroughbred)
    ∷ ("47", thoroughbred)
    ∷ ("53", thoroughbred)
    ∷ ("57", thoroughbred)
    ∷ ("58", thoroughbred)
    ∷ ("59", thoroughbred)
    ∷ ("61", thoroughbred)
    ∷ ("64", thoroughbred)
    ∷ ("66", thoroughbred)
    ∷ ("67", thoroughbred)
    ∷ ("68", thoroughbred)
    ∷ ("69", thoroughbred)
    ∷ ("70", thoroughbred)
    ∷ ("71", thoroughbred)
    ∷ ("73", thoroughbred)
    ∷ ("74", thoroughbred)
    ∷ ("75", thoroughbred)
    ∷ ("76", thoroughbred)
    ∷ ("77", thoroughbred)
    ∷ ("78", thoroughbred)
    ∷ ("79", thoroughbred)
    ∷ ("80", thoroughbred)
    ∷ ("81", thoroughbred)
    ∷ ("82", thoroughbred)
    ∷ ("83", thoroughbred)
    ∷ ("84", thoroughbred)
    ∷ ("85", thoroughbred)
    ∷ ("86", thoroughbred)
    ∷ ("87", harness)
    ∷ ("88", harness)
    ∷ ("89", thoroughbred)
    ∷ ("90", thoroughbred)
    ∷ ("91", harness)
    ∷ ("93", thoroughbred)
    ∷ ("94", thoroughbred)
    ∷ ("95", thoroughbred)
    ∷ ("96", thoroughbred)
    ∷ ("97", thoroughbred)
    ∷ ("98", thoroughbred)
    ∷ ("HD", thoroughbred)
    ∷ []
