-- ===== src/Events/Values.antt =====
-- The values of the enumeration `Classification`: src/vfobs/events/base.py.
use vfobs.Prelude.{◌≡◌, refl, String, str_eq, Option, none, some, if◌then◌else◌}
use vfobs.Events.Base.{Classification, internal, secret}

abbrev pub classification_value : Classification → String
classification_value Classification.public = "public"
classification_value internal = "internal"
classification_value secret = "secret"

-- `Classification(s)`, None where it raises.
unfoldable pub classification_of : String → Option Classification
classification_of s =
    if str_eq s "public"
    then some Classification.public
    else if str_eq s "internal"
    then some internal
    else if str_eq s "secret"
    then some secret
    else none

pub classification_of-value :
    (c : Classification) → classification_of (classification_value c) ≡ some c
unfolding classification_of
classification_of-value Classification.public = refl
classification_of-value internal = refl
classification_of-value secret = refl
