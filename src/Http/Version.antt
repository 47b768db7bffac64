-- ===== src/Http/Version.antt =====
-- src/abi_impl/http/version.rs: `HttpVersionPreference`.
use pd_edge.Common.{List, [], ◌∷◌, Option, none, some, Bool, false, ◌||◌, if◌then◌else◌, ◌≡◌, refl}
use pd_edge.Common.Bytes.{Text, text, text_eq, lowercase, lowercase_byte}
use pd_edge.Common.Whitespace.{trim, trim_end, trim_start_from, space_length}

pub data HttpVersionPreference : Type 0 where
  auto http1 http2 http3 : HttpVersionPreference

unfoldable pub is_among : Text → List Text → Bool
is_among label [] = false
is_among label (known ∷ labels) = text_eq label known || is_among label labels

-- The labels of each preference.
abbrev pub labels_of : HttpVersionPreference → List Text
labels_of auto = text "auto" ∷ [] ∷ []
labels_of http1 = text "1" ∷ text "1.1" ∷ text "http/1.1" ∷ []
labels_of http2 = text "2" ∷ text "h2" ∷ text "http/2" ∷ []
labels_of http3 = text "3" ∷ text "h3" ∷ text "http/3" ∷ []

unfoldable pub parse_preference : Text → Option HttpVersionPreference
parse_preference label =
    let known = lowercase (trim label) in
    if is_among known (labels_of auto)
    then some auto
    else if is_among known (labels_of http1)
    then some http1
    else if is_among known (labels_of http2)
    then some http2
    else if is_among known (labels_of http3)
    then some http3
    else none

unfoldable pub preference_label : HttpVersionPreference → Text
preference_label auto = text "auto"
preference_label http1 = text "1.1"
preference_label http2 = text "2"
preference_label http3 = text "3"

-- The label that a preference is written with is read as that preference.
pub parse_preference-preference_label :
    (p : HttpVersionPreference) → parse_preference (preference_label p) ≡ some p
unfolding parse_preference preference_label is_among text_eq lowercase trim trim_end trim_start_from
    space_length lowercase_byte
parse_preference-preference_label auto = refl
parse_preference-preference_label http1 = refl
parse_preference-preference_label http2 = refl
parse_preference-preference_label http3 = refl
