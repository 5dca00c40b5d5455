-- ===== src/Engine/Viqr.antt =====
-- crates/engine/src/viqr.rs: how a composed letter is written in the VIQR punctuation keys.
use daklak_rs.Prelude.{ℕ, List, [], ◌∷◌}
use daklak_rs.Text.{Text}
use daklak_rs.Engine.Arm.{arm, match_arms}

-- The arms of the `match`, in order.
unfoldable pub viqr_arms : List (ℕ × Text)
viqr_arms =
    arm "á" "a'"
    ∷ arm "à" "a`"
    ∷ arm "ả" "a?"
    ∷ arm "ã" "a~"
    ∷ arm "ạ" "a."
    ∷ arm "Á" "A'"
    ∷ arm "À" "A`"
    ∷ arm "Ả" "A?"
    ∷ arm "Ã" "A~"
    ∷ arm "Ạ" "A."
    ∷ arm "ă" "a("
    ∷ arm "ắ" "a('"
    ∷ arm "ằ" "a(`"
    ∷ arm "ẳ" "a(?"
    ∷ arm "ẵ" "a(~"
    ∷ arm "ặ" "a(."
    ∷ arm "Ă" "A("
    ∷ arm "Ắ" "A('"
    ∷ arm "Ằ" "A(`"
    ∷ arm "Ẳ" "A(?"
    ∷ arm "Ẵ" "A(~"
    ∷ arm "Ặ" "A(."
    ∷ arm "â" "a^"
    ∷ arm "ấ" "a^'"
    ∷ arm "ầ" "a^`"
    ∷ arm "ẩ" "a^?"
    ∷ arm "ẫ" "a^~"
    ∷ arm "ậ" "a^."
    ∷ arm "Â" "A^"
    ∷ arm "Ấ" "A^'"
    ∷ arm "Ầ" "A^`"
    ∷ arm "Ẩ" "A^?"
    ∷ arm "Ẫ" "A^~"
    ∷ arm "Ậ" "A^."
    ∷ arm "đ" "dd"
    ∷ arm "Đ" "DD"
    ∷ arm "é" "e'"
    ∷ arm "è" "e`"
    ∷ arm "ẻ" "e?"
    ∷ arm "ẽ" "e~"
    ∷ arm "ẹ" "e."
    ∷ arm "É" "E'"
    ∷ arm "È" "E`"
    ∷ arm "Ẻ" "E?"
    ∷ arm "Ẽ" "E~"
    ∷ arm "Ẹ" "E."
    ∷ arm "ê" "e^"
    ∷ arm "ế" "e^'"
    ∷ arm "ề" "e^`"
    ∷ arm "ể" "e^?"
    ∷ arm "ễ" "e^~"
    ∷ arm "ệ" "e^."
    ∷ arm "Ê" "E^"
    ∷ arm "Ế" "E^'"
    ∷ arm "Ề" "E^`"
    ∷ arm "Ể" "E^?"
    ∷ arm "Ễ" "E^~"
    ∷ arm "Ệ" "E^."
    ∷ arm "í" "i'"
    ∷ arm "ì" "i`"
    ∷ arm "ỉ" "i?"
    ∷ arm "ĩ" "i~"
    ∷ arm "ị" "i."
    ∷ arm "Í" "I'"
    ∷ arm "Ì" "I`"
    ∷ arm "Ỉ" "I?"
    ∷ arm "Ĩ" "I~"
    ∷ arm "Ị" "I."
    ∷ arm "ó" "o'"
    ∷ arm "ò" "o`"
    ∷ arm "ỏ" "o?"
    ∷ arm "õ" "o~"
    ∷ arm "ọ" "o."
    ∷ arm "Ó" "O'"
    ∷ arm "Ò" "O`"
    ∷ arm "Ỏ" "O?"
    ∷ arm "Õ" "O~"
    ∷ arm "Ọ" "O."
    ∷ arm "ô" "o^"
    ∷ arm "ố" "o^'"
    ∷ arm "ồ" "o^`"
    ∷ arm "ổ" "o^?"
    ∷ arm "ỗ" "o^~"
    ∷ arm "ộ" "o^."
    ∷ arm "Ô" "O^"
    ∷ arm "Ố" "O^'"
    ∷ arm "Ồ" "O^`"
    ∷ arm "Ổ" "O^?"
    ∷ arm "Ỗ" "O^~"
    ∷ arm "Ộ" "O^."
    ∷ arm "ơ" "o+"
    ∷ arm "ớ" "o+'"
    ∷ arm "ờ" "o+`"
    ∷ arm "ở" "o+?"
    ∷ arm "ỡ" "o+~"
    ∷ arm "ợ" "o+."
    ∷ arm "Ơ" "O+"
    ∷ arm "Ớ" "O+'"
    ∷ arm "Ờ" "O+`"
    ∷ arm "Ở" "O+?"
    ∷ arm "Ỡ" "O+~"
    ∷ arm "Ợ" "O+."
    ∷ arm "ú" "u'"
    ∷ arm "ù" "u`"
    ∷ arm "ủ" "u?"
    ∷ arm "ũ" "u~"
    ∷ arm "ụ" "u."
    ∷ arm "Ú" "U'"
    ∷ arm "Ù" "U`"
    ∷ arm "Ủ" "U?"
    ∷ arm "Ũ" "U~"
    ∷ arm "Ụ" "U."
    ∷ arm "ư" "u+"
    ∷ arm "ứ" "u+'"
    ∷ arm "ừ" "u+`"
    ∷ arm "ử" "u+?"
    ∷ arm "ữ" "u+~"
    ∷ arm "ự" "u+."
    ∷ arm "Ư" "U+"
    ∷ arm "Ứ" "U+'"
    ∷ arm "Ừ" "U+`"
    ∷ arm "Ử" "U+?"
    ∷ arm "Ữ" "U+~"
    ∷ arm "Ự" "U+."
    ∷ arm "ý" "y'"
    ∷ arm "ỳ" "y`"
    ∷ arm "ỷ" "y?"
    ∷ arm "ỹ" "y~"
    ∷ arm "ỵ" "y."
    ∷ arm "Ý" "Y'"
    ∷ arm "Ỳ" "Y`"
    ∷ arm "Ỷ" "Y?"
    ∷ arm "Ỹ" "Y~"
    ∷ arm "Ỵ" "Y."
    ∷ []

-- No arm matches: the empty text.
unfoldable pub viqr_chars_from_composed : ℕ → Text
unfolding viqr_arms match_arms
viqr_chars_from_composed ch = match_arms ch viqr_arms
