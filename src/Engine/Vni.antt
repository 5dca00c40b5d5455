-- ===== src/Engine/Vni.antt =====
-- crates/engine/src/vni.rs: how a composed letter is written in the VNI digit keys.
use daklak_rs.Prelude.{ℕ, List, [], ◌∷◌}
use daklak_rs.Text.{Text}
use daklak_rs.Engine.Arm.{arm, match_arms}

-- The arms of the `match`, in order.
unfoldable pub vni_arms : List (ℕ × Text)
vni_arms =
    arm "á" "a1"
    ∷ arm "à" "a2"
    ∷ arm "ả" "a3"
    ∷ arm "ã" "a4"
    ∷ arm "ạ" "a5"
    ∷ arm "Á" "A1"
    ∷ arm "À" "A2"
    ∷ arm "Ả" "A3"
    ∷ arm "Ã" "A4"
    ∷ arm "Ạ" "A5"
    ∷ arm "â" "a6"
    ∷ arm "ấ" "a61"
    ∷ arm "ầ" "a62"
    ∷ arm "ẩ" "a63"
    ∷ arm "ẫ" "a64"
    ∷ arm "ậ" "a65"
    ∷ arm "Â" "A6"
    ∷ arm "Ấ" "A61"
    ∷ arm "Ầ" "A62"
    ∷ arm "Ẩ" "A63"
    ∷ arm "Ẫ" "A64"
    ∷ arm "Ậ" "A65"
    ∷ arm "ă" "a8"
    ∷ arm "ắ" "a81"
    ∷ arm "ằ" "a82"
    ∷ arm "ẳ" "a83"
    ∷ arm "ẵ" "a84"
    ∷ arm "ặ" "a85"
    ∷ arm "Ă" "A8"
    ∷ arm "Ắ" "A81"
    ∷ arm "Ằ" "A82"
    ∷ arm "Ẳ" "A83"
    ∷ arm "Ẵ" "A84"
    ∷ arm "Ặ" "A85"
    ∷ arm "đ" "d9"
    ∷ arm "Đ" "D9"
    ∷ arm "é" "e1"
    ∷ arm "è" "e2"
    ∷ arm "ẻ" "e3"
    ∷ arm "ẽ" "e4"
    ∷ arm "ẹ" "e5"
    ∷ arm "É" "E1"
    ∷ arm "È" "E2"
    ∷ arm "Ẻ" "E3"
    ∷ arm "Ẽ" "E4"
    ∷ arm "Ẹ" "E5"
    ∷ arm "ê" "e6"
    ∷ arm "ế" "e61"
    ∷ arm "ề" "e62"
    ∷ arm "ể" "e63"
    ∷ arm "ễ" "e64"
    ∷ arm "ệ" "e65"
    ∷ arm "Ê" "E6"
    ∷ arm "Ế" "E61"
    ∷ arm "Ề" "E62"
    ∷ arm "Ể" "E63"
    ∷ arm "Ễ" "E64"
    ∷ arm "Ệ" "E65"
    ∷ arm "í" "i1"
    ∷ arm "ì" "i2"
    ∷ arm "ỉ" "i3"
    ∷ arm "ĩ" "i4"
    ∷ arm "ị" "i5"
    ∷ arm "Í" "I1"
    ∷ arm "Ì" "I2"
    ∷ arm "Ỉ" "I3"
    ∷ arm "Ĩ" "I4"
    ∷ arm "Ị" "I5"
    ∷ arm "ó" "o1"
    ∷ arm "ò" "o2"
    ∷ arm "ỏ" "o3"
    ∷ arm "õ" "o4"
    ∷ arm "ọ" "o5"
    ∷ arm "Ó" "O1"
    ∷ arm "Ò" "O2"
    ∷ arm "Ỏ" "O3"
    ∷ arm "Õ" "O4"
    ∷ arm "Ọ" "O5"
    ∷ arm "ô" "o6"
    ∷ arm "ố" "o61"
    ∷ arm "ồ" "o62"
    ∷ arm "ổ" "o63"
    ∷ arm "ỗ" "o64"
    ∷ arm "ộ" "o65"
    ∷ arm "Ô" "O6"
    ∷ arm "Ố" "O61"
    ∷ arm "Ồ" "O62"
    ∷ arm "Ổ" "O63"
    ∷ arm "Ỗ" "O64"
    ∷ arm "Ộ" "O65"
    ∷ arm "ơ" "o7"
    ∷ arm "ớ" "o71"
    ∷ arm "ờ" "o72"
    ∷ arm "ở" "o73"
    ∷ arm "ỡ" "o74"
    ∷ arm "ợ" "o75"
    ∷ arm "Ơ" "O7"
    ∷ arm "Ớ" "O71"
    ∷ arm "Ờ" "O72"
    ∷ arm "Ở" "O73"
    ∷ arm "Ỡ" "O74"
    ∷ arm "Ợ" "O75"
    ∷ arm "ú" "u1"
    ∷ arm "ù" "u2"
    ∷ arm "ủ" "u3"
    ∷ arm "ũ" "u4"
    ∷ arm "ụ" "u5"
    ∷ arm "Ú" "U1"
    ∷ arm "Ù" "U2"
    ∷ arm "Ủ" "U3"
    ∷ arm "Ũ" "U4"
    ∷ arm "Ụ" "U5"
    ∷ arm "ư" "u7"
    ∷ arm "ứ" "u71"
    ∷ arm "ừ" "u72"
    ∷ arm "ử" "u73"
    ∷ arm "ữ" "u74"
    ∷ arm "ự" "u75"
    ∷ arm "Ư" "U7"
    ∷ arm "Ứ" "U71"
    ∷ arm "Ừ" "U72"
    ∷ arm "Ử" "U73"
    ∷ arm "Ữ" "U74"
    ∷ arm "Ự" "U75"
    ∷ arm "ý" "y1"
    ∷ arm "ỳ" "y2"
    ∷ arm "ỷ" "y3"
    ∷ arm "ỹ" "y4"
    ∷ arm "ỵ" "y5"
    ∷ arm "Ý" "Y1"
    ∷ arm "Ỳ" "Y2"
    ∷ arm "Ỷ" "Y3"
    ∷ arm "Ỹ" "Y4"
    ∷ arm "Ỵ" "Y5"
    ∷ []

-- No arm matches: the empty text.
unfoldable pub vni_chars_from_composed : ℕ → Text
unfolding vni_arms match_arms
vni_chars_from_composed ch = match_arms ch vni_arms
