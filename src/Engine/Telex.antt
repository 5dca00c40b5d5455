-- ===== src/Engine/Telex.antt =====
-- crates/engine/src/telex.rs: how a composed letter is written in the Telex letter keys.
use daklak_rs.Prelude.{ℕ, List, [], ◌∷◌}
use daklak_rs.Text.{Text}
use daklak_rs.Engine.Arm.{arm, match_arms}

-- The arms of the `match`, in order.
unfoldable pub telex_arms : List (ℕ × Text)
telex_arms =
    arm "á" "as"
    ∷ arm "à" "af"
    ∷ arm "ả" "ar"
    ∷ arm "ã" "ax"
    ∷ arm "ạ" "aj"
    ∷ arm "Á" "AS"
    ∷ arm "À" "AF"
    ∷ arm "Ả" "AR"
    ∷ arm "Ã" "AX"
    ∷ arm "Ạ" "AJ"
    ∷ arm "ă" "aw"
    ∷ arm "ắ" "aws"
    ∷ arm "ằ" "awf"
    ∷ arm "ẳ" "awr"
    ∷ arm "ẵ" "awx"
    ∷ arm "ặ" "awj"
    ∷ arm "Ă" "AW"
    ∷ arm "Ắ" "AWS"
    ∷ arm "Ằ" "AWF"
    ∷ arm "Ẳ" "AWR"
    ∷ arm "Ẵ" "AWX"
    ∷ arm "Ặ" "AWJ"
    ∷ arm "â" "aa"
    ∷ arm "ấ" "aas"
    ∷ arm "ầ" "aaf"
    ∷ arm "ẩ" "aar"
    ∷ arm "ẫ" "aax"
    ∷ arm "ậ" "aaj"
    ∷ arm "Â" "AA"
    ∷ arm "Ấ" "AAS"
    ∷ arm "Ầ" "AAF"
    ∷ arm "Ẩ" "AAR"
    ∷ arm "Ẫ" "AAX"
    ∷ arm "Ậ" "AAJ"
    ∷ arm "đ" "dd"
    ∷ arm "Đ" "DD"
    ∷ arm "é" "es"
    ∷ arm "è" "ef"
    ∷ arm "ẻ" "er"
    ∷ arm "ẽ" "ex"
    ∷ arm "ẹ" "ej"
    ∷ arm "É" "ES"
    ∷ arm "È" "EF"
    ∷ arm "Ẻ" "ER"
    ∷ arm "Ẽ" "EX"
    ∷ arm "Ẹ" "EJ"
    ∷ arm "ê" "ee"
    ∷ arm "ế" "ees"
    ∷ arm "ề" "eef"
    ∷ arm "ể" "eer"
    ∷ arm "ễ" "eex"
    ∷ arm "ệ" "eej"
    ∷ arm "Ê" "EE"
    ∷ arm "Ế" "EES"
    ∷ arm "Ề" "EEF"
    ∷ arm "Ể" "EER"
    ∷ arm "Ễ" "EEX"
    ∷ arm "Ệ" "EEJ"
    ∷ arm "í" "is"
    ∷ arm "ì" "if"
    ∷ arm "ỉ" "ir"
    ∷ arm "ĩ" "ix"
    ∷ arm "ị" "ij"
    ∷ arm "Í" "IS"
    ∷ arm "Ì" "IF"
    ∷ arm "Ỉ" "IR"
    ∷ arm "Ĩ" "IX"
    ∷ arm "Ị" "IJ"
    ∷ arm "ó" "os"
    ∷ arm "ò" "of"
    ∷ arm "ỏ" "or"
    ∷ arm "õ" "ox"
    ∷ arm "ọ" "oj"
    ∷ arm "Ó" "OS"
    ∷ arm "Ò" "OF"
    ∷ arm "Ỏ" "OR"
    ∷ arm "Õ" "OX"
    ∷ arm "Ọ" "OJ"
    ∷ arm "ô" "oo"
    ∷ arm "ố" "oos"
    ∷ arm "ồ" "oof"
    ∷ arm "ổ" "oor"
    ∷ arm "ỗ" "oox"
    ∷ arm "ộ" "ooj"
    ∷ arm "Ô" "OO"
    ∷ arm "Ố" "OOS"
    ∷ arm "Ồ" "OOF"
    ∷ arm "Ổ" "OOR"
    ∷ arm "Ỗ" "OOX"
    ∷ arm "Ộ" "OOJ"
    ∷ arm "ơ" "ow"
    ∷ arm "ớ" "ows"
    ∷ arm "ờ" "owf"
    ∷ arm "ở" "owr"
    ∷ arm "ỡ" "owx"
    ∷ arm "ợ" "owj"
    ∷ arm "Ơ" "OW"
    ∷ arm "Ớ" "OWS"
    ∷ arm "Ờ" "OWF"
    ∷ arm "Ở" "OWR"
    ∷ arm "Ỡ" "OWX"
    ∷ arm "Ợ" "OWJ"
    ∷ arm "ú" "us"
    ∷ arm "ù" "uf"
    ∷ arm "ủ" "ur"
    ∷ arm "ũ" "ux"
    ∷ arm "ụ" "uj"
    ∷ arm "Ú" "US"
    ∷ arm "Ù" "UF"
    ∷ arm "Ủ" "UR"
    ∷ arm "Ũ" "UX"
    ∷ arm "Ụ" "UJ"
    ∷ arm "ư" "uw"
    ∷ arm "ứ" "uws"
    ∷ arm "ừ" "uwf"
    ∷ arm "ử" "uwr"
    ∷ arm "ữ" "uwx"
    ∷ arm "ự" "uwj"
    ∷ arm "Ư" "UW"
    ∷ arm "Ứ" "UWS"
    ∷ arm "Ừ" "UWF"
    ∷ arm "Ử" "UWR"
    ∷ arm "Ữ" "UWX"
    ∷ arm "Ự" "UWJ"
    ∷ arm "ý" "ys"
    ∷ arm "ỳ" "yf"
    ∷ arm "ỷ" "yr"
    ∷ arm "ỹ" "yx"
    ∷ arm "ỵ" "yj"
    ∷ arm "Ý" "YS"
    ∷ arm "Ỳ" "YF"
    ∷ arm "Ỷ" "YR"
    ∷ arm "Ỹ" "YX"
    ∷ arm "Ỵ" "YJ"
    ∷ []

-- No arm matches: the empty text.
unfoldable pub telex_chars_from_composed : ℕ → Text
unfolding telex_arms match_arms
telex_chars_from_composed ch = match_arms ch telex_arms
