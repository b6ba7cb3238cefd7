-- ===== src/Tests/Bytes.antt =====
-- Hardware addresses and DHCP options at concrete inputs.
use docsis_server.Prelude.{ℕ, ◌≡◌, refl, List, [], ◌∷◌, ◌++◌, arith, done, bytes}
use docsis_server.MacAddr.{cv_macaddr, cv_addrmac, hex_digit}
use docsis_server.MacAddr.RoundTrip.{cv_addrmac-cv_macaddr}

abbrev mac : List ℕ
mac = 0 ∷ 171 ∷ 205 ∷ 18 ∷ 52 ∷ 255 ∷ []

mac_text : cv_macaddr mac ≡ bytes "00abcd1234ff"
unfolding cv_macaddr hex_digit
mac_text = refl

cv_addrmac-cv_macaddr_example : cv_addrmac (cv_macaddr mac) 6 ≡ done (mac ++ 0 ∷ [])
cv_addrmac-cv_macaddr_example = cv_addrmac-cv_macaddr mac (omega arith) (omega arith)

-- A discover with a host name, and with a netmask, which has no field.
abbrev discover : List (ℕ × List ℕ)
discover = (53, 1 ∷ []) ∷ (1, 255 ∷ 255 ∷ 255 ∷ 0 ∷ []) ∷ (12, bytes "cm_1") ∷ []
